-- ===== src/Recovery/Keys.antt =====
-- logdb/src/recovery.rs: the key of the hash chain. Under encryption it stands in a segment header masked by a key of
-- the ring, and is found again by the first record. `KeyRing`, `derive_hash_init` and `xor32` are those of
-- logdb/src/lib.rs; `keyed_hash` is that of the blake3 crate.
pub mod Unmasked
use lv_logdb.Prelude.{
  ℕ, zero, suc, ◌+◌, ◌*◌, ◌/◌, ◌%◌, Bool, Option, none, some, List, [], ◌∷◌, ◌++◌, map, Bytes,
  int_at, slice, take, length, ltb, ◌==◌, ◌!=◌, if◌then◌else◌, ok, err, bytes_eq, ℕ_discrete, find,
  bit_and,
}
use lv_logdb.Format.{
  segment_header_size, frame_header_size, min_record_size, flag_compressed_zstd,
  flag_encrypted_aes256gcm,
}
use lv_logdb.Format.Header.{SegmentHeader}
use lv_logdb.Format.Record.{deserialize_record}
use lv_logdb.Pipeline.Sealer.{blake3_keyed_chain}
use lv_logdb.Recovery.Decode.{decode_frame_payload}

pub record KeyRing : Type 0 where
  pub active : Bytes
  pub active_id : ℕ
  pub decrypt_keys : List (ℕ × Bytes)

abbrev pub key_for_id : KeyRing → ℕ → Option Bytes
key_for_id ring id = find ℕ_discrete id ring.decrypt_keys

-- `^` on the lowest `n` bits.
unfoldable pub bit_xor : ℕ → ℕ → ℕ → ℕ
bit_xor zero a b = 0
bit_xor (suc n) a b = (a % 2 + b % 2) % 2 + 2 * bit_xor n (a / 2) (b / 2)

unfoldable pub xor32 : Bytes → Bytes → Bytes
xor32 [] ys = []
xor32 (x ∷ xs) [] = []
xor32 (x ∷ xs) (y ∷ ys) = bit_xor 8 x y ∷ xor32 xs ys

-- `b"logdb-hash-chain-init-v1"`
abbrev init_label : Bytes
init_label =
    108 ∷ 111 ∷ 103 ∷ 100 ∷ 98 ∷ 45 ∷ 104 ∷ 97 ∷ 115 ∷ 104 ∷ 45 ∷ 99 ∷ 104 ∷ 97 ∷ 105 ∷ 110 ∷ 45
    ∷ 105 ∷ 110 ∷ 105 ∷ 116 ∷ 45 ∷ 118 ∷ 49 ∷ []

abbrev pub is_compressed : SegmentHeader → Bool
is_compressed h = bit_and h.flags flag_compressed_zstd != 0

abbrev pub is_encrypted : SegmentHeader → Bool
is_encrypted h = bit_and h.flags flag_encrypted_aes256gcm != 0

-- The keys to try: the one that the header names, then all.
abbrev pub hinted : Option Bytes → List Bytes
hinted none = []
hinted (some k) = k ∷ []

abbrev pub cands : SegmentHeader → KeyRing → List Bytes
cands h ring =
    (if h.encryption_key_id != 0 then hinted (key_for_id ring h.encryption_key_id) else [])
    ++ map (λ e. e.1) ring.decrypt_keys

module _ (crc32c : Bytes → ℕ) (decrypt : Bytes → Bytes → Bytes → Option Bytes)
    (decode_all : Bytes → Option Bytes) where
  -- The first record of a decoded frame: its content and its hash.
  abbrev pub first_of : Option Bytes → Option (Bytes × Bytes)
  first_of none = none
  first_of (some plain) =
      let len = int_at 4 plain 0 in
      if ltb (length plain) min_record_size
      then none
      else if ltb (length plain) len
      then none
      else elim (deserialize_record crc32c (take len plain)) [
        | ok done ↦ some (done.0.content, done.0.hash_n)
        | err e ↦ none
      ]

  unfoldable pub decode_first_record : Bytes → Bool → Bool → KeyRing → Option (Bytes × Bytes)
  decode_first_record file compressed encrypted ring =
      let payload_at = segment_header_size + frame_header_size in
      let cl = int_at 4 file segment_header_size in
      if ltb (length file) payload_at
      then none
      else if cl == 0
      then none
      else if ltb (length file) (payload_at + cl)
      then none
      else first_of (
          decode_frame_payload decrypt decode_all compressed encrypted (some ring.decrypt_keys)
            (slice file payload_at (payload_at + cl)))

module _ (keyed_hash : Bytes → Bytes → Bytes) where
  abbrev pub derive_hash_init : Bytes → Bytes
  derive_hash_init key = keyed_hash key init_label

  unfoldable pub mask_chain_key : Bytes → Option KeyRing → Bytes
  mask_chain_key chain_key none = chain_key
  mask_chain_key chain_key (some ring) = xor32 chain_key (derive_hash_init ring.active)

  -- The chain key that a key of the ring gives.
  abbrev pub cand_of : SegmentHeader → Bytes → Bytes
  cand_of h k = xor32 h.hash_init (derive_hash_init k)

  -- The loop over the candidates; at its end the active key.
  unfoldable pub try_cands : SegmentHeader → Bytes → Bytes → List Bytes → Bytes → Bytes
  try_cands h content hash_n [] fallback = fallback
  try_cands h content hash_n (k ∷ ks) fallback =
      if bytes_eq (blake3_keyed_chain keyed_hash (cand_of h k) h.prev_last_hash content) hash_n
      then cand_of h k
      else try_cands h content hash_n ks fallback

  module _ (crc32c : Bytes → ℕ) (decrypt : Bytes → Bytes → Bytes → Option Bytes)
      (decode_all : Bytes → Option Bytes) where
    abbrev pub resolve_with : SegmentHeader → KeyRing → Option (Bytes × Bytes) → Bytes
    resolve_with h ring none = derive_hash_init ring.active
    resolve_with h ring (some first) =
        try_cands h first.0 first.1 (cands h ring) (derive_hash_init ring.active)

    unfoldable pub resolve_chain_key : Bytes → SegmentHeader → Option KeyRing → Bytes
    resolve_chain_key file h none = h.hash_init
    resolve_chain_key file h (some ring) =
        resolve_with h ring (
          decode_first_record crc32c decrypt decode_all file (is_compressed h) (is_encrypted h)
            ring)
