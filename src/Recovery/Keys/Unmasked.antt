-- ===== src/Recovery/Keys/Unmasked.antt =====
-- A chain key that logdb/src/recovery.rs masked is the one that it finds again, also once another key is active.
use lv_logdb.Prelude.{
  ℕ, zero, suc, ◌+◌, ◌*◌, ◌/◌, ◌%◌, ◌^◌, ◌<◌, ◌≡◌, refl, sym, ap, ap₂, ◌∙◌, ◌⊎◌, inl, inr, Bool,
  true, false, Bool-cases, Option, none, some, List, [], ◌∷◌, ◌++◌, map, Bytes, IsByte, All, length,
  bytes_eq, bytes_eq_refl, bytes_eq→eq, ℕ_discrete, find, arith, take, take-append, le→ltb-false,
  ne→==-false, ◌!=◌,
}
use lv_logdb.Format.{ReadView, record_size, segment_header_size}
use lv_logdb.Format.Header.{SegmentHeader}
use lv_logdb.Format.Record.{IsView, record_bytes}
use lv_logdb.Format.Record.RoundTrip.{deserialize_record-whole, length-record_bytes}
use lv_logdb.Recovery.Decode.{decode_frame_payload}
use lv_logdb.Recovery.Scan.Stored.{record_at}
use lv_logdb.Recovery.Scan.Complete.{stored}
use lv_logdb.Recovery.Frames.Layout.{frame_bytes, IsFrame, frame_at}
use lv_logdb.Pipeline.Sealer.{blake3_keyed_chain}
use lv_logdb.Recovery.Keys.{
  KeyRing, key_for_id, bit_xor, xor32, is_compressed, is_encrypted, derive_hash_init,
  mask_chain_key, cand_of, try_cands, hinted, cands, first_of, decode_first_record,
  resolve_chain_key,
}

bit_xor-bit_xor : (n a b : ℕ) → a < 2 ^ n → bit_xor n (bit_xor n a b) b ≡ a
unfolding bit_xor
bit_xor-bit_xor zero a b h = omega arith
bit_xor-bit_xor (suc n) a b h =
    let rest = bit_xor n (a / 2) (b / 2) in
    let half : ((a % 2 + b % 2) % 2 + 2 * rest) / 2 ≡ rest = omega arith in
    let lowest : ((a % 2 + b % 2) % 2 + 2 * rest) % 2 ≡ (a % 2 + b % 2) % 2 = omega arith in
    let ih : bit_xor n rest (b / 2) ≡ a / 2 = bit_xor-bit_xor n (a / 2) (b / 2) (omega arith) in
    rw (half, lowest, ih) (omega arith)

xor32-xor32 : (xs ys : Bytes) → All IsByte xs → length xs ≡ length ys → xor32 (xor32 xs ys) ys ≡ xs
unfolding xor32
xor32-xor32 [] ys h e = refl
xor32-xor32 (x ∷ xs) [] h e = absurd (omega arith)
xor32-xor32 (x ∷ xs) (y ∷ ys) (lt, h) e =
    ap₂ (λ z zs. z ∷ zs) (bit_xor-bit_xor 8 x y lt) (xor32-xor32 xs ys h (omega arith))

-- The key stands in a list.
abbrev pub HasKey : Bytes → List Bytes → Type 0
HasKey k [] = ⊥
HasKey k (x ∷ xs) = (k ≡ x) ⊎ HasKey k xs

abbrev pub keys_of : KeyRing → List Bytes
keys_of ring = map (λ e. e.1) ring.decrypt_keys

HasKey-append : (k : Bytes) (xs ys : List Bytes) → HasKey k (xs ++ ys) → HasKey k xs ⊎ HasKey k ys
HasKey-append k [] ys m = inr m
HasKey-append k (x ∷ xs) ys (inl e) = inl (inl e)
HasKey-append k (x ∷ xs) ys (inr m) = elim (HasKey-append k xs ys m) [
  | inl l ↦ inl (inr l)
  | inr r ↦ inr r
]

append-HasKey : (k : Bytes) (xs ys : List Bytes) → HasKey k ys → HasKey k (xs ++ ys)
append-HasKey k [] ys m = m
append-HasKey k (x ∷ xs) ys m = inr (append-HasKey k xs ys m)

find-HasKey :
    (id : ℕ) (k : Bytes) (es : List (ℕ × Bytes))
    → find ℕ_discrete id es ≡ some k
    → HasKey k (map (λ e. e.1) es)
unfolding find
find-HasKey id k [] h = absurd cc
find-HasKey id k (e ∷ es) h = elim (ℕ_discrete id e.0) [
  | yes here ↦ inl (ground arith)
  | no n ↦ inr (find-HasKey id k es (ground arith))
]

hinted-HasKey : (o : Option Bytes) (k : Bytes) → HasKey k (hinted o) → o ≡ some k
hinted-HasKey none k m = elim m [ ]
hinted-HasKey (some j) k (inl e) = ap some (sym e)
hinted-HasKey (some j) k (inr m) = elim m [ ]

-- Every candidate is a key of the ring.
cands-HasKey :
    (h : SegmentHeader) (ring : KeyRing) (k : Bytes)
    → HasKey k (cands h ring)
    → HasKey k (keys_of ring)
cands-HasKey h ring k m = elim (HasKey-append k _ (keys_of ring) m) [
  | inr r ↦ r
  | inl l ↦ elim (Bool-cases (h.encryption_key_id != 0)) [
    | inl named ↦
        find-HasKey h.encryption_key_id k ring.decrypt_keys
          (hinted-HasKey (key_for_id ring h.encryption_key_id) k (rw named at l))
    | inr unnamed ↦ let m' : HasKey k [] = rw unnamed at l in elim m' [ ]
  ]
]

module _ (keyed_hash : Bytes → Bytes → Bytes) (h : SegmentHeader) (content : Bytes) where
  -- The hash of the first record under a chain key.
  abbrev pub first_hash : Bytes → Bytes
  first_hash key = blake3_keyed_chain keyed_hash key h.prev_last_hash content

  -- Of the keys in a list, one gives a key with the hash of the record, and only the chain key has it.
  try_cands-found :
      (chain_key : Bytes) (ks : List Bytes) (k fallback : Bytes)
      → HasKey k ks
      → cand_of keyed_hash h k ≡ chain_key
      → ((j : Bytes)
          → HasKey j ks
          → first_hash (cand_of keyed_hash h j) ≡ first_hash chain_key
          → cand_of keyed_hash h j ≡ chain_key)
      → try_cands keyed_hash h content (first_hash chain_key) ks fallback ≡ chain_key
  unfolding try_cands
  try_cands-found chain_key [] k fallback m e only = elim m [ ]
  try_cands-found chain_key (j ∷ js) k fallback m e only =
      elim (Bool-cases (bytes_eq (first_hash (cand_of keyed_hash h j)) (first_hash chain_key))) [
        | inl same ↦ rw (try_cands, same) (only j (inl refl) (bytes_eq→eq _ _ same))
        | inr differs ↦
            rw (try_cands, differs)
              (elim m [
                | inl here ↦ absurd (apart differs (ap (cand_of keyed_hash h) (sym here) ∙ e))
                | inr there ↦
                    try_cands-found chain_key js k fallback there e (λ i n. only i (inr n))
              ])
      ]
    where
      apart :
          bytes_eq (first_hash (cand_of keyed_hash h j)) (first_hash chain_key) ≡ false
          → cand_of keyed_hash h j ≡ chain_key
          → ⊥
      apart differs same =
          let equal : bytes_eq (first_hash (cand_of keyed_hash h j)) (first_hash chain_key) ≡ true =
            rw same (bytes_eq_refl (first_hash chain_key)) in
          absurd cc

module _ (crc32c : Bytes → ℕ) (decrypt : Bytes → Bytes → Bytes → Option Bytes)
    (decode_all : Bytes → Option Bytes) where
  first_of-stored :
      (v : ReadView) (vs : List ReadView)
      → ((bs : Bytes) → crc32c bs < 256 ^ 4)
      → IsView v.record_id v
      → first_of crc32c decrypt decode_all (some (stored crc32c (v ∷ vs)))
        ≡ some (v.content, v.hash_n)
  first_of-stored v vs small valid =
      let plain = stored crc32c (v ∷ vs) in
      let whole : plain ≡ record_bytes crc32c v.record_id v ++ stored crc32c vs =
        unfold stored in refl in
      let size = length-record_bytes crc32c v.record_id v valid in
      let (total, bytes, long) =
        record_at crc32c v plain [] (stored crc32c vs) 0 whole refl valid in
      let front : take (record_size (length v.content)) plain ≡ record_bytes crc32c v.record_id v =
        ap (take (record_size (length v.content))) whole
        ∙ take-append (record_size (length v.content)) _ (stored crc32c vs) size in
      rw
        (
          le→ltb-false (length plain) 60 (omega arith),
          total,
          le→ltb-false (length plain) (record_size (length v.content)) (omega arith),
          front,
          deserialize_record-whole crc32c v.record_id v small valid,
        )
        refl

  -- The first record is read from a whole frame.
  decode_first_record-stored :
      (compressed encrypted : Bool) (ring : KeyRing) (file header rest payload : Bytes)
      (v : ReadView) (vs : List ReadView)
      → ((bs : Bytes) → crc32c bs < 256 ^ 4)
      → length header ≡ segment_header_size
      → file ≡ header ++ (frame_bytes crc32c (record { views = v ∷ vs; payload = payload }) ++ rest)
      → IsFrame crc32c
          (decode_frame_payload decrypt decode_all compressed encrypted (some ring.decrypt_keys))
          (record { views = v ∷ vs; payload = payload })
      → IsView v.record_id v
      → decode_first_record crc32c decrypt decode_all file compressed encrypted ring
        ≡ some (v.content, v.hash_n)
  unfolding decode_first_record
  decode_first_record-stored compressed encrypted ring file header rest payload v vs small h whole
        good valid =
      let decode =
        decode_frame_payload decrypt decode_all compressed encrypted (some ring.decrypt_keys) in
      let (cl, dl, read, long) =
        frame_at crc32c decode (record { views = v ∷ vs; payload = payload }) file header rest 128
          whole h good in
      rw
        (
          le→ltb-false (length file) 136 (omega arith),
          cl,
          ne→==-false (length payload) 0 (λ e. absurd (omega (arith, good.some_payload))),
          le→ltb-false (length file) (136 + length payload) long,
          read,
          good.decoded,
        )
        (first_of-stored v vs small valid)

-- A segment was written under a ring of keys, with a chain key of 32 bytes that its header holds masked by the active
-- key of that ring: it begins with a header and a whole frame, whose first record has the hash of the chain. With any
-- ring that still has the key among its keys and decodes the frame, whatever key is active there and whatever key id
-- the header names, recovery finds the chain key, provided that no key of the ring gives another chain key under which
-- the first record has the same hash. Keyed hashes have 32 bytes, and checksums fit 32 bits.
pub resolve_chain_key-mask_chain_key :
    (crc32c : Bytes → ℕ) (keyed_hash : Bytes → Bytes → Bytes)
    (decrypt : Bytes → Bytes → Bytes → Option Bytes) (decode_all : Bytes → Option Bytes)
    (header rest payload : Bytes) (h : SegmentHeader) (writer ring : KeyRing) (chain_key : Bytes)
    (v : ReadView) (vs : List ReadView)
    → ((bs : Bytes) → crc32c bs < 256 ^ 4)
    → ((key bs : Bytes) → length (keyed_hash key bs) ≡ 32)
    → All IsByte chain_key
    → length chain_key ≡ 32
    → h.hash_init ≡ mask_chain_key keyed_hash chain_key (some writer)
    → HasKey writer.active (keys_of ring)
    → length header ≡ segment_header_size
    → IsFrame crc32c
        (decode_frame_payload decrypt decode_all
          (is_compressed h)
          (is_encrypted h)
          (some ring.decrypt_keys))
        (record { views = v ∷ vs; payload = payload })
    → IsView v.record_id v
    → v.hash_n ≡ first_hash keyed_hash h v.content chain_key
    → ((k : Bytes)
        → HasKey k (keys_of ring)
        → first_hash keyed_hash h v.content (cand_of keyed_hash h k)
          ≡ first_hash keyed_hash h v.content chain_key
        → cand_of keyed_hash h k ≡ chain_key)
    → resolve_chain_key keyed_hash crc32c decrypt decode_all
        (header ++ (frame_bytes crc32c (record { views = v ∷ vs; payload = payload }) ++ rest))
        h
        (some ring)
      ≡ chain_key
unfolding resolve_chain_key mask_chain_key
resolve_chain_key-mask_chain_key crc32c keyed_hash decrypt decode_all header rest payload h writer
      ring chain_key v vs small size bytes long masked here whole good valid hashed only =
    let mask = derive_hash_init keyed_hash writer.active in
    let back : cand_of keyed_hash h writer.active ≡ chain_key =
      ap (λ x. xor32 x mask) masked
      ∙ xor32-xor32 chain_key mask bytes (long ∙ sym (size writer.active _)) in
    rw
      (
        decode_first_record-stored crc32c decrypt decode_all (is_compressed h) (is_encrypted h) ring
            _ header rest payload v vs small whole refl good valid,
        hashed,
      )
      (try_cands-found keyed_hash h v.content chain_key (cands h ring) writer.active _
        (append-HasKey writer.active _ (keys_of ring) here) back
        (λ k m. only k (cands-HasKey h ring k m)))
