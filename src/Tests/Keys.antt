-- ===== src/Tests/Keys.antt =====
-- Recovery of a chain key (logdb/src/recovery.rs) whose ring has a new active key.
use lv_logdb.Prelude.{
  ◌≡◌, ◌≢◌, refl, sym, ap, ◌∙◌, inl, inr, Option, some, [], ◌∷◌, ◌++◌, Bytes, length, length-append,
  replicate, arith, from_le, from_le-to_le, length-to_le, to_le, le→ltb-false,
}
use lv_logdb.Format.Header.{SegmentHeader, zero_hash}
use lv_logdb.Format.Header.RoundTrip.{length-serialize}
use lv_logdb.Format.Record.{record_bytes}
use lv_logdb.Pipeline.Sealer.{blake3_keyed_chain}
use lv_logdb.Recovery.Scan.Complete.{stored}
use lv_logdb.Recovery.Decode.{decode_frame_payload, decrypt_frame_data, try_keys}
use lv_logdb.Recovery.Frames.Layout.{frame_bytes, IsFrame}
use lv_logdb.Recovery.Keys.{
  KeyRing, is_compressed, is_encrypted, cand_of, xor32, bit_xor, resolve_chain_key, mask_chain_key,
}
use lv_logdb.Recovery.Keys.Unmasked.{HasKey, keys_of, first_hash, resolve_chain_key-mask_chain_key}
use lv_logdb.Format.Record.RoundTrip.{length-record_bytes}
use lv_logdb.Tests.Data.{
  test_crc, test_crc-small, test_hash, test_key, test_header, sum_bytes, first_view,
  first_view-IsView,
}
use lv_logdb.Tests.Recover.{header_bytes, not_decoded}

-- A ring whose keys were exchanged: the first record was written under the second key.
abbrev old_key : Bytes
old_key = replicate 32 8

abbrev new_key : Bytes
new_key = replicate 32 9

abbrev writer : KeyRing
writer = record { active = old_key; active_id = 1; decrypt_keys = (1, old_key) ∷ [] }

abbrev rotated : KeyRing
rotated = record {
  active = new_key;
  active_id = 2;
  decrypt_keys = (2, new_key) ∷ (1, old_key) ∷ [];
}

-- The ciphertext is the text itself.
open_all : Bytes → Bytes → Bytes → Option Bytes
open_all key nonce ct = some ct

abbrev masked_header : SegmentHeader
masked_header = record test_header {
  flags = 8;
  hash_init = mask_chain_key test_hash test_key (some writer);
  encryption_key_id = 2;
}

abbrev nonce : Bytes
nonce = replicate 12 4

abbrev payload : Bytes
payload = nonce ++ stored test_crc (first_view ∷ [])

length-payload : length payload ≡ 74
unfolding stored
length-payload = omega (
  arith,
  length-append nonce (stored test_crc (first_view ∷ [])),
  length-append (record_bytes test_crc 40 first_view) [],
  length-record_bytes test_crc 40 first_view first_view-IsView,
)

length-first : length (stored test_crc (first_view ∷ [])) ≡ 62
length-first =
    omega (arith, length-payload, length-append nonce (stored test_crc (first_view ∷ [])))

payload-IsFrame :
    IsFrame test_crc
      (decode_frame_payload open_all not_decoded
        (is_compressed masked_header)
        (is_encrypted masked_header)
        (some rotated.decrypt_keys))
      (record { views = first_view ∷ []; payload = payload })
unfolding decode_frame_payload decrypt_frame_data try_keys open_all
payload-IsFrame = record {
  decoded = rw (le→ltb-false (length payload) 12 (omega (arith, length-payload))) refl;
  some_payload = omega (arith, length-payload);
  payload_in = omega (arith, length-payload);
  some_records = omega (arith, length-first);
  records_in = omega (arith, length-first);
}

masked_long : length masked_header.hash_init ≡ 32
unfolding mask_chain_key xor32 to_le
masked_long = refl

-- The new key gives another hash.
new_key-apart :
    first_hash test_hash masked_header first_view.content (cand_of test_hash masked_header new_key)
    ≢ first_hash test_hash masked_header first_view.content test_key
unfolding blake3_keyed_chain mask_chain_key xor32 bit_xor to_le
new_key-apart e =
    let other =
      sum_bytes
        (replicate 32 0 ++ (first_view.content ++ cand_of test_hash masked_header new_key)) in
    let right = sum_bytes (replicate 32 0 ++ (first_view.content ++ test_key)) in
    let same : other ≡ right =
      sym (from_le-to_le 32 other (omega arith))
      ∙ ap from_le e
      ∙ from_le-to_le 32 right (omega arith) in
    omega arith

only_chain_key :
    (k : Bytes)
    → HasKey k (keys_of rotated)
    → first_hash test_hash masked_header first_view.content (cand_of test_hash masked_header k)
      ≡ first_hash test_hash masked_header first_view.content test_key
    → cand_of test_hash masked_header k ≡ test_key
unfolding blake3_keyed_chain mask_chain_key xor32 bit_xor to_le
only_chain_key k (inl new) e = absurd (new_key-apart (rw new at e))
only_chain_key k (inr (inl old)) e = rw old refl
only_chain_key k (inr (inr m)) e = elim m [ ]

resolve_chain_key-mask_chain_key_example :
    resolve_chain_key test_hash test_crc open_all not_decoded
      (header_bytes masked_header
        ++ (frame_bytes test_crc (record { views = first_view ∷ []; payload = payload })
            ++ (1 ∷ [])))
      masked_header
      (some rotated)
    ≡ test_key
unfolding blake3_keyed_chain
resolve_chain_key-mask_chain_key_example =
    resolve_chain_key-mask_chain_key test_crc test_hash open_all not_decoded
      (header_bytes masked_header) (1 ∷ []) payload masked_header writer rotated test_key first_view
      [] test_crc-small (λ key bs. length-to_le 32 _) (omega arith) refl refl (inr (inl refl))
      (length-serialize test_crc masked_header zero_hash masked_long refl) payload-IsFrame
      first_view-IsView refl only_chain_key
