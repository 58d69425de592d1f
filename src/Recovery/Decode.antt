-- ===== src/Recovery/Decode.antt =====
-- logdb/src/reader/mod.rs: the payload of a frame back to records. AES-256-GCM and zstd are functions of their
-- crates; the feature flags for both are on.
use lv_logdb.Prelude.{
  ℕ, Bool, Option, none, some, List, [], ◌∷◌, Bytes, length, take, drop, ltb, if◌then◌else◌,
}

abbrev pub encryption_nonce_size : ℕ
encryption_nonce_size = 12

-- `cipher.decrypt(nonce, ct)` under a key, and `zstd::decode_all`.
module _ (decrypt : Bytes → Bytes → Bytes → Option Bytes) (decode_all : Bytes → Option Bytes) where
  -- The loop over the keys.
  unfoldable pub try_keys : List (ℕ × Bytes) → Bytes → Bytes → Option Bytes
  try_keys [] nonce ct = none
  try_keys (k ∷ ks) nonce ct = elim (decrypt k.1 nonce ct) [
    | some plain ↦ some plain
    | none ↦ try_keys ks nonce ct
  ]

  unfoldable pub decrypt_frame_data : List (ℕ × Bytes) → Bytes → Option Bytes
  decrypt_frame_data keys encrypted =
      if ltb (length encrypted) encryption_nonce_size
      then none
      else try_keys keys (take encryption_nonce_size encrypted)
          (drop encryption_nonce_size encrypted)

  abbrev pub decompress_if : Bool → Bytes → Option Bytes
  decompress_if compressed plain = if compressed then decode_all plain else some plain

  unfoldable pub decode_frame_payload :
      Bool → Bool → Option (List (ℕ × Bytes)) → Bytes → Option Bytes
  decode_frame_payload compressed encrypted keys payload =
      if encrypted
      then elim keys [
        | none ↦ none
        | some kr ↦ elim (decrypt_frame_data kr payload) [
          | none ↦ none
          | some plain ↦ decompress_if compressed plain
        ]
      ]
      else decompress_if compressed payload
