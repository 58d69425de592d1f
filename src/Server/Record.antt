-- ===== src/Server/Record.antt =====
-- logdbd/src/record.rs: what the server stores as the content of a record of the log. A reader is a function of
-- the bytes of `raw` from `*pos` on, and returns the bytes behind what it read. A `String` is its bytes;
-- `is_utf8` is the check of the standard library. A `BTreeMap` is the list of its entries in order.
pub mod RoundTrip
pub mod Torn
use lv_logdb.Prelude.{
  ℕ, zero, suc, ◌+◌, ◌-◌, ◌^◌, Bool, List, [], ◌∷◌, ◌++◌, map, length, take, drop, concat, Bytes,
  to_le, from_le, ltb, ◌!=◌, if◌then◌else◌, Result, ok, err, not,
}
use Prim.Native.Nat.{compare, Ordering}

pub data RecordError : Type 0 where
  truncated : RecordError
  bad_magic : ℕ → RecordError
  unsupported_version : ℕ → RecordError
  invalid_utf8 : RecordError
  metadata_too_many : ℕ → RecordError
  metadata_too_large : ℕ → RecordError
  content_too_large : ℕ → RecordError

abbrev pub Metadata : Type 0
Metadata = List (Bytes × Bytes)

pub record DecodedRecord : Type 0 where
  pub namespace_id : ℕ
  pub stream_id : ℕ
  pub seq : ℕ
  pub event_type : Bytes
  pub content_type : Bytes
  pub metadata : Metadata
  pub timestamp_ns : ℕ
  pub user_content : Bytes
  pub shard_id : ℕ

abbrev pub record_magic : ℕ
record_magic = 0x4C52

abbrev pub record_version : ℕ
record_version = 1

abbrev pub max_metadata_count : ℕ
max_metadata_count = 16

abbrev pub max_metadata_bytes : ℕ
max_metadata_bytes = 4096

-- The order of strings.
unfoldable pub bytes_compare : Bytes → Bytes → Ordering
bytes_compare [] [] = Ordering.eq
bytes_compare [] (y ∷ ys) = Ordering.lt
bytes_compare (x ∷ xs) [] = Ordering.gt
bytes_compare (x ∷ xs) (y ∷ ys) = elim (compare x y) [
  | Ordering.lt ↦ Ordering.lt
  | Ordering.gt ↦ Ordering.gt
  | Ordering.eq ↦ bytes_compare xs ys
]

-- `BTreeMap::insert`
unfoldable pub insert : Bytes → Bytes → Metadata → Metadata
insert k v [] = (k, v) ∷ []
insert k v (e ∷ es) = elim (bytes_compare k e.0) [
  | Ordering.lt ↦ (k, v) ∷ e ∷ es
  | Ordering.eq ↦ (k, v) ∷ es
  | Ordering.gt ↦ e ∷ insert k v es
]

-- The sum of the lengths of keys and values.
unfoldable pub metadata_bytes : Metadata → ℕ
metadata_bytes [] = 0
metadata_bytes (e ∷ es) = length e.0 + length e.1 + metadata_bytes es

-- `(s.len() as u16).to_le_bytes()`, then the bytes. The cast drops what is above 16 bits.
abbrev pub put_str : Bytes → Bytes
put_str s = to_le 2 (length s) ++ s

-- A key has one byte for its length.
abbrev pub put_key : Bytes → Bytes
put_key k = to_le 1 (length k) ++ k

abbrev pub put_entry : Bytes × Bytes → Bytes
put_entry e = put_key e.0 ++ put_str e.1

abbrev pub put_metadata : Metadata → Bytes
put_metadata es = to_le 1 (length es) ++ concat (map put_entry es)

-- What is written, in order.
abbrev pub record_fields : ℕ → ℕ → ℕ → Bytes → Bytes → Metadata → ℕ → Bytes → List Bytes
record_fields namespace_id stream_id seq event_type content_type metadata timestamp_ns
      user_content =
    to_le 2 record_magic
    ∷ to_le 1 record_version
    ∷ to_le 1 0
    ∷ to_le 4 namespace_id
    ∷ to_le 8 stream_id
    ∷ to_le 8 seq
    ∷ put_str event_type
    ∷ put_str content_type
    ∷ put_metadata metadata
    ∷ to_le 8 timestamp_ns
    ∷ to_le 4 (length user_content)
    ∷ user_content
    ∷ []

unfoldable pub encode_record :
    ℕ → ℕ → ℕ → Bytes → Bytes → Metadata → ℕ → Bytes → Result RecordError Bytes
encode_record namespace_id stream_id seq event_type content_type metadata timestamp_ns
      user_content =
    if ltb max_metadata_count (length metadata)
    then err (metadata_too_many (length metadata))
    else if ltb max_metadata_bytes (metadata_bytes metadata)
    then err (metadata_too_large (metadata_bytes metadata))
    else if ltb (2 ^ 32 - 1) (length user_content)
    then err (content_too_large (length user_content))
    else ok (
        concat (
          record_fields namespace_id stream_id seq event_type content_type metadata timestamp_ns
            user_content))

abbrev pub Reader : Type 0 → Type 0
Reader A = Bytes → Result RecordError (A × Bytes)

-- The `?` operator, between reads.
infixl 5 ◌>>=◌ ◌>>◌
abbrev pub ◌>>=◌ : {A B : Type 0} → Reader A → (A → Reader B) → Reader B
◌>>=◌ m f raw = elim (m raw) [ ok t ↦ f t.0 t.1 | err e ↦ err e ]

abbrev pub ◌>>◌ : {B : Type 0} → Reader (Unit {0}) → Reader B → Reader B
m >> k = m >>= λ u. k

abbrev pub pure : {A : Type 0} → A → Reader A
pure a raw = ok (a, raw)

abbrev pub reject_if : Bool → RecordError → Reader (Unit {0})
reject_if b e raw = if b then err e else ok (tt, raw)

-- `read_bytes`
unfoldable pub read_bytes : ℕ → Reader Bytes
read_bytes len raw = if ltb (length raw) len then err truncated else ok (take len raw, drop len raw)

-- `read_u8`, `read_u16`, `read_u32` and `read_u64`, of `w` bytes
unfoldable pub read_int : ℕ → Reader ℕ
read_int w raw = if ltb (length raw) w then err truncated else ok (from_le (take w raw), drop w raw)

module _ (is_utf8 : Bytes → Bool) where
  unfoldable pub read_str : ℕ → Reader Bytes
  read_str len = do s ← read_bytes len; reject_if (not (is_utf8 s)) invalid_utf8; pure s

  -- The loop over the entries.
  unfoldable pub read_metadata : ℕ → Metadata → Reader Metadata
  read_metadata zero metadata = pure metadata
  read_metadata (suc n) metadata = do
    k_len ← read_int 1
    key ← read_str k_len
    v_len ← read_int 2
    value ← read_str v_len
    read_metadata n (insert key value metadata)

  -- `decode_record` with what is behind the record.
  unfoldable pub read_record : Reader DecodedRecord
  read_record = do
    magic ← read_int 2
    reject_if (magic != record_magic) (bad_magic magic)
    version ← read_int 1
    reject_if (version != record_version) (unsupported_version version)
    flags ← read_int 1
    namespace_id ← read_int 4
    stream_id ← read_int 8
    seq ← read_int 8
    et_len ← read_int 2
    event_type ← read_str et_len
    ct_len ← read_int 2
    content_type ← read_str ct_len
    meta_count ← read_int 1
    metadata ← read_metadata meta_count []
    timestamp_ns ← read_int 8
    content_len ← read_int 4
    user_content ← read_bytes content_len
    pure (record {
      namespace_id = namespace_id;
      stream_id = stream_id;
      seq = seq;
      event_type = event_type;
      content_type = content_type;
      metadata = metadata;
      timestamp_ns = timestamp_ns;
      user_content = user_content;
      shard_id = 0;
    })

  unfoldable pub decode_record : Bytes → Result RecordError DecodedRecord
  decode_record raw = elim (read_record raw) [ ok t ↦ ok t.0 | err e ↦ err e ]
