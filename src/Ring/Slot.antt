-- ===== src/Ring/Slot.antt =====
-- logdb/src/ring/slot.rs: a slot of the ring, with short contents inline and long ones on the heap.
pub mod Read
use lv_logdb.Prelude.{
  ℕ, ◌+◌, ◌%◌, ◌^◌, Bool, ◌++◌, Bytes, replicate, take, drop, length, leb, ◌==◌, if◌then◌else◌,
}
use lv_logdb.Format.{ReadView}

abbrev pub inline_cap : ℕ
inline_cap = 256

-- `ContentStorage`
pub data Storage : Type 0 where
  inline : Bytes → Storage
  spill : Bytes → Storage

-- `SlotInner`, and the `sequence` of the `Slot` around it
pub record Slot : Type 0 where
  pub record_id : ℕ
  pub timestamp_ns : ℕ
  pub content_len : ℕ
  pub storage : Storage
  pub hash_n : Bytes
  pub sequence : ℕ

-- `Slot::new`
unfoldable pub fresh : Slot
fresh = record {
  record_id = 0;
  timestamp_ns = 0;
  content_len = 0;
  storage = inline (replicate inline_cap 0);
  hash_n = replicate 32 0;
  sequence = 0;
}

-- `buf[..content.len()].copy_from_slice(content)`
abbrev pub copy_front : Bytes → Bytes → Bytes
copy_front buf content = content ++ drop (length content) buf

-- The storage after the write of a content of at most `inline_cap` bytes.
abbrev pub store_inline : Storage → Bytes → Storage
store_inline (inline buf) content = inline (copy_front buf content)
store_inline (spill _) content = inline (copy_front (replicate inline_cap 0) content)

unfoldable pub producer_write : Slot → ℕ → ℕ → Bytes → Slot
producer_write s seq ts content = record s {
  record_id = seq;
  timestamp_ns = ts;
  content_len = length content % 2 ^ 32;
  storage =
      if leb (length content) inline_cap then store_inline s.storage content else spill content;
}

unfoldable pub publish : Slot → ℕ → Slot
publish s seq = record s { sequence = (seq + 1) % 2 ^ 64 }

unfoldable pub is_published : Slot → ℕ → Bool
is_published s seq = s.sequence == (seq + 1) % 2 ^ 64

-- `&buf[..content_len]`, the same for both kinds of storage
abbrev pub bytes_of : Storage → Bytes
bytes_of (inline buf) = buf
bytes_of (spill b) = b

unfoldable pub read : Slot → ReadView
read s = record {
  record_id = s.record_id;
  timestamp_ns = s.timestamp_ns;
  content = take s.content_len (bytes_of s.storage);
  hash_n = s.hash_n;
}

unfoldable pub write_hash : Slot → Bytes → Slot
write_hash s hash_n = record s { hash_n = hash_n }
