-- ===== src/Storage/Index.antt =====
-- logdb/src/storage/index.rs: the sparse index of a segment file, its search and its file.
pub mod RoundTrip
pub mod Search
use lv_logdb.Prelude.{
  ℕ, zero, suc, ◌+◌, ◌-◌, ◌*◌, ◌/◌, ◌%◌, ◌<◌, ◌^◌, Bool, true, false, Option, none, some, List, [],
  ◌∷◌, ◌++◌, Bytes, to_le, int_at, slice, concat, length, get_or, ltb, leb, ◌==◌, if◌then◌else◌,
  Result, ok, err, ◌>>=◌, ◌>>◌, fail_if,
}

pub record IndexEntry : Type 0 where
  pub sequence : ℕ
  pub file_offset : ℕ
  pub timestamp_ns : ℕ

abbrev pub serialized_size : ℕ
serialized_size = 24

-- The writes of `serialize`, which cover the buffer in order.
abbrev pub entry_fields : IndexEntry → List Bytes
entry_fields e = to_le 8 e.sequence ∷ to_le 8 e.file_offset ∷ to_le 8 e.timestamp_ns ∷ []

unfoldable pub serialize : IndexEntry → Bytes
serialize e = concat (entry_fields e)

unfoldable pub deserialize : Bytes → IndexEntry
deserialize buf = record {
  sequence = int_at 8 buf 0;
  file_offset = int_at 8 buf 8;
  timestamp_ns = int_at 8 buf 16;
}

pub record SparseIndex : Type 0 where
  pub entries : List IndexEntry
  pub stride : ℕ

unfoldable pub new : ℕ → SparseIndex
new stride = record { entries = []; stride = stride }

unfoldable pub add : SparseIndex → ℕ → ℕ → ℕ → SparseIndex
add idx sequence file_offset timestamp_ns = record idx {
  entries =
      idx.entries
      ++ (record { sequence = sequence; file_offset = file_offset; timestamp_ns = timestamp_ns }
          ∷ []);
}

-- `none` is the panic of a division by a stride of zero.
unfoldable pub should_index : SparseIndex → ℕ → Option Bool
should_index idx record_count =
    if idx.stride == 0 then none else some (record_count % idx.stride == 0)

abbrev pub no_entry : IndexEntry
no_entry = record { sequence = 0; file_offset = 0; timestamp_ns = 0 }

-- The loop of `binary_search_by` of the standard library on the keys of a slice, for a `size` of at
-- least one: it halves the size until one key is left. Fuel is the size.
unfoldable pub search_loop : ℕ → (ℕ → ℕ) → ℕ → ℕ → ℕ → ℕ
search_loop zero key target base size = base
search_loop (suc fuel) key target base size =
    let half = size / 2 in
    let mid = base + half in
    let base' = if ltb target (key mid) then base else mid in
    let rest = search_loop fuel key target base' (size - half) in if leb size 1 then base else rest

-- Its result: the place of an equal key, or the place where the key belongs.
pub data Place : Type 0 where
  found : ℕ → Place
  insert_at : ℕ → Place

unfoldable pub binary_search : (ℕ → ℕ) → ℕ → ℕ → Place
binary_search key len target =
    if len == 0
    then insert_at 0
    else (let base = search_loop len key target 0 len in
        if key base == target
        then found base
        else insert_at (if ltb (key base) target then base + 1 else base))

abbrev pub sequence_at : List IndexEntry → ℕ → ℕ
sequence_at entries i = (get_or entries i no_entry).sequence

abbrev pub time_at : List IndexEntry → ℕ → ℕ
time_at entries i = (get_or entries i no_entry).timestamp_ns

abbrev pub anchor_of : Place → Option ℕ
anchor_of (found pos) = some pos
anchor_of (insert_at zero) = none
anchor_of (insert_at (suc pos)) = some pos

-- The entry and its position.
unfoldable pub find_anchor : SparseIndex → ℕ → Option (IndexEntry × ℕ)
find_anchor idx record_id =
    if length idx.entries == 0
    then none
    else elim (anchor_of (binary_search (sequence_at idx.entries) (length idx.entries) record_id)) [
      | none ↦ none
      | some pos ↦ some (get_or idx.entries pos no_entry, pos)
    ]

abbrev pub at_or_before : Place → ℕ
at_or_before (found pos) = pos
at_or_before (insert_at pos) = pos - 1

unfoldable pub find_by_time : SparseIndex → ℕ → ℕ
find_by_time idx timestamp_ns =
    at_or_before (binary_search (time_at idx.entries) (length idx.entries) timestamp_ns)

unfoldable pub save_entries : List IndexEntry → Bytes
save_entries [] = []
save_entries (e ∷ es) = serialize e ++ save_entries es

-- The bytes that `save` writes.
unfoldable pub save : SparseIndex → Bytes
save idx = to_le 4 idx.stride ++ save_entries idx.entries

pub data LoadError : Type 0 where
  file_too_short : LoadError

-- `for i in 0..num_entries`, for the number of entries that are left.
unfoldable pub load_entries : ℕ → Bytes → ℕ → List IndexEntry
load_entries zero data' i = []
load_entries (suc n) data' i =
    let start = 4 + i * serialized_size in
    deserialize (slice data' start (start + serialized_size)) ∷ load_entries n data' (i + 1)

-- What `load` makes of the bytes of the file.
unfoldable pub load : Bytes → Result LoadError SparseIndex
load data' = do
  fail_if (ltb (length data') 4) file_too_short
  let num_entries = (length data' - 4) / serialized_size
  ok (record { entries = load_entries num_entries data' 0; stride = int_at 4 data' 0 })
