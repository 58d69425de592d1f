-- ===== src/Storage/Index/RoundTrip.antt =====
-- The index file (logdb/src/storage/index.rs) gives back the index.
use lv_logdb.Prelude.{
  ℕ, ◌+◌, ◌-◌, ◌*◌, ◌/◌, ◌<◌, ◌^◌, ◌≡◌, refl, sym, ap, ◌∙◌, List, [], ◌∷◌, ◌++◌, append_assoc,
  Bytes, All, Layout, to_le, from_le, int_at, slice, concat, length, offset, get_or, get_elem?,
  some, length-to_le, from_le-to_le, slice-field_exact, slice-append, take-append, length-append,
  length-concat-field, le→ltb-false, arith, ok,
}
use lv_logdb.Storage.Index.{
  IndexEntry, SparseIndex, entry_fields, serialize, deserialize, save, save_entries, load,
  load_entries,
}

-- The ranges of the field types.
pub record IsEntry (e : IndexEntry) : Type 0 where
  pub sequence_in : e.sequence < 256 ^ 8
  pub offset_in : e.file_offset < 256 ^ 8
  pub timestamp_in : e.timestamp_ns < 256 ^ 8

abbrev widths : List ℕ
widths = 8 ∷ 8 ∷ 8 ∷ []

fields-Layout : (e : IndexEntry) → Layout (entry_fields e) widths
fields-Layout e = omega (arith, length-to_le)

length-serialize : (e : IndexEntry) → length (serialize e) ≡ 24
unfolding serialize
length-serialize e = length-concat-field (entry_fields e) widths (fields-Layout e)

field :
    (e : IndexEntry) (k : ℕ) {f : Bytes}
    → get_elem? (entry_fields e) k ≡ some f
    → slice (concat (entry_fields e)) (offset k widths) (offset k widths + get_or widths k 0) ≡ f
field e k at_k = slice-field_exact (entry_fields e) widths (fields-Layout e) k at_k

deserialize-serialize : (e : IndexEntry) → IsEntry e → deserialize (serialize e) ≡ e
unfolding deserialize serialize
deserialize-serialize e v = simp (
  field e 0 refl,
  field e 1 refl,
  field e 2 refl,
  from_le-to_le 8 e.sequence v.sequence_in,
  from_le-to_le 8 e.file_offset v.offset_in,
  from_le-to_le 8 e.timestamp_ns v.timestamp_in,
)

length-save_entries : (es : List IndexEntry) → length (save_entries es) ≡ 24 * length es
unfolding save_entries
length-save_entries [] = refl
length-save_entries (e ∷ es) = omega (
  arith,
  length-append (serialize e) (save_entries es),
  length-serialize e,
  length-save_entries es,
)

load_entries-save_entries :
    (es : List IndexEntry) (pre junk : Bytes) (i : ℕ)
    → length pre ≡ 4 + i * 24
    → All IsEntry es
    → load_entries (length es) (pre ++ (save_entries es ++ junk)) i ≡ es
unfolding load_entries save_entries
load_entries-save_entries [] pre junk i at_i v = refl
load_entries-save_entries (e ∷ es) pre junk i at_i v =
    let rest = save_entries es ++ junk in
    let here : slice (pre ++ (serialize e ++ rest)) (4 + i * 24) (4 + i * 24 + 24) ≡ serialize e =
      slice-append pre (serialize e ++ rest) (4 + i * 24) 24 at_i
      ∙ take-append 24 (serialize e) rest (length-serialize e) in
    let next : length (pre ++ serialize e) ≡ 4 + (i + 1) * 24 =
      omega (arith, length-append pre (serialize e), length-serialize e, at_i) in
    rw (append_assoc (serialize e) (save_entries es) junk, here, deserialize-serialize e v.0)
      (ap (λ t. e ∷ t)
        (ap (λ t. load_entries (length es) t (i + 1)) (sym (append_assoc pre (serialize e) rest))
          ∙ load_entries-save_entries es (pre ++ serialize e) junk (i + 1) next v.1))

-- An index whose fields lie in the ranges of their types is read back from its file, also when less
-- than one entry of other bytes stands behind it.
pub load-save :
    (idx : SparseIndex) (junk : Bytes)
    → idx.stride < 256 ^ 4
    → All IsEntry idx.entries
    → length junk < 24
    → load (save idx ++ junk) ≡ ok idx
unfolding load save
load-save idx junk stride_in v short =
    let es = idx.entries in
    let whole = append_assoc (to_le 4 idx.stride) (save_entries es) junk in
    let size : length (to_le 4 idx.stride ++ (save_entries es ++ junk))
        ≡ 4 + 24 * length es + length junk =
      omega (
        arith,
        length-append (to_le 4 idx.stride) (save_entries es ++ junk),
        length-append (save_entries es) junk,
        length-to_le 4 idx.stride,
        length-save_entries es,
      ) in
    let count : (4 + 24 * length es + length junk - 4) / 24 ≡ length es = omega arith in
    let stride : int_at 4 (to_le 4 idx.stride ++ (save_entries es ++ junk)) 0 ≡ idx.stride =
      ap from_le
        (take-append 4 (to_le 4 idx.stride) (save_entries es ++ junk) (length-to_le 4 idx.stride))
      ∙ from_le-to_le 4 idx.stride stride_in in
    rw
      (
        whole,
        size,
        le→ltb-false (4 + 24 * length es + length junk) 4 (omega arith),
        count,
        stride,
        load_entries-save_entries es (to_le 4 idx.stride) junk 0 (length-to_le 4 idx.stride) v,
      )
      refl
