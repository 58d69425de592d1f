-- ===== src/Storage/Segments/Manager.antt =====
-- What holds of a `SegmentManager` of logdb/src/storage/mod.rs and its directory between two calls.
use lv_logdb.Prelude.{
  ℕ, ◌+◌, ◌≤◌, ◌<◌, ◌≡◌, ap, ◌∙◌, ◌⊎◌, inl, inr, Bool, false, Option, none, some, List, [], ◌∷◌,
  length,
}
use lv_logdb.Storage.Disk.{Dir, file_of, content_of, at_risk, dirty_of, bytes_of}
use lv_logdb.Storage.Disk.Distinct.{Distinct}
use lv_logdb.Storage.Index.{SparseIndex}
use lv_logdb.Storage.Segments.{SegmentManager, ActiveSegment}

-- The index has a stride, where there is one.
abbrev pub HasStride : Option SparseIndex → Type 0
HasStride none = Unit
HasStride (some idx) = 0 < idx.stride

abbrev pub Among : ℕ → List ℕ → Type 0
Among id [] = ⊥
Among id (p ∷ ps) = (id ≡ p) ⊎ Among id ps

-- A prepared segment holds nothing but its header; else its file is not there.
abbrev pub Ahead : Option (ℕ × ActiveSegment) → ℕ → Dir → Type 0
Ahead none id dir = file_of id dir ≡ none
Ahead (some p) id dir =
    (p.0 ≡ id) × (p.1.path ≡ id) × (p.1.offset ≡ 128) × (length (content_of id dir) ≡ 128)

-- A prepared segment is compressed as the manager says.
abbrev pub LaidOut : Option (ℕ × ActiveSegment) → Bool → Type 0
LaidOut none compressed = Unit
LaidOut (some p) compressed = p.1.compressed ≡ compressed

-- The active file is as long as the offset says and holds a header; behind it there is at most the
-- prepared one; a file that may not be on stable storage waits for a sync, or is the active one or
-- the prepared one.
pub record IsManager (m : SegmentManager) : Type 0 where
  pub path_is : m.active.path ≡ m.active_id
  pub header_in : 128 ≤ m.active.offset
  pub sized : length (content_of m.active_id m.dir) ≡ m.active.offset
  pub ahead : Ahead m.prepared_segment (m.active_id + 1) m.dir
  pub beyond : (n : ℕ) → file_of (m.active_id + 2 + n) m.dir ≡ none
  pub covered :
      (id : ℕ) → (at_risk id m.dir ≡ false) ⊎ (Among id m.pending_fsync ⊎ (m.active_id ≤ id))
  pub distinct : Distinct m.dir
  pub strided : HasStride m.active_index
  pub hash_init_in : length m.hash_init ≡ 32
  pub last_hash_in : length m.last_hash ≡ 32
  pub layout : LaidOut m.prepared_segment m.compressed
  pub some_size : 0 < m.segment_size

pub covered_same :
    {P : Type 0} (id : ℕ) (dir dir' : Dir)
    → file_of id dir' ≡ file_of id dir
    → (at_risk id dir ≡ false) ⊎ P
    → (at_risk id dir' ≡ false) ⊎ P
covered_same id dir dir' e (inl safe) = inl (ap dirty_of e ∙ safe)
covered_same id dir dir' e (inr p) = inr p

pub Ahead-other :
    (p : Option (ℕ × ActiveSegment)) (id : ℕ) (dir dir' : Dir)
    → file_of id dir' ≡ file_of id dir
    → Ahead p id dir
    → Ahead p id dir'
Ahead-other none id dir dir' e a = e ∙ a
Ahead-other (some p) id dir dir' e (a, b, c, d) = (a, b, c, ap (λ f. length (bytes_of f)) e ∙ d)
