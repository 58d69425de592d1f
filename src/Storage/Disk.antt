-- ===== src/Storage/Disk.antt =====
-- The directory of a shard's segment files and the file operations that logdb/src/storage/mod.rs
-- uses. A file is named by its segment id; an operation fails where a file that it opens is missing,
-- or where a file that it creates is there already.
pub mod Files
pub mod Splice
pub mod Distinct
use lv_logdb.Prelude.{
  ℕ, ◌+◌, ◌-◌, Bool, true, false, Option, none, some, List, [], ◌∷◌, ◌++◌, Bytes, take, drop,
  replicate, length, ℕ_discrete, find, put, remove,
}

-- A file: its bytes, and whether some of them may not be on stable storage yet.
pub record SegFile : Type 0 where
  pub content : Bytes
  pub dirty : Bool

abbrev pub Dir : Type 0
Dir = List (ℕ × SegFile)

abbrev pub file_of : ℕ → Dir → Option SegFile
file_of = find ℕ_discrete

-- `File::create_new` and `write_all`; `none` where the file is there.
unfoldable pub create_file : ℕ → Bytes → Dir → Option Dir
create_file id content dir = elim (file_of id dir) [
  | some f ↦ none
  | none ↦ some (put ℕ_discrete id (record { content = content; dirty = true }) dir)
]

-- The bytes of a file after a write at an offset; a gap is filled with zeros.
unfoldable pub splice : Bytes → ℕ → Bytes → Bytes
splice content offset bytes =
    take offset (content ++ replicate (offset - length content) 0)
    ++ bytes
    ++ drop (offset + length bytes) content

abbrev pub bytes_of : Option SegFile → Bytes
bytes_of none = []
bytes_of (some f) = f.content

abbrev pub content_of : ℕ → Dir → Bytes
content_of id dir = bytes_of (file_of id dir)

abbrev pub dirty_of : Option SegFile → Bool
dirty_of none = false
dirty_of (some f) = f.dirty

-- Whether a file has bytes that may not be on stable storage.
abbrev pub at_risk : ℕ → Dir → Bool
at_risk id dir = dirty_of (file_of id dir)

-- A write through an open file.
unfoldable pub write_at : ℕ → ℕ → Bytes → Dir → Dir
write_at id offset bytes dir =
    put ℕ_discrete id (record { content = splice (content_of id dir) offset bytes; dirty = true })
      dir

-- `fdatasync` of an open file; one that has lost its name has no bytes to lose.
unfoldable pub fdatasync : ℕ → Dir → Dir
fdatasync id dir = elim (file_of id dir) [
  | none ↦ dir
  | some f ↦ put ℕ_discrete id (record f { dirty = false }) dir
]

-- `fsync_path`, which opens the file first.
unfoldable pub fsync_path : ℕ → Dir → Option Dir
fsync_path id dir = elim (file_of id dir) [ none ↦ none | some f ↦ some (fdatasync id dir) ]

-- The bytes of all files.
unfoldable pub total_size : Dir → ℕ
total_size [] = 0
total_size (e ∷ es) = length e.1.content + total_size es
