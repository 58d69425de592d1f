-- ===== src/Storage/Disk/Files.antt =====
-- What the file operations of logdb/src/storage/mod.rs do to the file they name and to the others.
use lv_logdb.Prelude.{
  ℕ, zero, suc, ◌+◌, ◌-◌, ◌≤◌, ◌≡◌, ◌≢◌, refl, sym, ap, ◌∙◌, inl, inr, true, false, none, some, [],
  ◌∷◌, ◌++◌, append-nil, Bytes, take, drop, length, arith, take_all, length-append, length-take,
  length-drop, ℕ_discrete, put, find-put_self, find-put_ne, Option-cases,
}
use lv_logdb.Storage.Disk.{
  SegFile, Dir, file_of, create_file, splice, bytes_of, content_of, write_at, fdatasync,
}

drop_all : (n : ℕ) (xs : Bytes) → length xs ≤ n → drop n xs ≡ []
drop_all zero [] h = refl
drop_all zero (x ∷ xs) h = absurd (omega arith)
drop_all (suc n) [] h = refl
drop_all (suc n) (x ∷ xs) h = drop_all n xs (omega arith)

-- A write at the end of a file appends.
pub splice_end :
    (content bytes : Bytes) (offset : ℕ)
    → length content ≡ offset
    → splice content offset bytes ≡ content ++ bytes
unfolding splice
splice_end content bytes offset e =
    let gap : offset - length content ≡ 0 = omega arith in
    rw
      (
        gap,
        append-nil,
        take_all offset content (omega arith),
        drop_all (offset + length bytes) content (omega arith),
        append-nil,
      )
      refl

-- One inside keeps the length.
pub length-splice :
    (content bytes : Bytes) (offset : ℕ)
    → offset + length bytes ≤ length content
    → length (splice content offset bytes) ≡ length content
unfolding splice
length-splice content bytes offset h =
    let gap : offset - length content ≡ 0 = omega arith in
    rw (gap, append-nil)
      (omega (
        arith,
        length-append (take offset content ++ bytes) (drop (offset + length bytes) content),
        length-append (take offset content) bytes,
        length-take offset content,
        length-drop (offset + length bytes) content,
      ))

pub file_of-write_at :
    (id offset : ℕ) (bytes : Bytes) (dir : Dir)
    → file_of id (write_at id offset bytes dir)
      ≡ some (record { content = splice (content_of id dir) offset bytes; dirty = true })
unfolding write_at
file_of-write_at id offset bytes dir = find-put_self ℕ_discrete id _ dir

pub file_of-write_at_ne :
    (j id offset : ℕ) (bytes : Bytes) (dir : Dir)
    → j ≢ id
    → file_of j (write_at id offset bytes dir) ≡ file_of j dir
unfolding write_at
file_of-write_at_ne j id offset bytes dir n = find-put_ne ℕ_discrete j id _ dir n

pub content_of-write_at :
    (id offset : ℕ) (bytes : Bytes) (dir : Dir)
    → content_of id (write_at id offset bytes dir) ≡ splice (content_of id dir) offset bytes
content_of-write_at id offset bytes dir = ap bytes_of (file_of-write_at id offset bytes dir)

-- What a directory tells of a file that is made.
pub create_file-some :
    (id : ℕ) (content : Bytes) (dir made : Dir)
    → create_file id content dir ≡ some made
    → (file_of id dir ≡ none)
      × (made ≡ put ℕ_discrete id (record { content = content; dirty = true }) dir)
unfolding create_file
create_file-some id content dir made e = ground arith

pub create_file_new :
    (id : ℕ) (content : Bytes) (dir : Dir)
    → file_of id dir ≡ none
    → create_file id content dir
      ≡ some (put ℕ_discrete id (record { content = content; dirty = true }) dir)
unfolding create_file
create_file_new id content dir e = rw (create_file, e) refl

pub file_of-fdatasync_ne :
    (j id : ℕ) (dir : Dir) → j ≢ id → file_of j (fdatasync id dir) ≡ file_of j dir
unfolding fdatasync
file_of-fdatasync_ne j id dir n = elim (Option-cases (file_of id dir)) [
  | inl missing ↦ rw (fdatasync, missing) refl
  | inr there ↦ rw (fdatasync, there.1) (find-put_ne ℕ_discrete j id _ dir n)
]

pub file_of-fdatasync :
    (id : ℕ) (f : SegFile) (dir : Dir)
    → file_of id dir ≡ some f
    → file_of id (fdatasync id dir) ≡ some (record f { dirty = false })
unfolding fdatasync
file_of-fdatasync id f dir e = rw (fdatasync, e) (find-put_self ℕ_discrete id _ dir)

pub fdatasync_missing : (id : ℕ) (dir : Dir) → file_of id dir ≡ none → fdatasync id dir ≡ dir
unfolding fdatasync
fdatasync_missing id dir e = rw (fdatasync, e) refl

pub content_of-fdatasync :
    (j id : ℕ) (dir : Dir) → content_of j (fdatasync id dir) ≡ content_of j dir
unfolding fdatasync
content_of-fdatasync j id dir = elim (ℕ_discrete j id) [
  | no n ↦ ap bytes_of (file_of-fdatasync_ne j id dir n)
  | yes p ↦ rw p (elim (Option-cases (file_of id dir)) [
    | inl missing ↦ ap (content_of id) (fdatasync_missing id dir missing)
    | inr there ↦ ap bytes_of (file_of-fdatasync id there.0 dir there.1) ∙ sym (ap bytes_of there.1)
  ])
]
