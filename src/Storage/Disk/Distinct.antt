-- ===== src/Storage/Disk/Distinct.antt =====
-- A directory has one entry for each name (the listing of logdb/src/storage/mod.rs).
use lv_logdb.Prelude.{
  ℕ, ◌+◌, ◌≡◌, ◌≢◌, refl, sym, subst, ◌∙◌, inl, inr, Option-cases, none, some, [], ◌∷◌, Bytes,
  length, arith, ℕ_discrete, find, put, remove, find-put_ne, find-remove_self, find-remove_ne,
}
use lv_logdb.Storage.Disk.{SegFile, Dir, file_of, total_size, write_at, fdatasync}

abbrev pub Distinct : Dir → Type 0
Distinct [] = Unit
Distinct (e ∷ es) = (file_of e.0 es ≡ none) × Distinct es

abbrev pub without : ℕ → Dir → Dir
without id dir = remove ℕ_discrete id dir

without_absent : (id : ℕ) (dir : Dir) → file_of id dir ≡ none → without id dir ≡ dir
unfolding find remove
without_absent id [] h = refl
without_absent id (e ∷ es) h = ground (arith, without_absent id es)

pub file_of-without-none :
    (id j : ℕ) (dir : Dir) → file_of j dir ≡ none → file_of j (without id dir) ≡ none
file_of-without-none id j dir h = elim (ℕ_discrete j id) [
  | yes here ↦ rw here (find-remove_self ℕ_discrete id dir)
  | no n ↦ find-remove_ne ℕ_discrete j id dir n ∙ h
]

pub Distinct-without : (id : ℕ) (dir : Dir) → Distinct dir → Distinct (without id dir)
unfolding remove
Distinct-without id [] d = tt
Distinct-without id (e ∷ es) (a, d) =
    ground (arith, file_of-without-none id e.0 es a, Distinct-without id es d)

pub total_size-without :
    (id : ℕ) (f : SegFile) (dir : Dir)
    → Distinct dir
    → file_of id dir ≡ some f
    → total_size dir ≡ length f.content + total_size (without id dir)
unfolding total_size find remove
total_size-without id f [] d h = cc
total_size-without id f (e ∷ es) (a, d) h = elim (ℕ_discrete id e.0) [
  | yes here ↦ ground (arith, without_absent id es)
  | no n ↦ ground (arith, total_size-without id f es d)
]

put-here :
    (id : ℕ) (f : SegFile) (e : ℕ × SegFile) (es : Dir)
    → id ≡ e.0
    → put ℕ_discrete id f (e ∷ es) ≡ (id, f) ∷ es
unfolding put
put-here id f e es here = ground arith

put-there :
    (id : ℕ) (f : SegFile) (e : ℕ × SegFile) (es : Dir)
    → id ≢ e.0
    → put ℕ_discrete id f (e ∷ es) ≡ e ∷ put ℕ_discrete id f es
unfolding put
put-there id f e es n = ground arith

pub Distinct-put :
    (id : ℕ) (f : SegFile) (dir : Dir) → Distinct dir → Distinct (put ℕ_discrete id f dir)
unfolding find put
Distinct-put id f [] d = (refl, tt)
Distinct-put id f (e ∷ es) (a, d) = elim (ℕ_discrete id e.0) [
  | yes here ↦
      let absent = subst (λ k. file_of k es ≡ none) (sym here) a in
      subst Distinct (sym (put-here id f e es here)) (absent, d)
  | no n ↦
      let absent = find-put_ne ℕ_discrete e.0 id f es (λ q. n (sym q)) ∙ a in
      subst Distinct (sym (put-there id f e es n)) (absent, Distinct-put id f es d)
]

pub Distinct-write_at :
    (id offset : ℕ) (bytes : Bytes) (dir : Dir)
    → Distinct dir
    → Distinct (write_at id offset bytes dir)
unfolding write_at
Distinct-write_at id offset bytes dir d = Distinct-put id _ dir d

pub Distinct-fdatasync : (id : ℕ) (dir : Dir) → Distinct dir → Distinct (fdatasync id dir)
unfolding fdatasync
Distinct-fdatasync id dir d = elim (Option-cases (file_of id dir)) [
  | inl missing ↦ rw (fdatasync, missing) d
  | inr there ↦ rw (fdatasync, there.1) (Distinct-put id _ dir d)
]
