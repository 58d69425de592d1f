-- ===== src/Storage/Segments/Roll/Listing.antt =====
-- The sorted listing of the segment files (`evict_until_under` of logdb/src/storage/mod.rs).
use lv_logdb.Prelude.{
  ℕ, ◌<◌, ◌≡◌, refl, ◌⊎◌, inl, inr, true, none, some, Bool-cases, List, [], ◌∷◌, leb, leb→le,
  leb-false→lt, arith, ℕ_discrete, find,
}
use lv_logdb.Storage.Disk.{SegFile, Dir, file_of}
use lv_logdb.Storage.Disk.Distinct.{Distinct}
use lv_logdb.Storage.Segments.Manager.{Among}
use lv_logdb.Storage.Segments.Roll.{list_segment_files, insert_id, sort_ids}

-- Every id of the list is above `x`.
abbrev pub Above : ℕ → List ℕ → Type 0
Above x [] = Unit
Above x (y ∷ ys) = (x < y) × Above x ys

abbrev pub Ascending : List ℕ → Type 0
Ascending [] = Unit
Ascending (x ∷ xs) = Above x xs × Ascending xs

pub Above-lt : (x y : ℕ) (ys : List ℕ) → Above x ys → Among y ys → x < y
Above-lt x y [] a m = elim m [ ]
Above-lt x y (z ∷ zs) (h, a) (inl e) = omega arith
Above-lt x y (z ∷ zs) (h, a) (inr m) = Above-lt x y zs a m

Above-trans : (x y : ℕ) (ys : List ℕ) → x < y → Above y ys → Above x ys
Above-trans x y [] h a = tt
Above-trans x y (z ∷ zs) h (b, a) = (omega arith, Above-trans x y zs h a)

Above-insert_id : (x y : ℕ) (ys : List ℕ) → x < y → Above x ys → Above x (insert_id y ys)
unfolding insert_id
Above-insert_id x y [] h a = (h, tt)
Above-insert_id x y (z ∷ zs) h (b, a) = ground (arith, Above-insert_id x y zs h a)

-- A new id is put in its place.
Ascending-insert_id :
    (x : ℕ) (ys : List ℕ) → ¬ Among x ys → Ascending ys → Ascending (insert_id x ys)
unfolding insert_id
Ascending-insert_id x [] new up = (tt, tt)
Ascending-insert_id x (y ∷ ys) new (a, up) = elim (Bool-cases (leb x y)) [
  | inl le ↦ let lt : x < y = less le in rw (insert_id, le) ((lt, Above-trans x y ys lt a), (a, up))
  | inr gt ↦
      rw (insert_id, gt)
        (
          Above-insert_id y x ys (leb-false→lt x y gt) a,
          Ascending-insert_id x ys (λ m. new (inr m)) up,
        )
]
  where
    less : leb x y ≡ true → x < y
    less le = elim (ℕ_discrete x y) [
      | yes e ↦ absurd (new (inl e))
      | no n ↦ let h = leb→le x y le in ground arith
    ]

Among-insert_id : (x j : ℕ) (ys : List ℕ) → (j ≡ x) ⊎ Among j ys → Among j (insert_id x ys)
unfolding insert_id
Among-insert_id x j [] m = m
Among-insert_id x j (y ∷ ys) m = elim (Bool-cases (leb x y)) [
  | inl le ↦ rw (insert_id, le) m
  | inr gt ↦
      rw (insert_id, gt)
        (elim m [
          | inl e ↦ inr (Among-insert_id x j ys (inl e))
          | inr (inl e) ↦ inl e
          | inr (inr k) ↦ inr (Among-insert_id x j ys (inr k))
        ])
]

Among-insert_id_inv : (x j : ℕ) (ys : List ℕ) → Among j (insert_id x ys) → (j ≡ x) ⊎ Among j ys
unfolding insert_id
Among-insert_id_inv x j [] m = m
Among-insert_id_inv x j (y ∷ ys) m = elim (Bool-cases (leb x y)) [
  | inl le ↦ rw (insert_id, le) at m
  | inr gt ↦
      let m' : (j ≡ y) ⊎ Among j (insert_id x ys) = rw (insert_id, gt) at m in
      elim m' [
        | inl e ↦ inr (inl e)
        | inr k ↦ elim (Among-insert_id_inv x j ys k) [ inl e ↦ inl e | inr k' ↦ inr (inr k') ]
      ]
]

pub Among-sort_ids : (j : ℕ) (ids : List ℕ) → Among j ids → Among j (sort_ids ids)
unfolding sort_ids
Among-sort_ids j [] m = m
Among-sort_ids j (x ∷ xs) (inl e) = Among-insert_id x j (sort_ids xs) (inl e)
Among-sort_ids j (x ∷ xs) (inr m) = Among-insert_id x j (sort_ids xs) (inr (Among-sort_ids j xs m))

pub Among-sort_ids_inv : (j : ℕ) (ids : List ℕ) → Among j (sort_ids ids) → Among j ids
unfolding sort_ids
Among-sort_ids_inv j [] m = m
Among-sort_ids_inv j (x ∷ xs) m = elim (Among-insert_id_inv x j (sort_ids xs) m) [
  | inl e ↦ inl e
  | inr k ↦ inr (Among-sort_ids_inv j xs k)
]

-- A file is listed if it is there, and only then.
pub listed : (j : ℕ) (dir : Dir) → (file_of j dir ≡ none) ⊎ Among j (list_segment_files dir)
unfolding find
listed j [] = inl refl
listed j (e ∷ es) = elim (ℕ_discrete j e.0) [
  | yes here ↦ inr (inl here)
  | no n ↦ elim (listed j es) [ inl absent ↦ inl (ground arith) | inr k ↦ inr (inr k) ]
]

pub listed_there :
    (j : ℕ) (dir : Dir)
    → Among j (list_segment_files dir)
    → (f : SegFile) × (file_of j dir ≡ some f)
unfolding find
listed_there j [] m = elim m [ ]
listed_there j (e ∷ es) m = elim (ℕ_discrete j e.0) [
  | yes here ↦ (e.1, ground arith)
  | no n ↦ elim m [
    | inl e' ↦ absurd (n e')
    | inr k ↦ let rest = listed_there j es k in (rest.0, ground arith)
  ]
]

pub Ascending-sort_ids : (dir : Dir) → Distinct dir → Ascending (sort_ids (list_segment_files dir))
unfolding sort_ids
Ascending-sort_ids [] d = tt
Ascending-sort_ids (e ∷ es) (absent, d) =
    Ascending-insert_id e.0 (sort_ids (list_segment_files es))
      (λ m.
        let there = listed_there e.0 es (Among-sort_ids_inv e.0 (list_segment_files es) m) in
        absurd cc)
      (Ascending-sort_ids es d)
