-- ===== src/Storage/Segments/Roll/Pruned.antt =====
-- The deletions of `roll` (logdb/src/storage/mod.rs) succeed, and leave the active segment and all
-- behind it alone.
use lv_logdb.Prelude.{
  ℕ, ◌<◌, ◌≡◌, ◌≢◌, refl, sym, ◌∙◌, ◌⊎◌, inl, inr, Option, none, some, Bool-cases, List, [], ◌∷◌,
  Bytes, leb, leb-false→lt, arith, ok, ℕ_discrete, find, find-remove_self, find-remove_ne,
}
use lv_logdb.Storage.Disk.{SegFile, Dir, file_of}
use lv_logdb.Storage.Disk.Distinct.{Distinct, Distinct-without}
use lv_logdb.Storage.Segments.{RetentionPolicy, keep_all, max_bytes, max_age}
use lv_logdb.Storage.Segments.Manager.{Among}
use lv_logdb.Storage.Segments.Roll.{
  list_segment_files, remove_file, is_old, evict_older_than, apply_retention, goes,
  truncate_before_checkpoint,
}
use lv_logdb.Storage.Segments.Roll.Listing.{listed_there}
use lv_logdb.Storage.Segments.Roll.Evict.{Evicted, evict_until_under-Evicted}
use lv_logdb.Storage.Segments.Roll.Truncate.{truncate_before_checkpoint-KeptOrBefore}

-- A file stays as it was, or it is deleted and below the active one.
pub record Pruned (active_id : ℕ) (dir dir' : Dir) : Type 0 where
  pub files :
      (id : ℕ) → (file_of id dir' ≡ file_of id dir) ⊎ ((file_of id dir' ≡ none) × (id < active_id))
  pub distinct : Distinct dir'

Pruned-refl : (active_id : ℕ) (dir : Dir) → Distinct dir → Pruned active_id dir dir
Pruned-refl active_id dir d = record { files = λ id. inl refl; distinct = d }

Pruned-then :
    (active_id : ℕ) (a b c : Dir)
    → Pruned active_id a b
    → Pruned active_id b c
    → Pruned active_id a c
Pruned-then active_id a b c p q = record {
  files = λ id. elim (q.files id) [
    | inr gone ↦ inr gone
    | inl same ↦ elim (p.files id) [
      | inl as_before ↦ inl (same ∙ as_before)
      | inr gone ↦ inr (same ∙ gone.0, gone.1)
    ]
  ];
  distinct = q.distinct;
}

remove_file-Pruned :
    (active_id x : ℕ) (dir : Dir)
    → Distinct dir
    → x < active_id
    → Pruned active_id dir (remove_file x dir)
remove_file-Pruned active_id x dir d low = record {
  files = λ id. elim (ℕ_discrete id x) [
    | yes here ↦ inr (rw here (find-remove_self ℕ_discrete x dir), rw here low)
    | no n ↦ inl (find-remove_ne ℕ_discrete id x dir n)
  ];
  distinct = Distinct-without x dir d;
}

Evicted-Pruned :
    (active_id limit : ℕ) (dir dir' : Dir)
    → Evicted active_id limit dir dir'
    → Pruned active_id dir dir'
Evicted-Pruned active_id limit dir dir' e = record {
  files = λ id. elim (e.above id) [
    | inr same ↦ inl same
    | inl low ↦ elim (e.fewer id) [ inl gone ↦ inr (gone, low) | inr same ↦ inl same ]
  ];
  distinct = e.distinct;
}

-- No id of the list comes twice, and each is the id of a file.
abbrev Present : List ℕ → Dir → Type 0
Present [] dir = Unit
Present (x ∷ xs) dir = ((f : SegFile) × (file_of x dir ≡ some f)) × ¬ Among x xs × Present xs dir

Present-remove_file :
    (x : ℕ) (xs : List ℕ) (dir : Dir)
    → ¬ Among x xs
    → Present xs dir
    → Present xs (remove_file x dir)
Present-remove_file x [] dir new p = tt
Present-remove_file x (y ∷ ys) dir new (f, once, p) = (
  (f.0, find-remove_ne ℕ_discrete y x dir (λ e. new (inl (sym e))) ∙ f.1),
  once,
  Present-remove_file x ys dir (λ m. new (inr m)) p,
)

Present-cons :
    (x : ℕ) (f : SegFile) (xs : List ℕ) (dir : Dir)
    → ¬ Among x xs
    → Present xs dir
    → Present xs ((x, f) ∷ dir)
unfolding find
Present-cons x f [] dir new p = tt
Present-cons x f (y ∷ ys) dir new (g, once, p) = (
  (g.0, elim (ℕ_discrete y x) [ yes e ↦ absurd (new (inl (sym e))) | no n ↦ ground arith ]),
  once,
  Present-cons x f ys dir (λ m. new (inr m)) p,
)

Present-list : (dir : Dir) → Distinct dir → Present (list_segment_files dir) dir
unfolding find
Present-list [] d = tt
Present-list (e ∷ es) (absent, d) =
    let new : ¬ Among e.0 (list_segment_files es) =
      (λ m. let there = listed_there e.0 es m in absurd cc) in
    (
      (e.1, ground (arith, λ (n : e.0 ≢ e.0). n refl)),
      new,
      Present-cons e.0 e.1 (list_segment_files es) es new (Present-list es d),
    )

evict_older_than-Pruned :
    (elapsed : ℕ → Option ℕ) (active_id age : ℕ) (ids : List ℕ) (dir : Dir)
    → Distinct dir
    → Present ids dir
    → (dir' : Dir) × (evict_older_than elapsed active_id age ids dir ≡ (ok tt, dir'))
      × Pruned active_id dir dir'
unfolding evict_older_than
evict_older_than-Pruned elapsed active_id age [] dir d p = (dir, refl, Pruned-refl active_id dir d)
evict_older_than-Pruned elapsed active_id age (x ∷ xs) dir d (f, new, p) =
    elim (Bool-cases (leb active_id x)) [
      | inl high ↦ (dir, rw (evict_older_than, high) refl, Pruned-refl active_id dir d)
      | inr low ↦ elim (Bool-cases (is_old (elapsed x) age)) [
        | inr young ↦
            let rest = evict_older_than-Pruned elapsed active_id age xs dir d p in
            (rest.0, rw (evict_older_than, low, young) rest.1, rest.2)
        | inl old ↦
            let rest =
              evict_older_than-Pruned elapsed active_id age xs (remove_file x dir)
                (Distinct-without x dir d) (Present-remove_file x xs dir new p) in
            (
              rest.0,
              rw (evict_older_than, low, old, f.1) rest.1,
              Pruned-then active_id dir (remove_file x dir) rest.0
                  (remove_file-Pruned active_id x dir d (leb-false→lt active_id x low)) rest.2,
            )
      ]
    ]

pub apply_retention-Pruned :
    (elapsed : ℕ → Option ℕ) (retention : RetentionPolicy) (active_id : ℕ) (dir : Dir)
    → Distinct dir
    → (dir' : Dir) × (apply_retention elapsed retention active_id dir ≡ (ok tt, dir'))
      × Pruned active_id dir dir'
unfolding apply_retention
apply_retention-Pruned elapsed keep_all active_id dir d = (dir, refl, Pruned-refl active_id dir d)
apply_retention-Pruned elapsed (max_bytes limit) active_id dir d =
    let e = evict_until_under-Evicted active_id limit dir d in
    (e.0, e.1, Evicted-Pruned active_id limit dir e.0 e.2)
apply_retention-Pruned elapsed (max_age age) active_id dir d =
    evict_older_than-Pruned elapsed active_id age (list_segment_files dir) dir d
      (Present-list dir d)

module _ (crc32c : Bytes → ℕ) where
  truncate-Distinct :
      (active_id checkpoint : ℕ) (ids : List ℕ) (dir : Dir)
      → Distinct dir
      → Distinct (truncate_before_checkpoint crc32c active_id checkpoint ids dir)
  unfolding truncate_before_checkpoint
  truncate-Distinct active_id checkpoint [] dir d = d
  truncate-Distinct active_id checkpoint (x ∷ xs) dir d =
      elim (Bool-cases (goes crc32c active_id checkpoint x dir)) [
        | inl e ↦
            rw (truncate_before_checkpoint, e)
              (truncate-Distinct active_id checkpoint xs (remove_file x dir)
                (Distinct-without x dir d))
        | inr e ↦
            rw (truncate_before_checkpoint, e) (truncate-Distinct active_id checkpoint xs dir d)
      ]

  pub truncate-Pruned :
      (active_id checkpoint : ℕ) (ids : List ℕ) (dir : Dir)
      → Distinct dir
      → Pruned active_id dir (truncate_before_checkpoint crc32c active_id checkpoint ids dir)
  truncate-Pruned active_id checkpoint ids dir d = record {
    files = λ id.
        elim (truncate_before_checkpoint-KeptOrBefore crc32c active_id checkpoint ids dir id) [
          | inl same ↦ inl same
          | inr gone ↦ inr (gone.0, gone.1)
        ];
    distinct = truncate-Distinct active_id checkpoint ids dir d;
  }
