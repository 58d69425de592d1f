-- ===== src/Storage/Segments/Roll/Evict.antt =====
-- What retention by size (`evict_until_under` of logdb/src/storage/mod.rs) deletes.
use lv_logdb.Prelude.{
  ℕ, ◌+◌, ◌-◌, ◌≤◌, ◌<◌, ◌≡◌, ◌≢◌, refl, sym, ap, ◌∙◌, ◌⊎◌, inl, inr, none, some, Bool-cases, List,
  [], ◌∷◌, length, leb, leb→le, leb-false→lt, arith, ok, ℕ_discrete, find-remove_self,
  find-remove_ne,
}
use lv_logdb.Storage.Disk.{SegFile, Dir, file_of, total_size}
use lv_logdb.Storage.Disk.Distinct.{
  Distinct, Distinct-without, total_size-without, file_of-without-none,
}
use lv_logdb.Storage.Segments.Manager.{Among}
use lv_logdb.Storage.Segments.Roll.{
  list_segment_files, sort_ids, remove_file, evict_loop, evict_until_under,
}
use lv_logdb.Storage.Segments.Roll.Listing.{
  Above, Ascending, Above-lt, listed, listed_there, Among-sort_ids, Among-sort_ids_inv,
  Ascending-sort_ids,
}

-- A file is deleted or as it was, and never from the active one on; the rest is under the limit, or
-- no file is left below the active one; the last file deleted had to go; a file is deleted only with
-- all the ones before it; and names stay distinct.
pub record Evicted (active_id limit : ℕ) (dir dir' : Dir) : Type 0 where
  pub fewer : (id : ℕ) → (file_of id dir' ≡ none) ⊎ (file_of id dir' ≡ file_of id dir)
  pub above : (id : ℕ) → (id < active_id) ⊎ (file_of id dir' ≡ file_of id dir)
  pub under : (total_size dir' ≤ limit) ⊎ ((id : ℕ) → (file_of id dir' ≡ none) ⊎ (active_id ≤ id))
  pub needed :
      (dir' ≡ dir)
      ⊎ ((id : ℕ) × (f : SegFile) × (file_of id dir ≡ some f)
          × (limit < total_size dir' + length f.content))
  pub distinct : Distinct dir'
  pub oldest : (i j : ℕ) → (j ≤ i) ⊎ ((file_of i dir' ≡ none) ⊎ (file_of j dir' ≡ file_of j dir))

-- The list has exactly the ids of the files.
record Lists (ids : List ℕ) (dir : Dir) : Type 0 where
  every : (id : ℕ) → (file_of id dir ≡ none) ⊎ Among id ids
  there : (id : ℕ) → Among id ids → (f : SegFile) × (file_of id dir ≡ some f)

Lists-rest :
    (x : ℕ) (xs : List ℕ) (dir : Dir)
    → Above x xs
    → Lists (x ∷ xs) dir
    → Lists xs (remove_file x dir)
Lists-rest x xs dir up l = record {
  every = λ id. elim (ℕ_discrete id x) [
    | yes here ↦ inl (rw here (find-remove_self ℕ_discrete x dir))
    | no n ↦ elim (l.every id) [
      | inl absent ↦ inl (find-remove_ne ℕ_discrete id x dir n ∙ absent)
      | inr (inl e) ↦ absurd (n e)
      | inr (inr m) ↦ inr m
    ]
  ];
  there = λ id m.
      let lt = Above-lt x id xs up m in
      let f = l.there id (inr m) in
      (f.0, find-remove_ne ℕ_discrete id x dir (λ e. omega arith) ∙ f.1);
}

-- The loop ends at `x`, with the limit reached or at the active segment.
Evicted-stop :
    (active_id limit x : ℕ) (xs : List ℕ) (dir : Dir)
    → Above x xs
    → Distinct dir
    → Lists (x ∷ xs) dir
    → (active_id ≤ x) ⊎ (total_size dir ≤ limit)
    → Evicted active_id limit dir dir
Evicted-stop active_id limit x xs dir up d l why = record {
  fewer = λ id. inr refl;
  above = λ id. inr refl;
  under = elim why [
    | inr small ↦ inl small
    | inl high ↦ inr (λ id. elim (l.every id) [
      | inl absent ↦ inl absent
      | inr (inl e) ↦ inr (omega arith)
      | inr (inr m) ↦ inr (omega (arith, Above-lt x id xs up m))
    ])
  ];
  needed = inl refl;
  distinct = d;
  oldest = λ i j. inr (inr refl);
}

-- The file `x` goes, then some of the others.
Evicted-next :
    (active_id limit x : ℕ) (f : SegFile) (xs : List ℕ) (dir dir' : Dir)
    → Above x xs
    → Lists (x ∷ xs) dir
    → file_of x dir ≡ some f
    → total_size dir ≡ length f.content + total_size (remove_file x dir)
    → x < active_id
    → limit < total_size dir
    → Evicted active_id limit (remove_file x dir) dir'
    → Evicted active_id limit dir dir'
Evicted-next active_id limit x f xs dir dir' up l there size low over e =
    let other : (id : ℕ) → id ≢ x → file_of id (remove_file x dir) ≡ file_of id dir =
      (λ id n. find-remove_ne ℕ_discrete id x dir n) in
    let gone : file_of x dir' ≡ none = elim (e.fewer x) [
      | inl none_left ↦ none_left
      | inr same ↦ same ∙ find-remove_self ℕ_discrete x dir
    ] in
    record {
      fewer = λ id. elim (ℕ_discrete id x) [
        | yes here ↦ inl (rw here gone)
        | no n ↦ elim (e.fewer id) [ inl absent ↦ inl absent | inr same ↦ inr (same ∙ other id n) ]
      ];
      above = λ id. elim (ℕ_discrete id x) [
        | yes here ↦ inl (omega arith)
        | no n ↦ elim (e.above id) [ inl lt ↦ inl lt | inr same ↦ inr (same ∙ other id n) ]
      ];
      under = e.under;
      needed = elim e.needed [
        | inl same ↦ inr (x, f, there, omega (arith, ap total_size same))
        | inr last ↦ elim (ℕ_discrete last.0 x) [
          | yes here ↦
              let lost = find-remove_self ℕ_discrete x dir in
              let found : file_of x (remove_file x dir) ≡ some last.1 = rw here at last.2 in
              absurd cc
          | no n ↦ inr (last.0, last.1, sym (other last.0 n) ∙ last.2, last.3)
        ]
      ];
      distinct = e.distinct;
      oldest = λ i j. elim (ℕ_discrete j x) [
        | no n ↦ elim (e.oldest i j) [
          | inl le ↦ inl le
          | inr (inl absent) ↦ inr (inl absent)
          | inr (inr same) ↦ inr (inr (same ∙ other j n))
        ]
        | yes here ↦ elim (l.every i) [
          | inr (inl same) ↦ inl (omega arith)
          | inr (inr m) ↦ inl (omega (arith, Above-lt x i xs up m))
          | inl absent ↦ elim (e.fewer i) [
            | inl none_left ↦ inr (inl none_left)
            | inr same ↦ inr (inl (same ∙ file_of-without-none x i dir absent))
          ]
        ]
      ];
    }

evict_loop-Evicted :
    (active_id limit : ℕ) (ids : List ℕ) (dir : Dir)
    → Ascending ids
    → Distinct dir
    → Lists ids dir
    → (dir' : Dir) × (evict_loop active_id limit ids (total_size dir) dir ≡ (ok tt, dir'))
      × Evicted active_id limit dir dir'
unfolding evict_loop
evict_loop-Evicted active_id limit [] dir up d l = (
  dir,
  refl,
  record {
    fewer = λ id. inr refl;
    above = λ id. inr refl;
    under = inr (λ id. elim (l.every id) [
      | inl absent ↦ inl absent
      | inr none_listed ↦ absurd none_listed
    ]);
    needed = inl refl;
    distinct = d;
    oldest = λ i j. inr (inr refl);
  },
)
evict_loop-Evicted active_id limit (x ∷ xs) dir (up, ups) d l =
    elim (Bool-cases (leb active_id x)) [
      | inl high ↦ (
        dir,
        rw (evict_loop, high) refl,
        Evicted-stop active_id limit x xs dir up d l (inl (leb→le active_id x high)),
      )
      | inr low ↦ elim (Bool-cases (leb (total_size dir) limit)) [
        | inl small ↦ (
          dir,
          rw (evict_loop, low, small) refl,
          Evicted-stop active_id limit x xs dir up d l (inr (leb→le (total_size dir) limit small)),
        )
        | inr over ↦
            let f = l.there x (inl refl) in
            let size = total_size-without x f.0 dir d f.1 in
            let left : total_size dir - length f.0.content ≡ total_size (remove_file x dir) =
              omega (arith, size) in
            let rest =
              evict_loop-Evicted active_id limit xs (remove_file x dir) ups
                (Distinct-without x dir d) (Lists-rest x xs dir up l) in
            (
              rest.0,
              rw (evict_loop, low, over, f.1, left) rest.1,
              Evicted-next active_id limit x f.0 xs dir rest.0 up l f.1 size
                  (leb-false→lt active_id x low) (leb-false→lt (total_size dir) limit over) rest.2,
            )
      ]
    ]

-- Retention by size succeeds in a directory, whose names are distinct. Each file is deleted or stays as it was,
-- and the active one and all behind it stay. In the end the bytes of all files are at most the limit,
-- or no file below the active one is left. Nothing is deleted needlessly: the directory is as it was,
-- or some deleted file's bytes would have brought the rest over the limit again. And the oldest go
-- first: of two files, the later one is only deleted together with the earlier one. Names stay distinct.
pub evict_until_under-Evicted :
    (active_id limit : ℕ) (dir : Dir)
    → Distinct dir
    → (dir' : Dir) × (evict_until_under active_id limit dir ≡ (ok tt, dir'))
      × Evicted active_id limit dir dir'
unfolding evict_until_under
evict_until_under-Evicted active_id limit dir d =
    evict_loop-Evicted active_id limit (sort_ids (list_segment_files dir)) dir
      (Ascending-sort_ids dir d) d
      record {
        every = λ id. elim (listed id dir) [
          | inl absent ↦ inl absent
          | inr m ↦ inr (Among-sort_ids id (list_segment_files dir) m)
        ];
        there = λ id m. listed_there id dir (Among-sort_ids_inv id (list_segment_files dir) m);
      }
