-- ===== src/Storage/Segments/Sync/Durable.antt =====
-- After `sync_all` of logdb/src/storage/mod.rs nothing that the committer has written is at risk.
use lv_logdb.Prelude.{
  ℕ, ◌+◌, ◌≤◌, ◌<◌, ◌≡◌, ◌≢◌, refl, sym, ap, ◌∙◌, ◌⊎◌, inl, inr, false, Option, none, some,
  Option-cases, List, [], ◌∷◌, arith, ok, err, ℕ_discrete, length,
}
use lv_logdb.Storage.Disk.{Dir, file_of, content_of, dirty_of, at_risk, fdatasync, fsync_path}
use lv_logdb.Storage.Disk.Files.{
  file_of-fdatasync, file_of-fdatasync_ne, content_of-fdatasync, fdatasync_missing,
}
use lv_logdb.Storage.Disk.Distinct.{Distinct, Distinct-fdatasync}
use lv_logdb.Storage.Segments.{SegmentManager, ActiveSegment, io}
use lv_logdb.Storage.Segments.Manager.{IsManager, Among, Ahead}
use lv_logdb.Storage.Segments.Sync.{sync_paths, sync_end, sync_all}

-- The bytes are the same, no file is new, and none is at risk that was not.
pub record Synced (dir dir' : Dir) : Type 0 where
  pub contents : (id : ℕ) → content_of id dir' ≡ content_of id dir
  pub absent : (id : ℕ) → file_of id dir ≡ none → file_of id dir' ≡ none
  pub distinct : Distinct dir → Distinct dir'
  pub risks : (id : ℕ) → (at_risk id dir' ≡ false) ⊎ (file_of id dir' ≡ file_of id dir)

at_risk-fdatasync : (p : ℕ) (dir : Dir) → at_risk p (fdatasync p dir) ≡ false
at_risk-fdatasync p dir = elim (Option-cases (file_of p dir)) [
  | inl missing ↦ ap (at_risk p) (fdatasync_missing p dir missing) ∙ ap dirty_of missing
  | inr there ↦ ap dirty_of (file_of-fdatasync p there.0 dir there.1)
]

pub fdatasync-Synced : (p : ℕ) (dir : Dir) → Synced dir (fdatasync p dir)
fdatasync-Synced p dir = record {
  contents = λ id. content_of-fdatasync id p dir;
  absent = λ id none_there. elim (ℕ_discrete id p) [
    | yes here ↦ ap (file_of id) (fdatasync_missing p dir (rw (← here) none_there)) ∙ none_there
    | no n ↦ file_of-fdatasync_ne id p dir n ∙ none_there
  ];
  distinct = Distinct-fdatasync p dir;
  risks = λ id. elim (ℕ_discrete id p) [
    | yes here ↦ inl (rw here (at_risk-fdatasync p dir))
    | no n ↦ inr (file_of-fdatasync_ne id p dir n)
  ];
}

pub Synced-then : (a b c : Dir) → Synced a b → Synced b c → Synced a c
Synced-then a b c s t = record {
  contents = λ id. t.contents id ∙ s.contents id;
  absent = λ id none_there. t.absent id (s.absent id none_there);
  distinct = λ d. t.distinct (s.distinct d);
  risks = λ id. elim (t.risks id) [
    | inl safe ↦ inl safe
    | inr same ↦ elim (s.risks id) [
      | inl safe ↦ inl (ap dirty_of same ∙ safe)
      | inr as_before ↦ inr (same ∙ as_before)
    ]
  ];
}

Synced-safe : (a b : Dir) (id : ℕ) → Synced a b → at_risk id a ≡ false → at_risk id b ≡ false
Synced-safe a b id s safe = elim (s.risks id) [ inl now ↦ now | inr same ↦ ap dirty_of same ∙ safe ]

-- A file that waits for its sync is missing.
abbrev pub Missing : List ℕ → Dir → Type 0
Missing [] dir = ⊥
Missing (p ∷ ps) dir = (file_of p dir ≡ none) ⊎ Missing ps dir

Missing-fdatasync :
    (p : ℕ) (ps : List ℕ) (dir : Dir) → Missing ps (fdatasync p dir) → Missing ps dir
Missing-fdatasync p [] dir m = m
Missing-fdatasync p (q ∷ qs) dir (inr more) = inr (Missing-fdatasync p qs dir more)
Missing-fdatasync p (q ∷ qs) dir (inl m) = elim (Option-cases (file_of q dir)) [
  | inl missing ↦ inl missing
  | inr there ↦ elim (ℕ_discrete q p) [
    | no n ↦ inl (sym (file_of-fdatasync_ne q p dir n) ∙ m)
    | yes here ↦
        let found = file_of-fdatasync q there.0 dir there.1 in
        let lost : file_of q (fdatasync q dir) ≡ none = rw (← here) at m in absurd cc
  ]
]

pub sync_paths-Synced :
    (ps : List ℕ) (dir : Dir)
    → ((d : Dir) × (sync_paths ps dir ≡ (err io, d)) × Missing ps dir)
      ⊎ ((d : Dir) × (sync_paths ps dir ≡ (ok tt, d))
          × Synced dir d
          × ((id : ℕ) → (at_risk id d ≡ false) ⊎ ¬ Among id ps))
unfolding sync_paths fsync_path
sync_paths-Synced [] dir = inr (
  dir,
  refl,
  record {
    contents = λ id. refl;
    absent = λ id none_there. none_there;
    distinct = λ d. d;
    risks = λ id. inr refl;
  },
  λ id. inr (λ a. a),
)
sync_paths-Synced (p ∷ ps) dir = elim (Option-cases (file_of p dir)) [
  | inl missing ↦ inl (dir, rw (sync_paths, fsync_path, missing) refl, inl missing)
  | inr there ↦
      let synced = fdatasync p dir in
      let first : sync_paths (p ∷ ps) dir ≡ sync_paths ps synced =
        rw (sync_paths, fsync_path, there.1) refl in
      elim (sync_paths-Synced ps synced) [
        | inl lost ↦ inl (lost.0, first ∙ lost.1, inr (Missing-fdatasync p ps dir lost.2))
        | inr done ↦ inr (
          done.0,
          first ∙ done.1,
          Synced-then dir synced done.0 (fdatasync-Synced p dir) done.2,
          λ id. elim (ℕ_discrete id p) [
            | yes here ↦
                inl (Synced-safe synced done.0 id done.2 (rw here (at_risk-fdatasync p dir)))
            | no n ↦ elim (done.3 id) [
              | inl safe ↦ inl safe
              | inr other ↦ inr (λ a. elim a [ inl here ↦ n here | inr more ↦ other more ])
            ]
          ],
        )
      ]
]

Ahead-Synced :
    (p : Option (ℕ × ActiveSegment)) (id : ℕ) (dir dir' : Dir)
    → Synced dir dir'
    → Ahead p id dir
    → Ahead p id dir'
Ahead-Synced none id dir dir' s a = s.absent id a
Ahead-Synced (some p) id dir dir' s (a, b, c, d) = (a, b, c, ap length (s.contents id) ∙ d)

-- `sync_all` fails with an I/O error, and then a file that waited for its sync is missing from the
-- directory; or it succeeds, and then no file from the active one down has a byte at risk. In that
-- case every file has the bytes that it had, nothing waits any more, and what holds of the manager
-- between calls holds again.
pub sync_all-Durable :
    (m : SegmentManager) (id : ℕ)
    → IsManager m
    → id ≤ m.active_id
    → ((m' : SegmentManager) × (sync_all m ≡ (err io, m')) × Missing m.pending_fsync m.dir)
      ⊎ ((m' : SegmentManager) × (sync_all m ≡ (ok tt, m'))
          × (at_risk id m'.dir ≡ false)
          × (content_of id m'.dir ≡ content_of id m.dir)
          × (m'.pending_fsync ≡ [])
          × IsManager m')
unfolding sync_all
sync_all-Durable m id i h = elim (sync_paths-Synced m.pending_fsync m.dir) [
  | inl lost ↦ inl (record m { pending_fsync = []; dir = lost.0 }, ap (sync_end m) lost.1, lost.2)
  | inr done ↦
      let dir = fdatasync m.active.path done.0 in
      let s = Synced-then m.dir done.0 dir done.2 (fdatasync-Synced m.active.path done.0) in
      let safe : (j : ℕ) → (at_risk j dir ≡ false) ⊎ (m.active_id < j) = (λ j. elim (done.3 j) [
        | inl now ↦ inl (Synced-safe done.0 dir j (fdatasync-Synced m.active.path done.0) now)
        | inr not_waiting ↦ elim (i.covered j) [
          | inl before ↦ inl (Synced-safe m.dir dir j s before)
          | inr (inl waiting) ↦ absurd (not_waiting waiting)
          | inr (inr above) ↦ elim (ℕ_discrete j m.active.path) [
            | yes here ↦ inl (rw here (at_risk-fdatasync m.active.path done.0))
            | no n ↦ inr (above_active j above n)
          ]
        ]
      ]) in
      inr (
        record m { pending_fsync = []; dir = dir },
        ap (sync_end m) done.1,
        elim (safe id) [ inl now ↦ now | inr above ↦ absurd (omega arith) ],
        s.contents id,
        refl,
        record {
          path_is = i.path_is;
          header_in = i.header_in;
          sized = ap length (s.contents m.active_id) ∙ i.sized;
          ahead = Ahead-Synced m.prepared_segment (m.active_id + 1) m.dir dir s i.ahead;
          beyond = λ n. s.absent (m.active_id + 2 + n) (i.beyond n);
          distinct = s.distinct i.distinct;
          covered = λ j. elim (safe j) [ inl now ↦ inl now | inr above ↦ inr (inr (omega arith)) ];
          strided = i.strided;
          hash_init_in = i.hash_init_in;
          last_hash_in = i.last_hash_in;
          layout = i.layout;
          some_size = i.some_size;
        },
      )
]
  where
    above_active : (j : ℕ) → m.active_id ≤ j → j ≢ m.active.path → m.active_id < j
    above_active j le n = let e = i.path_is in ground arith
