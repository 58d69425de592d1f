-- ===== src/Storage/Segments/Roll/Swapped.antt =====
-- The swap of `roll` (logdb/src/storage/mod.rs): the next segment becomes active.
use lv_logdb.Prelude.{
  ℕ, suc, ◌+◌, ◌-◌, ◌%◌, ◌^◌, ◌≤◌, ◌<◌, ◌≡◌, ◌≢◌, refl, sym, ap, subst, ◌∙◌, ◌⊎◌, inl, inr, true,
  none, some, Option-cases, List, [], ◌∷◌, ◌++◌, Bytes, length, arith, ok, ℕ_discrete, put,
  find-put_self, find-put_ne,
}
use native.Mathlib.Nat.{mod-eq_of_lt}
use lv_logdb.Format.Header.{serialize}
use lv_logdb.Format.Header.RoundTrip.{length-serialize}
use lv_logdb.Storage.Disk.{SegFile, Dir, file_of, content_of, bytes_of, dirty_of, fdatasync}
use lv_logdb.Storage.Disk.Files.{file_of-fdatasync_ne, content_of-fdatasync}
use lv_logdb.Storage.Disk.Distinct.{Distinct, Distinct-put, Distinct-fdatasync}
use lv_logdb.Storage.Segments.{SegmentManager, ActiveSegment, new_header, open_segment}
use lv_logdb.Storage.Segments.Manager.{IsManager, LaidOut, Ahead, Among}
use lv_logdb.Storage.Segments.Append.Kept.{with_file, create-with_file}
use lv_logdb.Storage.Segments.Roll.{start_new, swap_of, swap, activate}

Among-end : (id p : ℕ) (ps : List ℕ) → Among id ps ⊎ (id ≡ p) → Among id (ps ++ (p ∷ []))
Among-end id p [] (inl none_yet) = absurd none_yet
Among-end id p [] (inr e) = inl e
Among-end id p (q ∷ qs) (inl (inl e)) = inl e
Among-end id p (q ∷ qs) (inl (inr m)) = inr (Among-end id p qs (inl m))
Among-end id p (q ∷ qs) (inr e) = inr (Among-end id p qs (inr e))

-- What a roll leaves behind: a manager in order, whose active segment is the next one and holds
-- nothing but its header, while the one that was active waits for its sync. Size and layout are as before.
pub record IsRolled (m m' : SegmentManager) : Type 0 where
  pub valid : IsManager m'
  pub next_id : m'.active_id ≡ m.active_id + 1
  pub empty : m'.active.offset ≡ 128
  pub none_ahead : m'.prepared_segment ≡ none
  pub waits : Among m.active_id m'.pending_fsync
  pub same_size : m'.segment_size ≡ m.segment_size
  pub same_key : m'.key_id ≡ m.key_id
  pub same_layout : m'.active.compressed ≡ m.compressed
  pub same_default : m'.compressed ≡ m.compressed

abbrev activated : SegmentManager → ActiveSegment → Dir → SegmentManager
activated m a dir = record (activate m (m.active_id + 1) a) { dir = dir }

activated-IsRolled :
    (m : SegmentManager) (a : ActiveSegment) (dir : Dir)
    → IsManager m
    → a.path ≡ m.active_id + 1
    → a.offset ≡ 128
    → length (content_of (m.active_id + 1) dir) ≡ 128
    → ((j : ℕ) → j ≢ m.active_id + 1 → file_of j dir ≡ file_of j m.dir)
    → Distinct dir
    → a.compressed ≡ m.compressed
    → IsRolled m (activated m a dir)
activated-IsRolled m a dir i path empty size other d laid = record {
  valid = record {
    path_is = path;
    header_in = omega arith;
    sized = size ∙ sym empty;
    ahead =
        let next : m.active_id + 1 + 1 ≡ m.active_id + 2 + 0 = omega arith in
        rw next (other (m.active_id + 2 + 0) (λ e. omega arith) ∙ i.beyond 0);
    beyond = λ n.
        let next : m.active_id + 1 + 2 + n ≡ m.active_id + 2 + suc n = omega arith in
        rw next (other (m.active_id + 2 + suc n) (λ e. omega arith) ∙ i.beyond (suc n));
    covered = λ id. elim (ℕ_discrete id (m.active_id + 1)) [
      | yes here ↦ inr (inr (omega arith))
      | no n ↦ elim (i.covered id) [
        | inl safe ↦ inl (ap dirty_of (other id n) ∙ safe)
        | inr (inl waiting) ↦ inr (inl (Among-end id m.active.path m.pending_fsync (inl waiting)))
        | inr (inr above) ↦ elim (ℕ_discrete id m.active_id) [
          | yes old ↦
              inr (inl (Among-end id m.active.path m.pending_fsync (inr (old ∙ sym i.path_is))))
          | no n' ↦ inr (inr (above_old id above n'))
        ]
      ]
    ];
    distinct = d;
    strided = i.strided;
    hash_init_in = i.hash_init_in;
    last_hash_in = i.last_hash_in;
    layout = tt;
    some_size = i.some_size;
  };
  next_id = refl;
  empty = empty;
  none_ahead = refl;
  waits = Among-end m.active_id m.active.path m.pending_fsync (inr (sym i.path_is));
  same_size = refl;
  same_key = refl;
  same_layout = laid;
  same_default = refl;
}
  where
    above_old : (id : ℕ) → m.active_id ≤ id → id ≢ m.active_id → m.active_id + 1 ≤ id
    above_old id le n = ground arith

start_new-IsRolled :
    (crc32c : Bytes → ℕ) (m : SegmentManager) (base : ℕ)
    → IsManager m
    → file_of (m.active_id + 1) m.dir ≡ none
    → (m' : SegmentManager) × (start_new crc32c m (m.active_id + 1) base ≡ (ok tt, m'))
      × IsRolled m m'
unfolding with_file new_header
start_new-IsRolled crc32c m base i free =
    let id = m.active_id + 1 in
    let header = new_header m id base in
    let file : SegFile = record { content = serialize crc32c header m.last_hash; dirty = true } in
    let made = put ℕ_discrete id file m.dir in
    let a = open_segment id 128 base (2 ^ 64 - 1) 0 m.compressed in
    (
      activated m a (fdatasync id made),
      rw (start_new, create-with_file crc32c m header free) refl,
      activated-IsRolled m a (fdatasync id made) i refl refl
          (ap length (content_of-fdatasync id id made)
            ∙ ap (λ f. length (bytes_of f)) (find-put_self ℕ_discrete id file m.dir)
            ∙ length-serialize crc32c header m.last_hash i.hash_init_in i.last_hash_in)
          (λ j n. file_of-fdatasync_ne j id made n ∙ find-put_ne ℕ_discrete j id file m.dir n)
          (Distinct-fdatasync id made (Distinct-put id file m.dir i.distinct)) refl,
    )

pub swap-IsRolled :
    (crc32c : Bytes → ℕ) (m : SegmentManager) (base : ℕ)
    → IsManager m
    → m.active_id + 1 < 2 ^ 32
    → (m' : SegmentManager) × (swap crc32c m base ≡ (ok tt, m')) × IsRolled m m'
unfolding swap
swap-IsRolled crc32c m base i small = elim (Option-cases m.prepared_segment) [
  | inr there ↦
      let p = there.0 in
      let a : Ahead (some p) (m.active_id + 1) m.dir =
        subst (λ o. Ahead o (m.active_id + 1) m.dir) there.1 i.ahead in
      let laid : LaidOut (some p) m.compressed =
        subst (λ o. LaidOut o m.compressed) there.1 i.layout in
      (
        activated m p.1 m.dir,
        ap (swap_of crc32c m base) there.1 ∙ ap (λ id. (ok tt, activate m id p.1)) a.0,
        activated-IsRolled m p.1 m.dir i a.1 a.2 a.3 (λ j n. refl) i.distinct laid,
      )
  | inl none_there ↦
      let free = subst (λ o. Ahead o (m.active_id + 1) m.dir) none_there i.ahead in
      let id : (m.active_id + 1) % 2 ^ 32 ≡ m.active_id + 1 = mod-eq_of_lt small in
      let new = start_new-IsRolled crc32c m base i free in
      (
        new.0,
        ap (swap_of crc32c m base) none_there ∙ ap (λ id. start_new crc32c m id base) id ∙ new.1,
        new.2,
      )
]
