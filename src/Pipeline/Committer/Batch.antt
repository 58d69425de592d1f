-- ===== src/Pipeline/Committer/Batch.antt =====
-- The committer (logdb/src/pipeline/committer.rs) takes only records that are ready.
use native.Mathlib.Nat.{le_refl}
use native.Mathlib.Decide.{dec_lt}
use lv_logdb.Prelude.{
  ℕ, ◌+◌, ◌^◌, ◌≤◌, ◌<◌, ◌≡◌, refl, ap, ◌∙◌, true, false, some, arith, if◌then◌else◌, Bool-cases,
  inl, inr, ◌⊎◌,
}
use lv_logdb.Ring.{Ring, highest_published_contiguous}
use lv_logdb.Ring.System.Inv.{IsRing}
use lv_logdb.Pipeline.Sealer.Scan.{Published, highest_published_contiguous-end}
use lv_logdb.Pipeline.Committer.{available_hi, choose_batch_end, next_of}

-- What is ready below `avail`: sealed where hashes are on, and else published from `from` on.
abbrev pub Ready : Ring → ℕ → ℕ → Type 0
Ready r from avail =
    ((r.hash_enabled ≡ true) × (avail ≤ r.sealed_cursor))
    ⊎ ((r.hash_enabled ≡ false) × Published r from avail)

pub choose_batch_end-lt :
    (committed avail buf_capacity : ℕ)
    → committed < avail
    → avail < 2 ^ 64
    → (committed ≤ choose_batch_end committed avail buf_capacity)
      × (choose_batch_end committed avail buf_capacity < avail)
unfolding choose_batch_end
choose_batch_end-lt committed avail buf_capacity less small = (omega arith, omega arith)

Ready-le : (r : Ring) (from avail to : ℕ) → Ready r from avail → to ≤ avail → Ready r from to
Ready-le r from avail to (inl h) le = inl (h.0, omega arith)
Ready-le r from avail to (inr h) le = inr (h.0, λ q a b. h.1 q a (omega arith))

batch :
    (r : Ring) (committed avail buf_capacity : ℕ)
    → avail < 2 ^ 64
    → Ready r committed avail
    → (avail ≤ committed)
      ⊎ ((committed ≤ choose_batch_end committed avail buf_capacity)
          × (choose_batch_end committed avail buf_capacity < avail)
          × Ready r committed (choose_batch_end committed avail buf_capacity + 1))
batch r committed avail buf_capacity small ready = elim (dec_lt committed avail) [
  | yes less ↦
      let within = choose_batch_end-lt committed avail buf_capacity less small in
      inr (
        within.0,
        within.1,
        Ready-le r committed avail (choose_batch_end committed avail buf_capacity + 1) ready
            (omega arith),
      )
  | no none_left ↦ inl (omega arith)
]

-- On a ring between its threads, with more fuel than there are
-- numbers between the committed and the producers' cursor, `available_hi` returns a number between
-- these cursors, below which all records are ready. If there is a record below it, then the end that
-- `choose_batch_end` gives for any buffer is the number of a record that is ready as are all from
-- the committed cursor to it, and the batch has at least one.
pub available_hi-choose_batch_end :
    {k : ℕ} {r : Ring} (v : IsRing k r) (fuel buf_capacity : ℕ)
    → r.producer_cursor < r.committed_cursor + fuel
    → (avail : ℕ) × (available_hi fuel r r.committed_cursor ≡ some avail)
      × (r.committed_cursor ≤ avail)
      × (avail ≤ r.producer_cursor)
      × Ready r r.committed_cursor avail
      × ((avail ≤ r.committed_cursor)
          ⊎ ((r.committed_cursor ≤ choose_batch_end r.committed_cursor avail buf_capacity)
              × (choose_batch_end r.committed_cursor avail buf_capacity < avail)
              × Ready r r.committed_cursor
                  (choose_batch_end r.committed_cursor avail buf_capacity + 1)))
unfolding available_hi
available_hi-choose_batch_end {k} {r} v fuel size enough = elim (Bool-cases r.hash_enabled) [
  | inl on ↦
      let behind : r.committed_cursor ≤ r.sealed_cursor = rw on at v.committed_le in
      let ahead : r.sealed_cursor ≤ r.producer_cursor = rw on at v.frontier_le in
      let ready : Ready r r.committed_cursor r.sealed_cursor = inl (on, le_refl r.sealed_cursor) in
      (
        r.sealed_cursor,
        rw on refl,
        behind,
        ahead,
        ready,
        batch r r.committed_cursor r.sealed_cursor size (omega (arith, v.small)) ready,
      )
  | inr off ↦
      let inside : r.committed_cursor ≤ r.producer_cursor = rw off at v.frontier_le in
      let end =
        highest_published_contiguous-end v fuel r.committed_cursor r.committed_cursor
          (le_refl r.committed_cursor) inside enough (λ q a b. absurd (omega arith)) in
      let next = end.1 in
      let ready : Ready r r.committed_cursor next = inr (off, end.6) in
      (
        next,
        ap
              (λ b.
                if b
                then some r.sealed_cursor
                else next_of (highest_published_contiguous fuel r r.committed_cursor))
              off
            ∙ ap next_of end.2
            ∙ ap some end.3,
        end.4,
        end.5,
        ready,
        batch r r.committed_cursor next size (omega (arith, v.small, end.5)) ready,
      )
]
