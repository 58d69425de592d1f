-- ===== src/Pipeline/Sealer/Scan.antt =====
-- What the scans for published records find (logdb/src/pipeline/sealer.rs and logdb/src/ring/mod.rs).
use lv_logdb.Prelude.{
  ℕ, zero, suc, ◌+◌, ◌-◌, ◌%◌, ◌^◌, ◌≤◌, ◌<◌, ◌≡◌, ◌⊎◌, inl, inr, refl, ap, ◌∙◌, true, false, none,
  some, leb, ltb, leb→le, arith, Bool-cases,
}
use lv_logdb.Ring.{Ring, published_at, highest_published_contiguous}
use lv_logdb.Ring.System.Inv.{IsRing}
use lv_logdb.Ring.System.Steps.{published_at-lt, published-ne}
use lv_logdb.Pipeline.Sealer.{scan_loop, scan_published}

-- All numbers from `from` to below `to` are published.
abbrev pub Published : Ring → ℕ → ℕ → Type 0
Published r from to = (q : ℕ) → from ≤ q → q < to → published_at r q ≡ true

Published-suc :
    (r : Ring) (from to : ℕ)
    → Published r from to
    → published_at r to ≡ true
    → Published r from (to + 1)
Published-suc r from to all last q a b = elim (Bool-cases (ltb q to)) [
  | inl less ↦ all q a (ground arith)
  | inr same ↦ let e : q ≡ to = ground arith in rw e last
]

-- Where a scan from `from` has stopped: below `hi + 1` all is published, and at `hi + 1` it is not, or the size is reached.
abbrev pub Stops : Ring → ℕ → ℕ → Type 0
Stops r from hi =
    (from ≤ hi + 1)
    × Published r from (hi + 1)
    × (hi + 1 ≤ from + r.ring_size)
    × ((published_at r (hi + 1) ≡ false) ⊎ (hi + 1 ≡ from + r.ring_size))

scan_loop-next :
    (fuel : ℕ) (r : Ring) (from seq seq' : ℕ)
    → published_at r seq ≡ true
    → (seq + 1) % 2 ^ 64 ≡ seq'
    → leb r.ring_size ((seq' + 2 ^ 64 - from) % 2 ^ 64) ≡ false
    → scan_loop (suc fuel) r from seq ≡ scan_loop fuel r from seq'
unfolding scan_loop
scan_loop-next fuel r from seq seq' on up more = rw (on, up, more) (ap (scan_loop fuel r from) up)

highest_published_contiguous-next :
    (fuel : ℕ) (r : Ring) (seq seq' : ℕ)
    → published_at r seq ≡ true
    → (seq + 1) % 2 ^ 64 ≡ seq'
    → highest_published_contiguous (suc fuel) r seq ≡ highest_published_contiguous fuel r seq'
unfolding highest_published_contiguous
highest_published_contiguous-next fuel r seq seq' on up =
    rw (highest_published_contiguous, on) (ap (highest_published_contiguous fuel r) up)

scan_loop-Stops :
    (fuel : ℕ) (r : Ring) (from seq : ℕ)
    → from ≤ seq
    → 1 ≤ seq
    → seq < from + r.ring_size
    → from + r.ring_size ≤ seq + fuel
    → from + r.ring_size < 2 ^ 64
    → Published r from seq
    → (hi : ℕ) × (scan_loop fuel r from seq ≡ some hi) × Stops r from hi
unfolding scan_loop
scan_loop-Stops zero r from seq a pos b enough small all = absurd (omega arith)
scan_loop-Stops (suc fuel) r from seq a pos b enough small all =
    elim (Bool-cases (published_at r seq)) [
      | inr off ↦
          let e : (seq + 2 ^ 64 - 1) % 2 ^ 64 ≡ seq - 1 = omega arith in
          let e' : seq - 1 + 1 ≡ seq = omega arith in
          (seq - 1, rw (off, e) refl, rw e' (a, all, omega arith, inl off))
      | inl on ↦
          let all' = Published-suc r from seq all on in
          let up : (seq + 1) % 2 ^ 64 ≡ seq + 1 = omega arith in
          let far : (seq + 1 + 2 ^ 64 - from) % 2 ^ 64 ≡ seq + 1 - from = omega arith in
          elim (Bool-cases (leb r.ring_size (seq + 1 - from))) [
            | inl whole ↦
                let e : seq + 1 ≡ from + r.ring_size = ground arith in
                (
                  seq,
                  rw (on, up, far, whole) (ap some (omega arith)),
                  (omega arith, all', omega arith, inr e),
                )
            | inr more ↦
                let rest =
                  scan_loop-Stops fuel r from (seq + 1) (omega arith) (omega arith) (ground arith)
                    (omega arith) small all' in
                (
                  rest.0,
                  scan_loop-next fuel r from seq (seq + 1) on up (rw far more) ∙ rest.1,
                  rest.2,
                )
          ]
    ]

ahead :
    (r : Ring) (from hi : ℕ)
    → published_at r from ≡ true
    → 1 ≤ r.ring_size
    → Stops r from hi
    → from ≤ hi
ahead r from hi on size (le, all, cap, inl off) = elim (Bool-cases (leb from hi)) [
  | inl less ↦ leb→le from hi less
  | inr more ↦
      let e : hi + 1 ≡ from = ground arith in absurd (published-ne r (hi + 1) from off on e)
]
ahead r from hi on size (le, all, cap, inr e) = omega arith

-- From a number from 1 on, and a ring size that does not pass 2 ^ 64 from there, `scan_published`
-- returns. It finds nothing exactly when the number itself is not published, and else the end of
-- the run of published numbers from there on, cut at the size of the ring.
pub scan_published-Stops :
    (r : Ring) (from : ℕ)
    → 1 ≤ from
    → 1 ≤ r.ring_size
    → from + r.ring_size < 2 ^ 64
    → ((published_at r from ≡ false) × (scan_published r from ≡ none))
      ⊎ ((hi : ℕ) × (from ≤ hi) × (scan_published r from ≡ some hi) × Stops r from hi)
unfolding scan_published
scan_published-Stops r from pos size small = elim (Bool-cases (published_at r from)) [
  | inr off ↦ inl (off, rw off refl)
  | inl on ↦
      let found =
        scan_loop-Stops r.ring_size r from from (omega arith) pos (omega arith) (omega arith) small
          (λ q a b. absurd (omega arith)) in
      inr (found.0, ahead r from found.0 on size found.2, rw on found.1, found.2)
]

-- On a ring between its threads, `highest_published_contiguous` from a number up to the cursor of
-- the producers returns, on more fuel than the numbers up to the cursor. The number after its result,
-- which wraps from 2 ^ 64 to 0 where a start at 0 finds nothing, is not published and at most the
-- cursor, and all numbers from the start to it are published.
pub highest_published_contiguous-end :
    {k : ℕ} {r : Ring} (v : IsRing k r) (fuel from seq : ℕ)
    → from ≤ seq
    → seq ≤ r.producer_cursor
    → r.producer_cursor < seq + fuel
    → Published r from seq
    → (hi next : ℕ) × (highest_published_contiguous fuel r seq ≡ some hi)
      × ((hi + 1) % 2 ^ 64 ≡ next)
      × (from ≤ next)
      × (next ≤ r.producer_cursor)
      × Published r from next
      × (published_at r next ≡ false)
unfolding highest_published_contiguous
highest_published_contiguous-end v zero from seq le inside enough all = absurd (omega arith)
highest_published_contiguous-end {k} {r} v (suc fuel) from seq le inside enough all =
    elim (Bool-cases (published_at r seq)) [
      | inr off ↦ (
        (seq + 2 ^ 64 - 1) % 2 ^ 64,
        seq,
        rw (highest_published_contiguous, off) refl,
        omega (arith, v.small),
        le,
        inside,
        all,
        off,
      )
      | inl on ↦
          let lt = published_at-lt v seq (omega (arith, v.small)) on in
          let up : (seq + 1) % 2 ^ 64 ≡ seq + 1 = omega (arith, v.small) in
          let rest =
            highest_published_contiguous-end v fuel from (seq + 1) (omega arith) (omega arith)
              (omega arith) (Published-suc r from seq all on) in
          (
            rest.0,
            rest.1,
            highest_published_contiguous-next fuel r seq (seq + 1) on up ∙ rest.2,
            rest.3,
            rest.4,
            rest.5,
            rest.6,
            rest.7,
          )
    ]
