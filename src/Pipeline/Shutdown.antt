-- ===== src/Pipeline/Shutdown.antt =====
-- `ShutdownState` of logdb/src/pipeline/signal.rs: appends that enter and leave, and `drain` of
-- logdb/src/lib.rs that waits for them, as interleavings of their atomic steps. The callers are a
-- list of threads. Other than there, one thread drains.
pub mod Quiet
use lv_logdb.Prelude.{
  ℕ, ◌+◌, ◌-◌, ◌%◌, ◌^◌, ◌≡◌, Bool, true, false, Option, some, List, replicate, leb, ◌&&◌, ◌!=◌,
  get_elem?, set, if◌then◌else◌,
}

-- `ShutdownState`
pub record ShutdownState : Type 0 where
  pub phase : ℕ
  pub drain_target : ℕ
  pub in_flight : ℕ

abbrev pub u64_max : ℕ
u64_max = 2 ^ 64 - 1

unfoldable pub default : ShutdownState
default = record { phase = 0; drain_target = u64_max; in_flight = 0 }

-- The atomic steps of `enter` and `leave`.
unfoldable pub fetch_add : ShutdownState → ShutdownState
fetch_add s = record s { in_flight = (s.in_flight + 1) % 2 ^ 64 }

unfoldable pub fetch_sub : ShutdownState → ShutdownState
fetch_sub s = record s { in_flight = (s.in_flight + 2 ^ 64 - 1) % 2 ^ 64 }

unfoldable pub draining : ShutdownState → Bool
draining s = leb 1 s.phase

unfoldable pub aborted : ShutdownState → Bool
aborted s = leb 2 s.phase

unfoldable pub should_stop : ShutdownState → ℕ → Bool
should_stop s processed_cursor =
    if aborted s
    then true
    else if draining s
    then (s.drain_target != u64_max) && leb s.drain_target processed_cursor
    else false

unfoldable pub start_drain : ShutdownState → ShutdownState
start_drain s = record s { phase = 1 }

unfoldable pub abort : ShutdownState → ShutdownState
abort s = record s { phase = 2 }

-- Where a caller of `append` stands: before `enter`, between its two steps, before the step back, or
-- between `enter` and `leave`.
pub data Caller : Type 0 where
  outside : Caller
  reserved : Caller
  refused : Caller
  appending : Caller

-- Where `drain` stands: not called, in its loop, behind the loop, or timed out.
pub data Drain : Type 0 where
  not_called : Drain
  waiting : Drain
  drained : Drain
  timed_out : Drain

pub record Guard : Type 0 where
  pub state : ShutdownState
  pub callers : List Caller
  pub drain : Drain

abbrev pub move : Guard → ShutdownState → ℕ → Caller → Guard
move g state i c = record g { state = state; callers = set g.callers i c }

pub data Step (g : Guard) : Guard → Type 0 where
  reserve :
      (i : ℕ)
      → get_elem? g.callers i ≡ some outside
      → Step g (move g (fetch_add g.state) i reserved)
  admit :
      (i : ℕ)
      → get_elem? g.callers i ≡ some reserved
      → draining g.state ≡ false
      → Step g (move g g.state i appending)
  refuse :
      (i : ℕ)
      → get_elem? g.callers i ≡ some reserved
      → draining g.state ≡ true
      → Step g (move g g.state i refused)
  back_out :
      (i : ℕ) → get_elem? g.callers i ≡ some refused → Step g (move g (fetch_sub g.state) i outside)
  leave :
      (i : ℕ)
      → get_elem? g.callers i ≡ some appending
      → Step g (move g (fetch_sub g.state) i outside)
  call_drain :
      g.drain ≡ not_called → Step g (record g { state = start_drain g.state; drain = waiting })
  see_zero : g.drain ≡ waiting → g.state.in_flight ≡ 0 → Step g (record g { drain = drained })
  time_out : g.drain ≡ waiting → Step g (record g { state = abort g.state; drain = timed_out })

abbrev pub begin : ℕ → Guard
begin n = record { state = default; callers = replicate n outside; drain = not_called }

pub data Reach (n : ℕ) : Guard → Type 0 where
  start : Reach n (begin n)
  later : {g h : Guard} → Reach n g → Step g h → Reach n h
