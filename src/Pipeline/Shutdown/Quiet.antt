-- ===== src/Pipeline/Shutdown/Quiet.antt =====
-- Once `drain` (logdb/src/lib.rs) has seen no append in flight, none goes on (logdb/src/pipeline/signal.rs).
use lv_logdb.Prelude.{
  ℕ, zero, suc, ◌+◌, ◌^◌, ◌≤◌, ◌<◌, ◌≡◌, ◌≢◌, ◌∙◌, refl, sym, some, List, [], ◌∷◌, replicate,
  length, get_elem?, set, length-set, length-replicate, arith, ap, subst,
}
use lv_logdb.Pipeline.Shutdown.{
  ShutdownState, default, fetch_add, fetch_sub, draining, start_drain, abort, Caller, outside,
  reserved, refused, appending, Drain, not_called, waiting, drained, timed_out, Guard, move, Step,
  reserve, admit, refuse, back_out, leave, call_drain, see_zero, time_out, Reach, start, later,
}

-- Callers that are counted in flight, and callers that append.
abbrev pub in_flight_of : Caller → ℕ
in_flight_of outside = 0
in_flight_of reserved = 1
in_flight_of refused = 1
in_flight_of appending = 1

abbrev pub appending_of : Caller → ℕ
appending_of outside = 0
appending_of reserved = 0
appending_of refused = 0
appending_of appending = 1

abbrev pub total : (Caller → ℕ) → List Caller → ℕ
total f [] = 0
total f (c ∷ cs) = f c + total f cs

total-set :
    (f : Caller → ℕ) (cs : List Caller) (i : ℕ) (c d : Caller)
    → get_elem? cs i ≡ some c
    → total f (set cs i d) + f c ≡ total f cs + f d
total-set f [] i c d e = absurd cc
total-set f (x ∷ cs) zero c d e = let same : x ≡ c = cc in omega (arith, ap f same)
total-set f (x ∷ cs) (suc i) c d e = omega (arith, total-set f cs i c d e)

appending-le : (cs : List Caller) → total appending_of cs ≤ total in_flight_of cs
appending-le [] = omega arith
appending-le (outside ∷ cs) = omega (arith, appending-le cs)
appending-le (reserved ∷ cs) = omega (arith, appending-le cs)
appending-le (refused ∷ cs) = omega (arith, appending-le cs)
appending-le (appending ∷ cs) = omega (arith, appending-le cs)

total-le : (cs : List Caller) → total in_flight_of cs ≤ length cs
total-le [] = omega arith
total-le (outside ∷ cs) = omega (arith, total-le cs)
total-le (reserved ∷ cs) = omega (arith, total-le cs)
total-le (refused ∷ cs) = omega (arith, total-le cs)
total-le (appending ∷ cs) = omega (arith, total-le cs)

-- What `drain` knows where it stands.
abbrev Knows : Drain → ShutdownState → List Caller → Type 0
Knows not_called s cs = s.phase ≡ 0
Knows waiting s cs = s.phase ≡ 1
Knows drained s cs = (s.phase ≡ 1) × (total appending_of cs ≡ 0)
Knows timed_out s cs = s.phase ≡ 2

record Inv (n : ℕ) (g : Guard) : Type 0 where
  few : length g.callers ≡ n
  counted : g.state.in_flight ≡ total in_flight_of g.callers
  knows : Knows g.drain g.state g.callers

Knows-mono :
    (d : Drain) (s s' : ShutdownState) (cs cs' : List Caller)
    → s'.phase ≡ s.phase
    → (1 ≤ s.phase → total appending_of cs' ≤ total appending_of cs)
    → Knows d s cs
    → Knows d s' cs'
Knows-mono not_called s s' cs cs' e less h = omega arith
Knows-mono waiting s s' cs cs' e less h = omega arith
Knows-mono drained s s' cs cs' e less h = (omega arith, omega (arith, less (omega arith)))
Knows-mono timed_out s s' cs cs' e less h = omega arith

module _ {n : ℕ} {g : Guard} (v : Inv n g) where
  -- A caller moves, and the counter with it.
  move-Inv :
      (s' : ShutdownState) (i : ℕ) (c d : Caller)
      → get_elem? g.callers i ≡ some c
      → s'.phase ≡ g.state.phase
      → s'.in_flight + in_flight_of c ≡ g.state.in_flight + in_flight_of d
      → (1 ≤ g.state.phase → appending_of d ≤ appending_of c)
      → Inv n (move g s' i d)
  move-Inv s' i c d at_i phase count less = record {
    few = length-set g.callers i d ∙ v.few;
    counted = omega (arith, v.counted, total-set in_flight_of g.callers i c d at_i);
    knows =
        Knows-mono g.drain g.state s' g.callers (set g.callers i d) phase
          (λ h. omega (arith, total-set appending_of g.callers i c d at_i, less h)) v.knows;
  }

  fetch_add-count : n + 1 < 2 ^ 64 → (fetch_add g.state).in_flight ≡ g.state.in_flight + 1
  unfolding fetch_add
  fetch_add-count small = omega (arith, v.counted, v.few, total-le g.callers)

  fetch_sub-count :
      (i : ℕ) (c : Caller)
      → n + 1 < 2 ^ 64
      → get_elem? g.callers i ≡ some c
      → in_flight_of c ≡ 1
      → (fetch_sub g.state).in_flight + 1 ≡ g.state.in_flight
  unfolding fetch_sub
  fetch_sub-count i c small at_i one = omega (
    arith,
    v.counted,
    v.few,
    total-le g.callers,
    total-set in_flight_of g.callers i c outside at_i,
  )

Step-Inv : {n : ℕ} {g h : Guard} → n + 1 < 2 ^ 64 → Inv n g → Step g h → Inv n h
unfolding fetch_add fetch_sub draining start_drain abort
Step-Inv {g = g} small v (reserve i at_i) =
    move-Inv v (fetch_add g.state) i outside reserved at_i refl
      (omega (arith, fetch_add-count v small)) (λ _. omega arith)
Step-Inv {g = g} small v (admit i at_i open') =
    move-Inv v g.state i reserved appending at_i refl refl (λ h. absurd (ground arith))
Step-Inv {g = g} small v (refuse i at_i closed) =
    move-Inv v g.state i reserved refused at_i refl refl (λ _. omega arith)
Step-Inv {g = g} small v (back_out i at_i) =
    move-Inv v (fetch_sub g.state) i refused outside at_i refl
      (omega (arith, fetch_sub-count v i refused small at_i refl)) (λ _. omega arith)
Step-Inv {g = g} small v (leave i at_i) =
    move-Inv v (fetch_sub g.state) i appending outside at_i refl
      (omega (arith, fetch_sub-count v i appending small at_i refl)) (λ _. omega arith)
Step-Inv small v (call_drain e) = record { few = v.few; counted = v.counted; knows = refl }
Step-Inv {g = g} small v (see_zero e zero_now) = record {
  few = v.few;
  counted = v.counted;
  knows = (
    subst (λ d. Knows d g.state g.callers) e v.knows,
    omega (arith, zero_now, v.counted, appending-le g.callers),
  );
}
Step-Inv small v (time_out e) = record { few = v.few; counted = v.counted; knows = refl }

total-replicate : (f : Caller → ℕ) (n : ℕ) → f outside ≡ 0 → total f (replicate n outside) ≡ 0
total-replicate f zero e = refl
total-replicate f (suc n) e = omega (arith, e, total-replicate f n e)

Reach-Inv : {n : ℕ} {g : Guard} → n + 1 < 2 ^ 64 → Reach n g → Inv n g
unfolding default
Reach-Inv {n} small start = record {
  few = length-replicate n outside;
  counted = sym (total-replicate in_flight_of n refl);
  knows = refl;
}
Reach-Inv small (later r st) = Step-Inv small (Reach-Inv small r) st

total-none :
    (cs : List Caller) (i : ℕ) → total appending_of cs ≡ 0 → get_elem? cs i ≡ some appending → ⊥
total-none cs i e at_i = omega (arith, e, total-set appending_of cs i appending outside at_i)

-- With fewer than 2 ^ 64 - 1 callers, in every state that they and `drain` reach once `drain` has left
-- its loop on a zero: no caller is between `enter` and `leave`, and the counter is the number of callers
-- that are between the steps of `enter`, or of its way back.
pub drained-quiet :
    {n : ℕ} {g : Guard}
    → n + 1 < 2 ^ 64
    → Reach n g
    → g.drain ≡ drained
    → (i : ℕ)
    → (g.state.in_flight ≡ total in_flight_of g.callers) × (get_elem? g.callers i ≢ some appending)
drained-quiet {g = g} small r e i =
    let v = Reach-Inv small r in
    let quiet = subst (λ d. Knows d g.state g.callers) e v.knows in
    (v.counted, λ at_i. total-none g.callers i quiet.1 at_i)
