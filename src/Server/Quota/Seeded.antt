-- ===== src/Server/Quota/Seeded.antt =====
-- What the counters of logdbd/src/quota.rs show for one stream.
use lv_logdb.Prelude.{
  ℕ, ◌≡◌, ◌≢◌, refl, sym, ap, subst, ◌∙◌, Bool, true, false, List, [], ◌∷◌, ◌++◌, length, All,
  if◌then◌else◌, if_intro, find-put_self, find-put_ne, ℕ_discrete, arith,
}
use lv_logdb.Server.Record.{DecodedRecord}
use lv_logdb.Server.Tombstone.{is_tombstone}
use lv_logdb.Server.Quota.{
  StreamKey, QuotaTracker, no_usage, or_default, counted, usage, add, reset, key_of, key_discrete,
  seed_one, seed_loop,
}

pub usage-add_self :
    (k : StreamKey) (b : ℕ) (t : QuotaTracker) → usage (add k b t) k ≡ counted b (usage t k)
unfolding usage add
usage-add_self k b t = ap or_default (find-put_self key_discrete k (counted b (usage t k)) t)

pub usage-add_ne :
    (k j : StreamKey) (b : ℕ) (t : QuotaTracker) → k ≢ j → usage (add j b t) k ≡ usage t k
unfolding usage add
usage-add_ne k j b t n = ap or_default (find-put_ne key_discrete k j (counted b (usage t j)) t n)

pub usage-reset_self : (k : StreamKey) (t : QuotaTracker) → usage (reset k t) k ≡ no_usage
unfolding usage reset
usage-reset_self k t = ap or_default (find-put_self key_discrete k no_usage t)

pub usage-reset_ne : (k j : StreamKey) (t : QuotaTracker) → k ≢ j → usage (reset j t) k ≡ usage t k
unfolding usage reset
usage-reset_ne k j t n = ap or_default (find-put_ne key_discrete k j no_usage t n)

-- Two trackers that agree on a stream agree there after one more record of any stream.
pub usage-add_ap :
    (k j : StreamKey) (b : ℕ) (t t' : QuotaTracker)
    → usage t k ≡ usage t' k
    → usage (add j b t) k ≡ usage (add j b t') k
usage-add_ap k j b t t' e = elim (key_discrete k j) [
  | yes p ↦
      subst (λ i. usage (add i b t) k ≡ usage (add i b t') k) p
        (usage-add_self k b t ∙ ap (counted b) e ∙ sym (usage-add_self k b t'))
  | no n ↦ usage-add_ne k j b t n ∙ e ∙ sym (usage-add_ne k j b t' n)
]

-- A record of another stream does not count for this one.
pub usage-seed_one_ne :
    (l : ℕ → ℕ → Bool) (k : StreamKey) (t : QuotaTracker) (r : DecodedRecord)
    → k.1 ≢ r.stream_id
    → usage (seed_one l t r) k ≡ usage t k
unfolding seed_one
usage-seed_one_ne l k t r n =
    if_intro (λ u. usage u k ≡ usage t k) (is_tombstone r) (λ e. refl)
      (λ e.
        if_intro (λ u. usage u k ≡ usage t k) (l r.stream_id r.seq)
          (λ f. usage-add_ne k (key_of r) (length r.user_content) t (λ p. n (ap (λ j. j.1) p)))
          (λ f. refl))

-- A record that is deleted does not count.
pub seed_one-dead :
    (l : ℕ → ℕ → Bool) (t : QuotaTracker) (r : DecodedRecord)
    → l r.stream_id r.seq ≡ false
    → seed_one l t r ≡ t
unfolding seed_one
seed_one-dead l t r e = ground arith

-- One round, with its two tests computed.
abbrev chosen : Bool → Bool → DecodedRecord → QuotaTracker → QuotaTracker
chosen a b r t = if a then t else if b then add (key_of r) (length r.user_content) t else t

usage-chosen :
    (a b : Bool) (k : StreamKey) (r : DecodedRecord) (t t' : QuotaTracker)
    → usage t k ≡ usage t' k
    → usage (chosen a b r t) k ≡ usage (chosen a b r t') k
usage-chosen true b k r t t' e = e
usage-chosen false true k r t t' e = usage-add_ap k (key_of r) (length r.user_content) t t' e
usage-chosen false false k r t t' e = e

pub usage-seed_one_ap :
    (l l' : ℕ → ℕ → Bool) (k : StreamKey) (t t' : QuotaTracker) (r : DecodedRecord)
    → (k.1 ≡ r.stream_id → l r.stream_id r.seq ≡ l' r.stream_id r.seq)
    → usage t k ≡ usage t' k
    → usage (seed_one l t r) k ≡ usage (seed_one l' t' r) k
unfolding seed_one
usage-seed_one_ap l l' k t t' r same e = elim (ℕ_discrete k.1 r.stream_id) [
  | no n ↦ usage-seed_one_ne l k t r n ∙ e ∙ sym (usage-seed_one_ne l' k t' r n)
  | yes p ↦
      ap (λ b. usage (chosen (is_tombstone r) b r t) k) (same p)
      ∙ usage-chosen (is_tombstone r) (l' r.stream_id r.seq) k r t t' e
]

-- The loop, for two tests that agree on the stream's records.
pub usage-seed_loop_ap :
    (l l' : ℕ → ℕ → Bool) (k : StreamKey) (t t' : QuotaTracker) (rs : List DecodedRecord)
    → All (λ r. k.1 ≡ r.stream_id → l r.stream_id r.seq ≡ l' r.stream_id r.seq) rs
    → usage t k ≡ usage t' k
    → usage (seed_loop l t rs) k ≡ usage (seed_loop l' t' rs) k
unfolding seed_loop
usage-seed_loop_ap l l' k t t' [] same e = e
usage-seed_loop_ap l l' k t t' (r ∷ rs) same e =
    usage-seed_loop_ap l l' k (seed_one l t r) (seed_one l' t' r) rs same.1
      (usage-seed_one_ap l l' k t t' r same.0 e)

-- The loop, where all of the stream's records are deleted.
pub usage-seed_loop_dead :
    (l : ℕ → ℕ → Bool) (k : StreamKey) (t : QuotaTracker) (rs : List DecodedRecord)
    → All (λ r. k.1 ≡ r.stream_id → l r.stream_id r.seq ≡ false) rs
    → usage (seed_loop l t rs) k ≡ usage t k
unfolding seed_loop
usage-seed_loop_dead l k t [] dead = refl
usage-seed_loop_dead l k t (r ∷ rs) dead =
    usage-seed_loop_dead l k (seed_one l t r) rs dead.1 ∙ kept (ℕ_discrete k.1 r.stream_id)
  where
    kept : Dec (k.1 ≡ r.stream_id) → usage (seed_one l t r) k ≡ usage t k
    kept (yes p) = ap (λ u. usage u k) (seed_one-dead l t r (dead.0 p))
    kept (no n) = usage-seed_one_ne l k t r n

pub seed_loop-append :
    (l : ℕ → ℕ → Bool) (t : QuotaTracker) (rs : List DecodedRecord) (r : DecodedRecord)
    → seed_loop l t (rs ++ (r ∷ [])) ≡ seed_one l (seed_loop l t rs) r
unfolding seed_loop
seed_loop-append l t [] r = refl
seed_loop-append l t (x ∷ rs) r = seed_loop-append l (seed_one l t x) rs r
