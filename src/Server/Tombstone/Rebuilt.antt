-- ===== src/Server/Tombstone/Rebuilt.antt =====
-- The cutoffs of logdbd/src/tombstone.rs after one more record.
use lv_logdb.Prelude.{
  ℕ, ◌≡◌, ◌≢◌, refl, sym, ap, subst, ◌∙◌, true, false, max, Option, none, some, List, [], ◌∷◌, ◌++◌,
  find, find-put_self, find-put_ne, ℕ_discrete, arith,
}
use lv_logdb.Server.Record.{DecodedRecord}
use lv_logdb.Server.Tombstone.{
  TombstoneTracker, is_tombstone, max_with, copied_or_zero, cutoff, record_tombstone, rebuild_one,
  rebuild_loop,
}

max_with-max : (o : Option ℕ) (seq : ℕ) → max_with o seq ≡ max (copied_or_zero o) seq
max_with-max none seq = omega arith
max_with-max (some n) seq = refl

pub cutoff-record_tombstone :
    (st seq : ℕ) (t : TombstoneTracker)
    → cutoff (record_tombstone st seq t) st ≡ max (cutoff t st) seq
unfolding cutoff record_tombstone
cutoff-record_tombstone st seq t =
    ap copied_or_zero (find-put_self ℕ_discrete st (max_with (find ℕ_discrete st t) seq) t)
    ∙ max_with-max (find ℕ_discrete st t) seq

pub cutoff-record_tombstone_ne :
    (j st seq : ℕ) (t : TombstoneTracker)
    → j ≢ st
    → cutoff (record_tombstone st seq t) j ≡ cutoff t j
unfolding cutoff record_tombstone
cutoff-record_tombstone_ne j st seq t n =
    ap copied_or_zero (find-put_ne ℕ_discrete j st (max_with (find ℕ_discrete st t) seq) t n)

-- Two trackers that agree on a stream agree there after one more deletion.
pub cutoff-record_tombstone_ap :
    (j st seq : ℕ) (t t' : TombstoneTracker)
    → cutoff t j ≡ cutoff t' j
    → cutoff (record_tombstone st seq t) j ≡ cutoff (record_tombstone st seq t') j
cutoff-record_tombstone_ap j st seq t t' e = elim (ℕ_discrete j st) [
  | no n ↦
      cutoff-record_tombstone_ne j st seq t n ∙ e ∙ sym (cutoff-record_tombstone_ne j st seq t' n)
  | yes p ↦
      subst (λ i. cutoff (record_tombstone i seq t) j ≡ cutoff (record_tombstone i seq t') j) p
        (cutoff-record_tombstone j seq t
          ∙ ap (λ c. max c seq) e
          ∙ sym (cutoff-record_tombstone j seq t'))
]

pub rebuild_one-live :
    (t : TombstoneTracker) (r : DecodedRecord) → is_tombstone r ≡ false → rebuild_one t r ≡ t
unfolding rebuild_one
rebuild_one-live t r e = rw e refl

pub rebuild_one-deleted :
    (t : TombstoneTracker) (r : DecodedRecord)
    → is_tombstone r ≡ true
    → rebuild_one t r ≡ record_tombstone r.stream_id r.seq t
unfolding rebuild_one
rebuild_one-deleted t r e = rw e refl

pub rebuild_loop-append :
    (t : TombstoneTracker) (rs : List DecodedRecord) (r : DecodedRecord)
    → rebuild_loop t (rs ++ (r ∷ [])) ≡ rebuild_one (rebuild_loop t rs) r
unfolding rebuild_loop
rebuild_loop-append t [] r = refl
rebuild_loop-append t (x ∷ rs) r = rebuild_loop-append (rebuild_one t x) rs r
