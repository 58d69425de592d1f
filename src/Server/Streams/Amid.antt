-- ===== src/Server/Streams/Amid.antt =====
-- A batch of logdbd/src/service.rs whose steps have those of the handlers of other streams between them.
use lv_logdb.Prelude.{
  ℕ, suc, ◌+◌, ◌*◌, ◌%◌, ◌^◌, ◌≤◌, ◌<◌, ◌≡◌, ◌≢◌, refl, sym, ap, subst, ◌∙◌, Bool, true, false,
  Option, none, some, List, [], ◌∷◌, ◌++◌, length, map, All, arith, if◌then◌else◌, Bytes, Result,
  ok, err,
}
use lv_logdb.Server.Record.{RecordError}
use lv_logdb.Server.Quota.{StreamKey, StreamQuota, Usage, usage, counted, add, check_quota}
use lv_logdb.Server.Quota.Seeded.{usage-add_self, usage-add_ne, usage-reset_ne}
use lv_logdb.Server.Streams.{
  Streams, AppendRequest, next_seq, numbered, use_number, store, storage_append, same_target,
  total_bytes, directed, deletion,
}
use lv_logdb.Server.Streams.Handlers.{
  Handler, appending, batching, storing, counting, deleting, marking, resetting, replied, kept,
  to_mark, checked, step,
}
use lv_logdb.Server.Streams.Within.{
  usage_of, IsMore, IsWithin, check_quota-IsWithin, length-map-directed,
}

-- The steps of a handler, as many as the list is long: after each, what other handlers do before the next.
unfoldable pub amid : List (Streams → Streams) → Handler → Streams → Handler × Streams
amid [] h s = (h, s)
amid (other ∷ others) h s = let next = step h s in amid others next.0 (other next.1)

-- Storing a record counts nothing.
storage_append-quota : (r : AppendRequest) (s : Streams) → (storage_append r s).1.quota ≡ s.quota
unfolding storage_append use_number
storage_append-quota r s = each r.taken _
  where
    each :
        (taken : Bool) (o : Result RecordError Bytes)
        → (store (use_number r.stream_id s) (numbered (next_seq s r.stream_id) r) taken o).1.quota
          ≡ s.quota
    each taken (err e) = refl
    each false (ok bytes) = refl
    each true (ok bytes) = refl

module _ (namespace_id stream_id : ℕ) where
  abbrev IsDirected : AppendRequest → Type 0
  IsDirected r = ◌≡◌ {A = StreamKey} (r.namespace_id, r.stream_id) (namespace_id, stream_id)

  map-IsDirected :
      (rs : List AppendRequest) → All IsDirected (map (directed namespace_id stream_id) rs)
  map-IsDirected [] = tt
  map-IsDirected (r ∷ rs) = (refl, map-IsDirected rs)

  total_bytes-map-directed :
      (rs : List AppendRequest)
      → total_bytes (map (directed namespace_id stream_id) rs) ≡ total_bytes rs
  total_bytes-map-directed [] = refl
  total_bytes-map-directed (r ∷ rs) = ap (λ n. length r.content + n) (total_bytes-map-directed rs)

  -- What a batch has left to do, when it is to end with so many records and bytes and answer so many numbers.
  module _ (records bytes numbers : ℕ) where
    abbrev Left : ℕ → Handler → Usage → Type 0
    Left fuel (storing rs seqs) u =
        (u.records + length rs ≡ records)
        × (u.bytes + total_bytes rs ≡ bytes)
        × (length seqs + length rs ≡ numbers)
        × (1 + 2 * length rs ≤ fuel)
        × All IsDirected rs
    Left fuel (counting r seq rs seqs) u =
        (u.records + (1 + length rs) ≡ records)
        × (u.bytes + (length r.content + total_bytes rs) ≡ bytes)
        × (length seqs + (1 + length rs) ≡ numbers)
        × (2 + 2 * length rs ≤ fuel)
        × IsDirected r
        × All IsDirected rs
    Left fuel (replied none) u = Unit
    Left fuel (replied (some seqs)) u =
        (u.records ≡ records) × (u.bytes ≡ bytes) × (length seqs ≡ numbers)
    Left fuel (appending quotas r) u = ⊥
    Left fuel (batching quotas ns st rs) u = ⊥
    Left fuel (deleting ns st taken) u = ⊥
    Left fuel (marking ns st seq) u = ⊥
    Left fuel (resetting ns st seq) u = ⊥

    module _ (few : records < 2 ^ 64) (small : bytes < 2 ^ 64) where
      length-append_one :
          (seqs : List ℕ) (seq : ℕ) → length (seqs ++ (seq ∷ [])) ≡ suc (length seqs)
      length-append_one [] seq = refl
      length-append_one (s ∷ seqs) seq = ap (λ n. suc n) (length-append_one seqs seq)

      step-Left :
          (fuel : ℕ) (h : Handler) (s : Streams)
          → Left (suc fuel) h (usage_of namespace_id stream_id s)
          → Left fuel (step h s).0 (usage_of namespace_id stream_id (step h s).1)
      unfolding step
      step-Left fuel (storing [] seqs) s (a, b, c, d, e) = (omega arith, omega arith, omega arith)
      step-Left fuel (storing (r ∷ rs) seqs) s (a, b, c, d, (e, es)) =
          each (storage_append r s) (storage_append-quota r s)
        where
          each :
              (o : Option ℕ × Streams)
              → o.1.quota ≡ s.quota
              → Left fuel
                  (kept r rs seqs o).0
                  (usage_of namespace_id stream_id (kept r rs seqs o).1)
          each (none, t) same = tt
          each (some seq, t) same =
              subst (λ q. Left fuel (counting r seq rs seqs) (usage q (namespace_id, stream_id)))
                (sym same) (omega arith, omega arith, omega arith, omega arith, e, es)
      step-Left fuel (counting r seq rs seqs) s (a, b, c, d, e, es) =
          let up : usage (add (r.namespace_id, r.stream_id) (length r.content) s.quota)
                (namespace_id, stream_id)
              ≡ counted (length r.content) (usage_of namespace_id stream_id s) =
            ap (λ k. usage (add k (length r.content) s.quota) (namespace_id, stream_id)) e
            ∙ usage-add_self (namespace_id, stream_id) (length r.content) s.quota in
          let one = length-append_one seqs seq in
          subst (Left fuel (storing rs (seqs ++ (seq ∷ [])))) (sym up)
            (omega arith, omega arith, omega arith, omega arith, es)
      step-Left fuel (replied none) s left = tt
      step-Left fuel (replied (some seqs)) s left = left
      step-Left fuel (appending quotas r) s left = absurd left
      step-Left fuel (batching quotas ns st rs) s left = absurd left
      step-Left fuel (deleting ns st taken) s left = absurd left
      step-Left fuel (marking ns st seq) s left = absurd left
      step-Left fuel (resetting ns st seq) s left = absurd left

      amid-Left :
          (others : List (Streams → Streams)) (h : Handler) (s : Streams)
          → All
              (λ other.
                (t : Streams)
                → usage_of namespace_id stream_id (other t) ≡ usage_of namespace_id stream_id t)
              others
          → Left (length others) h (usage_of namespace_id stream_id s)
          → Left 0 (amid others h s).0 (usage_of namespace_id stream_id (amid others h s).1)
      unfolding amid
      amid-Left [] h s apart left = left
      amid-Left (other ∷ others) h s apart left =
          amid-Left others (step h s).0 (other (step h s).1) apart.1 (
            subst (Left (length others) (step h s).0) (sym (apart.0 (step h s).1))
              (step-Left (length others) h s left))

    -- No steps are left, so the handler has replied.
    ended :
        (h : Handler) (u : Usage)
        → Left 0 h u
        → (o : Option (List ℕ)) × (h ≡ replied o) × Left 0 (replied o) u
    ended (storing rs seqs) u (a, b, c, d, e) = absurd (omega arith)
    ended (counting r seq rs seqs) u (a, b, c, d, e, f) = absurd (omega arith)
    ended (replied o) u left = (o, refl, left)
    ended (appending quotas r) u left = absurd left
    ended (batching quotas ns st rs) u left = absurd left
    ended (deleting ns st taken) u left = absurd left
    ended (marking ns st seq) u left = absurd left
    ended (resetting ns st seq) u left = absurd left

  amid-replied :
      (others : List (Streams → Streams)) (o : Option (List ℕ)) (s : Streams)
      → (amid others (replied o) s).0 ≡ replied o
  unfolding amid step
  amid-replied [] o s = refl
  amid-replied (other ∷ others) o s = amid-replied others o (other s)

  -- A step that counts for this stream or resets its usage is one of this stream's handlers.
  abbrev pub Apart : Handler → Type 0
  Apart (counting r seq rs seqs) =
      ◌≢◌ {A = StreamKey} (namespace_id, stream_id) (r.namespace_id, r.stream_id)
  Apart (resetting ns st seq) = ◌≢◌ {A = StreamKey} (namespace_id, stream_id) (ns, st)
  Apart (appending quotas r) = Unit
  Apart (batching quotas ns st rs) = Unit
  Apart (storing rs seqs) = Unit
  Apart (deleting ns st taken) = Unit
  Apart (marking ns st seq) = Unit
  Apart (replied o) = Unit

  -- Every other step leaves the usage of the stream as it is.
  pub step-usage_of :
      (h : Handler)
      → Apart h
      → (t : Streams)
      → usage_of namespace_id stream_id (step h t).1 ≡ usage_of namespace_id stream_id t
  unfolding step
  step-usage_of (counting r seq rs seqs) apart t =
      usage-add_ne (namespace_id, stream_id) (r.namespace_id, r.stream_id) (length r.content)
        t.quota apart
  step-usage_of (resetting ns st seq) apart t =
      usage-reset_ne (namespace_id, stream_id) (ns, st) t.quota apart
  step-usage_of (storing [] seqs) apart t = refl
  step-usage_of (storing (r ∷ rs) seqs) apart t =
      each (storage_append r t) (storage_append-quota r t)
    where
      each :
          (o : Option ℕ × Streams)
          → o.1.quota ≡ t.quota
          → usage_of namespace_id stream_id (kept r rs seqs o).1 ≡ usage_of namespace_id stream_id t
      each (none, u) same = ap (λ q. usage q (namespace_id, stream_id)) same
      each (some seq, u) same = ap (λ q. usage q (namespace_id, stream_id)) same
  step-usage_of (deleting ns st taken) apart t =
      each (storage_append (deletion ns st taken) t) (storage_append-quota (deletion ns st taken) t)
    where
      each :
          (o : Option ℕ × Streams)
          → o.1.quota ≡ t.quota
          → usage_of namespace_id stream_id (to_mark ns st o).1 ≡ usage_of namespace_id stream_id t
      each (none, u) same = ap (λ q. usage q (namespace_id, stream_id)) same
      each (some seq, u) same = ap (λ q. usage q (namespace_id, stream_id)) same
  step-usage_of (appending quotas r) apart t = refl
  step-usage_of (batching quotas ns st []) apart t = refl
  step-usage_of (batching quotas ns st (r ∷ rs)) apart t = refl
  step-usage_of (marking ns st seq) apart t = refl
  step-usage_of (replied o) apart t = refl

  -- What an answer says of the usage before and after: with numbers, the batch is counted and within every quota.
  abbrev pub Answers :
      List StreamQuota
      → AppendRequest
      → List AppendRequest
      → Usage
      → Usage
      → Option (List ℕ)
      → Type 0
  Answers quotas r rs before after none = Unit
  Answers quotas r rs before after (some seqs) =
      IsMore namespace_id stream_id (r ∷ rs) before after seqs
      × All (IsWithin r.namespace r.stream after.records after.bytes) quotas

  Left-Answers :
      (quotas : List StreamQuota) (r : AppendRequest) (rs : List AppendRequest)
      (before after : Usage) (o : Option (List ℕ))
      → before.records + length (r ∷ rs) < 2 ^ 64
      → before.bytes + total_bytes (r ∷ rs) < 2 ^ 64
      → check_quota quotas r.namespace r.stream before (length (r ∷ rs)) (total_bytes (r ∷ rs))
        ≡ true
      → Left
          (before.records + length (r ∷ rs))
          (before.bytes + total_bytes (r ∷ rs))
          (length (r ∷ rs))
          0
          (replied o)
          after
      → Answers quotas r rs before after o
  Left-Answers quotas r rs before after none few small passed left = tt
  Left-Answers quotas r rs before after (some seqs) few small passed (a, b, c) =
      let within =
        check_quota-IsWithin quotas r.namespace r.stream before (length (r ∷ rs))
          (total_bytes (r ∷ rs)) passed in
      let records_in : (before.records + length (r ∷ rs)) % 2 ^ 64 ≡ after.records = omega arith in
      let bytes_in : (before.bytes + total_bytes (r ∷ rs)) % 2 ^ 64 ≡ after.bytes = omega arith in
      (
        record { more_records = a; more_bytes = b; each_numbered = c },
        rw (records_in, bytes_in) at within,
      )

  -- A batch of at least one record takes as many steps as the list is long, at least two and two more for each of its
  -- records, and after each of them other handlers do anything that leaves the usage of the batch's stream as it is. The
  -- counters do not overflow.
  -- Then the batch is answered. If it is answered with numbers, then there is one for each record, the usage of the
  -- stream has all of them more than before the batch, and it is within every quota of the stream. Batches
  -- of the same stream that overlap are left out: they can exceed the quota.
  pub batching-Answers :
      (quotas : List StreamQuota) (r : AppendRequest) (rs : List AppendRequest) (s : Streams)
      (others : List (Streams → Streams))
      → All
          (λ other.
            (t : Streams)
            → usage_of namespace_id stream_id (other t) ≡ usage_of namespace_id stream_id t)
          others
      → 2 + 2 * length (r ∷ rs) ≤ length others
      → (usage_of namespace_id stream_id s).records + length (r ∷ rs) < 2 ^ 64
      → (usage_of namespace_id stream_id s).bytes + total_bytes (r ∷ rs) < 2 ^ 64
      → (o : Option (List ℕ)) × ((amid others (batching quotas namespace_id stream_id (r ∷ rs)) s).0
          ≡ replied o)
        × Answers quotas r rs
            (usage_of namespace_id stream_id s)
            (usage_of namespace_id stream_id
              (amid others (batching quotas namespace_id stream_id (r ∷ rs)) s).1)
            o
  unfolding amid step
  batching-Answers quotas r rs s [] apart enough few small = absurd (omega arith)
  batching-Answers quotas r rs s (other ∷ others) apart enough few small =
      each (same_target r rs)
        (check_quota quotas r.namespace r.stream before (length (r ∷ rs)) (total_bytes (r ∷ rs)))
        refl
    where
      before : Usage
      before = usage_of namespace_id stream_id s

      all : List AppendRequest
      all = map (directed namespace_id stream_id) (r ∷ rs)

      first : Bool → Bool → Handler
      first a b = if a then checked b all else replied none

      counted_to : ℕ → Handler → Usage → Type 0
      counted_to fuel h u =
          Left (before.records + length (r ∷ rs)) (before.bytes + total_bytes (r ∷ rs))
            (length (r ∷ rs)) fuel h u

      start :
          counted_to (length others) (storing all []) (usage_of namespace_id stream_id (other s))
      start =
          let same = apart.0 s in
          let count = length-map-directed namespace_id stream_id (r ∷ rs) in
          let sum = total_bytes-map-directed (r ∷ rs) in
          subst (counted_to (length others) (storing all [])) (sym same)
            (omega arith, omega arith, omega arith, omega arith, map-IsDirected (r ∷ rs))

      each :
          (a b : Bool)
          → check_quota quotas r.namespace r.stream before (length (r ∷ rs)) (total_bytes (r ∷ rs))
            ≡ b
          → (o : Option (List ℕ)) × ((amid others (first a b) (other s)).0 ≡ replied o)
            × Answers quotas r rs before
                (usage_of namespace_id stream_id (amid others (first a b) (other s)).1)
                o
      each false b passed = (none, amid-replied others none (other s), tt)
      each true false passed = (none, amid-replied others none (other s), tt)
      each true true passed =
          let left =
            amid-Left (before.records + length (r ∷ rs)) (before.bytes + total_bytes (r ∷ rs))
              (length (r ∷ rs)) few small others (storing all []) (other s) apart.1 start in
          let (o, is, done) =
            ended (before.records + length (r ∷ rs)) (before.bytes + total_bytes (r ∷ rs))
              (length (r ∷ rs)) (amid others (storing all []) (other s)).0 _ left in
          (o, is, Left-Answers quotas r rs before _ o few small passed done)
