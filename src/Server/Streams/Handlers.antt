-- ===== src/Server/Streams/Handlers.antt =====
-- The handlers `append`, `batch_append` and `delete_stream` of logdbd/src/service.rs step by step. No lock is held from
-- one step to the next, so the steps of other handlers come between. `Storage::append` is one step.
use lv_logdb.Prelude.{
  ℕ, zero, suc, ◌≡◌, refl, sym, ap, ◌∙◌, Bool, true, false, Option, none, some, List, [], ◌∷◌, ◌++◌,
  length, map, if◌then◌else◌, append_assoc, append-nil,
}
use lv_logdb.Server.Tombstone.{record_tombstone}
use lv_logdb.Server.Quota.{StreamQuota, usage, add, reset, check_quota}
use lv_logdb.Server.Streams.{
  Streams, AppendRequest, storage_append, counted_in, append_each, then_each, same_target,
  total_bytes, directed, batch_append, deletion, deleted, delete_stream, append,
}

-- What is left of a handler: its check, records to store after those with the given numbers, a stored record to
-- count, a deletion to store, to record and to reset the usage for, or nothing.
pub data Handler : Type 0 where
  appending : List StreamQuota → AppendRequest → Handler
  batching : List StreamQuota → ℕ → ℕ → List AppendRequest → Handler
  storing : List AppendRequest → List ℕ → Handler
  counting : AppendRequest → ℕ → List AppendRequest → List ℕ → Handler
  deleting : ℕ → ℕ → Bool → Handler
  marking resetting : ℕ → ℕ → ℕ → Handler
  replied : Option (List ℕ) → Handler

abbrev pub kept :
    AppendRequest → List AppendRequest → List ℕ → Option ℕ × Streams → Handler × Streams
kept r rs seqs (none, s) = (replied none, s)
kept r rs seqs (some seq, s) = (counting r seq rs seqs, s)

abbrev pub to_mark : ℕ → ℕ → Option ℕ × Streams → Handler × Streams
to_mark namespace_id stream_id (none, s) = (replied none, s)
to_mark namespace_id stream_id (some seq, s) = (marking namespace_id stream_id seq, s)

abbrev pub marked : ℕ → ℕ → ℕ → Streams → Handler × Streams
marked namespace_id stream_id seq s = (
  resetting namespace_id stream_id seq,
  record s { tombstones = record_tombstone stream_id seq s.tombstones },
)

abbrev pub cleared : ℕ → ℕ → ℕ → Streams → Handler × Streams
cleared namespace_id stream_id seq s =
    (replied (some (seq ∷ [])), record s { quota = reset (namespace_id, stream_id) s.quota })

abbrev pub checked : Bool → List AppendRequest → Handler
checked true rs = storing rs []
checked false rs = replied none

unfoldable pub step : Handler → Streams → Handler × Streams
step (appending quotas r) s = (
  checked
      (check_quota quotas r.namespace r.stream (usage s.quota (r.namespace_id, r.stream_id)) 1
        (length r.content))
      (r ∷ []),
  s,
)
step (batching quotas namespace_id stream_id []) s = (replied (some []), s)
step (batching quotas namespace_id stream_id (r ∷ rs)) s = (
  if same_target r rs
      then checked
          (check_quota quotas r.namespace r.stream (usage s.quota (namespace_id, stream_id))
            (length (r ∷ rs)) (total_bytes (r ∷ rs)))
          (map (directed namespace_id stream_id) (r ∷ rs))
      else replied none,
  s,
)
step (storing [] seqs) s = (replied (some seqs), s)
step (storing (r ∷ rs) seqs) s = kept r rs seqs (storage_append r s)
step (counting r seq rs seqs) s = (
  storing rs (seqs ++ (seq ∷ [])),
  record s { quota = add (r.namespace_id, r.stream_id) (length r.content) s.quota },
)
step (deleting namespace_id stream_id taken) s =
    to_mark namespace_id stream_id (storage_append (deletion namespace_id stream_id taken) s)
step (marking namespace_id stream_id seq) s = marked namespace_id stream_id seq s
step (resetting namespace_id stream_id seq) s = cleared namespace_id stream_id seq s
step (replied o) s = (replied o, s)

-- So many steps of one handler, with none of another between.
unfoldable alone : ℕ → Handler → Streams → Handler × Streams
alone zero h s = (h, s)
alone (suc n) h s = let next = step h s in alone n next.0 next.1

-- Two handlers: at each `true` a step of the first one, at each `false` one of the second.
unfoldable pub overlapped : List Bool → Handler → Handler → Streams → Handler × Handler × Streams
overlapped [] h g s = (h, g, s)
overlapped (true ∷ order) h g s = let next = step h s in overlapped order next.0 g next.1
overlapped (false ∷ order) h g s = let next = step g s in overlapped order h next.0 next.1

abbrev prefixed : List ℕ → Option (List ℕ) × Streams → Handler × Streams
prefixed seqs (none, s) = (replied none, s)
prefixed seqs (some more, s) = (replied (some (seqs ++ more)), s)

-- The steps that store and count the records, and the reply.
abbrev steps_for : List AppendRequest → ℕ
steps_for [] = 1
steps_for (r ∷ rs) = suc (suc (steps_for rs))

alone-replied : (n : ℕ) (o : Option (List ℕ)) (s : Streams) → alone n (replied o) s ≡ (replied o, s)
unfolding alone step
alone-replied zero o s = refl
alone-replied (suc n) o s = alone-replied n o s

append_each-alone :
    (rs : List AppendRequest) (seqs : List ℕ) (s : Streams)
    → alone (steps_for rs) (storing rs seqs) s ≡ prefixed seqs (append_each rs s)
unfolding alone step append_each
append_each-alone [] seqs s = ap (λ l. (replied (some l), s)) (sym (append-nil seqs))
append_each-alone (r ∷ rs) seqs s =
    each (storage_append r s) (λ seq t. append_each-alone rs (seqs ++ (seq ∷ [])) t)
  where
    joined :
        (seq : ℕ) (t : Streams) (q : Option (List ℕ) × Streams)
        → prefixed (seqs ++ (seq ∷ [])) q ≡ prefixed seqs (then_each (some seq, t) q)
    joined seq t (none, u) = refl
    joined seq t (some more, u) =
        ap (λ l. (replied (some l), u)) (append_assoc seqs (seq ∷ []) more)

    each :
        (o : Option ℕ × Streams)
        → ((seq : ℕ) (t : Streams)
            → alone (steps_for rs) (storing rs (seqs ++ (seq ∷ []))) t
              ≡ prefixed (seqs ++ (seq ∷ [])) (append_each rs t))
        → alone (suc (steps_for rs)) (kept r rs seqs o).0 (kept r rs seqs o).1
          ≡ prefixed seqs (then_each (counted_in r o) (append_each rs (counted_in r o).1))
    each (none, t) rest = alone-replied (suc (steps_for rs)) none t
    each (some seq, t) rest = rest seq one ∙ joined seq one (append_each rs one)
      where
        one : Streams
        one = record t { quota = add (r.namespace_id, r.stream_id) (length r.content) t.quota }

-- With no step of another handler between, the steps of a batch answer and do what `batch_append` says.
batch_append-alone :
    (quotas : List StreamQuota) (namespace_id stream_id : ℕ) (rs : List AppendRequest) (s : Streams)
    → alone
        (suc (steps_for (map (directed namespace_id stream_id) rs)))
        (batching quotas namespace_id stream_id rs)
        s
      ≡ prefixed [] (batch_append quotas namespace_id stream_id rs s)
unfolding alone step batch_append
batch_append-alone quotas namespace_id stream_id [] s = refl
batch_append-alone quotas namespace_id stream_id (r ∷ rs) s = each (same_target r rs) _
  where
    all : List AppendRequest
    all = map (directed namespace_id stream_id) (r ∷ rs)

    each :
        (a b : Bool)
        → alone (steps_for all) (if a then checked b all else replied none) s
          ≡ prefixed [] (if a then if b then append_each all s else (none, s) else (none, s))
    each false b = alone-replied (steps_for all) none s
    each true false = alone-replied (steps_for all) none s
    each true true = append_each-alone all [] s

abbrev one_number : Option ℕ × Streams → Handler × Streams
one_number (none, s) = (replied none, s)
one_number (some seq, s) = (replied (some (seq ∷ [])), s)

-- With no step of another handler between, the steps of an append do what `append` says.
append-alone :
    (quotas : List StreamQuota) (r : AppendRequest) (s : Streams)
    → alone 4 (appending quotas r) s ≡ one_number (append quotas r s)
unfolding alone step append
append-alone quotas r s = each _
  where
    stored :
        (o : Option ℕ × Streams)
        → alone 2 (kept r [] [] o).0 (kept r [] [] o).1 ≡ one_number (counted_in r o)
    stored (none, t) = refl
    stored (some seq, t) = refl

    each :
        (b : Bool)
        → alone 3 (checked b (r ∷ [])) s
          ≡ one_number (if b then counted_in r (storage_append r s) else (none, s))
    each true = stored (storage_append r s)
    each false = refl

-- With no step of another handler between, the steps of a deletion do what `delete_stream` says.
delete_stream-alone :
    (namespace_id stream_id : ℕ) (taken : Bool) (s : Streams)
    → alone 3 (deleting namespace_id stream_id taken) s
      ≡ one_number (delete_stream namespace_id stream_id taken s)
unfolding alone step delete_stream
delete_stream-alone namespace_id stream_id taken s =
    stored (storage_append (deletion namespace_id stream_id taken) s)
  where
    stored :
        (o : Option ℕ × Streams)
        → alone 2 (to_mark namespace_id stream_id o).0 (to_mark namespace_id stream_id o).1
          ≡ one_number (deleted namespace_id stream_id o)
    stored (none, t) = refl
    stored (some seq, t) = refl
