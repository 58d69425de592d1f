-- ===== src/Storage/Segments/Append/Loop.antt =====
-- The loop of `append_batch` of logdb/src/storage/mod.rs: which records it takes, and what it leaves
-- of the state.
use lv_logdb.Prelude.{
  ℕ, zero, suc, ◌+◌, ◌%◌, ◌^◌, ◌≤◌, ◌<◌, ◌≡◌, refl, sym, ap, ap₂, ◌∙◌, ◌⊎◌, inl, inr, Bool, true,
  false, Option, none, some, List, [], ◌∷◌, ◌++◌, append_assoc, append-nil, Bytes, length, ◌==◌,
  arith, length-append, leb→le, le→leb, leb-false→lt, Bool-cases, ne→==-false,
}
use lv_logdb.Format.{ReadView, record_size}
use lv_logdb.Format.Record.{IsView, record_bytes}
use lv_logdb.Format.Record.RoundTrip.{length-record_bytes}
use lv_logdb.Recovery.Scan.Complete.{stored}
use lv_logdb.Ring.{Ring}
use lv_logdb.Storage.Index.{SparseIndex, should_index, add}
use lv_logdb.Storage.Segments.{SegmentManager, has_room, update_ts_range}
use lv_logdb.Storage.Segments.Manager.{HasStride}
use lv_logdb.Storage.Segments.Append.{upto, view_at, index_entry, index_record, append_loop}

-- The records of the `n` numbers from `seq` on.
unfoldable pub views : Ring → ℕ → ℕ → List ReadView
views r seq zero = []
views r seq (suc n) = view_at r seq ∷ views r (seq + 1) n

-- Each of them has the ranges of its field types.
unfoldable pub AllViews : Ring → ℕ → ℕ → Type 0
AllViews r seq zero = Unit
AllViews r seq (suc n) = IsView (view_at r seq).record_id (view_at r seq) × AllViews r (seq + 1) n

-- What the loop changes: the range of the times and the index.
abbrev pub touched : SegmentManager → ℕ → ℕ → Option SparseIndex → ℕ → SegmentManager
touched m min_ts max_ts index count = record m {
  active = record m.active { min_ts = min_ts; max_ts = max_ts };
  active_index = index;
  active_index_count = count;
}

index_record-touched :
    (m : SegmentManager) (view : ReadView) (at : ℕ) (o : Option SparseIndex)
    → m.active_index ≡ o
    → HasStride o
    → (index : Option SparseIndex) × (count : ℕ) × HasStride index
      × (index_record m view at ≡ some (touched m m.active.min_ts m.active.max_ts index count))
unfolding index_record should_index add
index_record-touched m view at none e h = (m.active_index, m.active_index_count, rw e tt, rw e refl)
index_record-touched m view at (some idx) e h =
    let due = m.active_index_count % idx.stride == 0 in
    (
      some (index_entry idx due view at),
      m.active_index_count + 1,
      stride_kept due,
      rw (e, index_record, should_index, ne→==-false idx.stride 0 (λ z. omega arith)) refl,
    )
  where
    stride_kept : (due : Bool) → 0 < (index_entry idx due view at).stride
    stride_kept true = h
    stride_kept false = h

-- `last_written` after `k` records from `seq` on.
abbrev pub last_of : ℕ → ℕ → ℕ → ℕ
last_of last seq zero = last
last_of last seq (suc k) = seq + k

module _ (crc32c : Bytes → ℕ) (r : Ring) (start : ℕ) where
  abbrev pub size_of : ℕ → ℕ → ℕ
  size_of seq k = length (stored crc32c (views r seq k))

  -- The loop ends with the first `k` records behind `raw`: all that are asked for, or as many as fit.
  pub record Takes (n seq : ℕ) (m : SegmentManager) (raw : Bytes) (last k : ℕ) : Type 0 where
    pub min_ts : ℕ
    pub max_ts : ℕ
    pub index : Option SparseIndex
    pub count : ℕ
    pub ends :
        append_loop crc32c r start n seq m raw last
        ≡ upto
            (touched m min_ts max_ts index count)
            (raw ++ stored crc32c (views r seq k))
            (last_of last seq k)
    pub within : k ≤ n
    pub fits : m.active.offset + (length raw + size_of seq k) ≤ m.segment_size
    pub rest :
        (k ≡ n)
        ⊎ (m.segment_size
            < m.active.offset
              + (length raw + size_of seq k)
              + record_size (length (view_at r (seq + k)).content))
    pub strided : HasStride index

  -- A round at a record that fits.
  pub append_loop-step :
      (n seq : ℕ) (m : SegmentManager) (raw : Bytes) (last : ℕ)
      → IsView (view_at r seq).record_id (view_at r seq)
      → HasStride m.active_index
      → m.segment_size < 2 ^ 63
      → m.active.offset + (length raw + record_size (length (view_at r seq).content))
        ≤ m.segment_size
      → (min_ts max_ts : ℕ) × (index : Option SparseIndex) × (count : ℕ) × HasStride index
        × (append_loop crc32c r start (suc n) seq m raw last
            ≡ append_loop crc32c r start n
                (seq + 1)
                (touched m min_ts max_ts index count)
                (raw ++ record_bytes crc32c (view_at r seq).record_id (view_at r seq))
                seq)
  unfolding append_loop
  append_loop-step n seq m raw last valid strided small room =
      let view = view_at r seq in
      let added = index_record-touched m view (start + length raw) m.active_index refl strided in
      let fits : has_room m.active (length raw + record_size (length view.content)) m.segment_size
          ≡ true =
        le→leb _ m.segment_size (omega arith) in
      let ranged = update_ts_range m.active view.timestamp_ns in
      (
        ranged.min_ts,
        ranged.max_ts,
        added.0,
        added.1,
        added.2,
        rw (append_loop, fits, added.3) refl,
      )

  pub size_of-suc :
      (seq k : ℕ)
      → IsView (view_at r seq).record_id (view_at r seq)
      → size_of seq (suc k) ≡ record_size (length (view_at r seq).content) + size_of (seq + 1) k
  unfolding stored views
  size_of-suc seq k valid =
      let view = view_at r seq in
      omega (
        arith,
        length-append (record_bytes crc32c view.record_id view)
            (stored crc32c (views r (seq + 1) k)),
        length-record_bytes crc32c view.record_id view valid,
      )

  last_of-step : (last seq k : ℕ) → last_of seq (seq + 1) k ≡ last_of last seq (suc k)
  last_of-step last seq zero = omega arith
  last_of-step last seq (suc k) = omega arith

  -- What the rest of the loop takes, after a round that took one record.
  pub Takes-suc :
      (n seq : ℕ) (m : SegmentManager) (raw : Bytes) (last k : ℕ)
      → IsView (view_at r seq).record_id (view_at r seq)
      → (min_ts max_ts : ℕ) (index : Option SparseIndex) (count : ℕ)
      → append_loop crc32c r start (suc n) seq m raw last
        ≡ append_loop crc32c r start n
            (seq + 1)
            (touched m min_ts max_ts index count)
            (raw ++ record_bytes crc32c (view_at r seq).record_id (view_at r seq))
            seq
      → Takes n
          (seq + 1)
          (touched m min_ts max_ts index count)
          (raw ++ record_bytes crc32c (view_at r seq).record_id (view_at r seq))
          seq
          k
      → Takes (suc n) seq m raw last (suc k)
  unfolding stored views
  Takes-suc n seq m raw last k valid min_ts max_ts index count e t =
      let view = view_at r seq in
      let bytes = record_bytes crc32c view.record_id view in
      let grown : length (raw ++ bytes) + size_of (seq + 1) k ≡ length raw + size_of seq (suc k) =
        omega (
          arith,
          length-append raw bytes,
          length-record_bytes crc32c view.record_id view valid,
          size_of-suc seq k valid,
        ) in
      let place : seq + 1 + k ≡ seq + suc k = omega arith in
      record {
        min_ts = t.min_ts;
        max_ts = t.max_ts;
        index = t.index;
        count = t.count;
        ends =
            e
            ∙ t.ends
            ∙ ap₂ (upto (touched m t.min_ts t.max_ts t.index t.count))
                (append_assoc raw bytes (stored crc32c (views r (seq + 1) k)))
                (last_of-step last seq k);
        within = omega (arith, t.within);
        fits = rw grown at t.fits;
        rest = elim t.rest [
          | inl all ↦ inl (ap suc all)
          | inr more ↦ inr (rw (grown, place) at more)
        ];
        strided = t.strided;
      }

  pub append_loop-Takes :
      (n seq : ℕ) (m : SegmentManager) (raw : Bytes) (last : ℕ)
      → AllViews r seq n
      → HasStride m.active_index
      → m.segment_size < 2 ^ 63
      → m.active.offset + length raw ≤ m.segment_size
      → 0 < length raw
      → (k : ℕ) × Takes n seq m raw last k
  unfolding append_loop AllViews stored views
  append_loop-Takes zero seq m raw last valid strided small room some_bytes = (
    zero,
    record {
      min_ts = m.active.min_ts;
      max_ts = m.active.max_ts;
      index = m.active_index;
      count = m.active_index_count;
      ends = ap (λ t. upto m t last) (sym (append-nil raw));
      within = omega arith;
      fits = omega arith;
      rest = inl refl;
      strided = strided;
    },
  )
  append_loop-Takes (suc n) seq m raw last valid strided small room some_bytes =
      let view = view_at r seq in
      let need = length raw + record_size (length view.content) in
      elim (Bool-cases (has_room m.active need m.segment_size)) [
        | inl fits ↦
            let wide : record_size (length view.content) < 256 ^ 4 = valid.0.size_in in
            let fits' : m.active.offset + need ≤ m.segment_size =
              omega (arith, leb→le ((m.active.offset + need) % 2 ^ 64) m.segment_size fits) in
            let step = append_loop-step n seq m raw last valid.0 strided small fits' in
            let bytes = record_bytes crc32c view.record_id view in
            let longer : length (raw ++ bytes) ≡ need = omega (
              arith,
              length-append raw bytes,
              length-record_bytes crc32c view.record_id view valid.0,
            ) in
            let rest =
              append_loop-Takes n (seq + 1) (touched m step.0 step.1 step.2 step.3) (raw ++ bytes)
                seq valid.1 step.4 small (omega (arith, longer)) (omega (arith, longer)) in
            (
              suc rest.0,
              Takes-suc n seq m raw last rest.0 valid.0 step.0 step.1 step.2 step.3 step.5 rest.1,
            )
        | inr over ↦ (
          zero,
          record {
            min_ts = m.active.min_ts;
            max_ts = m.active.max_ts;
            index = m.active_index;
            count = m.active_index_count;
            ends =
                rw (append_loop, over, ne→==-false (length raw) 0 (λ z. omega arith))
                  (ap (λ t. upto m t last) (sym (append-nil raw)));
            within = omega arith;
            fits = omega arith;
            rest = inr (
                let z : seq + 0 ≡ seq = omega arith in
                let wide : record_size (length view.content) < 256 ^ 4 = valid.0.size_in in
                rw z (
                  omega
                    (arith, leb-false→lt ((m.active.offset + need) % 2 ^ 64) m.segment_size over)));
            strided = strided;
          },
        )
      ]
