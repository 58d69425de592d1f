-- ===== src/Tests/Storage.antt =====
-- An index of three entries (logdb/src/storage/index.rs), saved, loaded and searched.
use lv_logdb.Prelude.{ℕ, zero, suc, ◌≡◌, ◌⊎◌, none, some, get_or, ◌++◌, [], ◌∷◌, ok, arith}
use lv_logdb.Storage.Index.{SparseIndex, sequence_at, no_entry, find_anchor, save, load}
use lv_logdb.Storage.Index.Search.{Sorted, Beyond, IsLast, find_anchor-IsLast}
use lv_logdb.Storage.Index.RoundTrip.{load-save}

abbrev index : SparseIndex
index = record {
  entries =
      record { sequence = 10; file_offset = 128; timestamp_ns = 100 }
      ∷ record { sequence = 20; file_offset = 700; timestamp_ns = 200 }
      ∷ record { sequence = 30; file_offset = 1500; timestamp_ns = 300 }
      ∷ [];
  stride = 10;
}

sequences-Sorted : Sorted (sequence_at index.entries) 3
sequences-Sorted zero zero a b = omega arith
sequences-Sorted zero (suc zero) a b = omega arith
sequences-Sorted zero (suc (suc zero)) a b = omega arith
sequences-Sorted (suc zero) (suc zero) a b = omega arith
sequences-Sorted (suc zero) (suc (suc zero)) a b = omega arith
sequences-Sorted (suc (suc zero)) (suc (suc zero)) a b = omega arith
sequences-Sorted (suc i) zero a b = absurd (omega arith)
sequences-Sorted (suc (suc i)) (suc zero) a b = absurd (omega arith)
sequences-Sorted (suc (suc (suc i))) (suc (suc zero)) a b = absurd (omega arith)
sequences-Sorted i (suc (suc (suc j))) a b = absurd (omega arith)

find_anchor-IsLast_example :
    ((find_anchor index 25 ≡ none) × Beyond (sequence_at index.entries) 3 25 0)
    ⊎ ((pos : ℕ) × (find_anchor index 25 ≡ some (get_or index.entries pos no_entry, pos))
        × IsLast (sequence_at index.entries) 3 25 pos)
find_anchor-IsLast_example = find_anchor-IsLast index 25 sequences-Sorted

-- Two bytes of another entry stand behind the index.
load-save_example : load (save index ++ (1 ∷ 2 ∷ [])) ≡ ok index
load-save_example =
    load-save index (1 ∷ 2 ∷ []) (omega arith)
      (
        record { sequence_in = omega arith; offset_in = omega arith; timestamp_in = omega arith },
        (
          record { sequence_in = omega arith; offset_in = omega arith; timestamp_in = omega arith },
          (
            record {
              sequence_in = omega arith;
              offset_in = omega arith;
              timestamp_in = omega arith;
            },
            tt,
          ),
        ),
      )
      (omega arith)
