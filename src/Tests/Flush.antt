-- ===== src/Tests/Flush.antt =====
-- A flush of two shards (logdb/src/pipeline/signal.rs).
use lv_logdb.Prelude.{◌≡◌, refl, true, [], ◌∷◌}
use lv_logdb.Pipeline.Flush.{FlushSignal, reached, is_done}

abbrev signal : FlushSignal
signal = record { targets = 5 ∷ 9 ∷ []; completed = 3 ∷ 9 ∷ [] }

seven_nine : reached (7 ∷ 9 ∷ []) (5 ∷ 9 ∷ []) ≡ true
unfolding reached
seven_nine = refl

signal-is_done : is_done signal (2 ∷ 9 ∷ []) ≡ true
unfolding is_done reached
signal-is_done = refl
