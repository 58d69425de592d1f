-- ===== src/Server/Tombstone.antt =====
-- logdbd/src/tombstone.rs: up to which number the records of each stream are deleted. A hash map is an association
-- list; each call holds the lock.
pub mod Rebuilt
use lv_logdb.Prelude.{
  ℕ, max, Bool, Option, none, some, List, [], ◌∷◌, Bytes, bytes_eq, ltb, if◌then◌else◌, find, put,
  ℕ_discrete,
}
use lv_logdb.Server.Record.{DecodedRecord}

-- `"logdb.stream_deleted"`
abbrev pub stream_deleted_event : Bytes
stream_deleted_event =
    b'l' ∷ b'o' ∷ b'g' ∷ b'd' ∷ b'b' ∷ b'.' ∷ b's' ∷ b't' ∷ b'r' ∷ b'e' ∷ b'a' ∷ b'm' ∷ b'_' ∷ b'd'
    ∷ b'e' ∷ b'l' ∷ b'e' ∷ b't' ∷ b'e' ∷ b'd' ∷ []

abbrev pub is_tombstone : DecodedRecord → Bool
is_tombstone r = bytes_eq r.event_type stream_deleted_event

-- The cutoff of each stream.
abbrev pub TombstoneTracker : Type 0
TombstoneTracker = List (ℕ × ℕ)

abbrev pub max_with : Option ℕ → ℕ → ℕ
max_with none seq = seq
max_with (some e) seq = max e seq

-- `TombstoneTracker::record`
unfoldable pub record_tombstone : ℕ → ℕ → TombstoneTracker → TombstoneTracker
record_tombstone stream_id seq t =
    put ℕ_discrete stream_id (max_with (find ℕ_discrete stream_id t) seq) t

abbrev pub copied_or_zero : Option ℕ → ℕ
copied_or_zero none = 0
copied_or_zero (some n) = n

unfoldable pub cutoff : TombstoneTracker → ℕ → ℕ
cutoff t stream_id = copied_or_zero (find ℕ_discrete stream_id t)

unfoldable pub is_live : TombstoneTracker → ℕ → ℕ → Bool
is_live t stream_id seq = ltb (cutoff t stream_id) seq

-- One round of the loop of `rebuild_from_records`.
unfoldable pub rebuild_one : TombstoneTracker → DecodedRecord → TombstoneTracker
rebuild_one t r = if is_tombstone r then record_tombstone r.stream_id r.seq t else t

unfoldable pub rebuild_loop : TombstoneTracker → List DecodedRecord → TombstoneTracker
rebuild_loop t [] = t
rebuild_loop t (r ∷ rs) = rebuild_loop (rebuild_one t r) rs

abbrev pub rebuild_from_records : List DecodedRecord → TombstoneTracker
rebuild_from_records rs = rebuild_loop [] rs
