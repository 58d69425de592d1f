-- ===== src/Server/Quota.antt =====
-- logdbd/src/quota.rs: how many records and bytes each stream has, and `check_quota` of logdbd/src/service.rs.
pub mod Seeded
use lv_logdb.Prelude.{
  ℕ, ◌+◌, ◌%◌, ◌^◌, Bool, true, false, ◌&&◌, Option, none, some, List, [], ◌∷◌, Bytes, bytes_eq,
  length, ltb, if◌then◌else◌, find, put, ℕ_discrete,
}
use lv_logdb.Server.Record.{DecodedRecord}
use lv_logdb.Server.Tombstone.{is_tombstone}

pub record Usage : Type 0 where
  pub records : ℕ
  pub bytes : ℕ

abbrev pub no_usage : Usage
no_usage = record { records = 0; bytes = 0 }

-- The namespace and the stream.
abbrev pub StreamKey : Type 0
StreamKey = ℕ × ℕ

unfoldable pub key_discrete : Discrete StreamKey
key_discrete = hlevel ℕ_discrete

abbrev pub QuotaTracker : Type 0
QuotaTracker = List (StreamKey × Usage)

abbrev pub or_default : Option Usage → Usage
or_default none = no_usage
or_default (some u) = u

unfoldable pub usage : QuotaTracker → StreamKey → Usage
usage t key = or_default (find key_discrete key t)

-- One record more, of so many bytes; the counters are `u64`.
abbrev pub counted : ℕ → Usage → Usage
counted bytes u = record { records = (u.records + 1) % 2 ^ 64; bytes = (u.bytes + bytes) % 2 ^ 64 }

-- `QuotaTracker::add`
unfoldable pub add : StreamKey → ℕ → QuotaTracker → QuotaTracker
add key bytes t = put key_discrete key (counted bytes (usage t key)) t

unfoldable pub reset : StreamKey → QuotaTracker → QuotaTracker
reset key t = put key_discrete key no_usage t

abbrev pub key_of : DecodedRecord → StreamKey
key_of r = (r.namespace_id, r.stream_id)

-- One round of the loop of `seed_from_records`.
unfoldable pub seed_one : (ℕ → ℕ → Bool) → QuotaTracker → DecodedRecord → QuotaTracker
seed_one is_live t r =
    if is_tombstone r
    then t
    else if is_live r.stream_id r.seq
    then add (key_of r) (length r.user_content) t
    else t

unfoldable pub seed_loop : (ℕ → ℕ → Bool) → QuotaTracker → List DecodedRecord → QuotaTracker
seed_loop is_live t [] = t
seed_loop is_live t (r ∷ rs) = seed_loop is_live (seed_one is_live t r) rs

abbrev pub seed_from_records : List DecodedRecord → (ℕ → ℕ → Bool) → QuotaTracker
seed_from_records rs is_live = seed_loop is_live [] rs

pub record StreamQuota : Type 0 where
  pub namespace : Bytes
  pub stream : Bytes
  pub max_records : Option ℕ
  pub max_bytes : Option ℕ

abbrev pub exceeds : ℕ → Option ℕ → Bool
exceeds n none = false
exceeds n (some limit) = ltb limit n

-- `check_quota`: whether the append may go on.
unfoldable pub check_quota : List StreamQuota → Bytes → Bytes → Usage → ℕ → ℕ → Bool
check_quota [] ns stream u incoming_records incoming_bytes = true
check_quota (q ∷ qs) ns stream u incoming_records incoming_bytes =
    let rest = check_quota qs ns stream u incoming_records incoming_bytes in
    if bytes_eq q.namespace ns && bytes_eq q.stream stream
    then if exceeds ((u.records + incoming_records) % 2 ^ 64) q.max_records
      then false
      else if exceeds ((u.bytes + incoming_bytes) % 2 ^ 64) q.max_bytes
      then false
      else rest
    else rest
