-- ===== src/Server/Streams/Within.antt =====
-- The quotas of logdbd/src/service.rs: what `check_quota` lets pass, and the usage of a stream.
use lv_logdb.Prelude.{
  ℕ, suc, ◌+◌, ◌%◌, ◌^◌, ◌≤◌, ◌≡◌, refl, ap, Bool, true, false, ◌&&◌, Option, none, some, List, [],
  ◌∷◌, length, map, All, ltb-false→le, if◌then◌else◌, Bytes, bytes_eq,
}
use lv_logdb.Server.Quota.{StreamQuota, Usage, usage, exceeds, check_quota}
use lv_logdb.Server.Streams.{Streams, AppendRequest, directed, total_bytes}

abbrev pub AtMost : ℕ → Option ℕ → Type 0
AtMost n none = Unit
AtMost n (some limit) = n ≤ limit

-- The quota is not for this stream, or the counters are within it.
abbrev pub IsWithin : Bytes → Bytes → ℕ → ℕ → StreamQuota → Type 0
IsWithin ns stream records bytes q =
    (bytes_eq q.namespace ns && bytes_eq q.stream stream) ≡ true
    → AtMost records q.max_records × AtMost bytes q.max_bytes

not_exceeds-AtMost : (n : ℕ) (o : Option ℕ) → exceeds n o ≡ false → AtMost n o
not_exceeds-AtMost n none e = tt
not_exceeds-AtMost n (some limit) e = ltb-false→le limit n e

pub check_quota-IsWithin :
    (qs : List StreamQuota) (ns stream : Bytes) (u : Usage) (records bytes : ℕ)
    → check_quota qs ns stream u records bytes ≡ true
    → All (IsWithin ns stream ((u.records + records) % 2 ^ 64) ((u.bytes + bytes) % 2 ^ 64)) qs
unfolding check_quota
check_quota-IsWithin [] ns stream u records bytes e = tt
check_quota-IsWithin (q ∷ qs) ns stream u records bytes e =
    each (bytes_eq q.namespace ns && bytes_eq q.stream stream) refl
      (exceeds ((u.records + records) % 2 ^ 64) q.max_records) refl
      (exceeds ((u.bytes + bytes) % 2 ^ 64) q.max_bytes) refl
      (λ e. check_quota-IsWithin qs ns stream u records bytes e) e
  where
    Rest : Type 0
    Rest = All (IsWithin ns stream ((u.records + records) % 2 ^ 64) ((u.bytes + bytes) % 2 ^ 64)) qs

    each :
        (a : Bool)
        → (bytes_eq q.namespace ns && bytes_eq q.stream stream) ≡ a
        → (b : Bool) → exceeds ((u.records + records) % 2 ^ 64) q.max_records ≡ b
        → (c : Bool) → exceeds ((u.bytes + bytes) % 2 ^ 64) q.max_bytes ≡ c
        → (check_quota qs ns stream u records bytes ≡ true → Rest)
        → (if a
            then if b then false else if c then false else check_quota qs ns stream u records bytes
            else check_quota qs ns stream u records bytes)
          ≡ true
        → IsWithin ns stream ((u.records + records) % 2 ^ 64) ((u.bytes + bytes) % 2 ^ 64) q × Rest
    each false x b y c z rest e = (λ match. absurd cc, rest e)
    each true x true y c z rest e = absurd cc
    each true x false y true z rest e = absurd cc
    each true x false y false z rest e = (
      λ match. (not_exceeds-AtMost _ q.max_records y, not_exceeds-AtMost _ q.max_bytes z),
      rest e,
    )

module _ (namespace_id stream_id : ℕ) where
  abbrev pub usage_of : Streams → Usage
  usage_of s = usage s.quota (namespace_id, stream_id)

  -- So many records and bytes more.
  pub record IsMore (rs : List AppendRequest) (before after : Usage) (seqs : List ℕ) : Type 0 where
    pub more_records : after.records ≡ before.records + length rs
    pub more_bytes : after.bytes ≡ before.bytes + total_bytes rs
    pub each_numbered : length seqs ≡ length rs

  pub length-map-directed :
      (rs : List AppendRequest) → length (map (directed namespace_id stream_id) rs) ≡ length rs
  length-map-directed [] = refl
  length-map-directed (r ∷ rs) = ap (λ n. suc n) (length-map-directed rs)
