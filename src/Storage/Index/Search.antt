-- ===== src/Storage/Index/Search.antt =====
-- The searches of the sparse index (logdb/src/storage/index.rs) find the last entry that is not
-- behind what is looked for.
use lv_logdb.Prelude.{
  ℕ, zero, suc, ◌+◌, ◌-◌, ◌/◌, ◌<◌, ◌≤◌, ◌≡◌, ◌⊎◌, inl, inr, refl, ap, false, some, none, length,
  get_or, ltb, leb, ◌==◌, if_intro, Bool-cases, ltb→lt, ltb-false→le, leb→le, ==→eq, arith,
}
use lv_logdb.Storage.Index.{
  SparseIndex, no_entry, search_loop, insert_at, binary_search, sequence_at, time_at, anchor_of,
  at_or_before, find_anchor, find_by_time,
}

-- The keys of a slice do not fall.
abbrev pub Sorted : (ℕ → ℕ) → ℕ → Type 0
Sorted key len = (i j : ℕ) → i ≤ j → j < len → key i ≤ key j

-- All keys from `from` on are greater.
abbrev pub Beyond : (ℕ → ℕ) → ℕ → ℕ → ℕ → Type 0
Beyond key len target from = (j : ℕ) → from ≤ j → j < len → target < key j

-- The last key that is at most the target.
abbrev pub IsLast : (ℕ → ℕ) → ℕ → ℕ → ℕ → Type 0
IsLast key len target pos = (pos < len) × (key pos ≤ target) × Beyond key len target (pos + 1)

anchor_suc : (n : ℕ) → anchor_of (insert_at (n + 1)) ≡ some n
anchor_suc n = let e : n + 1 ≡ suc n = omega arith in rw e refl

module _ (key : ℕ → ℕ) (len target : ℕ) (sorted : Sorted key len) where
  search_loop-Beyond :
      (fuel base size : ℕ)
      → 1 ≤ size
      → size ≤ suc fuel
      → base + size ≤ len
      → (base ≡ 0) ⊎ (key base ≤ target)
      → Beyond key len target (base + size)
      → (search_loop fuel key target base size < len)
        × ((search_loop fuel key target base size ≡ 0)
            ⊎ (key (search_loop fuel key target base size) ≤ target))
        × Beyond key len target (search_loop fuel key target base size + 1)
  unfolding search_loop
  search_loop-Beyond zero base size some_left enough inside low high =
      (omega arith, low, λ j a b. high j (omega arith) b)
  search_loop-Beyond (suc fuel) base size some_left enough inside low high =
      if_intro (λ b. (b < len) × ((b ≡ 0) ⊎ (key b ≤ target)) × Beyond key len target (b + 1))
        (leb size 1)
        (λ e. let one = leb→le size 1 e in (omega arith, low, λ j a b. high j (omega arith) b))
        (λ e.
          let two : 2 ≤ size = ground arith in
          elim (Bool-cases (ltb target (key (base + size / 2)))) [
            | inl less ↦ rw less (
                search_loop-Beyond fuel base (size - size / 2) (omega arith) (omega arith)
                  (omega arith) low
                  (λ j a b. omega (
                    arith,
                    ltb→lt target (key (base + size / 2)) less,
                    sorted (base + size / 2) j (omega arith) b,
                  )))
            | inr more ↦ rw more (
                search_loop-Beyond fuel (base + size / 2) (size - size / 2) (omega arith)
                  (omega arith) (omega arith)
                  (inr (ltb-false→le target (key (base + size / 2)) more))
                  (λ j a b. high j (omega arith) b))
          ])

  binary_search-IsLast :
      1 ≤ len
      → ((anchor_of (binary_search key len target) ≡ none)
          × (at_or_before (binary_search key len target) ≡ 0)
          × Beyond key len target 0)
        ⊎ ((pos : ℕ) × (anchor_of (binary_search key len target) ≡ some pos)
            × (at_or_before (binary_search key len target) ≡ pos)
            × IsLast key len target pos)
  unfolding binary_search
  binary_search-IsLast some_key =
      let base = search_loop len key target 0 len in
      let at_base =
        search_loop-Beyond len 0 len some_key (omega arith) (omega arith) (inl refl)
          (λ j a b. absurd (omega arith)) in
      let empty : (len == 0) ≡ false = ground arith in
      elim (Bool-cases (key base == target)) [
        | inl same ↦ inr (
          base,
          rw (empty, same) refl,
          rw (empty, same) refl,
          (at_base.0, omega (arith, ==→eq (key base) target same), at_base.2),
        )
        | inr differ ↦ elim (Bool-cases (ltb (key base) target)) [
          | inl less ↦ inr (
            base,
            rw (empty, differ, less) (anchor_suc base),
            rw (empty, differ, less) (omega arith),
            (at_base.0, omega (arith, ltb→lt (key base) target less), at_base.2),
          )
          | inr more ↦
              let above : target < key base = ground arith in
              let z : base ≡ 0 = elim at_base.1 [ inl z ↦ z | inr le ↦ absurd (omega arith) ] in
              inl (
                rw (empty, differ, more) (ap (λ b. anchor_of (insert_at b)) z),
                rw (empty, differ, more) (omega (arith, z)),
                λ j a b. omega (arith, above, sorted base j (omega (arith, z)) b),
              )
        ]
      ]

-- In an index whose sequence numbers do not fall, `find_anchor` returns the last entry whose number
-- is at most the given one, with its position; it returns nothing exactly where there is none.
pub find_anchor-IsLast :
    (idx : SparseIndex) (record_id : ℕ)
    → Sorted (sequence_at idx.entries) (length idx.entries)
    → ((find_anchor idx record_id ≡ none)
        × Beyond (sequence_at idx.entries) (length idx.entries) record_id 0)
      ⊎ ((pos : ℕ) × (find_anchor idx record_id ≡ some (get_or idx.entries pos no_entry, pos))
          × IsLast (sequence_at idx.entries) (length idx.entries) record_id pos)
unfolding find_anchor
find_anchor-IsLast idx record_id sorted = elim (Bool-cases (length idx.entries == 0)) [
  | inl empty ↦ inl (rw empty refl, λ j a b. absurd (ground arith))
  | inr some_entry ↦
      elim (binary_search-IsLast (sequence_at idx.entries) (length idx.entries) record_id sorted
        (ground arith)) [
          | inl before ↦ inl (rw (some_entry, before.0) refl, before.2)
          | inr (pos, at_pos, _, last) ↦ inr (pos, rw (some_entry, at_pos) refl, last)
        ]
]

-- In a non-empty index whose times do not fall, `find_by_time` returns the position of the last
-- entry whose time is at most the given one, and 0 where all times are greater.
pub find_by_time-IsLast :
    (idx : SparseIndex) (timestamp_ns : ℕ)
    → 1 ≤ length idx.entries
    → Sorted (time_at idx.entries) (length idx.entries)
    → ((find_by_time idx timestamp_ns ≡ 0)
        × Beyond (time_at idx.entries) (length idx.entries) timestamp_ns 0)
      ⊎ IsLast
          (time_at idx.entries)
          (length idx.entries)
          timestamp_ns
          (find_by_time idx timestamp_ns)
unfolding find_by_time
find_by_time-IsLast idx timestamp_ns some_entry sorted =
    elim (binary_search-IsLast (time_at idx.entries) (length idx.entries) timestamp_ns sorted
      some_entry) [
        | inl before ↦ inl (before.1, before.2)
        | inr (pos, _, at_pos, last) ↦ inr (rw at_pos last)
      ]
