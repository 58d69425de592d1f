-- ===== src/Pipeline/Sealer/Verify.antt =====
-- `verify_chain` (logdb/src/pipeline/sealer.rs) accepts the chains that the hash of its algorithm links.
use lv_logdb.Prelude.{
  ◌≡◌, ◌↔◌, inl, inr, refl, sym, ap, ◌∙◌, true, false, List, [], ◌∷◌, ◌++◌, Bytes, bytes_eq,
  bytes_eq_refl, bytes_eq→eq, Bool-cases, subst, ℕ, if◌then◌else◌, ◌==◌,
}
use lv_logdb.Format.{hash_algo_blake3}
use lv_logdb.Pipeline.Sealer.{blake3_keyed_chain, sha256_chain, verify_loop, verify_chain}

-- The hash of a record with an algorithm: of the hash before it, followed by its content.
abbrev pub chain_of : (Bytes → Bytes → Bytes) → (Bytes → Bytes) → Bytes → ℕ → Bytes → Bytes → Bytes
chain_of keyed_hash sha256 init_hash hash_algo =
    if hash_algo == hash_algo_blake3
    then (λ prev content. keyed_hash init_hash (prev ++ content))
    else (λ prev content. sha256 (prev ++ content))

-- The hash that is stored last, or the initial one.
abbrev pub hash_before : Bytes → List (Bytes × Bytes) → Bytes
hash_before init_hash [] = init_hash
hash_before init_hash (rec ∷ records) = hash_before rec.1 records

module _ (chain : Bytes → Bytes → Bytes) where
  -- At every place of the list, the stored hash is the one of the hash before the place and the content.
  abbrev pub Linked : Bytes → List (Bytes × Bytes) → Type 0
  Linked init_hash records =
      (before after : List (Bytes × Bytes)) (content hash : Bytes)
      → records ≡ before ++ ((content, hash) ∷ after)
      → hash ≡ chain (hash_before init_hash before) content

  verify_loop-first :
      (prev : Bytes) (rec : Bytes × Bytes) (records : List (Bytes × Bytes))
      → verify_loop chain prev (rec ∷ records) ≡ true
      → (rec.1 ≡ chain prev rec.0) × (verify_loop chain rec.1 records ≡ true)
  unfolding verify_loop
  verify_loop-first prev rec records h = elim (Bool-cases (bytes_eq (chain prev rec.0) rec.1)) [
    | inl same ↦
        let e = bytes_eq→eq (chain prev rec.0) rec.1 same in
        (sym e, subst (λ t. verify_loop chain t records ≡ true) e (rw (verify_loop, same) at h))
    | inr other ↦ let no : false ≡ true = rw (verify_loop, other) at h in absurd cc
  ]

  verify_loop-place :
      (prev : Bytes) (before after : List (Bytes × Bytes)) (content hash : Bytes)
      → verify_loop chain prev (before ++ ((content, hash) ∷ after)) ≡ true
      → hash ≡ chain (hash_before prev before) content
  verify_loop-place prev [] after content hash h =
      (verify_loop-first prev (content, hash) after h).0
  verify_loop-place prev (rec ∷ before) after content hash h =
      verify_loop-place rec.1 before after content hash
        (verify_loop-first prev rec (before ++ ((content, hash) ∷ after)) h).1

  verify_loop-Linked :
      (init_hash : Bytes) (records : List (Bytes × Bytes))
      → verify_loop chain init_hash records ≡ true
      → Linked init_hash records
  verify_loop-Linked init_hash records h before after content hash e =
      verify_loop-place init_hash before after content hash
        (subst (λ t. verify_loop chain init_hash t ≡ true) e h)

  Linked-verify_loop :
      (prev : Bytes) (records : List (Bytes × Bytes))
      → Linked prev records
      → verify_loop chain prev records ≡ true
  unfolding verify_loop
  Linked-verify_loop prev [] h = refl
  Linked-verify_loop prev (rec ∷ records) h =
      let first = sym (h [] records rec.0 rec.1 refl) in
      let same : bytes_eq (chain prev rec.0) rec.1 ≡ true =
        ap (λ t. bytes_eq t rec.1) first ∙ bytes_eq_refl rec.1 in
      rw (verify_loop, same)
        (ap (λ t. verify_loop chain t records) first
          ∙ Linked-verify_loop rec.1 records (λ before after content hash e.
            h (rec ∷ before) after content hash (ap (λ t. rec ∷ t) e)))

verify_chain-loop :
    (keyed_hash : Bytes → Bytes → Bytes) (sha256 : Bytes → Bytes) (init_hash : Bytes)
    (hash_algo : ℕ) (records : List (Bytes × Bytes))
    → verify_chain keyed_hash sha256 records init_hash hash_algo
      ≡ verify_loop (chain_of keyed_hash sha256 init_hash hash_algo) init_hash records
unfolding verify_chain blake3_keyed_chain sha256_chain
verify_chain-loop keyed_hash sha256 init_hash hash_algo records =
    elim (Bool-cases (hash_algo == hash_algo_blake3)) [
      | inl is ↦ rw is refl
      | inr other ↦ rw other refl
    ]

-- `verify_chain` accepts a list of contents and stored hashes exactly when, at every place of the list, the
-- stored hash is that of the hash stored at the place before, or of the initial hash at the first place, followed by
-- the content: the keyed BLAKE3 hash with the initial hash as its key where that is the algorithm, else SHA-256.
pub verify_chain-Linked :
    (keyed_hash : Bytes → Bytes → Bytes) (sha256 : Bytes → Bytes) (init_hash : Bytes)
    (hash_algo : ℕ) (records : List (Bytes × Bytes))
    → (verify_chain keyed_hash sha256 records init_hash hash_algo ≡ true)
      ↔ Linked (chain_of keyed_hash sha256 init_hash hash_algo) init_hash records
verify_chain-Linked keyed_hash sha256 init_hash hash_algo records =
    let chain = chain_of keyed_hash sha256 init_hash hash_algo in
    let loop = verify_chain-loop keyed_hash sha256 init_hash hash_algo records in
    (
      λ e. verify_loop-Linked chain init_hash records (sym loop ∙ e),
      λ l. loop ∙ Linked-verify_loop chain init_hash records l,
    )
