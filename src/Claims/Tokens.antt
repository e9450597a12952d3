-- ===== src/Claims/Tokens.antt =====
-- What is remembered is found, until it is forgotten.
use rehearse_kit.Common.{
  ℕ, List, Option, [], ◌==◌, true, none, some, ◌≡◌, arith, ap, if◌then◌else◌, inl, inr, refl, ◌∙◌,
  ◌∷◌, sym, ◌&&◌,
}
use rehearse_kit.Common.{Bool-cases, inl, inr, ==_iff}
use rehearse_kit.Claims.{
  forget_found, Claim, Json, Storage, lookup, assign, remove, claims_in, read_claims, write_claims,
  remember_claim, claim_for, forget_claim,
}

lookup-assign :
    (claims : List Claim) (job token other : ℕ)
    → lookup (assign claims job token) other
      ≡ (if job == other then some token else lookup claims other)
unfolding lookup assign
lookup-assign [] job token other = refl
lookup-assign (c ∷ claims) job token other = ground (arith, lookup-assign claims job token other)

lookup-remove :
    (claims : List Claim) (job other : ℕ)
    → lookup (remove claims job) other ≡ (if job == other then none else lookup claims other)
unfolding lookup remove
lookup-remove [] job other = ground arith
lookup-remove (c ∷ claims) job other = ground (arith, lookup-remove claims job other)

module _ {S : Type 0} ⦃json : Json S⦄
    (round : (claims : List Claim) → json.parse (json.stringify claims) ≡ some claims) where
  -- What a storage that takes the claims gives back.
  read-write :
      (s : Storage S) (claims : List Claim)
      → s.available ≡ true
      → s.takes (json.stringify claims) ≡ true
      → read_claims (write_claims s claims) ≡ claims
  unfolding read_claims write_claims claims_in
  read-write s claims a t =
      let both : (s.available && s.takes (json.stringify claims)) ≡ true = ground arith in
      rw both (rw (a, round claims) refl)

  -- Where parsing gives back what was written, and the storage can be used and takes the new
  -- text, a remembered token is found under its job, and every other job has the token that it
  -- had.
  pub claim_for-remember_claim :
      (s : Storage S) (job token other : ℕ)
      → s.available ≡ true
      → s.takes (json.stringify (assign (read_claims s) job token)) ≡ true
      → claim_for (remember_claim s job token) other
        ≡ (if job == other then some token else claim_for s other)
  unfolding claim_for remember_claim
  claim_for-remember_claim s job token other a t =
      ap (λ c. lookup c other) (read-write s (assign (read_claims s) job token) a t)
      ∙ lookup-assign (read_claims s) job token other

  -- Where parsing gives back what was written, and the storage can be used and takes the new
  -- text, a forgotten job has no token, and every other job has the token that it had.
  pub claim_for-forget_claim :
      (s : Storage S) (job other : ℕ)
      → s.available ≡ true
      → s.takes (json.stringify (remove (read_claims s) job)) ≡ true
      → claim_for (forget_claim s job) other ≡ (if job == other then none else claim_for s other)
  unfolding claim_for forget_claim forget_found
  claim_for-forget_claim s job other a t = go (lookup (read_claims s) job) refl
    where
      go :
          (o : Option ℕ)
          → lookup (read_claims s) job ≡ o
          → lookup (read_claims (forget_found s job o)) other
            ≡ (if job == other then none else lookup (read_claims s) other)
      go none e = elim (Bool-cases (job == other)) [
        | inl h ↦ rw h (ap (lookup (read_claims s)) (sym ((==_iff job other).0 h)) ∙ e)
        | inr h ↦ rw h refl
      ]
      go (some token) e =
          ap (λ c. lookup c other) (read-write s (remove (read_claims s) job) a t)
          ∙ lookup-remove (read_claims s) job other
