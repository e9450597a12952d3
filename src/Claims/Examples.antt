-- ===== src/Claims/Examples.antt =====
-- A storage that holds the claims as they are.
use rehearse_kit.Common.{List, none, some, true, ◌≡◌, refl}
use rehearse_kit.Claims.{
  Claim, Json, Storage, remember_claim, write_claims, forget_claim, claim_for,
}
use rehearse_kit.Claims.Tokens.{claim_for-remember_claim, claim_for-forget_claim}

abbrev plain : Json (List Claim)
plain = record { stringify = λ c. c; parse = some }

abbrev fresh : Storage (List Claim)
fresh = record { item = none; available = true; takes = λ c. true }

claim_for-remember_claim_example :
    claim_for ⦃json = plain⦄ (remember_claim ⦃json = plain⦄ fresh 7 42) 7 ≡ some 42
claim_for-remember_claim_example =
    claim_for-remember_claim ⦃json = plain⦄ (λ c. refl) fresh 7 42 7 refl refl

claim_for-forget_claim_example :
    claim_for ⦃json = plain⦄
      (forget_claim ⦃json = plain⦄ (remember_claim ⦃json = plain⦄ fresh 7 42) 7)
      7
    ≡ none
unfolding remember_claim write_claims
claim_for-forget_claim_example =
    claim_for-forget_claim ⦃json = plain⦄ (λ c. refl) (remember_claim ⦃json = plain⦄ fresh 7 42) 7 7
      refl refl
