-- ===== src/Claims.antt =====
-- web/src/lib/claim-tokens.ts: the claim tokens of anonymous jobs, in the browser's local storage. Job
-- ids and tokens are strings that are only compared, so numbers stand for them. The storage and
-- JSON are the browser's: whether it can be read, whether it takes a text, and the texts themselves
-- are arguments.
pub mod Tokens
mod Examples
use rehearse_kit.Common.{
  ℕ, Bool, List, Option, [], ◌∷◌, ◌==◌, ◌&&◌, true, false, none, some, or_else, if◌then◌else◌,
}

pub record Claim : Type 0 where
  pub job : ℕ
  pub token : ℕ

-- `JSON.stringify`, and `JSON.parse` with the test that the value is an object: `none` is a text that
-- is malformed, or a value of another type. An array, which the code never writes, is not told from
-- an object by the source's test; it is left out.
pub record Json (S : Type 0) : Type 0 where
  pub stringify : List Claim → S
  pub parse : S → Option (List Claim)

-- The item 'rk.claims', whether the storage can be used at all, and which texts it has room for.
pub record Storage (S : Type 0) : Type 0 where
  pub item : Option S
  pub available : Bool
  pub takes : S → Bool

unfoldable pub lookup : List Claim → ℕ → Option ℕ
lookup [] job = none
lookup (c ∷ claims) job = if c.job == job then some c.token else lookup claims job

-- `c[jobId] = token`
unfoldable pub assign : List Claim → ℕ → ℕ → List Claim
assign [] job token = record { job = job; token = token } ∷ []
assign (c ∷ claims) job token =
    let rest = assign claims job token in
    if c.job == job then record { job = job; token = token } ∷ claims else c ∷ rest

-- `delete c[jobId]`
unfoldable pub remove : List Claim → ℕ → List Claim
remove [] job = []
remove (c ∷ claims) job = let rest = remove claims job in if c.job == job then rest else c ∷ rest

module _ {S : Type 0} ⦃json : Json S⦄ where
  -- What an item holds; no item, and one that cannot be read, is no claims.
  unfoldable pub claims_in : Option S → List Claim
  claims_in none = []
  claims_in (some raw) = or_else (json.parse raw) []

  unfoldable pub read_claims : Storage S → List Claim
  read_claims s = if s.available then claims_in s.item else []

  -- A storage that is full or cannot be used stays as it is.
  unfoldable pub write_claims : Storage S → List Claim → Storage S
  write_claims s claims =
      if s.available && s.takes (json.stringify claims)
      then record s { item = some (json.stringify claims) }
      else s

  unfoldable pub remember_claim : Storage S → ℕ → ℕ → Storage S
  remember_claim s job token = write_claims s (assign (read_claims s) job token)

  unfoldable pub claim_for : Storage S → ℕ → Option ℕ
  claim_for s job = lookup (read_claims s) job

  -- Behind `jobId in c`.
  unfoldable pub forget_found : Storage S → ℕ → Option ℕ → Storage S
  forget_found s job none = s
  forget_found s job (some token) = write_claims s (remove (read_claims s) job)

  unfoldable pub forget_claim : Storage S → ℕ → Storage S
  forget_claim s job = forget_found s job (lookup (read_claims s) job)
