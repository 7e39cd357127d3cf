-- ===== src/Common/Outcome.antt =====
-- Errors as values: the sentinel errors of the package, and Go's `(T, error)`.
use mathlib.Core.Path.{◌≡◌, refl}
use mathlib.Core.Logic.{◌⊎◌, inl, inr}
use mathlib.Core.Bool.{Bool, true, false}

pub data ContractError : Type 0 where
  updater_command_invalid updater_lease_invalid updater_progress_invalid : ContractError
  updater_result_invalid updater_mutation_grant_invalid : ContractError
  updater_mutation_grant_response_invalid update_agent_clear_invalid : ContractError
  updater_desired_schema updater_canonical_json_invalid : ContractError
  system_update_port_contract node_listener_config_invalid start_preparation : ContractError
  cover_path_body_linkage cover_request cover_response_status cover_response_shape : ContractError
  cover_response_linkage cover_runtime_state cover_schema : ContractError

pub data Result {ℓ} (Value : Type ℓ) : Type ℓ where
  ok : Value → Result Value
  err : ContractError → Result Value

-- A function that returns an `error` alone.
abbrev pub Check : Type 0
Check = Result (Unit {0})

abbrev pub pass : Check
pass = ok tt

-- The next statement after a check that returned nil.
infixr 5 ◌>>◌
abbrev pub ◌>>◌ {ℓ} : {Value : Type ℓ} → Check → Result Value → Result Value
ok _ >> next = next
err failure >> next = err failure

infixl 5 ◌>>=◌
abbrev pub ◌>>=◌ {ℓ κ} :
    {Value : Type ℓ} {Next : Type κ} → Result Value → (Value → Result Next) → Result Next
ok value >>= next = next value
err failure >>= next = err failure

-- Go's `if !b { return e }`; a guard `if !p || !q` is written `require (p && q)`.
abbrev pub require : Bool → ContractError → Check
require true e = pass
require false e = err e

-- Go's `f() == nil` and `f() != nil` on an error.
abbrev pub succeeds {ℓ} : {A : Type ℓ} → Result A → Bool
succeeds (ok a) = true
succeeds (err e) = false

-- `if f() != nil { return e }`.
abbrev pub or_fail {ℓ} : {A : Type ℓ} → Result A → ContractError → Result A
or_fail (ok a) e = ok a
or_fail (err _) e = err e

-- A check passes or names its error.
pub Check-cases : (c : Check) → (c ≡ pass) ⊎ ((e : ContractError) × (c ≡ err e))
Check-cases (ok tt) = inl refl
Check-cases (err e) = inr (e, refl)

pub succeeds-pass : (c : Check) → succeeds c ≡ true → c ≡ pass
succeeds-pass (ok tt) h = refl
succeeds-pass (err e) h = cc

-- A guard that did not return: its test held, and the rest ran.
pub require-passes {ℓ} :
    {Value : Type ℓ} (test : Bool) (failure : ContractError) (rest : Result Value) (value : Value)
    → (require test failure >> rest) ≡ ok value
    → (test ≡ true) × (rest ≡ ok value)
require-passes true failure rest value h = (refl, h)
require-passes false failure rest value h = cc

-- A check before a value that was returned had passed.
pub then_ok {ℓ} :
    {Value : Type ℓ} (c : Check) (found value : Value)
    → (c >> ok found) ≡ ok value
    → (c ≡ pass) × (found ≡ value)
then_ok (ok tt) found value h = (refl, cc)
then_ok (err failure) found value h = cc
