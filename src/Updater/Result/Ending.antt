-- ===== src/Updater/Result/Ending.antt =====
-- The outcomes, statuses and errors of accepted results.
use autostream_contracts.Common.{
  is_nil, ◌⊎◌, ◌||◌, Option-cases, some, none, Option, String, ◌≡◌, inl, inr, true, pass, tests,
  if-cases, eq_iff, ◌==◌, ◌&&◌, Bool, String_eq,
}
use autostream_contracts.Updater.Evidence.{canonical_safe_error_message, valid_safe_error}
use autostream_contracts.Updater.Types.{
  V2UpdaterSafeError, UpdaterLeaseEnvelope, UpdaterResultEnvelope,
}
use autostream_contracts.Updater.Platform.{Platform}
use autostream_contracts.Updater.Outcome
use autostream_contracts.Updater.Status
use autostream_contracts.Updater.Lease.{validate_lease_static}
use autostream_contracts.Updater.Result.{
  result_matches, validate_port_result_binding, succeeded_outcome, outcome_matches,
  validate_updater_result,
}

-- The tests that an accepted result passed.
pub record Accepted (platform : Platform) (lease : UpdaterLeaseEnvelope)
    (result : UpdaterResultEnvelope) : Type 0 where
  pub lease_static : validate_lease_static platform lease ≡ pass
  pub matches : result_matches lease result ≡ true
  pub binding : validate_port_result_binding platform.sha lease result ≡ true
  pub outcome : outcome_matches lease result ≡ true

pub validate_updater_result-Accepted :
    (platform : Platform) (lease : UpdaterLeaseEnvelope) (result : UpdaterResultEnvelope)
    → validate_updater_result platform lease result ≡ pass
    → Accepted platform lease result
unfolding validate_updater_result
validate_updater_result-Accepted platform lease result h = grind tests

-- The status that goes with an outcome.
pub data Ends : String → String → Type 0 where
  succeeds_so :
      {outcome status : String}
      → outcome ≡ Outcome.succeeded
      → status ≡ Status.succeeded
      → Ends outcome status
  rolls_back :
      {outcome status : String}
      → outcome ≡ Outcome.rolled_back
      → status ≡ Status.rolled_back
      → Ends outcome status
  fails :
      {outcome status : String}
      → outcome ≡ Outcome.failed
      → status ≡ Status.failed
      → Ends outcome status
  stays_open :
      {outcome status : String}
      → outcome ≡ Outcome.ambiguous
      → status ≡ Status.reconciling
      → Ends outcome status
  is_canceled :
      {outcome status : String}
      → outcome ≡ Outcome.canceled
      → status ≡ Status.canceled
      → Ends outcome status

status_tested :
    (status expected : String) (rest : Bool)
    → (status == expected && rest) ≡ true
    → status ≡ expected
status_tested status expected rest h = grind tests

outcome-Ends :
    (lease : UpdaterLeaseEnvelope) (result : UpdaterResultEnvelope)
    → outcome_matches lease result ≡ true
    → Ends result.outcome result.status
unfolding outcome_matches succeeded_outcome
outcome-Ends lease result h = elim (if-cases (result.outcome == Outcome.succeeded) _ _ h) [
  | inl (e, t) ↦ succeeds_so ((eq_iff _ _).0 e) (grind tests)
  | inr h ↦ elim (if-cases (result.outcome == Outcome.rolled_back) _ _ h) [
    | inl (e, t) ↦ rolls_back ((eq_iff _ _).0 e) (grind tests)
    | inr h ↦ elim (if-cases (result.outcome == Outcome.failed) _ _ h) [
      | inl (e, t) ↦ fails ((eq_iff _ _).0 e) (grind tests)
      | inr h ↦ elim (if-cases (result.outcome == Outcome.ambiguous) _ _ h) [
        | inl (e, t) ↦ stays_open ((eq_iff _ _).0 e) (grind tests)
        | inr h ↦ elim (if-cases (result.outcome == Outcome.canceled) _ _ h) [
          | inl (e, t) ↦ is_canceled ((eq_iff _ _).0 e) (grind tests)
          | inr impossible ↦ cc
        ]
      ]
    ]
  ]
]

-- An accepted result ends in one of five ways, each with its own status.
pub validate_updater_result-Ends :
    (platform : Platform) (lease : UpdaterLeaseEnvelope) (result : UpdaterResultEnvelope)
    → validate_updater_result platform lease result ≡ pass
    → Ends result.outcome result.status
validate_updater_result-Ends platform lease result h =
    outcome-Ends lease result (validate_updater_result-Accepted platform lease result h).outcome

safe_error_tested :
    (o : Option V2UpdaterSafeError) (error : V2UpdaterSafeError) (audit : String)
    → o ≡ some error
    → (is_nil o || valid_safe_error o audit) ≡ true
    → (canonical_safe_error_message error.code ≡ some error.message)
      × ((error.audit_correlation_id ≡ "") ⊎ (error.audit_correlation_id ≡ audit))
unfolding valid_safe_error
safe_error_tested none error audit e h = cc
safe_error_tested (some x) error audit e h =
    let same : x ≡ error = grind tests in
    elim (Option-cases (canonical_safe_error_message x.code)) [
      | inl missing ↦ grind tests
      | inr (message, found) ↦ grind tests
    ]

matched_safe_error :
    (lease : UpdaterLeaseEnvelope) (result : UpdaterResultEnvelope)
    → result_matches lease result ≡ true
    → ((is_nil result.safe_error || valid_safe_error result.safe_error result.audit_correlation_id)
        ≡ true)
      × (result.audit_correlation_id ≡ lease.command.audit_correlation_id)
unfolding result_matches
matched_safe_error lease result h = grind tests

-- A safe error in an accepted result has the one message that its code stands for, and names no
-- audit record but the one of the command.
pub validate_updater_result-safe_error :
    (platform : Platform) (lease : UpdaterLeaseEnvelope) (result : UpdaterResultEnvelope)
    (error : V2UpdaterSafeError)
    → validate_updater_result platform lease result ≡ pass
    → result.safe_error ≡ some error
    → (canonical_safe_error_message error.code ≡ some error.message)
      × ((error.audit_correlation_id ≡ "")
          ⊎ (error.audit_correlation_id ≡ lease.command.audit_correlation_id))
validate_updater_result-safe_error platform lease result error h e =
    let accepted = validate_updater_result-Accepted platform lease result h in
    let (tested, audit) = matched_safe_error lease result accepted.matches in
    rw (← audit) (safe_error_tested result.safe_error error result.audit_correlation_id e tested)
