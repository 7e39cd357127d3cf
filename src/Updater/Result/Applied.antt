-- ===== src/Updater/Result/Applied.antt =====
-- The revision that an accepted result of a port change says is applied.
use autostream_contracts.Common.{
  pos, ap, String, ◌≡◌, ◌≢◌, ◌⊎◌, inl, inr, sym, ◌∙◌, true, Option, none, some, pass, tests, eq_iff,
  arith, ◌==◌, String_eq, if-cases, ◌||◌, ℤ_eq,
}
use autostream_contracts.Text.Digest.{Sha256}
use autostream_contracts.Port.Types.{
  SystemUpdatePortReconfiguration, SystemUpdatePortSnapshotRef, SystemUpdatePortResultV2,
}
use autostream_contracts.Port.Outcome as PortOutcome
use autostream_contracts.Updater.Types.{UpdaterLeaseEnvelope, UpdaterResultEnvelope}
use autostream_contracts.Updater.Platform.{Platform}
use autostream_contracts.Updater.Outcome
use autostream_contracts.Updater.Status
use autostream_contracts.Updater.Lease.Expiry.{validate_lease_static-facts}
use autostream_contracts.Updater.Result.{
  port_plan, is_rollback_revision, port_outcome_matches, port_result_matches,
  validate_port_result_binding, result_matches, succeeded_outcome, outcome_matches,
  validate_updater_result,
}
use autostream_contracts.Updater.Result.Intent.{desired_revision-target}
use autostream_contracts.Updater.Result.Ending.{
  Ends, succeeds_so, rolls_back, fails, stays_open, is_canceled, validate_updater_result-Accepted,
  validate_updater_result-Ends,
}

-- What a port change has done to the configuration: its target is applied, or its rollback, or
-- nothing is known to be.
pub data Leaves (t r : SystemUpdatePortSnapshotRef) (result : UpdaterResultEnvelope) : Type 0 where
  leaves_target :
      result.outcome ≡ Outcome.succeeded
      → result.applied_revision ≡ t.config_revision
      → Leaves t r result
  leaves_rollback :
      result.outcome ≡ Outcome.rolled_back
      → result.applied_revision ≡ r.config_revision
      → Leaves t r result
  leaves_nothing :
      (result.outcome ≡ Outcome.failed)
        ⊎ (result.outcome ≡ Outcome.ambiguous)
        ⊎ (result.outcome ≡ Outcome.canceled)
      → result.applied_revision ≡ pos 0
      → Leaves t r result

statuses_differ :
    (Status.succeeded ≢ Status.canceled)
    × (Status.rolled_back ≢ Status.canceled)
    × (Status.failed ≢ Status.canceled)
    × (Status.reconciling ≢ Status.canceled)
statuses_differ = (
  ground (arith, eq_iff "succeeded" "canceled"),
  ground (arith, eq_iff "rolled_back" "canceled"),
  ground (arith, eq_iff "failed" "canceled"),
  ground (arith, eq_iff "reconciling" "canceled"),
)

canceled_outcome :
    (outcome status : String)
    → Ends outcome status
    → status ≡ Status.canceled
    → outcome ≡ Outcome.canceled
canceled_outcome outcome status (is_canceled o s) e = o
canceled_outcome outcome status (succeeds_so o s) e = absurd (statuses_differ.0 (sym s ∙ e))
canceled_outcome outcome status (rolls_back o s) e = absurd (statuses_differ.1 (sym s ∙ e))
canceled_outcome outcome status (fails o s) e = absurd (statuses_differ.2 (sym s ∙ e))
canceled_outcome outcome status (stays_open o s) e = absurd (statuses_differ.3 (sym s ∙ e))

module _ (plan : SystemUpdatePortReconfiguration) (t r : SystemUpdatePortSnapshotRef)
    (er : plan.rollback ≡ some r) (result : UpdaterResultEnvelope)
    (ends : Ends result.outcome result.status)
    (succeeded : result.outcome ≡ Outcome.succeeded
      → result.applied_revision ≡ t.config_revision) where
  rollback_revision :
      is_rollback_revision plan.rollback result.applied_revision ≡ true
      → result.applied_revision ≡ r.config_revision
  rollback_revision h =
      let found : is_rollback_revision (some r) result.applied_revision ≡ true =
        ap (λ o. is_rollback_revision o result.applied_revision) (sym er) ∙ h in
      grind tests

  reported-Leaves :
      (port : SystemUpdatePortResultV2)
      → port_outcome_matches plan port result ≡ true
      → Leaves t r result
  unfolding port_outcome_matches
  reported-Leaves port h =
      elim (if-cases (port.result == PortOutcome.applied || port.result == PortOutcome.unchanged) _
        _ h) [
          | inl (kind, tested) ↦
              let e : result.outcome ≡ Outcome.succeeded = grind tests in
              leaves_target e (succeeded e)
          | inr h ↦ elim (if-cases (port.result == PortOutcome.rolled_back) _ _ h) [
            | inl (kind, tested) ↦ leaves_rollback (grind tests) (rollback_revision (grind tests))
            | inr h ↦ elim (if-cases (port.result == PortOutcome.rollback_failed) _ _ h) [
              | inl (kind, tested) ↦ leaves_nothing (inl (grind tests)) (grind tests)
              | inr impossible ↦ cc
            ]
          ]
        ]

  bound-Leaves :
      (sha : Sha256) (lease : UpdaterLeaseEnvelope) (o : Option SystemUpdatePortReconfiguration)
      (port : Option SystemUpdatePortResultV2)
      → o ≡ some plan
      → port_result_matches sha lease result o port ≡ true
      → Leaves t r result
  bound-Leaves sha lease none port e h = cc
  bound-Leaves sha lease (some p) none e h =
      let canceled = canceled_outcome result.outcome result.status ends in
      leaves_nothing (grind tests) (grind tests)
  bound-Leaves sha lease (some p) (some port) e h =
      let same : p ≡ plan = grind tests in
      let switch : port_outcome_matches p port result ≡ true = grind tests in
      reported-Leaves port (rw (← same) switch)

result_matches-desired_revision :
    (lease : UpdaterLeaseEnvelope) (result : UpdaterResultEnvelope)
    → result_matches lease result ≡ true
    → result.desired_revision ≡ lease.command.mutation_authorization.desired_revision
unfolding result_matches
result_matches-desired_revision lease result h = grind tests

succeeded_outcome-applied_revision :
    (lease : UpdaterLeaseEnvelope) (result : UpdaterResultEnvelope)
    → succeeded_outcome lease result ≡ true
    → result.applied_revision ≡ result.desired_revision
unfolding succeeded_outcome
succeeded_outcome-applied_revision lease result h = grind tests

succeeded_case :
    (lease : UpdaterLeaseEnvelope) (result : UpdaterResultEnvelope)
    → outcome_matches lease result ≡ true
    → result.outcome ≡ Outcome.succeeded
    → succeeded_outcome lease result ≡ true
unfolding outcome_matches
succeeded_case lease result h e =
    let test : (result.outcome == Outcome.succeeded) ≡ true = (eq_iff _ _).1 e in grind arith

-- A result that succeeded applies the revision that its command desires.
pub succeeded-desired_revision :
    (platform : Platform) (lease : UpdaterLeaseEnvelope) (result : UpdaterResultEnvelope)
    → validate_updater_result platform lease result ≡ pass
    → result.outcome ≡ Outcome.succeeded
    → result.applied_revision ≡ lease.command.mutation_authorization.desired_revision
succeeded-desired_revision platform lease result h e =
    let accepted = validate_updater_result-Accepted platform lease result h in
    succeeded_outcome-applied_revision lease result (succeeded_case lease result accepted.outcome e)
    ∙ result_matches-desired_revision lease result accepted.matches

-- An accepted result of a port change by version 2 from B by T to R applies the configuration
-- revision of T where it succeeded and of R where it rolled back; otherwise it failed, is
-- ambiguous or was canceled, and applies none.
pub validate_updater_result-Leaves :
    (platform : Platform) (lease : UpdaterLeaseEnvelope) (result : UpdaterResultEnvelope)
    (plan : SystemUpdatePortReconfiguration) (b t r : SystemUpdatePortSnapshotRef)
    → validate_updater_result platform lease result ≡ pass
    → port_plan lease ≡ some plan
    → plan.before ≡ some b
    → plan.target ≡ some t
    → plan.rollback ≡ some r
    → Leaves t r result
unfolding validate_port_result_binding
validate_updater_result-Leaves platform lease result plan b t r h e eb et er =
    let accepted = validate_updater_result-Accepted platform lease result h in
    let ends = validate_updater_result-Ends platform lease result h in
    let command = (validate_lease_static-facts platform lease accepted.lease_static).0 in
    bound-Leaves plan t r er result ends
      (λ o.
        succeeded-desired_revision platform lease result h o
        ∙ desired_revision-target platform lease plan b t command e eb et)
      platform.sha lease (port_plan lease) result.port_reconfigure e accepted.binding
