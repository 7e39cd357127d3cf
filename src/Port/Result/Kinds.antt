-- ===== src/Port/Result/Kinds.antt =====
-- What an accepted result says of the plan, and which results a plan allows.
use autostream_contracts.Common.{
  pos, String, ◌≡◌, ◌≢◌, ◌⊎◌, ◌↔◌, inl, inr, sym, ◌∙◌, refl, true, false, Option, none, some, tests,
  arith, pass, eq_iff,
}
use autostream_contracts.Text.Digest.{Sha256}
use autostream_contracts.Port.Types.{
  SystemUpdatePortResultV2, SystemUpdatePortSnapshotRef, SystemUpdatePortReconfiguration,
}
use autostream_contracts.Port.Outcome
use autostream_contracts.Port.Plan.{plan_is_no_op, validate_plan}
use autostream_contracts.Port.Result.{
  observation_verified, is_accepted_result, rollback_failed_result, expected_state, observes,
  accepted_result, observed_matches, validate_result,
}

kinds_differ :
    (Outcome.rollback_failed ≢ Outcome.unchanged)
    × (Outcome.applied ≢ Outcome.unchanged)
    × (Outcome.rolled_back ≢ Outcome.unchanged)
kinds_differ = (
  ground (arith, eq_iff "rollback_failed" "unchanged"),
  ground (arith, eq_iff "applied" "unchanged"),
  ground (arith, eq_iff "rolled_back" "unchanged"),
)

-- What a valid result is.
pub data Reports (plan : SystemUpdatePortReconfiguration) (x : SystemUpdatePortResultV2)
    : Type 0 where
  gave_up :
      x.result ≡ Outcome.rollback_failed → rollback_failed_result plan x ≡ true → Reports plan x
  reached :
      (state : SystemUpdatePortSnapshotRef)
      → x.result ≢ Outcome.rollback_failed
      → expected_state plan x.result ≡ some state
      → accepted_result plan x state ≡ true
      → Reports plan x

observed_matches-state :
    (plan : SystemUpdatePortReconfiguration) (x : SystemUpdatePortResultV2)
    (o : Option SystemUpdatePortSnapshotRef)
    → observed_matches plan x o ≡ true
    → (state : SystemUpdatePortSnapshotRef) × (o ≡ some state)
      × (accepted_result plan x state ≡ true)
observed_matches-state plan x none h = cc
observed_matches-state plan x (some state) h = (state, refl, h)

validate_result-tests :
    (sha : Sha256) (plan : SystemUpdatePortReconfiguration) (x : SystemUpdatePortResultV2)
    → validate_result sha plan x ≡ pass
    → (validate_plan sha plan ≡ pass)
      × ((x.result ≡ Outcome.rollback_failed) × (rollback_failed_result plan x ≡ true)
          ⊎ (x.result ≢ Outcome.rollback_failed)
            × (observed_matches plan x (expected_state plan x.result) ≡ true))
unfolding validate_result
validate_result-tests sha plan x h = grind tests

-- An accepted result reports a valid plan, as a failed recovery or as a state that was reached.
pub validate_result-Reports :
    (sha : Sha256) (plan : SystemUpdatePortReconfiguration) (x : SystemUpdatePortResultV2)
    → validate_result sha plan x ≡ pass
    → (validate_plan sha plan ≡ pass) × Reports plan x
validate_result-Reports sha plan x h =
    let (valid, either) = validate_result-tests sha plan x h in
    (
      valid,
      elim either [
        | inl (e, t) ↦ gave_up e t
        | inr (ne, t) ↦
            let (state, e, a) = observed_matches-state plan x _ t in reached state ne e a
      ],
    )

pub gave_up_facts :
    (plan : SystemUpdatePortReconfiguration) (x : SystemUpdatePortResultV2)
    → rollback_failed_result plan x ≡ true
    → (x.observed_config_revision ≡ pos 0)
      × (observation_verified x.observation ≡ false)
      × (plan_is_no_op plan ≡ false)
unfolding rollback_failed_result
gave_up_facts plan x h = grind tests

pub reached_facts :
    (plan : SystemUpdatePortReconfiguration) (x : SystemUpdatePortResultV2)
    (state : SystemUpdatePortSnapshotRef)
    → accepted_result plan x state ≡ true
    → (observation_verified x.observation ≡ true)
      × (x.observed_snapshot_id ≡ state.snapshot_id)
      × (x.observed_config_revision ≡ state.config_revision)
unfolding accepted_result observes
reached_facts plan x state h = grind tests

-- The state that the switch names, by the kind of the result.
pub expected_state_cases :
    (plan : SystemUpdatePortReconfiguration) (result : String) (state : SystemUpdatePortSnapshotRef)
    → expected_state plan result ≡ some state
    → (result ≡ Outcome.applied) × (plan_is_no_op plan ≡ false) × (plan.target ≡ some state)
      ⊎ (result ≡ Outcome.unchanged) × (plan_is_no_op plan ≡ true) × (plan.before ≡ some state)
      ⊎ (result ≡ Outcome.rolled_back) × (plan_is_no_op plan ≡ false) × (plan.rollback ≡ some state)
unfolding expected_state
expected_state_cases plan result state h = grind tests

accepted_kind :
    (x : SystemUpdatePortResultV2)
    → (x.result ≡ Outcome.applied)
      ⊎ (x.result ≡ Outcome.unchanged)
      ⊎ (x.result ≡ Outcome.rolled_back)
    → is_accepted_result x ≡ true
unfolding is_accepted_result
accepted_kind x h = grind tests

failed_kind :
    (x : SystemUpdatePortResultV2)
    → x.result ≡ Outcome.rollback_failed
    → is_accepted_result x ≡ false
unfolding is_accepted_result
failed_kind x h = rw h

Reports-kind :
    (plan : SystemUpdatePortReconfiguration) (x : SystemUpdatePortResultV2)
    → Reports plan x
    → is_accepted_result x ≡ observation_verified x.observation
Reports-kind plan x (gave_up e t) = failed_kind x e ∙ sym (gave_up_facts plan x t).1
Reports-kind plan x (reached state ne e a) =
    let kind = expected_state_cases plan x.result state e in
    accepted_kind x (ground arith) ∙ sym (reached_facts plan x state a).0

-- Among the results that a plan allows, the accepted ones are exactly those whose four
-- observations are all verified.
pub is_accepted_result-eq-verified :
    (sha : Sha256) (plan : SystemUpdatePortReconfiguration) (x : SystemUpdatePortResultV2)
    → validate_result sha plan x ≡ pass
    → is_accepted_result x ≡ observation_verified x.observation
is_accepted_result-eq-verified sha plan x h =
    Reports-kind plan x (validate_result-Reports sha plan x h).1

Reports-unchanged :
    (plan : SystemUpdatePortReconfiguration) (x : SystemUpdatePortResultV2)
    → Reports plan x
    → (x.result ≡ Outcome.unchanged) ↔ (plan_is_no_op plan ≡ true)
Reports-unchanged plan x (gave_up e t) =
    let moves = (gave_up_facts plan x t).2 in (λ u. absurd (kinds_differ.0 (sym e ∙ u)), λ n. cc)
Reports-unchanged plan x (reached state ne e a) =
    elim (expected_state_cases plan x.result state e) [
      | inl (k, n, _) ↦ (λ u. absurd (kinds_differ.1 (sym k ∙ u)), λ m. cc)
      | inr (inl (k, n, _)) ↦ (λ u. n, λ m. k)
      | inr (inr (k, n, _)) ↦ (λ u. absurd (kinds_differ.2 (sym k ∙ u)), λ m. cc)
    ]

-- A plan that is a no-op allows the result `unchanged` only, and no other plan allows it.
pub unchanged-iff-no_op :
    (sha : Sha256) (plan : SystemUpdatePortReconfiguration) (x : SystemUpdatePortResultV2)
    → validate_result sha plan x ≡ pass
    → (x.result ≡ Outcome.unchanged) ↔ (plan_is_no_op plan ≡ true)
unchanged-iff-no_op sha plan x h = Reports-unchanged plan x (validate_result-Reports sha plan x h).1
