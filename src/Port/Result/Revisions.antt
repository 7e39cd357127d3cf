-- ===== src/Port/Result/Revisions.antt =====
-- The configuration revision that a result observed tells what happened.
use autostream_contracts.Common.{
  ap, pos_part, neg_part, ℕ, ◌+ℤ◌, ◌≡◌, ◌≢◌, ◌⊎◌, inl, inr, sym, ◌∙◌, String, some, ℤ, pos, ◌≤ℤ◌,
  int_laws, arith, pass, refl,
}
use autostream_contracts.Text.Digest.{Sha256}
use autostream_contracts.Port.Types.{
  SystemUpdatePortResultV2, SystemUpdatePortSnapshotRef, SystemUpdatePortReconfiguration,
}
use autostream_contracts.Port.Outcome
use autostream_contracts.Port.Plan.{validate_plan}
use autostream_contracts.Port.Plan.View.{validate_plan-view}
use autostream_contracts.Port.Plan.Transition.{validate_plan-IsMove, validate_plan-before_positive}
use autostream_contracts.Port.Result.{expected_state, validate_result}
use autostream_contracts.Port.Result.Kinds.{
  Reports, gave_up, reached, validate_result-Reports, expected_state_cases, gave_up_facts,
  reached_facts,
}

-- The number of changes that the kind of a result stands for.
pub data IsAfter : String → ℕ → Type 0 where
  none_made : {result : String} → result ≡ Outcome.unchanged → IsAfter result 0
  one_made : {result : String} → result ≡ Outcome.applied → IsAfter result 1
  two_made : {result : String} → result ≡ Outcome.rolled_back → IsAfter result 2

plus_zero : (a : ℤ) → a ≡ a +ℤ pos 0
plus_zero a = omega int_laws

module _ (sha : Sha256) (plan : SystemUpdatePortReconfiguration)
    (b t r : SystemUpdatePortSnapshotRef) (v : validate_plan sha plan ≡ pass)
    (eb : plan.before ≡ some b) (et : plan.target ≡ some t) (er : plan.rollback ≡ some r) where
  state-IsAfter :
      (result : String) (state : SystemUpdatePortSnapshotRef)
      → expected_state plan result ≡ some state
      → (k : ℕ) × IsAfter result k × (state.config_revision ≡ b.config_revision +ℤ pos k)
  state-IsAfter result state e = elim (expected_state_cases plan result state e) [
    | inl (kind, moves, at) ↦
        let same : state ≡ t = cc in
        let move = validate_plan-IsMove sha plan b t r v eb et er moves in
        (1, one_made kind, rw same move.forward.config)
    | inr (inl (kind, still, at)) ↦
        let same : state ≡ b = cc in (0, none_made kind, rw same (plus_zero b.config_revision))
    | inr (inr (kind, moves, at)) ↦
        let same : state ≡ r = cc in
        let move = validate_plan-IsMove sha plan b t r v eb et er moves in
        (2, two_made kind, rw same move.back.config)
  ]

  -- Of a valid plan's results each observes no revision and is a failed recovery, or observes the
  -- revision of B with one added for each change that was made: none for `unchanged`, one for
  -- `applied`, two for `rolled_back`.
  pub observed_config_revision-IsAfter :
      (x : SystemUpdatePortResultV2)
      → validate_result sha plan x ≡ pass
      → (x.result ≡ Outcome.rollback_failed) × (x.observed_config_revision ≡ pos 0)
        ⊎ ((k : ℕ) × IsAfter x.result k × (x.observed_config_revision ≡ b.config_revision +ℤ pos k))
  observed_config_revision-IsAfter x h = go (validate_result-Reports sha plan x h).1
    where
      go :
          Reports plan x
          → (x.result ≡ Outcome.rollback_failed) × (x.observed_config_revision ≡ pos 0)
            ⊎ ((k : ℕ) × IsAfter x.result k
                × (x.observed_config_revision ≡ b.config_revision +ℤ pos k))
      go (gave_up e tested) = inl (e, (gave_up_facts plan x tested).0)
      go (reached state ne e a) =
          let (k, after, revision) = state-IsAfter x.result state e in
          inr (k, after, (reached_facts plan x state a).2 ∙ revision)

IsAfter-cases :
    {result : String} {k : ℕ}
    → IsAfter result k
    → (result ≡ Outcome.unchanged) × (k ≡ 0)
      ⊎ (result ≡ Outcome.applied) × (k ≡ 1)
      ⊎ (result ≡ Outcome.rolled_back) × (k ≡ 2)
IsAfter-cases (none_made e) = inl (e, refl)
IsAfter-cases (one_made e) = inr (inl (e, refl))
IsAfter-cases (two_made e) = inr (inr (e, refl))

after_same :
    {result result' : String} {k k' : ℕ}
    → IsAfter result k
    → IsAfter result' k'
    → k ≡ k'
    → result ≡ result'
after_same {result} {result'} {k} {k'} a a' e = ground (arith, IsAfter-cases a, IsAfter-cases a')

same_count : (b : ℤ) (k k' : ℕ) → b +ℤ pos k ≡ b +ℤ pos k' → k ≡ k'
same_count b k k' e = omega (int_laws, ap pos_part e, ap neg_part e)

not_zero : (b : ℤ) (k : ℕ) → pos 1 ≤ℤ b → b +ℤ pos k ≢ pos 0
not_zero b k h e = omega (int_laws, ap pos_part e, ap neg_part e)

-- For one plan, the observed configuration revision alone tells the kind of a valid result.
pub observed_config_revision-result :
    (sha : Sha256) (plan : SystemUpdatePortReconfiguration) (x y : SystemUpdatePortResultV2)
    → validate_result sha plan x ≡ pass
    → validate_result sha plan y ≡ pass
    → x.observed_config_revision ≡ y.observed_config_revision
    → x.result ≡ y.result
observed_config_revision-result sha plan x y hx hy e =
    let v = (validate_result-Reports sha plan x hx).0 in
    let view = validate_plan-view sha plan v in
    let positive =
      validate_plan-before_positive sha plan view.before view.target view.rollback v view.has_before
        view.has_target view.has_rollback in
    let of =
      observed_config_revision-IsAfter sha plan view.before view.target view.rollback v
        view.has_before view.has_target view.has_rollback in
    elim (of x hx) [
      | inl (ex, zx) ↦ elim (of y hy) [
        | inl (ey, zy) ↦ ex ∙ sym ey
        | inr (k, after, ry) ↦
            absurd (not_zero view.before.config_revision k positive (sym ry ∙ sym e ∙ zx))
      ]
      | inr (k, after, rx) ↦ elim (of y hy) [
        | inl (ey, zy) ↦ absurd (not_zero view.before.config_revision k positive (sym rx ∙ e ∙ zy))
        | inr (k', after', ry) ↦
            after_same after after' (same_count view.before.config_revision k k' (sym rx ∙ e ∙ ry))
      ]
    ]
