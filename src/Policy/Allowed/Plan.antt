-- ===== src/Policy/Allowed/Plan.antt =====
-- The two changes of a plan that `ValidateSystemUpdatePortPlan` of
-- pkg/contracts/system_update_port_v2.go accepts, for the tests of the delta in
-- pkg/contracts/system_update_port_policy.go.
use Prim.Native.Nat.{◌≤◌}
use autostream_contracts.Common.{
  ℕ, String, Bool, true, false, not, ◌&&◌, ◌||◌, ◌≡◌, inl, inr, refl, sym, ◌∙◌, Option, none, some,
  arith, tests, int_laws, Bool-cases, ℤ, pos, ◌+ℤ◌, add64, sub64, sub64_exact, add64_exact, leb_ℤ,
  beq_ℤ, beq_ℤ_iff, ◌==◌, ℤ_eq, String_eq, Bool_eq, eq_iff, is_nil, pass,
}
use autostream_contracts.Text.{matches_digest}
use autostream_contracts.Text.Digest.{Sha256}
use autostream_contracts.Port.Types.{
  SystemUpdatePortSnapshotRef, SystemUpdatePortReconfiguration, SystemUpdatePortDockerSnapshot,
  SystemUpdatePortDockerBaseline,
}
use autostream_contracts.Port.Snapshot.{valid_revision, valid_port, valid_snapshot_ref, local_equal}
use autostream_contracts.Port.Plan.{references_valid, docker_consistent, validate_plan}
use autostream_contracts.Port.Plan.View.{validate_plan-references}
use autostream_contracts.Port.Plan.Moves.{IsMove, Advances, valid_revision_bounds}
use autostream_contracts.Port.Plan.Transition.{validate_plan-Transition}
use autostream_contracts.Policy.Allowed.{delta_step, delta_allowed}

-- The counters of the second reference are the first's and a step more, which is 0, 1 or 2.
record Stepped (before after : SystemUpdatePortSnapshotRef) (k : ℕ) : Type 0 where
  source : after.source_policy_revision ≡ before.source_policy_revision +ℤ pos k
  projection : after.projection_revision ≡ before.projection_revision +ℤ pos k
  executor : after.executor_policy_revision ≡ before.executor_policy_revision +ℤ pos k
  config : after.config_revision ≡ before.config_revision +ℤ pos k
  endpoint :
      (after.endpoint_revision == before.endpoint_revision
        || after.endpoint_revision == add64 before.endpoint_revision (pos k))
      ≡ true
  applied :
      (after.applied_endpoint_revision == before.applied_endpoint_revision
        || after.applied_endpoint_revision == after.endpoint_revision)
      ≡ true
  docker : (is_nil before.docker == is_nil after.docker) ≡ true

-- What the two steps ask for besides.
record Purpose (before after : SystemUpdatePortSnapshotRef) (step : ℤ) : Type 0 where
  low : leb_ℤ (pos 0) step ≡ true
  high : leb_ℤ step (pos 2) ≡ true
  forward : not (step == pos 1 && local_equal before after) ≡ true
  back :
      not (
        step == pos 2
        && (not (after.advertised_port == before.advertised_port)
            || not (after.advertised_endpoint_sha256 == before.advertised_endpoint_sha256)))
      ≡ true

-- The values of a valid reference that the delta tests again.
record Tested (after : SystemUpdatePortSnapshotRef) : Type 0 where
  source : valid_revision after.source_policy_revision ≡ true
  projection : valid_revision after.projection_revision ≡ true
  executor : valid_revision after.executor_policy_revision ≡ true
  config : valid_revision after.config_revision ≡ true
  port : valid_port after.local_listen_port (pos 1024) ≡ true
  applied : valid_revision after.applied_endpoint_revision ≡ true
  digest : matches_digest after.config_sha256 ≡ true

valid_snapshot_ref-Tested :
    (after : SystemUpdatePortSnapshotRef) → valid_snapshot_ref after ≡ true → Tested after
unfolding valid_snapshot_ref
valid_snapshot_ref-Tested after v = record {
  source = ground (arith, v);
  projection = ground (arith, v);
  executor = ground (arith, v);
  config = ground (arith, v);
  port = ground (arith, v);
  applied = ground (arith, v);
  digest = ground (arith, v);
}

minus : (a b : ℤ) (k : ℕ) → k ≤ 2 → a ≡ b +ℤ pos k → sub64 a b ≡ pos k
minus a b k small e = rw e (sub64_exact b k small)

same_number : (a b : ℤ) → a ≡ b → (a == b) ≡ true
same_number a b e = (beq_ℤ_iff a b).1 e

Stepped-delta_allowed :
    (before after : SystemUpdatePortSnapshotRef) (k : ℕ)
    → k ≤ 2
    → valid_snapshot_ref after ≡ true
    → Stepped before after k
    → Purpose before after (pos k)
    → delta_allowed before after ≡ true
unfolding delta_allowed
Stepped-delta_allowed before after k small v s p =
    let t = valid_snapshot_ref-Tested after v in
    let step : delta_step before after ≡ pos k = minus _ _ k small s.source in
    let projection = same_number _ _ (minus _ _ k small s.projection) in
    let executor = same_number _ _ (minus _ _ k small s.executor) in
    let config = same_number _ _ (minus _ _ k small s.config) in
    rw step (
      rw
        (
          p.low, p.high, projection, executor, config, t.source, t.projection, t.executor, t.config,
          t.port, t.applied, t.digest, s.docker, s.endpoint, s.applied, p.forward, p.back,
        )
        refl)

or_second : (a b : Bool) → b ≡ true → (a || b) ≡ true
or_second a b h = ground arith

no_change : (a : ℤ) → a ≡ a +ℤ pos 0
no_change a = omega int_laws

no_change-Stepped : (b : SystemUpdatePortSnapshotRef) → Stepped b b 0
no_change-Stepped b = record {
  source = no_change b.source_policy_revision;
  projection = no_change b.projection_revision;
  executor = no_change b.executor_policy_revision;
  config = no_change b.config_revision;
  endpoint = rw (same_number b.endpoint_revision b.endpoint_revision refl) refl;
  applied = rw (same_number b.applied_endpoint_revision b.applied_endpoint_revision refl) refl;
  docker = grind tests;
}

Advances-Stepped :
    (b next : SystemUpdatePortSnapshotRef) (moved : Bool) (k : ℕ)
    → k ≤ 2
    → valid_snapshot_ref b ≡ true
    → (is_nil b.docker == is_nil next.docker) ≡ true
    → Advances b moved k next
    → Stepped b next k
unfolding valid_snapshot_ref
Advances-Stepped b next moved k small v docker a =
    let valid : valid_revision b.endpoint_revision ≡ true = ground (arith, v) in
    let (low, high) = valid_revision_bounds b.endpoint_revision valid in
    let exact = add64_exact b.endpoint_revision k low high small in
    record {
      source = a.source;
      projection = a.projection;
      executor = a.executor;
      config = a.config;
      endpoint = elim (Bool-cases moved) [
        | inl m ↦ or_second _ _ (same_number _ _ (a.endpoint m ∙ sym exact))
        | inr m ↦ rw (same_number _ _ (a.endpoint_kept m)) refl
      ];
      applied = elim (Bool-cases moved) [
        | inl m ↦ or_second _ _ (same_number _ _ (a.applied m ∙ sym (a.endpoint m)))
        | inr m ↦ rw (same_number _ _ (a.applied_kept m)) refl
      ];
      docker = docker;
    }

same_docker :
    (baseline : Option SystemUpdatePortDockerBaseline)
    (b t r : Option SystemUpdatePortDockerSnapshot)
    → docker_consistent baseline b t r ≡ true
    → ((is_nil b == is_nil t) ≡ true) × ((is_nil b == is_nil r) ≡ true)
same_docker none none none none h = (refl, refl)
same_docker (some baseline) (some b) (some t) (some r) h = (refl, refl)
same_docker _ _ _ _ h = ground arith

references_valid-parts :
    (plan : SystemUpdatePortReconfiguration) (b t r : SystemUpdatePortSnapshotRef)
    → references_valid plan b t r ≡ true
    → (valid_snapshot_ref b ≡ true)
      × (valid_snapshot_ref t ≡ true)
      × (valid_snapshot_ref r ≡ true)
      × (docker_consistent plan.docker_baseline b.docker t.docker r.docker ≡ true)
unfolding references_valid
references_valid-parts plan b t r h = (ground arith, ground arith, ground arith, ground arith)

IsMove-forward :
    (mode : String) (b t r : SystemUpdatePortSnapshotRef) → IsMove mode b t r → Purpose b t (pos 1)
unfolding beq_ℤ leb_ℤ
IsMove-forward mode b t r m = record {
  low = refl;
  high = refl;
  forward = rw m.listens_elsewhere refl;
  back = refl;
}

both_kept : (test x y : Bool) → x ≡ true → y ≡ true → not (test && (not x || not y)) ≡ true
both_kept test x y h k = ground arith

other_step : (pos 2 == pos 1) ≡ false
unfolding beq_ℤ
other_step = refl

IsMove-back :
    (mode : String) (b t r : SystemUpdatePortSnapshotRef) → IsMove mode b t r → Purpose b r (pos 2)
unfolding leb_ℤ
IsMove-back mode b t r m = record {
  low = refl;
  high = refl;
  forward = rw other_step refl;
  back = both_kept _ _ _ (same_number _ _ m.advertised_again) ((eq_iff _ _).1 m.endpoint_again);
}

no_change-Purpose : (b : SystemUpdatePortSnapshotRef) → Purpose b b (pos 0)
unfolding beq_ℤ leb_ℤ
no_change-Purpose b = record { low = refl; high = refl; forward = refl; back = refl }

-- For each accepted plan, the change from B to its target T and the one from B to its rollback R
-- pass the tests that the delta makes of two references.
pub validate_plan-delta_allowed :
    (sha : Sha256) (plan : SystemUpdatePortReconfiguration) (b t r : SystemUpdatePortSnapshotRef)
    → validate_plan sha plan ≡ pass
    → plan.before ≡ some b
    → plan.target ≡ some t
    → plan.rollback ≡ some r
    → (delta_allowed b t ≡ true) × (delta_allowed b r ≡ true)
validate_plan-delta_allowed sha plan b t r h eb et er =
    let refs = validate_plan-references sha plan h eb et er in
    let (valid_b, valid_t, valid_r, docker) = references_valid-parts plan b t r refs in
    let (docker_t, docker_r) = same_docker plan.docker_baseline b.docker t.docker r.docker docker in
    elim (validate_plan-Transition sha plan b t r h eb et er) [
      | inl (bt, br) ↦
          let still =
            Stepped-delta_allowed b b 0 (omega arith) valid_b (no_change-Stepped b)
              (no_change-Purpose b) in
          (rw (← bt) still, rw (← br) still)
      | inr m ↦ (
        Stepped-delta_allowed b t 1 (omega arith) valid_t
            (Advances-Stepped b t m.moved 1 (omega arith) valid_b docker_t m.forward)
            (IsMove-forward plan.mode b t r m),
        Stepped-delta_allowed b r 2 (omega arith) valid_r
            (Advances-Stepped b r m.moved 2 (omega arith) valid_b docker_r m.back)
            (IsMove-back plan.mode b t r m),
      )
    ]
