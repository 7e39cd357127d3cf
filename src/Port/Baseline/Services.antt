-- ===== src/Port/Baseline/Services.antt =====
-- The services of an accepted baseline.
use autostream_contracts.Common.{
  ◌≡◌, ◌≢◌, List, ◌∷◌, ℤ, eq_iff, arith, sym, ◌∙◌, refl, bool_beq_iff, true, not, All, Distinct,
  loop_distinct-Distinct, loop_distinct, [], none, some, pass, tests, require-passes,
  system_update_port_contract, is_nil, ◌==◌, String_eq, Bool_eq, Option,
}
use autostream_contracts.Port.Deployment
use autostream_contracts.Port.Types.{SystemUpdatePortDockerSnapshot}
use autostream_contracts.Port.Snapshot.{docker_valid, valid_docker_snapshot}
use autostream_contracts.Port.Baseline.{
  UpdaterPortDockerRootBaseline, UpdaterPortPolicyBaselineTarget, UpdaterPortPolicyBaseline,
  baseline_fields, baseline_target, baseline_service, validate_baseline,
}

-- How a target is deployed: without any Docker part, or in Docker with its port published there.
pub data Deployed (target : UpdaterPortPolicyBaselineTarget) : Type 0 where
  without_docker :
      target.deployment_mode ≢ Deployment.docker
      → target.docker ≡ none
      → target.docker_root ≡ none
      → Deployed target
  in_docker :
      (docker : SystemUpdatePortDockerSnapshot) (root : UpdaterPortDockerRootBaseline)
      → target.deployment_mode ≡ Deployment.docker
      → target.docker ≡ some docker
      → target.docker_root ≡ some root
      → docker.published_port ≡ target.local_listen_port
      → Deployed target

target_tests :
    (target : UpdaterPortPolicyBaselineTarget)
    → baseline_target target ≡ true
    → ((target.deployment_mode == Deployment.docker) ≡ not (is_nil target.docker))
      × ((target.deployment_mode == Deployment.docker) ≡ not (is_nil target.docker_root))
      × (docker_valid target.docker target.local_listen_port ≡ true)
unfolding baseline_target
target_tests target h = grind (tests, bool_beq_iff)

published_here :
    (docker : SystemUpdatePortDockerSnapshot) (port : ℤ)
    → valid_docker_snapshot docker port ≡ true
    → docker.published_port ≡ port
unfolding valid_docker_snapshot
published_here docker port h = grind tests

deployed :
    (target : UpdaterPortPolicyBaselineTarget) (d : Option SystemUpdatePortDockerSnapshot)
    (r : Option UpdaterPortDockerRootBaseline)
    → target.docker ≡ d
    → target.docker_root ≡ r
    → (target.deployment_mode == Deployment.docker) ≡ not (is_nil d)
    → (target.deployment_mode == Deployment.docker) ≡ not (is_nil r)
    → docker_valid d target.local_listen_port ≡ true
    → Deployed target
deployed target none none ed er md mr h =
    without_docker (λ e. grind (arith, eq_iff target.deployment_mode Deployment.docker)) ed er
deployed target none (some root) ed er md mr h = absurd (cc (sym md ∙ mr))
deployed target (some docker) none ed er md mr h = absurd (cc (sym md ∙ mr))
deployed target (some docker) (some root) ed er md mr h =
    in_docker docker root ((eq_iff _ _).0 md) ed er (published_here docker _ h)

baseline_target-Deployed :
    (target : UpdaterPortPolicyBaselineTarget) → baseline_target target ≡ true → Deployed target
baseline_target-Deployed target h =
    let (mode, root_mode, docker) = target_tests target h in
    deployed target target.docker target.docker_root refl refl mode root_mode docker

All-Deployed :
    (targets : List UpdaterPortPolicyBaselineTarget)
    → All (λ t. baseline_target t ≡ true) targets
    → All Deployed targets
All-Deployed [] h = tt
All-Deployed (t ∷ ts) (here, later) = (baseline_target-Deployed t here, All-Deployed ts later)

-- An accepted baseline names each service once, and each of its targets is deployed without any
-- Docker part, or in Docker with all of them and with the port that the node listens on published.
pub validate_baseline-Distinct :
    (baseline : UpdaterPortPolicyBaseline)
    → validate_baseline baseline ≡ pass
    → Distinct baseline_service baseline.targets × All Deployed baseline.targets
unfolding validate_baseline
validate_baseline-Distinct baseline h =
    let (fields, loop) =
      require-passes (baseline_fields baseline) system_update_port_contract _ _ h in
    let looped : loop_distinct baseline_service baseline_target [] baseline.targets ≡ true =
      grind arith in
    let (tested, distinct) =
      loop_distinct-Distinct baseline_service baseline_target baseline.targets looped in
    (distinct, All-Deployed baseline.targets tested)
