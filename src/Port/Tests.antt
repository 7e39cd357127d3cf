-- ===== src/Port/Tests.antt =====
-- Runs of the port contract, and its theorems at concrete inputs.
use autostream_contracts.Common.{
  String, none, some, ok, [], ◌∷◌, All, Distinct, loop_distinct, contains, ◌≡◌, refl, ◌⊎◌, ◌↔◌,
  true, ℕ, pos, ◌+ℤ◌, pass,
}
use autostream_contracts.Text.{
  matches_digest, matches_raw_sha256, trim_prefix, byte_length, all_characters, is_printable,
  has_prefix, valid_updater_identifier, valid_updater_idempotency_key,
}
use autostream_contracts.Text.Digest.{compute_bytes_sha256, compute_bytes_sha256-IsDigest}
use autostream_contracts.Port.Samples.{
  zero_sha, digest_a, before, target, rollback, local_plan, applied_result, later_result,
  create_request,
}
use autostream_contracts.Port.Baseline.{
  UpdaterPortPolicyBaseline, UpdaterPortPolicyBaselineTarget, baseline_service, validate_baseline,
  baseline_fields, baseline_target,
}
use autostream_contracts.Port.Baseline.Services.{Deployed, validate_baseline-Distinct}
use autostream_contracts.Port.DockerConfig.{docker_config, docker_config_text, variable_prefix}
use autostream_contracts.Port.DockerConfig.Read.{
  read_docker_config, read_docker_config-docker_config,
}
use autostream_contracts.Json.Decimal.{decimal_ℤ}
use autostream_contracts.Port.Running.{references, plans, results}
use autostream_contracts.Port.Create.{
  create_fields, local_inputs, advertised_inputs, validate_create,
}
use autostream_contracts.Port.Create.Inputs.{Listens, Advertises, validate_create-inputs}
use autostream_contracts.Port.Outcome
use autostream_contracts.Port.Plan.{plan_is_no_op, validate_plan}
use autostream_contracts.Port.Plan.Moves.{IsMove}
use autostream_contracts.Port.Plan.Transition.{validate_plan-Transition}
use autostream_contracts.Port.Result.{is_accepted_result, observation_verified, validate_result}
use autostream_contracts.Port.Result.Kinds.{is_accepted_result-eq-verified, unchanged-iff-no_op}
use autostream_contracts.Port.Result.Revisions.{
  IsAfter, observed_config_revision-IsAfter, observed_config_revision-result,
}

abbrev worker : UpdaterPortPolicyBaselineTarget
worker = record {
  service_id = "worker-1";
  service_type = "worker";
  deployment_mode = "systemd";
  endpoint_revision = pos 5;
  config_revision = pos 7;
  config_sha256 = digest_a;
  local_listen_port = pos 8080;
  docker = none;
  docker_root = none;
}

abbrev baseline : UpdaterPortPolicyBaseline
baseline = record {
  port_contract_version = pos 2;
  policy_transition_version = pos 1;
  agent_uid = 1000;
  agent_gid = 1000;
  source_policy_revision = pos 10;
  projection_revision = pos 20;
  executor_policy_revision = pos 30;
  executor_policy_sha256 = digest_a;
  targets =
      worker ∷ record worker { service_id = "encoder-1"; service_type = "encoder_recorder" } ∷ [];
  observed_at = pos 1000;
}

baseline_accepted : validate_baseline baseline ≡ pass
unfolding references validate_baseline baseline_fields loop_distinct contains baseline_target
    valid_updater_identifier
baseline_accepted = refl

validate_baseline-Distinct_example :
    Distinct baseline_service baseline.targets × All Deployed baseline.targets
validate_baseline-Distinct_example = validate_baseline-Distinct baseline baseline_accepted

abbrev config_text : String
config_text =
    "AUTOSTREAM_WORKER_PORT=8080\nAUTOSTREAM_WORKER_CONTAINER_PORT=9090\nAUTOSTREAM_CONFIG_REVISION=8\n"

config_made : docker_config "worker" (pos 8080) (pos 9090) (pos 8) ≡ ok config_text
unfolding references docker_config variable_prefix docker_config_text decimal_ℤ
config_made = refl

read_docker_config-docker_config_example :
    read_docker_config "worker" config_text ≡ some (pos 8080, pos 9090, pos 8)
read_docker_config-docker_config_example =
    read_docker_config-docker_config "worker" config_text (pos 8080) (pos 9090) (pos 8) config_made

create_accepted : validate_create create_request ≡ pass
unfolding references byte_length all_characters is_printable has_prefix valid_updater_identifier
    valid_updater_idempotency_key create_fields local_inputs advertised_inputs validate_create
create_accepted = refl

local_plan_accepted : validate_plan zero_sha local_plan ≡ pass
unfolding plans
local_plan_accepted = refl

applied_result_accepted : validate_result zero_sha local_plan applied_result ≡ pass
unfolding results
applied_result_accepted = refl

validate_plan-Transition_example :
    (before ≡ target) × (before ≡ rollback) ⊎ IsMove local_plan.mode before target rollback
validate_plan-Transition_example =
    validate_plan-Transition zero_sha local_plan before target rollback local_plan_accepted refl
      refl refl

is_accepted_result-eq-verified_example :
    is_accepted_result applied_result ≡ observation_verified applied_result.observation
is_accepted_result-eq-verified_example =
    is_accepted_result-eq-verified zero_sha local_plan applied_result applied_result_accepted

unchanged-iff-no_op_example :
    (applied_result.result ≡ Outcome.unchanged) ↔ (plan_is_no_op local_plan ≡ true)
unchanged-iff-no_op_example =
    unchanged-iff-no_op zero_sha local_plan applied_result applied_result_accepted

observed_config_revision-IsAfter_example :
    (applied_result.result ≡ Outcome.rollback_failed)
      × (applied_result.observed_config_revision ≡ pos 0)
    ⊎ ((k : ℕ) × IsAfter applied_result.result k
        × (applied_result.observed_config_revision ≡ before.config_revision +ℤ pos k))
observed_config_revision-IsAfter_example =
    observed_config_revision-IsAfter zero_sha local_plan before target rollback local_plan_accepted
      refl refl refl applied_result applied_result_accepted

later_result_accepted : validate_result zero_sha local_plan later_result ≡ pass
unfolding results
later_result_accepted = refl

observed_config_revision-result_example : applied_result.result ≡ later_result.result
observed_config_revision-result_example =
    observed_config_revision-result zero_sha local_plan applied_result later_result
      applied_result_accepted later_result_accepted refl

compute_bytes_sha256-IsDigest_example :
    (matches_digest (compute_bytes_sha256 zero_sha "{}") ≡ true)
    × (matches_raw_sha256 (trim_prefix (compute_bytes_sha256 zero_sha "{}") "sha256:") ≡ true)
compute_bytes_sha256-IsDigest_example = compute_bytes_sha256-IsDigest zero_sha "{}"

validate_create-inputs_example : Listens create_request × Advertises create_request
validate_create-inputs_example = validate_create-inputs create_request create_accepted
