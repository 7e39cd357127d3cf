-- ===== src/Policy/Tests.antt =====
-- The delta of a root policy at a concrete input.
use autostream_contracts.Common.{
  pass, String, true, false, none, some, [], ◌∷◌, ◌≡◌, ◌≢◌, ◌⊎◌, refl, ap, pos, pos_part, arith,
  loop_distinct, contains, sub64,
}
use autostream_contracts.Port.Types.{SystemUpdatePortSnapshotRef}
use autostream_contracts.Port.Samples.{zero_sha, digest_a}
use autostream_contracts.Port.Samples
use autostream_contracts.Port.Plan.{validate_plan}
use autostream_contracts.Policy.Allowed.Plan.{validate_plan-delta_allowed}
use autostream_contracts.Port.Running.{plans}
use autostream_contracts.Json.{object, no_members}
use autostream_contracts.Json.Strict.{decode_strict, strict_value}
use autostream_contracts.Text.{valid_updater_identifier}
use autostream_contracts.Text.Bytes.{no_edge_space}
use autostream_contracts.Listener.{listener_config, marshal_listener, validate_listener}
use autostream_contracts.Listener.Samples.{sample_listener}
use autostream_contracts.Policy.Root.{
  PolicyPlatform, PortRootPolicy, PortRootTarget, root_valid, decode_root_policy, root_fields,
  root_target,
}
use autostream_contracts.Policy.Target.{root_target_matches_ref}
use autostream_contracts.Policy.Allowed.{delta_allowed}
use autostream_contracts.Policy.Delta.{apply_policy_delta, delta_starts, delta_targets, delta_round}
use autostream_contracts.Policy.Delta.Applied.{Written, apply_policy_delta-Written}
use autostream_contracts.Policy.Delta.Valid.{apply_policy_delta-root_valid}

abbrev digest_zero : String
digest_zero = "sha256:0000000000000000000000000000000000000000000000000000000000000000"

abbrev payload : String
payload = "{}"

abbrev before : SystemUpdatePortSnapshotRef
before = record Samples.before { executor_policy_sha256 = digest_zero }

abbrev after : SystemUpdatePortSnapshotRef
after = record Samples.target { executor_policy_sha256 = ""; config_sha256 = digest_zero }

abbrev worker : PortRootTarget
worker = record {
  service_id = "worker-1";
  service_type = "worker";
  deployment_mode = "systemd";
  database_name = "";
  endpoint_revision = pos 5;
  config_revision = pos 7;
  config_sha256 = digest_a;
  local_listen_endpoint = record { host = "127.0.0.1"; port = pos 8080 };
  systemd = "worker.service";
  docker = none;
}

abbrev policy : PortRootPolicy
policy = record {
  schema_version = pos 2;
  protocol_version = pos 2;
  host_id = "host-1";
  agent_uid = 1000;
  agent_gid = 1000;
  socket_path = "/run/autostream-local-executor/executor.sock";
  source_policy_revision = pos 10;
  projection_revision = pos 20;
  policy_revision = pos 30;
  mutation = some (record { panel_url = "https://panel.example" });
  targets =
      worker ∷ record worker { service_id = "encoder-1"; service_type = "encoder_recorder" } ∷ [];
}

abbrev platform : PolicyPlatform
platform = record {
  sha = zero_sha;
  listener = sample_listener;
  read_json = λ payload. some (object no_members);
  decode_root = λ document. some policy;
  marshal_root = λ written. some payload;
  parse_url = λ url. some (record {
    scheme = "https";
    host = "panel.example";
    hostname = "panel.example";
    has_user = false;
    raw_query = "";
    fragment = "";
  });
  loopback_address = λ hostname. none;
}

delta_applied : apply_policy_delta platform payload "worker-1" before after ≡ some payload
unfolding plans decode_strict strict_value apply_policy_delta decode_root_policy root_valid
    root_fields valid_updater_identifier no_edge_space loop_distinct contains root_target
    delta_starts delta_allowed sub64 delta_targets delta_round root_target_matches_ref
    listener_config marshal_listener validate_listener
delta_applied = refl

apply_policy_delta-Written_example :
    (before ≡ after) × (payload ≡ payload)
    ⊎ ((read : PortRootPolicy) × Written platform payload "worker-1" before after read payload)
apply_policy_delta-Written_example =
    apply_policy_delta-Written platform payload "worker-1" before after payload delta_applied

revisions_differ : before ≢ after
revisions_differ e =
    absurd
      (omega (arith, ap pos_part (ap (λ (r : SystemUpdatePortSnapshotRef). r.config_revision) e)))

apply_policy_delta-root_valid_example :
    (written : PortRootPolicy) × (platform.marshal_root written ≡ some payload)
    × (root_valid platform written ≡ true)
apply_policy_delta-root_valid_example =
    apply_policy_delta-root_valid platform payload "worker-1" before after payload revisions_differ
      delta_applied

local_plan_accepted : validate_plan zero_sha Samples.local_plan ≡ pass
unfolding plans
local_plan_accepted = refl

validate_plan-delta_allowed_example :
    (delta_allowed Samples.before Samples.target ≡ true)
    × (delta_allowed Samples.before Samples.rollback ≡ true)
validate_plan-delta_allowed_example =
    validate_plan-delta_allowed zero_sha Samples.local_plan Samples.before Samples.target
      Samples.rollback local_plan_accepted refl refl refl
