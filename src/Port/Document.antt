-- ===== src/Port/Document.antt =====
-- The tests of the raw documents of a port change, in
-- pkg/contracts/system_update_port_validation.go.
use autostream_contracts.Common.{
  String, Bool, true, false, ◌&&◌, List, [], ◌∷◌, contains, ◌==◌, String_eq, ℕ_eq, if◌then◌else◌,
}
use autostream_contracts.Json.{
  Json, array, Items, Members, no_members, member, member?, require_updater_fields,
}
use autostream_contracts.Json.Entry.{
  is_object, required_value, optional_value, text_of, count_members, each_item,
}
use autostream_contracts.Port.Outcome

abbrev pub create_required : List String
create_required =
    "protocol_version" ∷ "operation" ∷ "port_contract_version" ∷ "mode" ∷ "target_id"
    ∷ "expected_snapshot_id" ∷ "expected_endpoint_revision" ∷ "desired_revision" ∷ "fence"
    ∷ "required_capability" ∷ "idempotency_key" ∷ []

-- The test in `ValidateSystemUpdatePortCreateRequest`.
unfoldable pub create_document : Json → Bool
create_document document =
    is_object (λ object. require_updater_fields object create_required) document

abbrev pub plan_required : List String
plan_required =
    "port_contract_version" ∷ "mode" ∷ "network_namespace" ∷ "protocol" ∷ "before" ∷ "target"
    ∷ "rollback" ∷ "port_plan_sha256" ∷ []

-- The loop over the keys.
unfoldable pub only_keys : List String → Members → Bool
only_keys allowed no_members = true
only_keys allowed (member key value ms) = contains allowed key && only_keys allowed ms

abbrev pub ref_required : List String
ref_required =
    "snapshot_id" ∷ "snapshot_sha256" ∷ "source_policy_revision" ∷ "projection_revision"
    ∷ "executor_policy_revision" ∷ "executor_policy_sha256" ∷ "endpoint_revision"
    ∷ "applied_endpoint_revision" ∷ "config_revision" ∷ "config_sha256" ∷ "advertised_port"
    ∷ "advertised_endpoint_sha256" ∷ "local_listen_port" ∷ []

abbrev pub docker_required : List String
docker_required =
    "published_host_ip" ∷ "published_port" ∷ "container_port" ∷ "health_port"
    ∷ "compose_policy_sha256" ∷ "compose_revision" ∷ "version_env_sha256" ∷ "image_id"
    ∷ "repository_digest" ∷ []

-- The body of the loop over the three references.
unfoldable pub ref_document : Json → Bool
ref_document value =
    is_object
      (λ ref.
        require_updater_fields ref ref_required
        && optional_value (is_object (λ object. require_updater_fields object docker_required))
            (member? "docker" ref))
      value

abbrev pub docker_baseline_required : List String
docker_baseline_required =
    "expected_container_id" ∷ "expected_image_id" ∷ "expected_repository_digest"
    ∷ "expected_version_env_sha256" ∷ "approved_compose_config_sha256" ∷ "approved_compose_revision"
    ∷ []

-- `validateSystemUpdatePortPlanDocument`
unfoldable pub plan_document : Members → Bool
plan_document plan =
    require_updater_fields plan plan_required
    && only_keys ("docker_baseline" ∷ plan_required) plan
    && required_value ref_document (member? "before" plan)
    && required_value ref_document (member? "target" plan)
    && required_value ref_document (member? "rollback" plan)
    && optional_value (is_object (λ object. require_updater_fields object docker_baseline_required))
        (member? "docker_baseline" plan)

abbrev pub observation_required : List String
observation_required =
    "policy_disk_verified" ∷ "policy_memory_verified" ∷ "agent_projection_verified"
    ∷ "listener_verified" ∷ "observed_at" ∷ []

abbrev pub observed_required : List String
observed_required =
    "observed_snapshot_id" ∷ "observed_snapshot_sha256" ∷ "observed_config_revision"
    ∷ "observed_config_sha256" ∷ "observed_executor_policy_revision"
    ∷ "observed_executor_policy_sha256" ∷ []

abbrev pub runtime_required : List String
runtime_required = "container_id" ∷ "image_id" ∷ "repository_digest" ∷ []

-- `validateSystemUpdatePortResultDocument`
unfoldable pub result_document : Members → Bool
result_document result =
    require_updater_fields result ("result" ∷ "observation" ∷ [])
    && required_value (is_object (λ o. require_updater_fields o observation_required))
        (member? "observation" result)
    && (if text_of (member? "result" result) == Outcome.rollback_failed
        then count_members result == 2
        else require_updater_fields result observed_required
          && optional_value (is_object (λ o. require_updater_fields o runtime_required))
              (member? "runtime_instance" result))

abbrev pub baseline_required : List String
baseline_required =
    "port_contract_version" ∷ "policy_transition_version" ∷ "agent_uid" ∷ "agent_gid"
    ∷ "source_policy_revision" ∷ "projection_revision" ∷ "executor_policy_revision"
    ∷ "executor_policy_sha256" ∷ "targets" ∷ "observed_at" ∷ []

abbrev pub baseline_target_required : List String
baseline_target_required =
    "service_id" ∷ "service_type" ∷ "deployment_mode" ∷ "endpoint_revision" ∷ "config_revision"
    ∷ "config_sha256" ∷ "local_listen_port" ∷ []

abbrev pub is_array : (Items → Bool) → Json → Bool
is_array test (array xs) = test xs
is_array test _ = false

-- The tests in `ValidateUpdaterPortPolicyBaselineJSON`.
unfoldable pub baseline_document : Json → Bool
baseline_document document =
    is_object
      (λ object.
        require_updater_fields object baseline_required
        && required_value
            (is_array
              (each_item (is_object (λ t. require_updater_fields t baseline_target_required))))
            (member? "targets" object))
      document
