-- ===== src/Port/Wire/Plan.antt =====
-- A plan is read back from its JSON form.
use autostream_contracts.Common.{String, ◌≡◌, ap, ◌∙◌, Option, List, [], ◌∷◌}
use autostream_contracts.Json.{Json, object, members, member?}
use autostream_contracts.Json.Rows.{
  text_of, number_of, members_of, nil_of, fields, find, text?, number?, nil?, member?-fields,
  omit_text-field, omit_number-field, omit_nil-field, text_of-text?, number_of-number?, nil_of-nil?,
}
use autostream_contracts.Port.Types.{SystemUpdatePortReconfiguration}
use autostream_contracts.Port.Wire.{
  snapshot_ref_json, docker_baseline_json, legacy_docker_json, plan_json,
}
use autostream_contracts.Port.Wire.Read.{
  read_snapshot_ref, read_docker_baseline, read_legacy_docker, read_plan,
}
use autostream_contracts.Port.Wire.Parts.{
  read_snapshot_ref-back, read_docker_baseline-back, read_legacy_docker-back,
}

abbrev plan_rows : SystemUpdatePortReconfiguration → List (String × Option Json)
plan_rows x =
    ("port_contract_version", number? x.port_contract_version)
    ∷ ("mode", text? x.mode)
    ∷ ("before", nil? snapshot_ref_json x.before)
    ∷ ("target", nil? snapshot_ref_json x.target)
    ∷ ("rollback", nil? snapshot_ref_json x.rollback)
    ∷ ("docker_baseline", nil? docker_baseline_json x.docker_baseline)
    ∷ ("network_namespace", text? x.network_namespace)
    ∷ ("protocol", text? x.protocol)
    ∷ ("old_port", number? x.old_port)
    ∷ ("new_port", number? x.new_port)
    ∷ ("expected_endpoint_revision", number? x.expected_endpoint_revision)
    ∷ ("target_endpoint_revision", number? x.target_endpoint_revision)
    ∷ ("expected_config_revision", number? x.expected_config_revision)
    ∷ ("target_config_revision", number? x.target_config_revision)
    ∷ ("expected_config_sha256", text? x.expected_config_sha256)
    ∷ ("target_config_sha256", text? x.target_config_sha256)
    ∷ ("expected_source_policy_revision", number? x.expected_source_policy_revision)
    ∷ ("expected_updater_policy_revision", number? x.expected_updater_policy_revision)
    ∷ ("expected_executor_policy_revision", number? x.expected_executor_policy_revision)
    ∷ ("expected_executor_policy_sha256", text? x.expected_executor_policy_sha256)
    ∷ ("port_plan_sha256", text? x.port_plan_sha256)
    ∷ ("docker", nil? legacy_docker_json x.docker)
    ∷ ("result", text? x.result)
    ∷ []

plan_json-rows :
    (x : SystemUpdatePortReconfiguration) → plan_json x ≡ object (members (fields (plan_rows x)))
unfolding plan_json
plan_json-rows x =
    let e_port_contract_version =
      omit_number-field "port_contract_version" x.port_contract_version in
    let e_mode = omit_text-field "mode" x.mode in
    let e_before = omit_nil-field "before" snapshot_ref_json x.before in
    let e_target = omit_nil-field "target" snapshot_ref_json x.target in
    let e_rollback = omit_nil-field "rollback" snapshot_ref_json x.rollback in
    let e_docker_baseline =
      omit_nil-field "docker_baseline" docker_baseline_json x.docker_baseline in
    let e_network_namespace = omit_text-field "network_namespace" x.network_namespace in
    let e_protocol = omit_text-field "protocol" x.protocol in
    let e_old_port = omit_number-field "old_port" x.old_port in
    let e_new_port = omit_number-field "new_port" x.new_port in
    let e_expected_endpoint_revision =
      omit_number-field "expected_endpoint_revision" x.expected_endpoint_revision in
    let e_target_endpoint_revision =
      omit_number-field "target_endpoint_revision" x.target_endpoint_revision in
    let e_expected_config_revision =
      omit_number-field "expected_config_revision" x.expected_config_revision in
    let e_target_config_revision =
      omit_number-field "target_config_revision" x.target_config_revision in
    let e_expected_config_sha256 =
      omit_text-field "expected_config_sha256" x.expected_config_sha256 in
    let e_target_config_sha256 = omit_text-field "target_config_sha256" x.target_config_sha256 in
    let e_expected_source_policy_revision =
      omit_number-field "expected_source_policy_revision" x.expected_source_policy_revision in
    let e_expected_updater_policy_revision =
      omit_number-field "expected_updater_policy_revision" x.expected_updater_policy_revision in
    let e_expected_executor_policy_revision =
      omit_number-field "expected_executor_policy_revision" x.expected_executor_policy_revision in
    let e_expected_executor_policy_sha256 =
      omit_text-field "expected_executor_policy_sha256" x.expected_executor_policy_sha256 in
    let e_port_plan_sha256 = omit_text-field "port_plan_sha256" x.port_plan_sha256 in
    let e_docker = omit_nil-field "docker" legacy_docker_json x.docker in
    let e_result = omit_text-field "result" x.result in cc

read_plan-fields :
    (x : SystemUpdatePortReconfiguration) → read_plan (members (fields (plan_rows x))) ≡ x
read_plan-fields x =
    let found : (key : String)
        → member? key (members (fields (plan_rows x))) ≡ find key (plan_rows x) =
      λ key. member?-fields key (plan_rows x) in
    λ i. record {
      port_contract_version =
          (ap number_of (found "port_contract_version") ∙ number_of-number? x.port_contract_version)
            i;
      mode = (ap text_of (found "mode") ∙ text_of-text? x.mode) i;
      before =
          (ap (nil_of read_snapshot_ref) (found "before")
              ∙ nil_of-nil? snapshot_ref_json read_snapshot_ref read_snapshot_ref-back x.before)
            i;
      target =
          (ap (nil_of read_snapshot_ref) (found "target")
              ∙ nil_of-nil? snapshot_ref_json read_snapshot_ref read_snapshot_ref-back x.target)
            i;
      rollback =
          (ap (nil_of read_snapshot_ref) (found "rollback")
              ∙ nil_of-nil? snapshot_ref_json read_snapshot_ref read_snapshot_ref-back x.rollback)
            i;
      docker_baseline =
          (ap (nil_of read_docker_baseline) (found "docker_baseline")
              ∙ nil_of-nil? docker_baseline_json read_docker_baseline read_docker_baseline-back
                  x.docker_baseline)
            i;
      network_namespace =
          (ap text_of (found "network_namespace") ∙ text_of-text? x.network_namespace) i;
      protocol = (ap text_of (found "protocol") ∙ text_of-text? x.protocol) i;
      old_port = (ap number_of (found "old_port") ∙ number_of-number? x.old_port) i;
      new_port = (ap number_of (found "new_port") ∙ number_of-number? x.new_port) i;
      expected_endpoint_revision =
          (ap number_of (found "expected_endpoint_revision")
              ∙ number_of-number? x.expected_endpoint_revision)
            i;
      target_endpoint_revision =
          (ap number_of (found "target_endpoint_revision")
              ∙ number_of-number? x.target_endpoint_revision)
            i;
      expected_config_revision =
          (ap number_of (found "expected_config_revision")
              ∙ number_of-number? x.expected_config_revision)
            i;
      target_config_revision =
          (ap number_of (found "target_config_revision")
              ∙ number_of-number? x.target_config_revision)
            i;
      expected_config_sha256 =
          (ap text_of (found "expected_config_sha256") ∙ text_of-text? x.expected_config_sha256) i;
      target_config_sha256 =
          (ap text_of (found "target_config_sha256") ∙ text_of-text? x.target_config_sha256) i;
      expected_source_policy_revision =
          (ap number_of (found "expected_source_policy_revision")
              ∙ number_of-number? x.expected_source_policy_revision)
            i;
      expected_updater_policy_revision =
          (ap number_of (found "expected_updater_policy_revision")
              ∙ number_of-number? x.expected_updater_policy_revision)
            i;
      expected_executor_policy_revision =
          (ap number_of (found "expected_executor_policy_revision")
              ∙ number_of-number? x.expected_executor_policy_revision)
            i;
      expected_executor_policy_sha256 =
          (ap text_of (found "expected_executor_policy_sha256")
              ∙ text_of-text? x.expected_executor_policy_sha256)
            i;
      port_plan_sha256 =
          (ap text_of (found "port_plan_sha256") ∙ text_of-text? x.port_plan_sha256) i;
      docker =
          (ap (nil_of read_legacy_docker) (found "docker")
              ∙ nil_of-nil? legacy_docker_json read_legacy_docker read_legacy_docker-back x.docker)
            i;
      result = (ap text_of (found "result") ∙ text_of-text? x.result) i;
    }

pub read_plan-back :
    (x : SystemUpdatePortReconfiguration) → read_plan (members_of (plan_json x)) ≡ x
read_plan-back x =
    ap (λ document. read_plan (members_of document)) (plan_json-rows x) ∙ read_plan-fields x
