-- ===== src/Port/Wire/Parts.antt =====
-- The parts of a plan are read back from their JSON forms.
use autostream_contracts.Common.{String, ◌≡◌, refl, ap, ◌∙◌, Option, some, List, [], ◌∷◌}
use autostream_contracts.Json.{Json, text, number, object, members, member?}
use autostream_contracts.Json.Rows.{
  text_of, number_of, members_of, nil_of, fields, find, text?, number?, nil?, member?-fields,
  omit_text-field, omit_number-field, omit_nil-field, text_of-text?, number_of-number?, nil_of-nil?,
}
use autostream_contracts.Port.Types.{
  SystemUpdatePortDockerSnapshot, SystemUpdatePortSnapshotRef, SystemUpdatePortDockerBaseline,
  SystemUpdateDockerPortReconfiguration,
}
use autostream_contracts.Port.Wire.{
  docker_snapshot_json, snapshot_ref_json, docker_baseline_json, legacy_docker_json,
}
use autostream_contracts.Port.Wire.Read.{
  read_docker_snapshot, read_snapshot_ref, read_docker_baseline, read_legacy_docker,
}

pub read_docker_snapshot-back :
    (x : SystemUpdatePortDockerSnapshot)
    → read_docker_snapshot (members_of (docker_snapshot_json x)) ≡ x
unfolding docker_snapshot_json member?
read_docker_snapshot-back x = refl

abbrev snapshot_ref_rows : SystemUpdatePortSnapshotRef → List (String × Option Json)
snapshot_ref_rows x =
    ("snapshot_id", some (text x.snapshot_id))
    ∷ ("snapshot_sha256", some (text x.snapshot_sha256))
    ∷ ("source_policy_revision", some (number x.source_policy_revision))
    ∷ ("projection_revision", some (number x.projection_revision))
    ∷ ("executor_policy_revision", some (number x.executor_policy_revision))
    ∷ ("executor_policy_sha256", some (text x.executor_policy_sha256))
    ∷ ("endpoint_revision", some (number x.endpoint_revision))
    ∷ ("applied_endpoint_revision", some (number x.applied_endpoint_revision))
    ∷ ("config_revision", some (number x.config_revision))
    ∷ ("config_sha256", some (text x.config_sha256))
    ∷ ("advertised_port", some (number x.advertised_port))
    ∷ ("advertised_endpoint_sha256", some (text x.advertised_endpoint_sha256))
    ∷ ("local_listen_port", some (number x.local_listen_port))
    ∷ ("docker", nil? docker_snapshot_json x.docker)
    ∷ []

snapshot_ref_json-rows :
    (x : SystemUpdatePortSnapshotRef)
    → snapshot_ref_json x ≡ object (members (fields (snapshot_ref_rows x)))
unfolding snapshot_ref_json
snapshot_ref_json-rows x =
    let e_docker = omit_nil-field "docker" docker_snapshot_json x.docker in cc

read_snapshot_ref-fields :
    (x : SystemUpdatePortSnapshotRef)
    → read_snapshot_ref (members (fields (snapshot_ref_rows x))) ≡ x
read_snapshot_ref-fields x =
    let found : (key : String)
        → member? key (members (fields (snapshot_ref_rows x))) ≡ find key (snapshot_ref_rows x) =
      λ key. member?-fields key (snapshot_ref_rows x) in
    λ i. record {
      snapshot_id = text_of (found "snapshot_id" i);
      snapshot_sha256 = text_of (found "snapshot_sha256" i);
      source_policy_revision = number_of (found "source_policy_revision" i);
      projection_revision = number_of (found "projection_revision" i);
      executor_policy_revision = number_of (found "executor_policy_revision" i);
      executor_policy_sha256 = text_of (found "executor_policy_sha256" i);
      endpoint_revision = number_of (found "endpoint_revision" i);
      applied_endpoint_revision = number_of (found "applied_endpoint_revision" i);
      config_revision = number_of (found "config_revision" i);
      config_sha256 = text_of (found "config_sha256" i);
      advertised_port = number_of (found "advertised_port" i);
      advertised_endpoint_sha256 = text_of (found "advertised_endpoint_sha256" i);
      local_listen_port = number_of (found "local_listen_port" i);
      docker =
          (ap (nil_of read_docker_snapshot) (found "docker")
              ∙ nil_of-nil? docker_snapshot_json read_docker_snapshot read_docker_snapshot-back
                  x.docker)
            i;
    }

pub read_snapshot_ref-back :
    (x : SystemUpdatePortSnapshotRef) → read_snapshot_ref (members_of (snapshot_ref_json x)) ≡ x
read_snapshot_ref-back x =
    ap (λ document. read_snapshot_ref (members_of document)) (snapshot_ref_json-rows x)
    ∙ read_snapshot_ref-fields x

pub read_docker_baseline-back :
    (x : SystemUpdatePortDockerBaseline)
    → read_docker_baseline (members_of (docker_baseline_json x)) ≡ x
unfolding docker_baseline_json member?
read_docker_baseline-back x = refl

abbrev legacy_docker_rows : SystemUpdateDockerPortReconfiguration → List (String × Option Json)
legacy_docker_rows x =
    ("published_host_ip", text? x.published_host_ip)
    ∷ ("old_published_port", number? x.old_published_port)
    ∷ ("new_published_port", number? x.new_published_port)
    ∷ ("old_container_port", number? x.old_container_port)
    ∷ ("new_container_port", number? x.new_container_port)
    ∷ ("old_health_port", number? x.old_health_port)
    ∷ ("new_health_port", number? x.new_health_port)
    ∷ ("approved_compose_config_sha256", text? x.approved_compose_config_sha256)
    ∷ ("approved_compose_revision", number? x.approved_compose_revision)
    ∷ ("expected_version_env_sha256", text? x.expected_version_env_sha256)
    ∷ ("expected_container_id", text? x.expected_container_id)
    ∷ ("expected_image_id", text? x.expected_image_id)
    ∷ ("expected_repository_digest", text? x.expected_repository_digest)
    ∷ []

legacy_docker_json-rows :
    (x : SystemUpdateDockerPortReconfiguration)
    → legacy_docker_json x ≡ object (members (fields (legacy_docker_rows x)))
unfolding legacy_docker_json
legacy_docker_json-rows x =
    let e_published_host_ip = omit_text-field "published_host_ip" x.published_host_ip in
    let e_old_published_port = omit_number-field "old_published_port" x.old_published_port in
    let e_new_published_port = omit_number-field "new_published_port" x.new_published_port in
    let e_old_container_port = omit_number-field "old_container_port" x.old_container_port in
    let e_new_container_port = omit_number-field "new_container_port" x.new_container_port in
    let e_old_health_port = omit_number-field "old_health_port" x.old_health_port in
    let e_new_health_port = omit_number-field "new_health_port" x.new_health_port in
    let e_approved_compose_config_sha256 =
      omit_text-field "approved_compose_config_sha256" x.approved_compose_config_sha256 in
    let e_approved_compose_revision =
      omit_number-field "approved_compose_revision" x.approved_compose_revision in
    let e_expected_version_env_sha256 =
      omit_text-field "expected_version_env_sha256" x.expected_version_env_sha256 in
    let e_expected_container_id = omit_text-field "expected_container_id" x.expected_container_id in
    let e_expected_image_id = omit_text-field "expected_image_id" x.expected_image_id in
    let e_expected_repository_digest =
      omit_text-field "expected_repository_digest" x.expected_repository_digest in
    cc

read_legacy_docker-fields :
    (x : SystemUpdateDockerPortReconfiguration)
    → read_legacy_docker (members (fields (legacy_docker_rows x))) ≡ x
read_legacy_docker-fields x =
    let found : (key : String)
        → member? key (members (fields (legacy_docker_rows x))) ≡ find key (legacy_docker_rows x) =
      λ key. member?-fields key (legacy_docker_rows x) in
    λ i. record {
      published_host_ip =
          (ap text_of (found "published_host_ip") ∙ text_of-text? x.published_host_ip) i;
      old_published_port =
          (ap number_of (found "old_published_port") ∙ number_of-number? x.old_published_port) i;
      new_published_port =
          (ap number_of (found "new_published_port") ∙ number_of-number? x.new_published_port) i;
      old_container_port =
          (ap number_of (found "old_container_port") ∙ number_of-number? x.old_container_port) i;
      new_container_port =
          (ap number_of (found "new_container_port") ∙ number_of-number? x.new_container_port) i;
      old_health_port =
          (ap number_of (found "old_health_port") ∙ number_of-number? x.old_health_port) i;
      new_health_port =
          (ap number_of (found "new_health_port") ∙ number_of-number? x.new_health_port) i;
      approved_compose_config_sha256 =
          (ap text_of (found "approved_compose_config_sha256")
              ∙ text_of-text? x.approved_compose_config_sha256)
            i;
      approved_compose_revision =
          (ap number_of (found "approved_compose_revision")
              ∙ number_of-number? x.approved_compose_revision)
            i;
      expected_version_env_sha256 =
          (ap text_of (found "expected_version_env_sha256")
              ∙ text_of-text? x.expected_version_env_sha256)
            i;
      expected_container_id =
          (ap text_of (found "expected_container_id") ∙ text_of-text? x.expected_container_id) i;
      expected_image_id =
          (ap text_of (found "expected_image_id") ∙ text_of-text? x.expected_image_id) i;
      expected_repository_digest =
          (ap text_of (found "expected_repository_digest")
              ∙ text_of-text? x.expected_repository_digest)
            i;
    }

pub read_legacy_docker-back :
    (x : SystemUpdateDockerPortReconfiguration)
    → read_legacy_docker (members_of (legacy_docker_json x)) ≡ x
read_legacy_docker-back x =
    ap (λ document. read_legacy_docker (members_of document)) (legacy_docker_json-rows x)
    ∙ read_legacy_docker-fields x
