-- ===== src/Updater/Wire/Read.antt =====
-- A reader of the JSON form of a desired operation. A time is not read back: a document has its
-- text, and the operation that is read the time 0.
use autostream_contracts.Common.{String, ◌≡◌, Option, none, some, pos}
use autostream_contracts.Json.{Json, Members, no_members, member?}
use autostream_contracts.Json.Rows.{text_of, number_of, members_of, nil_of}
use autostream_contracts.Port.Types.{Timestamp}
use autostream_contracts.Port.Wire.Read.{read_plan}
use autostream_contracts.Updater.Types.{
  UpdaterSoftwareUpdateDesiredOperation, UpdaterBootstrapDesiredOperation,
  HostSelfUpdateReleaseBinding, HostAgentSelfUpdateDirective, UpdaterDesiredOperation,
}

abbrev pub read_software_update : Members → UpdaterSoftwareUpdateDesiredOperation
read_software_update ms = record {
  expected_current_version = text_of (member? "expected_current_version" ms);
  target_version = text_of (member? "target_version" ms);
  strategy = text_of (member? "strategy" ms);
}

abbrev pub read_bootstrap : Members → UpdaterBootstrapDesiredOperation
read_bootstrap ms = record {
  expected_state = text_of (member? "expected_state" ms);
  target_version = text_of (member? "target_version" ms);
}

abbrev pub read_release : Members → HostSelfUpdateReleaseBinding
read_release ms = record {
  tag = text_of (member? "tag" ms);
  commit = text_of (member? "commit" ms);
  published_at = pos 0;
  manifest_asset_id = number_of (member? "manifest_asset_id" ms);
  manifest_asset_name = text_of (member? "manifest_asset_name" ms);
  manifest_sha256 = text_of (member? "manifest_sha256" ms);
  manifest_checksum_asset_id = number_of (member? "manifest_checksum_asset_id" ms);
  manifest_checksum_sha256 = text_of (member? "manifest_checksum_sha256" ms);
  archive_asset_id = number_of (member? "archive_asset_id" ms);
  archive_asset_name = text_of (member? "archive_asset_name" ms);
  archive_size = number_of (member? "archive_size" ms);
  archive_sha256 = text_of (member? "archive_sha256" ms);
  archive_checksum_asset_id = number_of (member? "archive_checksum_asset_id" ms);
  archive_checksum_sha256 = text_of (member? "archive_checksum_sha256" ms);
  arch = text_of (member? "arch" ms);
  agent_protocol_version = number_of (member? "agent_protocol_version" ms);
  executor_protocol_version = number_of (member? "executor_protocol_version" ms);
  mutation_protocol_version = number_of (member? "mutation_protocol_version" ms);
  recovery_protocol_version = number_of (member? "recovery_protocol_version" ms);
  minimum_panel_version = text_of (member? "minimum_panel_version" ms);
}

abbrev pub members_at : Option Json → Members
members_at none = no_members
members_at (some document) = members_of document

abbrev pub read_directive : Members → HostAgentSelfUpdateDirective
read_directive ms = record {
  generation = text_of (member? "generation" ms);
  agent_version = text_of (member? "agent_version" ms);
  executor_version = text_of (member? "executor_version" ms);
  commit = text_of (member? "commit" ms);
  artifact_sha256 = text_of (member? "artifact_sha256" ms);
  agent_protocol_version = number_of (member? "agent_protocol_version" ms);
  executor_protocol_version = number_of (member? "executor_protocol_version" ms);
  mutation_protocol_version = number_of (member? "mutation_protocol_version" ms);
  recovery_protocol_version = number_of (member? "recovery_protocol_version" ms);
  release = read_release (members_at (member? "release" ms));
  staged_at = pos 0;
}

abbrev pub read_members : Members → UpdaterDesiredOperation
read_members ms = record {
  operation = text_of (member? "operation" ms);
  software_update = nil_of read_software_update (member? "software_update" ms);
  bootstrap = nil_of read_bootstrap (member? "bootstrap" ms);
  port_reconfigure = nil_of read_plan (member? "port_reconfigure" ms);
  host_self_update = nil_of read_directive (member? "host_self_update" ms);
}

-- The operation that a document tells of.
abbrev pub read_operation : Json → UpdaterDesiredOperation
read_operation document = read_members (members_of document)

abbrev pub untimed_directive :
    Option HostAgentSelfUpdateDirective → Option HostAgentSelfUpdateDirective
untimed_directive none = none
untimed_directive (some d) =
    some (record d { staged_at = pos 0; release = record (d.release) { published_at = pos 0 } })

-- An operation with its two times at 0.
abbrev pub untimed : UpdaterDesiredOperation → UpdaterDesiredOperation
untimed desired = record desired { host_self_update = untimed_directive desired.host_self_update }

-- The two times of a self update, in the member that has it.
abbrev pub TimedAt :
    (Timestamp → Option String) → Option HostAgentSelfUpdateDirective → Option Json → Type 0
TimedAt marshal_time none found = found ≡ none
TimedAt marshal_time (some d) found =
    (marshal_time d.staged_at ≡ some (text_of (member? "staged_at" (members_at found))))
    × (marshal_time d.release.published_at
        ≡ some
            (text_of (member? "published_at" (members_at (member? "release" (members_at found))))))

-- The two times of an operation, in a document.
abbrev pub Timed : (Timestamp → Option String) → UpdaterDesiredOperation → Json → Type 0
Timed marshal_time desired document =
    TimedAt marshal_time desired.host_self_update (member? "host_self_update" (members_of document))
