-- ===== src/Updater/Command/Digest.antt =====
-- An accepted command carries the digest of its own parts.
use autostream_contracts.Common.{
  false, refl, Bool-cases, eq_iff, ◌⊎◌, inl, inr, some, none, pos, ℤ_eq, and_true, arith, if-cases,
  String, true, ◌≡◌, Result, ok, err, or_fail, pass, tests, require, ◌&&◌, ◌>>=◌, ◌==◌, String_eq,
  updater_command_invalid, require-passes,
}
use autostream_contracts.Text.{matches_digest, matches_host_id, valid_updater_identifier}
use autostream_contracts.Updater.Types.{UpdaterCommandEnvelope, UpdaterTargetIdentity}
use autostream_contracts.Updater.Target.{valid_target_for_operation, valid_host_target}
use autostream_contracts.Updater.Command.Preimage.{
  TakenOf, target_layout, compute_command_digest-TakenOf, service_target-laid_out,
  host_target-laid_out, positive-is_zero,
}
use autostream_contracts.Json.{is_zero}
use autostream_contracts.Json.Decimal.{decimal_ℤ}
use autostream_contracts.Json.Canonical.{canonical, canonical_string}
use autostream_contracts.Updater.Wire.{target_json}
use autostream_contracts.Updater.TargetKind
use autostream_contracts.Port.Snapshot.{valid_deployment_mode}
use autostream_contracts.Updater.Platform.{Platform}
use autostream_contracts.Updater.Command.{
  command_fields, authorization_fields, command_binding, command_digest, validate_command,
}

digest_tested :
    (computed : Result String) (carried argument : String)
    → (or_fail computed updater_command_invalid >>= λ digest.
        require
          (matches_digest carried && carried == argument && carried == digest)
          updater_command_invalid)
      ≡ pass
    → (computed ≡ ok carried) × (carried ≡ argument)
digest_tested (ok digest) carried argument h = grind tests
digest_tested (err e) carried argument h = cc

-- A target in a service's configuration, at a revision of it; or one on a host, without a revision.
Aims : UpdaterTargetIdentity → Type 0
Aims target =
    (is_zero target.expected_config_revision ≡ false) × (target.execution_host_id ≡ "")
    ⊎ (target.expected_config_revision ≡ pos 0) × ((target.execution_host_id == "") ≡ false)

matches_host_id-nonempty : (host : String) → matches_host_id host ≡ true → (host == "") ≡ false
unfolding matches_host_id
matches_host_id-nonempty host h = elim (Bool-cases (host == "")) [
  | inl e ↦
      let q : host ≡ "" = (eq_iff host "").0 e in
      let no_match : matches_host_id "" ≡ false = refl in cc
  | inr e ↦ e
]

on_host :
    (target : UpdaterTargetIdentity) (host : String)
    → valid_host_target target host ≡ true
    → (target.expected_config_revision ≡ pos 0) × ((target.execution_host_id == "") ≡ false)
unfolding valid_host_target
on_host target host h =
    let no_revision : target.expected_config_revision ≡ pos 0 = grind (tests, h) in
    (no_revision, matches_host_id-nonempty target.execution_host_id (ground (arith, h)))

valid_target_for_operation-Aims :
    (target : UpdaterTargetIdentity) (operation host : String)
    → valid_target_for_operation target operation host ≡ true
    → Aims target
unfolding valid_target_for_operation Aims
valid_target_for_operation-Aims target operation host h =
    let (named, kind) =
      and_true
        (valid_updater_identifier target.service_id && valid_deployment_mode target.deployment_mode)
        _ h in
    elim (if-cases (target.target_kind == TargetKind.application) _ _ kind) [
      | inl (e, service) ↦ inl (
        positive-is_zero target.expected_config_revision (ground (arith, service)),
        (eq_iff _ _).0 (ground (arith, service)),
      )
      | inr others ↦ elim (if-cases (target.target_kind == TargetKind.update_agent) _ _ others) [
        | inl (e, host_target) ↦ inr (on_host target host (ground (arith, host_target)))
        | inr others ↦ elim (if-cases (target.target_kind == TargetKind.host_runtime) _ _ others) [
          | inl (e, host_target) ↦ inr (on_host target host (ground (arith, host_target)))
          | inr impossible ↦ cc
        ]
      ]
    ]

command_binding-Aims :
    (platform : Platform) (command : UpdaterCommandEnvelope)
    → command_binding platform command ≡ true
    → Aims command.mutation_authorization.target
unfolding command_binding
command_binding-Aims platform command h =
    valid_target_for_operation-Aims command.mutation_authorization.target
      command.desired_operation.operation command.mutation_authorization.host_id (ground (arith, h))

-- The text of a target: with its revision and without a host, or with its host and without a
-- revision.
abbrev pub Spelled : UpdaterTargetIdentity → String → Type 0
Spelled target written =
    (target.execution_host_id ≡ "")
      × (written ≡ target_layout target (some (decimal_ℤ target.expected_config_revision)) none)
    ⊎ (target.expected_config_revision ≡ pos 0)
      × (written ≡ target_layout target none (some (canonical_string target.execution_host_id)))

Aims-Spelled :
    (target : UpdaterTargetIdentity) (written : String)
    → Aims target
    → canonical (target_json target) ≡ some written
    → Spelled target written
unfolding Aims
Aims-Spelled target written (inl (nonzero, no_host)) h =
    inl (no_host, service_target-laid_out target written nonzero no_host h)
Aims-Spelled target written (inr (zero_revision, host)) h =
    inr (zero_revision, host_target-laid_out target written zero_revision host h)

-- The parts of an accepted command that its digest is taken of.
pub record Digested (platform : Platform) (command : UpdaterCommandEnvelope) : Type 0 where
  pub taken :
      TakenOf platform command.mutation_authorization.target
        command.mutation_authorization.desired_revision command.mutation_authorization.fence
        command.desired_operation command.canonical_payload_digest
  pub spelled : Spelled command.mutation_authorization.target taken.target_text
  pub carried :
      command.canonical_payload_digest ≡ command.mutation_authorization.canonical_argument_digest

-- The digest that an accepted command carries twice is the SHA-256 of one text: a JSON object whose
-- members are, in this order and with no space, the canonical text of the desired operation, the
-- decimal numerals of the desired revision and of the fence, and the target. The operation's text
-- is of a document that reads back to the operation, and has its times as they are marshalled. The
-- target's text is an object too, of its deployment mode, its expected revision of the
-- configuration or else its host, its service's identifier and type, and its kind.
pub validate_command-digest :
    (platform : Platform) (command : UpdaterCommandEnvelope)
    → validate_command platform command ≡ pass
    → Digested platform command
unfolding validate_command
validate_command-digest platform command h =
    let (fields, after_fields) =
      require-passes (command_fields command) updater_command_invalid _ _ h in
    let (authorization, after_authorization) =
      require-passes (authorization_fields command.mutation_authorization) updater_command_invalid _
        _ after_fields in
    let (binding, after_binding) =
      require-passes (command_binding platform command) updater_command_invalid _ _
        after_authorization in
    let (computed, carried) =
      digest_tested (command_digest platform command) command.canonical_payload_digest
        command.mutation_authorization.canonical_argument_digest after_binding in
    let taken =
      compute_command_digest-TakenOf platform command.mutation_authorization.target
        command.mutation_authorization.desired_revision command.mutation_authorization.fence
        command.desired_operation command.canonical_payload_digest computed in
    record {
      taken = taken;
      spelled =
          Aims-Spelled command.mutation_authorization.target taken.target_text
            (command_binding-Aims platform command binding) taken.target_written;
      carried = carried;
    }

-- The tests between the fields' and the digest's held.
pub validate_command-command_binding :
    (platform : Platform) (command : UpdaterCommandEnvelope)
    → validate_command platform command ≡ pass
    → command_binding platform command ≡ true
unfolding validate_command
validate_command-command_binding platform command h =
    let (fields, after_fields) =
      require-passes (command_fields command) updater_command_invalid _ _ h in
    let (authorization, after_authorization) =
      require-passes (authorization_fields command.mutation_authorization) updater_command_invalid _
        _ after_fields in
    (require-passes (command_binding platform command) updater_command_invalid _ _
      after_authorization).0
