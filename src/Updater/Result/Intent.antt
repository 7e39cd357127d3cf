-- ===== src/Updater/Result/Intent.antt =====
-- The port plan of a lease's command, and the revision that the command desires.
use autostream_contracts.Common.{
  pos, ap, ◌≡◌, sym, ◌∙◌, true, Option, none, some, pass, tests, ◌==◌, String_eq, ℤ_eq,
}
use autostream_contracts.Port.Types.{SystemUpdatePortReconfiguration, SystemUpdatePortSnapshotRef}
use autostream_contracts.Updater.Types.{UpdaterMutationAuthorization, UpdaterLeaseEnvelope}
use autostream_contracts.Updater.Platform.{Platform}
use autostream_contracts.Updater.Command.{
  command_binding, validate_command, plan_revisions, revisions_match,
}
use autostream_contracts.Updater.Command.Digest.{validate_command-command_binding}
use autostream_contracts.Updater.Result.{version_two, port_plan}

version_two-some :
    (o : Option SystemUpdatePortReconfiguration) (plan : SystemUpdatePortReconfiguration)
    → version_two o ≡ some plan
    → (o ≡ some plan) × (plan.port_contract_version == pos 2) ≡ true
version_two-some none plan e = cc
version_two-some (some p) plan e = grind tests

port_plan-some :
    (lease : UpdaterLeaseEnvelope) (plan : SystemUpdatePortReconfiguration)
    → port_plan lease ≡ some plan
    → (lease.command.desired_operation.port_reconfigure ≡ some plan)
      × ((plan.port_contract_version == pos 2) ≡ true)
port_plan-some lease plan e =
    version_two-some lease.command.desired_operation.port_reconfigure plan (grind tests)

revisions_of_plan :
    (o : Option SystemUpdatePortReconfiguration) (plan : SystemUpdatePortReconfiguration)
    (b t : SystemUpdatePortSnapshotRef) (authorization : UpdaterMutationAuthorization)
    → o ≡ some plan
    → (plan.port_contract_version == pos 2) ≡ true
    → plan.before ≡ some b
    → plan.target ≡ some t
    → revisions_match o authorization ≡ true
    → authorization.desired_revision ≡ t.config_revision
revisions_of_plan none plan b t authorization eo e2 eb et h = cc
revisions_of_plan (some p) plan b t authorization eo e2 eb et h =
    let same : p ≡ plan = grind tests in
    let version : (p.port_contract_version == pos 2) ≡ true = rw same e2 in
    let at : plan_revisions p.before p.target authorization ≡ true = grind tests in
    let first : p.before ≡ some b = rw same eb in
    let second : p.target ≡ some t = rw same et in
    let found : plan_revisions (some b) (some t) authorization ≡ true =
      ap (λ o. plan_revisions o (some t) authorization) (sym first)
      ∙ ap (λ o. plan_revisions p.before o authorization) (sym second)
      ∙ at in
    grind tests

-- The desired revision of an accepted port change is the configuration revision of its target.
pub desired_revision-target :
    (platform : Platform) (lease : UpdaterLeaseEnvelope) (plan : SystemUpdatePortReconfiguration)
    (b t : SystemUpdatePortSnapshotRef)
    → validate_command platform lease.command ≡ pass
    → port_plan lease ≡ some plan
    → plan.before ≡ some b
    → plan.target ≡ some t
    → lease.command.mutation_authorization.desired_revision ≡ t.config_revision
unfolding command_binding
desired_revision-target platform lease plan b t accepted e eb et =
    let (has, version) = port_plan-some lease plan e in
    let binding = validate_command-command_binding platform lease.command accepted in
    revisions_of_plan _ plan b t lease.command.mutation_authorization has version eb et
      (grind tests)
