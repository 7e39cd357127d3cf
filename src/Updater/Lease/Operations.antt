-- ===== src/Updater/Lease/Operations.antt =====
-- What a grant's operation says of the command that it is for.
use autostream_contracts.Common.{
  String, ◌≡◌, refl, ◌⊎◌, true, eq_iff, pass, tests, succeeds-pass, String_eq, ◌==◌, ◌||◌, inl, inr,
  if-cases, arith, false, ◌&&◌, Option, none, some, sym, ap, ◌∙◌,
}
use autostream_contracts.Port.Types.{Timestamp}
use autostream_contracts.Updater.Types.{
  UpdaterMutationGrantBinding, UpdaterMutationAuthorization, UpdaterCommandEnvelope,
  UpdaterLeaseEnvelope,
}
use autostream_contracts.Updater.Desired
use autostream_contracts.Updater.Mutation
use autostream_contracts.Updater.Platform.{Platform}
use autostream_contracts.Updater.Target.{valid_mutation_for_desired, capability_for_operation}
use autostream_contracts.Updater.Command.{capability_matches, command_binding}
use autostream_contracts.Updater.Command.Digest.{validate_command-command_binding}
use autostream_contracts.Updater.Lease.Expiry.{validate_lease-nested, validate_lease_static-facts}
use autostream_contracts.Updater.Lease.{validate_lease, validate_grant_binding}

-- The mutations that there are, with the operation of a command that each serves and the capability
-- that it needs.
pub data Permits : String → String → String → Type 0 where
  apply : Permits "apply" "software_update" "host.update"
  reconcile : Permits "reconcile" "software_update" "host.update"
  port_reconfigure : Permits "port_reconfigure" "port_reconfigure" "host.port"
  port_reconfigure_reconcile : Permits "port_reconfigure_reconcile" "port_reconfigure" "host.port"
  bootstrap : Permits "bootstrap" "bootstrap" "host.bootstrap"
  bootstrap_reconcile : Permits "bootstrap_reconcile" "bootstrap" "host.bootstrap"
  host_self_update_stage : Permits "host_self_update_stage" "host_self_update" "host.self_update"
  host_self_update_activate :
      Permits "host_self_update_activate" "host_self_update" "host.self_update"
  host_self_update_reconcile :
      Permits "host_self_update_reconcile" "host_self_update" "host.self_update"

either_equal : (a b c : String) → (a == b || a == c) ≡ true → (a ≡ b) ⊎ (a ≡ c)
either_equal a b c h = grind tests

one_of_three :
    (a b c d : String) → (a == b || a == c || a == d) ≡ true → (a ≡ b) ⊎ (a ≡ c) ⊎ (a ≡ d)
one_of_three a b c d h = grind tests

-- A row of the table at names that are equal to the row's.
at_row :
    {m d c : String} (mutation desired capability : String)
    → mutation ≡ m
    → desired ≡ d
    → some capability ≡ some c
    → Permits m d c
    → Permits mutation desired capability
at_row {m} {d} {c} mutation desired capability p q r row =
    let e : capability ≡ c = cc in rw p (rw q (rw e row))

-- Either of the two rows of an operation.
two_rows :
    {m n d c : String} (mutation desired capability : String)
    → (desired == d) ≡ true
    → (mutation == m || mutation == n) ≡ true
    → capability_for_operation desired ≡ some capability
    → capability_for_operation d ≡ some c
    → Permits m d c
    → Permits n d c
    → Permits mutation desired capability
two_rows {m} {n} {d} mutation desired capability e either needed known first second =
    let q : desired ≡ d = (eq_iff _ _).0 e in
    let r = sym needed ∙ ap capability_for_operation q ∙ known in
    elim (either_equal mutation m n either) [
      | inl same ↦ at_row mutation desired capability same q r first
      | inr same ↦ at_row mutation desired capability same q r second
    ]

-- One of the three rows of a self update.
self_update_rows :
    (mutation desired capability : String)
    → (desired == Desired.host_self_update) ≡ true
    → (mutation == Mutation.host_self_update_stage
        || mutation == Mutation.host_self_update_activate
        || mutation == Mutation.host_self_update_reconcile)
      ≡ true
    → capability_for_operation desired ≡ some capability
    → Permits mutation desired capability
unfolding capability_for_operation
self_update_rows mutation desired capability e m needed =
    let q : desired ≡ "host_self_update" = (eq_iff _ _).0 e in
    let r = sym needed ∙ ap capability_for_operation q in
    elim (one_of_three mutation Mutation.host_self_update_stage Mutation.host_self_update_activate
      Mutation.host_self_update_reconcile m) [
        | inl same ↦ at_row mutation desired capability same q r host_self_update_stage
        | inr (inl same) ↦ at_row mutation desired capability same q r host_self_update_activate
        | inr (inr same) ↦ at_row mutation desired capability same q r host_self_update_reconcile
      ]

-- A mutation that is valid for an operation, and the capability of it, are in the table.
mutation-Permits :
    (mutation desired capability : String)
    → valid_mutation_for_desired mutation desired ≡ true
    → capability_for_operation desired ≡ some capability
    → Permits mutation desired capability
unfolding valid_mutation_for_desired capability_for_operation
mutation-Permits mutation desired capability h needed =
    elim (if-cases (desired == Desired.software_update) _ _ h) [
      | inl (e, m) ↦ two_rows mutation desired capability e m needed refl apply reconcile
      | inr h ↦ elim (if-cases (desired == Desired.port_reconfigure) _ _ h) [
        | inl (e, m) ↦
            two_rows mutation desired capability e m needed refl port_reconfigure
              port_reconfigure_reconcile
        | inr h ↦ elim (if-cases (desired == Desired.bootstrap) _ _ h) [
          | inl (e, m) ↦
              two_rows mutation desired capability e m needed refl bootstrap bootstrap_reconcile
          | inr h ↦ elim (if-cases (desired == Desired.host_self_update) _ _ h) [
            | inl (e, m) ↦ self_update_rows mutation desired capability e m needed
            | inr impossible ↦ cc
          ]
        ]
      ]
    ]

grant_facts :
    (platform : Platform) (now : Timestamp) (binding : UpdaterMutationGrantBinding)
    → validate_grant_binding platform now binding ≡ pass
    → (validate_lease platform now binding.lease ≡ pass)
      × (valid_mutation_for_desired binding.operation
            binding.lease.command.desired_operation.operation
          ≡ true)
unfolding validate_grant_binding
grant_facts platform now binding h = grind (tests, succeeds-pass)

both_expected :
    (found : Option String) (action required : String)
    → elim found [ none ↦ false | some expected ↦ action == expected && required == expected ]
      ≡ true
    → (found ≡ some required) × (action ≡ required)
both_expected none action required h = cc
both_expected (some expected) action required h =
    let a : action ≡ expected = grind (tests, h) in
    let r : required ≡ expected = grind (tests, h) in (ap some (sym r), a ∙ sym r)

capability_matches-same :
    (authorization : UpdaterMutationAuthorization) (operation : String)
    → capability_matches authorization operation ≡ true
    → (capability_for_operation operation ≡ some authorization.required_capability)
      × (authorization.action_type ≡ authorization.required_capability)
unfolding capability_matches
capability_matches-same authorization operation h =
    both_expected (capability_for_operation operation) authorization.action_type
      authorization.required_capability h

binding-capability :
    (platform : Platform) (command : UpdaterCommandEnvelope)
    → command_binding platform command ≡ true
    → capability_matches command.mutation_authorization command.desired_operation.operation ≡ true
unfolding command_binding
binding-capability platform command h = ground (arith, h)

-- The capability of an accepted lease's command is the one of its operation.
lease-capability :
    (platform : Platform) (now : Timestamp) (lease : UpdaterLeaseEnvelope)
    → validate_lease platform now lease ≡ pass
    → (capability_for_operation lease.command.desired_operation.operation
        ≡ some lease.command.mutation_authorization.required_capability)
      × (lease.command.mutation_authorization.action_type
          ≡ lease.command.mutation_authorization.required_capability)
lease-capability platform now lease h =
    let (static, later) = validate_lease-nested platform now lease h in
    let (accepted, within) = validate_lease_static-facts platform lease static in
    let bound = validate_command-command_binding platform lease.command accepted in
    capability_matches-same lease.command.mutation_authorization _
      (binding-capability platform lease.command bound)

-- What an accepted grant binding lets the executor do is in the closed table of nine mutations: the
-- mutation that it names serves the operation that the command of its lease desires, and the
-- command's authorization is for the capability that both need. The lease is valid now.
pub validate_grant_binding-operation :
    (platform : Platform) (now : Timestamp) (binding : UpdaterMutationGrantBinding)
    → validate_grant_binding platform now binding ≡ pass
    → (validate_lease platform now binding.lease ≡ pass)
      × Permits binding.operation binding.lease.command.desired_operation.operation
          binding.lease.command.mutation_authorization.required_capability
      × (binding.lease.command.mutation_authorization.action_type
          ≡ binding.lease.command.mutation_authorization.required_capability)
validate_grant_binding-operation platform now binding h =
    let (lease_valid, allowed) = grant_facts platform now binding h in
    let (needed, same) = lease-capability platform now binding.lease lease_valid in
    (lease_valid, mutation-Permits _ _ _ allowed needed, same)
