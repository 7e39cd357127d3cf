-- ===== src/Updater/Wire/Operation.antt =====
-- A desired operation is read back from its JSON form.
use autostream_contracts.Common.{String, ◌≡◌, refl, ap, sym, ◌∙◌, Option, none, some, List, [], ◌∷◌}
use autostream_contracts.Json.{Json, text, number, keep, object, members, member?}
use autostream_contracts.Json.Canonical.Layout.{bound}
use autostream_contracts.Json.Rows.{
  text_of, members_of, nil_of, field, fields, find, or_else, nil?, member?-fields, omit_nil-field,
  nil_of-nil?,
}
use autostream_contracts.Port.Types.{Timestamp}
use autostream_contracts.Port.Wire.{plan_json}
use autostream_contracts.Port.Wire.Read.{read_plan}
use autostream_contracts.Port.Wire.Plan.{read_plan-back}
use autostream_contracts.Updater.Types.{
  UpdaterSoftwareUpdateDesiredOperation, UpdaterBootstrapDesiredOperation,
  HostAgentSelfUpdateDirective, UpdaterDesiredOperation,
}
use autostream_contracts.Updater.Wire.{
  software_update_json, bootstrap_json, release_json, self_update_json, self_update_member,
  desired_operation_json,
}
use autostream_contracts.Updater.Wire.Read.{
  read_software_update, read_bootstrap, read_directive, read_members, read_operation,
  untimed_directive, untimed, TimedAt, Timed, members_at,
}

read_software_update-back :
    (x : UpdaterSoftwareUpdateDesiredOperation)
    → read_software_update (members_of (software_update_json x)) ≡ x
unfolding software_update_json member?
read_software_update-back x = refl

read_bootstrap-back :
    (x : UpdaterBootstrapDesiredOperation) → read_bootstrap (members_of (bootstrap_json x)) ≡ x
unfolding bootstrap_json member?
read_bootstrap-back x = refl

or_else-none : (value : Option Json) → or_else value none ≡ value
or_else-none none = refl
or_else-none (some x) = refl

module _ (marshal_time : Timestamp → Option String) where
  TimedAt-along :
      (found : Option HostAgentSelfUpdateDirective) {x y : Option Json}
      → x ≡ y
      → TimedAt marshal_time found x
      → TimedAt marshal_time found y
  TimedAt-along none q absent = sym q ∙ absent
  TimedAt-along (some d) q (staged, published) = (
    staged ∙ ap (λ z. some (text_of (member? "staged_at" (members_at z)))) q,
    published
        ∙ ap
            (λ z.
              some
                (text_of (member? "published_at" (members_at (member? "release" (members_at z))))))
            q,
  )

  -- The document of a self update, at the texts of its times.
  encoded : HostAgentSelfUpdateDirective → String → String → Json
  encoded d published_at staged_at = object (
      members (
        keep "generation" (text d.generation)
        ∷ keep "agent_version" (text d.agent_version)
        ∷ keep "executor_version" (text d.executor_version)
        ∷ keep "commit" (text d.commit)
        ∷ keep "artifact_sha256" (text d.artifact_sha256)
        ∷ keep "agent_protocol_version" (number d.agent_protocol_version)
        ∷ keep "executor_protocol_version" (number d.executor_protocol_version)
        ∷ keep "mutation_protocol_version" (number d.mutation_protocol_version)
        ∷ keep "recovery_protocol_version" (number d.recovery_protocol_version)
        ∷ keep "release" (release_json published_at d.release)
        ∷ keep "staged_at" (text staged_at)
        ∷ []))

  encoded-read :
      (d : HostAgentSelfUpdateDirective) (published staged : String) (document : Json)
      → (marshal_time d.staged_at ≡ some staged)
        × (marshal_time d.release.published_at ≡ some published)
      → some (encoded d published staged) ≡ some document
      → (some (read_directive (members_of document)) ≡ untimed_directive (some d))
        × TimedAt marshal_time (some d) (some document)
  unfolding encoded release_json member?
  encoded-read d published staged document times e =
      let q : encoded d published staged ≡ document = cc in
      let back : some (read_directive (members_of (encoded d published staged)))
          ≡ untimed_directive (some d) =
        refl in
      let at : TimedAt marshal_time (some d) (some (encoded d published staged)) = times in
      (ap (λ x. some (read_directive (members_of x))) (sym q) ∙ back, TimedAt-along (some d) e at)

  self_update_json-read :
      (d : HostAgentSelfUpdateDirective) (document : Json)
      → self_update_json marshal_time d ≡ some document
      → (some (read_directive (members_of document)) ≡ untimed_directive (some d))
        × TimedAt marshal_time (some d) (some document)
  unfolding self_update_json encoded
  self_update_json-read d document h =
      let (published, hp, after) = bound (marshal_time d.release.published_at) _ document h in
      let (staged, hs, e) = bound (marshal_time d.staged_at) _ document after in
      let times : (marshal_time d.staged_at ≡ some staged)
          × (marshal_time d.release.published_at ≡ some published) =
        (hs, hp) in
      encoded-read d published staged document times e

  self_update_member-read :
      (found : Option HostAgentSelfUpdateDirective) (row : Option (String × Json))
      → self_update_member marshal_time found ≡ some row
      → (value : Option Json) × (row ≡ field ("host_self_update", value))
        × (nil_of read_directive value ≡ untimed_directive found)
        × TimedAt marshal_time found value
  self_update_member-read none row h = (none, cc, refl, refl)
  self_update_member-read (some d) row h =
      let (document, e, f) = bound (self_update_json marshal_time d) _ row h in
      let (same, times) = self_update_json-read d document e in (some document, cc, same, times)

  abbrev rows : UpdaterDesiredOperation → Option Json → List (String × Option Json)
  rows d value =
      ("operation", some (text d.operation))
      ∷ ("software_update", nil? software_update_json d.software_update)
      ∷ ("bootstrap", nil? bootstrap_json d.bootstrap)
      ∷ ("port_reconfigure", nil? plan_json d.port_reconfigure)
      ∷ ("host_self_update", value)
      ∷ []

  read_members-rows :
      (d : UpdaterDesiredOperation) (value : Option Json)
      → nil_of read_directive value ≡ untimed_directive d.host_self_update
      → read_members (members (fields (rows d value))) ≡ untimed d
  read_members-rows d value same =
      let found : (key : String)
          → member? key (members (fields (rows d value))) ≡ find key (rows d value) =
        λ key. member?-fields key (rows d value) in
      let update =
        ap (nil_of read_software_update) (found "software_update")
        ∙ nil_of-nil? software_update_json read_software_update read_software_update-back
            d.software_update in
      let bootstrap =
        ap (nil_of read_bootstrap) (found "bootstrap")
        ∙ nil_of-nil? bootstrap_json read_bootstrap read_bootstrap-back d.bootstrap in
      let plan =
        ap (nil_of read_plan) (found "port_reconfigure")
        ∙ nil_of-nil? plan_json read_plan read_plan-back d.port_reconfigure in
      let directive =
        ap (nil_of read_directive) (found "host_self_update" ∙ or_else-none value) ∙ same in
      λ i. record {
        operation = text_of (found "operation" i);
        software_update = update i;
        bootstrap = bootstrap i;
        port_reconfigure = plan i;
        host_self_update = directive i;
      }

  -- An encoded operation is read back, with its times in the document.
  pub desired_operation_json-read :
      (d : UpdaterDesiredOperation) (document : Json)
      → desired_operation_json marshal_time d ≡ some document
      → (read_operation document ≡ untimed d) × Timed marshal_time d document
  unfolding desired_operation_json
  desired_operation_json-read d document h =
      let (row, member_found, e) =
        bound (self_update_member marshal_time d.host_self_update) _ document h in
      let (value, shape, same, times) =
        self_update_member-read d.host_self_update row member_found in
      let update = omit_nil-field "software_update" software_update_json d.software_update in
      let bootstrap = omit_nil-field "bootstrap" bootstrap_json d.bootstrap in
      let plan = omit_nil-field "port_reconfigure" plan_json d.port_reconfigure in
      let q : document ≡ object (members (fields (rows d value))) = cc in
      let at = member?-fields "host_self_update" (rows d value) ∙ or_else-none value in
      (
        ap read_operation q ∙ read_members-rows d value same,
        TimedAt-along d.host_self_update
            (sym (ap (λ x. member? "host_self_update" (members_of x)) q ∙ at)) times,
      )
