-- ===== src/Release/Component.antt =====
-- What the encoding of the Updater's component in a release manifest can carry.
use autostream_contracts.Common.{
  ℕ, String, true, false, not, ◌≡◌, ◌≢◌, ◌⊎◌, sym, ap, ◌∙◌, inl, inr, refl, Option, none, some,
  List, length, arith, tests, if-branch, eq_iff, nat_beq_iff, none_of_nil, pos, ◌==◌, String_eq,
  ℤ_eq, ℕ_eq, if◌then◌else◌,
}
use autostream_contracts.Json.{Json, object, member, text, number, no_members, member?}
use autostream_contracts.Release.Read.{read_component, without_empty}
use autostream_contracts.Release.Read.Rows.{read_component-component_wire}
use autostream_contracts.Release.{
  ReleaseManifestComponent, component_wire, updater_wire, is_commit, updater_component,
  marshal_component,
}

-- The component that has a commit and nothing else.
abbrev pub metadata_only : String → ReleaseManifestComponent
metadata_only commit = record {
  service = "updater";
  source_version = "";
  commit = commit;
  protocol_major = pos 2;
  image = "";
  manifest_digest = "";
  artifacts = none;
  platform_digests = none;
  rollback_compatible = false;
  database_schema = "";
}

module _ (decode_string : String → Option (List ℕ)) where
  commit_of :
      (found : Option (List ℕ))
      → is_commit found ≡ true
      → (commit : List ℕ) × (found ≡ some commit) × (length commit ≡ 20)
  commit_of none h = cc
  commit_of (some commit) h = (commit, refl, (nat_beq_iff _ _).0 h)

  is_commit_of :
      (component : ReleaseManifestComponent)
      → updater_component decode_string component ≡ true
      → is_commit (decode_string component.commit) ≡ true
  unfolding updater_component
  is_commit_of component h = ground (arith, h)

  updater_component-metadata_only :
      (component : ReleaseManifestComponent)
      → component.service ≡ "updater"
      → updater_component decode_string component ≡ true
      → component ≡ metadata_only component.commit
  unfolding updater_component
  updater_component-metadata_only component s h =
      let no_artifacts : component.artifacts ≡ none =
        none_of_nil component.artifacts (ground (arith, h)) in
      let no_digests : component.platform_digests ≡ none =
        none_of_nil component.platform_digests (ground (arith, h)) in
      grind (tests, no_artifacts, no_digests)

  -- The Updater's component: a commit of 20 bytes, and the document that tells it.
  pub record UpdaterOnly (component : ReleaseManifestComponent) (document : Json) : Type 0 where
    pub commit : List ℕ
    pub decoded : decode_string component.commit ≡ some commit
    pub counted : length commit ≡ 20
    pub nothing_else : component ≡ metadata_only component.commit
    pub written :
        document
        ≡ object (
            member "service" (text "updater") (
              member "commit"
                (text component.commit)
                (member "protocol_major" (number (pos 2)) no_members)))

  updater_wire-read :
      (component : ReleaseManifestComponent) (document : Json)
      → (commit : List ℕ) × (decode_string component.commit ≡ some commit) × (length commit ≡ 20)
      → component ≡ metadata_only component.commit
      → updater_wire component ≡ document
      → (read_component document ≡ without_empty component)
        × ((component.service ≢ "updater") ⊎ UpdaterOnly component document)
  unfolding member?
  updater_wire-read component document (commit, decoded, counted) only e =
      let w : updater_wire (metadata_only component.commit) ≡ document =
        sym (ap updater_wire only) ∙ e in
      (
        sym (ap read_component w) ∙ sym (ap without_empty only),
        inr (record {
          commit = commit;
          decoded = decoded;
          counted = counted;
          nothing_else = only;
          written = sym w;
        }),
      )

  -- An encoded component reads back to itself, whether it is the Updater's or another's: only an
  -- empty list of artifacts or map of digests reads back as a missing one. The Updater's has a
  -- commit of 20 bytes and nothing else, and is written in three members.
  pub marshal_component-metadata_only :
      (component : ReleaseManifestComponent) (document : Json)
      → marshal_component decode_string component ≡ some document
      → (read_component document ≡ without_empty component)
        × ((component.service ≢ "updater") ⊎ UpdaterOnly component document)
  unfolding marshal_component
  marshal_component-metadata_only component document h =
      let updater =
        if updater_component decode_string component then some (updater_wire component) else none in
      elim (if-branch (not (component.service == "updater")) (some (component_wire component))
        updater (some document) h) [
          | inl (other, f) ↦
              let e : component_wire component ≡ document = cc in
              (
                sym (ap read_component e) ∙ read_component-component_wire component,
                inl (λ q. ground (arith, eq_iff component.service "updater", q, other)),
              )
          | inr (same, f) ↦
              let service : component.service ≡ "updater" =
                (eq_iff component.service "updater").0 (ground (arith, same)) in
              elim (if-branch (updater_component decode_string component)
                (some (updater_wire component)) none (some document) f) [
                  | inl (tested, g) ↦
                      let e : updater_wire component ≡ document = cc in
                      updater_wire-read component document
                        (commit_of (decode_string component.commit) (is_commit_of component tested))
                        (updater_component-metadata_only component service tested) e
                  | inr (tested, g) ↦ cc
                ]
        ]
