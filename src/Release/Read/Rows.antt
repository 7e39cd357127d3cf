-- ===== src/Release/Read/Rows.antt =====
-- Every member of the encoding of a component is read back.
use autostream_contracts.Common.{
  String, ◌≡◌, refl, ap, ◌∙◌, Option, none, some, List, [], ◌∷◌, String_eq,
}
use autostream_contracts.Json.{Json, boolean, text, array, object, members, items, member?}
use autostream_contracts.Release.{
  ReleaseArtifact, ReleaseManifestComponent, artifact_json, artifacts_json, digests_json,
  omit_artifacts, omit_digests, component_wire,
}
use autostream_contracts.Json.Rows.{
  text_of, number_of, boolean_of, field, fields, find, or_else, member?-fields, text?, number?,
  omit_text-field, omit_number-field, text_of-text?, number_of-number?,
}
use autostream_contracts.Release.Read.{
  read_artifacts, read_digests, artifacts_of, digests_of, drop_empty, read_members, read_component,
  without_empty,
}

abbrev artifacts? : Option (List ReleaseArtifact) → Option Json
artifacts? none = none
artifacts? (some []) = none
artifacts? (some (artifact ∷ rest)) = some (array (items (artifacts_json (artifact ∷ rest))))

abbrev digests? : Option (List (String × String)) → Option Json
digests? none = none
digests? (some []) = none
digests? (some (digest ∷ rest)) = some (object (members (digests_json (digest ∷ rest))))

-- The rows of a component's encoding.
abbrev rows : ReleaseManifestComponent → List (String × Option Json)
rows component =
    ("service", some (text component.service))
    ∷ ("source_version", some (text component.source_version))
    ∷ ("commit", text? component.commit)
    ∷ ("protocol_major", number? component.protocol_major)
    ∷ ("image", text? component.image)
    ∷ ("manifest_digest", text? component.manifest_digest)
    ∷ ("artifacts", artifacts? component.artifacts)
    ∷ ("platform_digests", digests? component.platform_digests)
    ∷ ("rollback_compatible", some (boolean component.rollback_compatible))
    ∷ ("database_schema", some (text component.database_schema))
    ∷ []

omit_artifacts-field :
    (artifacts : Option (List ReleaseArtifact))
    → omit_artifacts artifacts ≡ field ("artifacts", artifacts? artifacts)
omit_artifacts-field none = refl
omit_artifacts-field (some []) = refl
omit_artifacts-field (some (artifact ∷ rest)) = refl

omit_digests-field :
    (digests : Option (List (String × String)))
    → omit_digests digests ≡ field ("platform_digests", digests? digests)
omit_digests-field none = refl
omit_digests-field (some []) = refl
omit_digests-field (some (digest ∷ rest)) = refl

component_wire-rows :
    (component : ReleaseManifestComponent)
    → component_wire component ≡ object (members (fields (rows component)))
unfolding component_wire
component_wire-rows component =
    let commit = omit_text-field "commit" component.commit in
    let major = omit_number-field "protocol_major" component.protocol_major in
    let image = omit_text-field "image" component.image in
    let digest = omit_text-field "manifest_digest" component.manifest_digest in
    let artifacts = omit_artifacts-field component.artifacts in
    let digests = omit_digests-field component.platform_digests in cc

read_artifacts-artifacts_json :
    (artifacts : List ReleaseArtifact)
    → read_artifacts (items (artifacts_json artifacts)) ≡ artifacts
unfolding artifacts_json artifact_json member?
read_artifacts-artifacts_json [] = refl
read_artifacts-artifacts_json (artifact ∷ rest) =
    ap (λ xs. artifact ∷ xs) (read_artifacts-artifacts_json rest)

read_digests-digests_json :
    (digests : List (String × String)) → read_digests (members (digests_json digests)) ≡ digests
unfolding digests_json
read_digests-digests_json [] = refl
read_digests-digests_json ((platform, digest) ∷ rest) =
    ap (λ xs. (platform, digest) ∷ xs) (read_digests-digests_json rest)

artifacts_of-artifacts? :
    (artifacts : Option (List ReleaseArtifact))
    → artifacts_of (or_else (artifacts? artifacts) none) ≡ drop_empty artifacts
artifacts_of-artifacts? none = refl
artifacts_of-artifacts? (some []) = refl
artifacts_of-artifacts? (some (artifact ∷ rest)) =
    ap some (read_artifacts-artifacts_json (artifact ∷ rest))

digests_of-digests? :
    (digests : Option (List (String × String)))
    → digests_of (or_else (digests? digests) none) ≡ drop_empty digests
digests_of-digests? none = refl
digests_of-digests? (some []) = refl
digests_of-digests? (some (digest ∷ rest)) = ap some (read_digests-digests_json (digest ∷ rest))

-- What is read is found by its row.
read_members-rows :
    (component : ReleaseManifestComponent)
    → read_members (members (fields (rows component))) ≡ without_empty component
read_members-rows component =
    let found : (key : String)
        → member? key (members (fields (rows component))) ≡ find key (rows component) =
      λ key. member?-fields key (rows component) in
    let commit = ap text_of (found "commit") ∙ text_of-text? component.commit in
    let major =
      ap number_of (found "protocol_major") ∙ number_of-number? component.protocol_major in
    let image = ap text_of (found "image") ∙ text_of-text? component.image in
    let digest = ap text_of (found "manifest_digest") ∙ text_of-text? component.manifest_digest in
    let artifacts =
      ap artifacts_of (found "artifacts") ∙ artifacts_of-artifacts? component.artifacts in
    let digests =
      ap digests_of (found "platform_digests") ∙ digests_of-digests? component.platform_digests in
    λ i. record {
      service = text_of (found "service" i);
      source_version = text_of (found "source_version" i);
      commit = commit i;
      protocol_major = major i;
      image = image i;
      manifest_digest = digest i;
      artifacts = artifacts i;
      platform_digests = digests i;
      rollback_compatible = boolean_of (found "rollback_compatible" i);
      database_schema = text_of (found "database_schema" i);
    }

pub read_component-component_wire :
    (component : ReleaseManifestComponent)
    → read_component (component_wire component) ≡ without_empty component
read_component-component_wire component =
    ap read_component (component_wire-rows component) ∙ read_members-rows component
