-- ===== src/Release.antt =====
-- The encoding of a component of a release manifest: pkg/contracts/release_manifest.go and its
-- structures in types_system_updates.go. A nil slice or map is `none`; a map is an association list
-- in the order of its encoding.
pub mod Read
pub mod Component
mod Tests
use autostream_contracts.Common.{
  ℕ, String, Bool, true, false, not, ◌&&◌, Option, none, some, List, [], ◌∷◌, length, ℤ, pos, ◌==◌,
  ℕ_eq, ℤ_eq, String_eq, is_nil, if◌then◌else◌,
}
use autostream_contracts.Json.{
  Json, boolean, number, text, array, object, members, items, keep, omit_text, omit_number,
}

pub record ReleaseArtifact : Type 0 where
  pub os : String
  pub arch : String
  pub name : String
  pub size : ℤ
  pub sha256 : String

pub record ReleaseManifestComponent : Type 0 where
  pub service : String
  pub source_version : String
  pub commit : String
  pub protocol_major : ℤ
  pub image : String
  pub manifest_digest : String
  pub artifacts : Option (List ReleaseArtifact)
  pub platform_digests : Option (List (String × String))
  pub rollback_compatible : Bool
  pub database_schema : String

unfoldable pub artifact_json : ReleaseArtifact → Json
artifact_json artifact = object (
    members (
      keep "os" (text artifact.os)
      ∷ keep "arch" (text artifact.arch)
      ∷ keep "name" (text artifact.name)
      ∷ keep "size" (number artifact.size)
      ∷ keep "sha256" (text artifact.sha256)
      ∷ []))

unfoldable pub artifacts_json : List ReleaseArtifact → List Json
unfolding artifact_json
artifacts_json [] = []
artifacts_json (artifact ∷ rest) = artifact_json artifact ∷ artifacts_json rest

unfoldable pub digests_json : List (String × String) → List (Option (String × Json))
digests_json [] = []
digests_json ((platform, digest) ∷ rest) = keep platform (text digest) ∷ digests_json rest

abbrev pub omit_artifacts : Option (List ReleaseArtifact) → Option (String × Json)
omit_artifacts none = none
omit_artifacts (some []) = none
omit_artifacts (some (artifact ∷ rest)) =
    keep "artifacts" (array (items (artifacts_json (artifact ∷ rest))))

abbrev pub omit_digests : Option (List (String × String)) → Option (String × Json)
omit_digests none = none
omit_digests (some []) = none
omit_digests (some (digest ∷ rest)) =
    keep "platform_digests" (object (members (digests_json (digest ∷ rest))))

-- The structure's own encoding, `componentWire`.
unfoldable pub component_wire : ReleaseManifestComponent → Json
component_wire component = object (
    members (
      keep "service" (text component.service)
      ∷ keep "source_version" (text component.source_version)
      ∷ omit_text "commit" component.commit
      ∷ omit_number "protocol_major" component.protocol_major
      ∷ omit_text "image" component.image
      ∷ omit_text "manifest_digest" component.manifest_digest
      ∷ omit_artifacts component.artifacts
      ∷ omit_digests component.platform_digests
      ∷ keep "rollback_compatible" (boolean component.rollback_compatible)
      ∷ keep "database_schema" (text component.database_schema)
      ∷ []))

-- The encoding of the Updater's component.
abbrev pub updater_wire : ReleaseManifestComponent → Json
updater_wire component = object (
    members (
      keep "service" (text component.service)
      ∷ keep "commit" (text component.commit)
      ∷ keep "protocol_major" (number component.protocol_major)
      ∷ []))

abbrev pub is_commit : Option (List ℕ) → Bool
is_commit none = false
is_commit (some commit) = length commit == 20

-- `hex.DecodeString` is a parameter.
module _ (decode_string : String → Option (List ℕ)) where
  -- The test of the Updater's component.
  unfoldable pub updater_component : ReleaseManifestComponent → Bool
  updater_component component =
      is_commit (decode_string component.commit)
      && component.protocol_major == pos 2
      && component.source_version == ""
      && component.image == ""
      && component.manifest_digest == ""
      && is_nil component.artifacts
      && is_nil component.platform_digests
      && not component.rollback_compatible
      && component.database_schema == ""

  -- `ReleaseManifestComponent.MarshalJSON`: the document that is encoded, `none` for its error.
  unfoldable pub marshal_component : ReleaseManifestComponent → Option Json
  marshal_component component =
      if not (component.service == "updater")
      then some (component_wire component)
      else if updater_component component
      then some (updater_wire component)
      else none
