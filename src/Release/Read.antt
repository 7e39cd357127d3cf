-- ===== src/Release/Read.antt =====
-- A reader of the encoding of a component of a release manifest, which fills in what `omitempty`
-- left out.
pub mod Rows
use autostream_contracts.Common.{
  String, Bool, true, false, ◌≡◌, refl, ap, ◌∙◌, sym, Option, none, some, List, [], ◌∷◌, ℤ, pos,
  negsuc, ◌==◌, String_eq, if◌then◌else◌, Bool-cases, inl, inr, eq_iff, arith, tests,
}
use autostream_contracts.Json.{
  Json, number, boolean, text, array, object, Items, no_items, item, Members, no_members, member,
  members, items, member?, as_object, as_array, as_text, keep, omit_text, omit_number, is_zero,
}
use autostream_contracts.Json.Rows.{text_of, number_of, boolean_of, members_of}
use autostream_contracts.Release.{
  ReleaseArtifact, ReleaseManifestComponent, artifact_json, artifacts_json, digests_json,
  omit_artifacts, omit_digests, component_wire,
}

abbrev read_artifact : Members → ReleaseArtifact
read_artifact ms = record {
  os = text_of (member? "os" ms);
  arch = text_of (member? "arch" ms);
  name = text_of (member? "name" ms);
  size = number_of (member? "size" ms);
  sha256 = text_of (member? "sha256" ms);
}

abbrev pub read_artifacts : Items → List ReleaseArtifact
read_artifacts no_items = []
read_artifacts (item x xs) = read_artifact (members_of x) ∷ read_artifacts xs

abbrev pub read_digests : Members → List (String × String)
read_digests no_members = []
read_digests (member platform digest ms) = (platform, as_text digest) ∷ read_digests ms

abbrev pub artifacts_of : Option Json → Option (List ReleaseArtifact)
artifacts_of (some (array xs)) = some (read_artifacts xs)
artifacts_of _ = none

abbrev pub digests_of : Option Json → Option (List (String × String))
digests_of (some (object ms)) = some (read_digests ms)
digests_of _ = none

-- The component that an encoding tells of.
abbrev pub read_members : Members → ReleaseManifestComponent
read_members ms = record {
  service = text_of (member? "service" ms);
  source_version = text_of (member? "source_version" ms);
  commit = text_of (member? "commit" ms);
  protocol_major = number_of (member? "protocol_major" ms);
  image = text_of (member? "image" ms);
  manifest_digest = text_of (member? "manifest_digest" ms);
  artifacts = artifacts_of (member? "artifacts" ms);
  platform_digests = digests_of (member? "platform_digests" ms);
  rollback_compatible = boolean_of (member? "rollback_compatible" ms);
  database_schema = text_of (member? "database_schema" ms);
}

abbrev pub read_component : Json → ReleaseManifestComponent
read_component document = read_members (members_of document)

abbrev pub drop_empty {ℓ} : {A : Type ℓ} → Option (List A) → Option (List A)
drop_empty none = none
drop_empty (some []) = none
drop_empty (some (x ∷ xs)) = some (x ∷ xs)

-- A component whose empty slice or map counts as a nil one.
abbrev pub without_empty : ReleaseManifestComponent → ReleaseManifestComponent
without_empty component = record component {
  artifacts = drop_empty component.artifacts;
  platform_digests = drop_empty component.platform_digests;
}
