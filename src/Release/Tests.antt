-- ===== src/Release/Tests.antt =====
-- Components of a release manifest at a concrete commit: the Updater's, and another.
use autostream_contracts.Common.{
  ℕ, beq_ℤ, String, refl, ◌≡◌, ◌≢◌, ◌⊎◌, Option, some, List, [], ◌∷◌, true, pos,
}
use autostream_contracts.Release.{
  ReleaseManifestComponent, component_wire, updater_wire, updater_component, marshal_component,
}
use autostream_contracts.Release.Component.{
  metadata_only, UpdaterOnly, marshal_component-metadata_only,
}
use autostream_contracts.Release.Read.{read_component, without_empty}

abbrev twenty : List ℕ
twenty = 1 ∷ 1 ∷ 1 ∷ 1 ∷ 1 ∷ 1 ∷ 1 ∷ 1 ∷ 1 ∷ 1 ∷ 1 ∷ 1 ∷ 1 ∷ 1 ∷ 1 ∷ 1 ∷ 1 ∷ 1 ∷ 1 ∷ 1 ∷ []

abbrev decode_twenty : String → Option (List ℕ)
decode_twenty commit = some twenty

abbrev commit : String
commit = "0101010101010101010101010101010101010101"

component_encoded :
    marshal_component decode_twenty (metadata_only commit)
    ≡ some (updater_wire (metadata_only commit))
unfolding marshal_component updater_component beq_ℤ
component_encoded = refl

-- Another component, with one artifact and an empty map of digests.
abbrev encoder : ReleaseManifestComponent
encoder = record {
  service = "encoder_recorder";
  source_version = "1.2.3";
  commit = commit;
  protocol_major = pos 2;
  image = "";
  manifest_digest = "";
  artifacts = some (
      record { os = "linux"; arch = "amd64"; name = "encoder"; size = pos 42; sha256 = "ab" } ∷ []);
  platform_digests = some [];
  rollback_compatible = true;
  database_schema = "none";
}

encoder_encoded : marshal_component decode_twenty encoder ≡ some (component_wire encoder)
unfolding marshal_component
encoder_encoded = refl

marshal_component-metadata_only_example :
    (read_component (component_wire encoder) ≡ without_empty encoder)
    × ((encoder.service ≢ "updater") ⊎ UpdaterOnly decode_twenty encoder (component_wire encoder))
marshal_component-metadata_only_example =
    marshal_component-metadata_only decode_twenty encoder (component_wire encoder) encoder_encoded
