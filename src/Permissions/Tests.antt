-- ===== src/Permissions/Tests.antt =====
-- The catalogue at a concrete name.
use autostream_contracts.Common.{◌≡◌}
use autostream_contracts.Permissions.{permissions, permission_exists}
use autostream_contracts.Permissions.Catalogue.{
  occurrences, number_of, permission_exists-occurrences,
}

permission_exists-occurrences_example :
    occurrences "streams.start" permissions ≡ number_of (permission_exists "streams.start")
permission_exists-occurrences_example = permission_exists-occurrences "streams.start"
