-- ===== src/Updater/Evidence.antt =====
-- The evidence and the safe errors of a result, of pkg/contracts/updater_runtime_validation.go.
use autostream_contracts.Common.{
  String, Bool, false, not, ◌&&◌, ◌||◌, Option, none, some, List, all, any, ℤ, pos, leb_ℤ, ◌==◌,
  ℤ_eq, String_eq, if◌then◌else◌,
}
use autostream_contracts.Text.{matches_digest}
use autostream_contracts.Updater.Types.{UpdaterLeaseEnvelope, UpdaterEvidence, V2UpdaterSafeError}

-- `validUpdaterEvidenceCode`
unfoldable pub valid_evidence_code : String → Bool
valid_evidence_code code =
    code == "command_accepted"
    || code == "phase_observed"
    || code == "application_probe_verified"
    || code == "host_runtime_verified"
    || code == "rollback_verified"
    || code == "outcome_ambiguous"

-- The loop's test.
unfoldable pub valid_evidence_item : UpdaterLeaseEnvelope → UpdaterEvidence → Bool
valid_evidence_item lease evidence =
    valid_evidence_code evidence.evidence_code
    && not (evidence.observed_at == pos 0)
    && leb_ℤ evidence.observed_at lease.lease_expires_at
    && leb_ℤ (pos 1) evidence.observed_revision
    && (evidence.artifact_digest == "" || matches_digest evidence.artifact_digest)

-- `validUpdaterEvidence`
unfoldable pub valid_evidence : List UpdaterEvidence → UpdaterLeaseEnvelope → Bool
valid_evidence evidence lease = all (valid_evidence_item lease) evidence

-- `hasUpdaterEvidence`
unfoldable pub has_evidence : List UpdaterEvidence → String → Bool
has_evidence evidence code = any (λ e. e.evidence_code == code) evidence

-- `hasUpdaterEvidenceAtRevision`
unfoldable pub has_evidence_at_revision : List UpdaterEvidence → String → ℤ → Bool
has_evidence_at_revision evidence code revision =
    any (λ e. e.evidence_code == code && e.observed_revision == revision) evidence

-- `CanonicalUpdaterSafeErrorMessage`
unfoldable pub canonical_safe_error_message : String → Option String
canonical_safe_error_message code =
    if code == "protocol_version_unsupported"
    then some "updater protocol version is unsupported"
    else if code == "issuer_authentication_failed"
    then some "updater issuer authentication failed"
    else if code == "updater_identity_mismatch"
    then some "updater identity does not match assignment"
    else if code == "authorization_expired"
    then some "updater authorization expired"
    else if code == "authorization_replayed"
    then some "updater authorization was already used"
    else if code == "idempotency_payload_conflict"
    then some "updater idempotency payload conflicts"
    else if code == "capability_missing"
    then some "updater capability is unavailable"
    else if code == "revision_conflict"
    then some "updater revision conflicts"
    else if code == "stale_fence"
    then some "updater fence is stale"
    else if code == "command_expired"
    then some "updater command expired"
    else if code == "outcome_ambiguous"
    then some "updater outcome requires reconciliation"
    else if code == "local_journal_unavailable"
    then some "updater local journal is unavailable"
    else if code == "execution_failed"
    then some "updater execution failed"
    else none

abbrev is_canonical_message : Option String → String → Bool
is_canonical_message none message = false
is_canonical_message (some canonical) message = message == canonical

-- `validUpdaterSafeError`
unfoldable pub valid_safe_error : Option V2UpdaterSafeError → String → Bool
valid_safe_error none audit_correlation_id = false
valid_safe_error (some error) audit_correlation_id =
    is_canonical_message (canonical_safe_error_message error.code) error.message
    && (error.audit_correlation_id == "" || error.audit_correlation_id == audit_correlation_id)
