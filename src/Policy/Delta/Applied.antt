-- ===== src/Policy/Delta/Applied.antt =====
-- The bytes that `ApplySystemUpdatePortPolicyDelta` of pkg/contracts/system_update_port_policy.go
-- returns.
use autostream_contracts.Common.{
  String, true, false, ◌&&◌, ◌||◌, ◌≡◌, ◌⊎◌, inl, inr, refl, ◌∙◌, Option, none, some, List, any,
  arith, eq_iff, and_true, if-branch, ◌==◌, String_eq, ℤ_eq, Bool-cases, Bool_eq, leb,
}
use autostream_contracts.Port.Types.{SystemUpdatePortSnapshotRef}
use autostream_contracts.Text.{byte_length}
use autostream_contracts.Text.Digest.{compute_bytes_sha256}
use autostream_contracts.Policy.Root.{
  PortRootTarget, PortRootPolicy, PolicyPlatform, decode_root_policy, max_bytes,
}
use autostream_contracts.Policy.Allowed.{delta_allowed}
use autostream_contracts.Policy.Delta.{
  LoopEnd, returned, finished, delta_targets, within_limits, delta_policy, finish_delta,
  delta_starts, delta_of, apply_policy_delta,
}
use autostream_contracts.Policy.Delta.Change.{Replaced}
use autostream_contracts.Policy.Delta.Replaces.{delta_targets-Replaced, delta_targets-unchanged}

digest_tested :
    (expected digest : String)
    → (expected == "" || digest == expected) ≡ true
    → (expected ≡ "") ⊎ (digest ≡ expected)
digest_tested expected digest t = elim (Bool-cases (expected == "")) [
  | inl e ↦ inl ((eq_iff _ _).0 e)
  | inr e ↦ inr ((eq_iff digest expected).0 (ground arith))
]

module _ (platform : PolicyPlatform) where
  -- A policy that a delta writes: of the policy that was read, at the references' revisions, with
  -- the targets of the service moved.
  pub record Written (payload service : String) (before after : SystemUpdatePortSnapshotRef)
      (policy : PortRootPolicy) (result : String) : Type 0 where
    pub read : decode_root_policy platform payload ≡ some policy
    pub starts : delta_starts platform payload service before policy ≡ true
    pub allowed : delta_allowed before after ≡ true
    pub targets : List PortRootTarget
    pub matched : any (λ target. target.service_id == service) policy.targets ≡ true
    pub moves : Replaced service before after policy.targets targets
    pub source_revision :
        (delta_policy policy after targets).source_policy_revision ≡ after.source_policy_revision
    pub projection_revision :
        (delta_policy policy after targets).projection_revision ≡ after.projection_revision
    pub policy_revision :
        (delta_policy policy after targets).policy_revision ≡ after.executor_policy_revision
    pub moved_targets : (delta_policy policy after targets).targets ≡ targets
    pub others_kept :
        record (delta_policy policy after targets) {
          source_policy_revision = policy.source_policy_revision;
          projection_revision = policy.projection_revision;
          policy_revision = policy.policy_revision;
          targets = policy.targets;
        }
        ≡ policy
    pub written : platform.marshal_root (delta_policy policy after targets) ≡ some result
    pub small : leb (byte_length result) max_bytes ≡ true
    pub digest :
        (after.executor_policy_sha256 ≡ "")
        ⊎ (compute_bytes_sha256 platform.sha result ≡ after.executor_policy_sha256)

  within_limits-parts :
      (encoded : Option String) (expected result : String)
      → within_limits platform encoded expected ≡ some result
      → (encoded ≡ some result)
        × (leb (byte_length result) max_bytes ≡ true)
        × ((expected ≡ "") ⊎ (compute_bytes_sha256 platform.sha result ≡ expected))
  within_limits-parts none expected result e = cc
  within_limits-parts (some found) expected result e =
      elim (if-branch
        (leb (byte_length found) max_bytes
          && (expected == "" || compute_bytes_sha256 platform.sha found == expected))
        (some found) none (some result) e) [
          | inl (t, f) ↦
              let (small, digest) =
                and_true (leb (byte_length found) max_bytes)
                  (expected == "" || compute_bytes_sha256 platform.sha found == expected) t in
              let q : result ≡ found = cc in
              rw q (
                refl,
                small,
                digest_tested expected (compute_bytes_sha256 platform.sha found) digest,
              )
          | inr (t, f) ↦ cc
        ]

  finish_delta-Written :
      (payload service : String) (before after : SystemUpdatePortSnapshotRef)
      (policy : PortRootPolicy) (end : LoopEnd) (result : String)
      → decode_root_policy platform payload ≡ some policy
      → delta_starts platform payload service before policy ≡ true
      → delta_allowed before after ≡ true
      → delta_targets platform payload service before after policy.targets ≡ end
      → finish_delta platform policy after end ≡ some result
      → (before ≡ after) × (result ≡ payload) ⊎ Written payload service before after policy result
  finish_delta-Written payload service before after policy (returned none) result r s a t f = cc
  finish_delta-Written payload service before after policy (returned (some found)) result r s a t
        f =
      inl (
        delta_targets-unchanged platform payload service before after policy.targets result
          (t ∙ cc))
  finish_delta-Written payload service before after policy (finished targets false) result r s a t
        f =
      cc
  finish_delta-Written payload service before after policy (finished targets true) result r s a t
        f =
      let (moves, matched) =
        delta_targets-Replaced platform payload service before after policy.targets targets true a
          t in
      let (written, small, digest) =
        within_limits-parts (platform.marshal_root (delta_policy policy after targets))
          after.executor_policy_sha256 result f in
      inr (record {
        read = r;
        starts = s;
        allowed = a;
        targets = targets;
        matched = matched;
        moves = moves;
        source_revision = refl;
        projection_revision = refl;
        policy_revision = refl;
        moved_targets = refl;
        others_kept = refl;
        written = written;
        small = small;
        digest = digest;
      })

  delta_of-Written :
      (payload service : String) (before after : SystemUpdatePortSnapshotRef)
      (found : Option PortRootPolicy) (result : String)
      → decode_root_policy platform payload ≡ found
      → delta_of platform payload service before after found ≡ some result
      → (before ≡ after) × (result ≡ payload)
        ⊎ ((policy : PortRootPolicy) × Written payload service before after policy result)
  delta_of-Written payload service before after none result r e = cc
  delta_of-Written payload service before after (some policy) result r e =
      elim (if-branch
        (delta_starts platform payload service before policy && delta_allowed before after)
        (finish_delta platform policy after
          (delta_targets platform payload service before after policy.targets))
        none (some result) e) [
          | inl (t, f) ↦
              let (s, a) =
                and_true (delta_starts platform payload service before policy)
                  (delta_allowed before after) t in
              elim (finish_delta-Written payload service before after policy
                (delta_targets platform payload service before after policy.targets) result r s a
                refl f) [ inl same ↦ inl same | inr written ↦ inr (policy, written) ]
          | inr (t, f) ↦ cc
        ]

  -- What a delta returns is its input, for two equal references, or the encoding of the policy it
  -- read in which some target was of the service: at the revisions of the second reference, with
  -- each target of the service moved from a match of the first reference to a match of the second
  -- and its Docker profile kept but for the Compose revision, and every other target kept. The
  -- encoding is within the size limit and, where the second reference has the digest of an
  -- executor policy, of that digest.
  pub apply_policy_delta-Written :
      (payload service : String) (before after : SystemUpdatePortSnapshotRef) (result : String)
      → apply_policy_delta platform payload service before after ≡ some result
      → (before ≡ after) × (result ≡ payload)
        ⊎ ((policy : PortRootPolicy) × Written payload service before after policy result)
  unfolding apply_policy_delta
  apply_policy_delta-Written payload service before after result e =
      delta_of-Written payload service before after (decode_root_policy platform payload) result
        refl e
