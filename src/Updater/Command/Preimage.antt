-- ===== src/Updater/Command/Preimage.antt =====
-- The text that a command's digest is taken of, written out member by member.
use autostream_contracts.Common.{
  String, true, false, ◌≡◌, ap, sym, ◌∙◌, negsuc, inl, inr, refl, Option, none, some, [], ◌∷◌, ℤ,
  pos, ok, Result, err, ◌>>=◌, ◌&&◌, leb_ℤ, require-passes, updater_canonical_json_invalid, tests,
  and_true, Option-cases, ◌==◌, String_eq,
}
use autostream_contracts.Text.Digest.{compute_bytes_sha256}
use autostream_contracts.Json.{Json, number, object, members, keep, no_members, Members, is_zero}
use autostream_contracts.Json.Decimal.{decimal_ℤ}
use autostream_contracts.Json.Canonical.{canonical, canonical_string, object_text}
use autostream_contracts.Json.Canonical.Layout.{
  laid_out, canonical-object, canonical_members-member, canonical-number,
}
use autostream_contracts.Updater.Types.{UpdaterTargetIdentity, UpdaterDesiredOperation}
use autostream_contracts.Updater.Platform.{Platform}
use autostream_contracts.Updater.Wire.Read.{read_operation, untimed, Timed}
use autostream_contracts.Updater.Wire.Operation.{desired_operation_json-read}
use autostream_contracts.Updater.Wire.{target_json, desired_operation_json}
use autostream_contracts.Updater.Command.{compute_command_digest, or_error}

-- The canonical text of a target, by RFC 8785: a revision of 0 and an empty host are left out.
abbrev pub target_layout : UpdaterTargetIdentity → Option String → Option String → String
target_layout target none none = laid_out (
    ("deployment_mode", canonical_string target.deployment_mode)
    ∷ ("service_id", canonical_string target.service_id)
    ∷ ("service_type", canonical_string target.service_type)
    ∷ ("target_kind", canonical_string target.target_kind)
    ∷ [])
target_layout target (some revision) none = laid_out (
    ("deployment_mode", canonical_string target.deployment_mode)
    ∷ ("expected_config_revision", revision)
    ∷ ("service_id", canonical_string target.service_id)
    ∷ ("service_type", canonical_string target.service_type)
    ∷ ("target_kind", canonical_string target.target_kind)
    ∷ [])
target_layout target none (some host) = laid_out (
    ("deployment_mode", canonical_string target.deployment_mode)
    ∷ ("execution_host_id", host)
    ∷ ("service_id", canonical_string target.service_id)
    ∷ ("service_type", canonical_string target.service_type)
    ∷ ("target_kind", canonical_string target.target_kind)
    ∷ [])
target_layout target (some revision) (some host) = laid_out (
    ("deployment_mode", canonical_string target.deployment_mode)
    ∷ ("execution_host_id", host)
    ∷ ("expected_config_revision", revision)
    ∷ ("service_id", canonical_string target.service_id)
    ∷ ("service_type", canonical_string target.service_type)
    ∷ ("target_kind", canonical_string target.target_kind)
    ∷ [])

-- In a service's configuration: with a revision, and without a host.
pub service_target-laid_out :
    (target : UpdaterTargetIdentity) (body : String)
    → is_zero target.expected_config_revision ≡ false
    → target.execution_host_id ≡ ""
    → canonical (target_json target) ≡ some body
    → body ≡ target_layout target (some (decimal_ℤ target.expected_config_revision)) none
unfolding target_json canonical object_text
service_target-laid_out target body nonzero no_host h =
    elim (Option-cases (canonical (number target.expected_config_revision))) [
      | inl absent ↦
          let failed : canonical (target_json target) ≡ none =
            rw nonzero (rw no_host (rw absent refl)) in
          cc
      | inr (numeral, found) ↦
          let q : numeral ≡ decimal_ℤ target.expected_config_revision =
            canonical-number target.expected_config_revision numeral nonzero found in
          let text : canonical (target_json target)
              ≡ some (target_layout target (some numeral) none) =
            rw nonzero (rw no_host (rw found refl)) in
          cc
    ]

-- On a host: with the host, and without a revision.
pub host_target-laid_out :
    (target : UpdaterTargetIdentity) (body : String)
    → target.expected_config_revision ≡ pos 0
    → (target.execution_host_id == "") ≡ false
    → canonical (target_json target) ≡ some body
    → body ≡ target_layout target none (some (canonical_string target.execution_host_id))
unfolding target_json canonical object_text
host_target-laid_out target body zero_revision host h =
    let text : canonical (target_json target)
        ≡ some (target_layout target none (some (canonical_string target.execution_host_id))) =
      rw zero_revision (rw host refl) in
    cc

pub positive-is_zero : (n : ℤ) → leb_ℤ (pos 1) n ≡ true → is_zero n ≡ false
positive-is_zero (pos m) low = grind (tests, low)
positive-is_zero (negsuc m) low = refl

-- The text of the four members, whichever order they are in.
four_members-laid_out :
    (target revision fence operation : String)
    → object_text (
        ("target", target)
        ∷ ("desired_revision", revision)
        ∷ ("fence", fence)
        ∷ ("desired_operation", operation)
        ∷ [])
      ≡ laid_out (
          ("desired_operation", operation)
          ∷ ("desired_revision", revision)
          ∷ ("fence", fence)
          ∷ ("target", target)
          ∷ [])
unfolding object_text
four_members-laid_out target revision fence operation = refl

-- The digest of a command is taken of its four parts: the target and the operation in their
-- canonical texts, of which the operation's is of a document that reads back to it, the revision and the fence as decimal numerals.
pub record TakenOf (platform : Platform) (target : UpdaterTargetIdentity) (revision fence : ℤ)
    (desired : UpdaterDesiredOperation) (digest : String) : Type 0 where
  pub document : Json
  pub described : desired_operation_json platform.marshal_time desired ≡ some document
  pub reads_back : read_operation document ≡ untimed desired
  pub timed : Timed platform.marshal_time desired document
  pub operation_text : String
  pub operation_written : canonical document ≡ some operation_text
  pub target_text : String
  pub target_written : canonical (target_json target) ≡ some target_text
  pub computed :
      digest
      ≡ compute_bytes_sha256 platform.sha (
          laid_out (
            ("desired_operation", operation_text)
            ∷ ("desired_revision", decimal_ℤ revision)
            ∷ ("fence", decimal_ℤ fence)
            ∷ ("target", target_text)
            ∷ []))

abbrev four_members : (target revision fence operation : Json) → Members
four_members target revision fence operation = members (
    keep "target" target
    ∷ keep "desired_revision" revision
    ∷ keep "fence" fence
    ∷ keep "desired_operation" operation
    ∷ [])

-- The text of a document of the four members.
document_text :
    (target revision fence operation : Json) (body : String)
    → canonical (object (four_members target revision fence operation)) ≡ some body
    → (a : String) × (b : String) × (c : String) × (d : String) × (canonical target ≡ some a)
      × (canonical revision ≡ some b)
      × (canonical fence ≡ some c)
      × (canonical operation ≡ some d)
      × (body
          ≡ laid_out (
              ("desired_operation", d)
              ∷ ("desired_revision", b)
              ∷ ("fence", c)
              ∷ ("target", a)
              ∷ []))
unfolding canonical
document_text target revision fence operation body h =
    let (entries, found, q) =
      canonical-object (four_members target revision fence operation) body h in
    let (a, after_a, ha, found_a, ea) =
      canonical_members-member "target" target
        (members (
          keep "desired_revision" revision
          ∷ keep "fence" fence
          ∷ keep "desired_operation" operation
          ∷ []))
        entries found in
    let (b, after_b, hb, found_b, eb) =
      canonical_members-member "desired_revision" revision
        (members (keep "fence" fence ∷ keep "desired_operation" operation ∷ [])) after_a found_a in
    let (c, after_c, hc, found_c, ec) =
      canonical_members-member "fence" fence (members (keep "desired_operation" operation ∷ []))
        after_b found_b in
    let (d, after_d, hd, found_d, ed) =
      canonical_members-member "desired_operation" operation no_members after_c found_c in
    let last : after_d ≡ [] = cc in
    let all : entries
        ≡ ("target", a) ∷ ("desired_revision", b) ∷ ("fence", c) ∷ ("desired_operation", d) ∷ [] =
      cc in
    (a, b, c, d, ha, hb, hc, hd, q ∙ ap object_text all ∙ four_members-laid_out a b c d)

or_error-ok {ℓ} : {A : Type ℓ} (found : Option A) (a : A) → or_error found ≡ ok a → found ≡ some a
or_error-ok none a h = cc
or_error-ok (some b) a h = cc

bound {ℓ κ} :
    {A : Type ℓ} {B : Type κ} (found : Result A) (f : A → Result B) (b : B)
    → (found >>= f) ≡ ok b
    → (a : A) × (found ≡ ok a) × (f a ≡ ok b)
bound (ok a) f b h = (a, refl, h)
bound (err e) f b h = cc

pub compute_command_digest-TakenOf :
    (platform : Platform) (target : UpdaterTargetIdentity) (revision fence : ℤ)
    (desired : UpdaterDesiredOperation) (digest : String)
    → compute_command_digest platform target revision fence desired ≡ ok digest
    → TakenOf platform target revision fence desired digest
unfolding compute_command_digest
compute_command_digest-TakenOf platform target revision fence desired digest h =
    let (positive, after_test) =
      require-passes (leb_ℤ (pos 1) revision && leb_ℤ (pos 1) fence) updater_canonical_json_invalid
        _ digest h in
    let (document, described, after_document) =
      bound (or_error (desired_operation_json platform.marshal_time desired)) _ digest after_test in
    let (body, encoded, hashed) = bound (or_error (canonical _)) _ digest after_document in
    let (a, b, c, d, ha, hb, hc, hd, q) =
      document_text (target_json target) (number revision) (number fence) document body
        (or_error-ok _ body encoded) in
    let (low, low_fence) = and_true (leb_ℤ (pos 1) revision) (leb_ℤ (pos 1) fence) positive in
    let hash : digest ≡ compute_bytes_sha256 platform.sha body = cc in
    let eb : b ≡ decimal_ℤ revision =
      canonical-number revision b (positive-is_zero revision low) hb in
    let ec : c ≡ decimal_ℤ fence = canonical-number fence c (positive-is_zero fence low_fence) hc in
    let read_back =
      desired_operation_json-read platform.marshal_time desired document
        (or_error-ok _ document described) in
    record {
      document = document;
      reads_back = read_back.0;
      timed = read_back.1;
      described = or_error-ok _ document described;
      operation_text = d;
      operation_written = hd;
      target_text = a;
      target_written = ha;
      computed = rw (sym eb) (rw (sym ec) (hash ∙ ap (compute_bytes_sha256 platform.sha) q));
    }
