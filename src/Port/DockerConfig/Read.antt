-- ===== src/Port/DockerConfig/Read.antt =====
-- The configuration text reads back.
use Prim.Native.Char.{Char}
use Prim.Native.String
use text.Mathlib.TextLemmas.{nil-append, cons-append}
use autostream_contracts.Common.{
  ℕ, String, true, ◌&&◌, ◌≡◌, refl, ap, ◌∙◌, Option, none, some, ℤ, pos, pos_part, negsuc, tests,
  ok, err, Result, require-passes, and_true, system_update_port_contract,
}
use autostream_contracts.Text.{strip_prefix?, is_digit}
use autostream_contracts.Text.Digest.{strip_prefix?-append}
use autostream_contracts.Json.Canonical.{◌>>=◌}
use autostream_contracts.Json.Decimal.{decimal, decimal_ℤ}
use autostream_contracts.Json.Decimal.Read.{read_number, read_number-decimal}
use autostream_contracts.Port.Snapshot.{valid_revision, valid_port}
use autostream_contracts.Port.DockerConfig.{variable_prefix, docker_config_text, docker_config}

-- A numeral at the start of a text that begins with `lead`, and what follows it.
read_field : String → String → Option (ℕ × String)
read_field lead text = do rest ← strip_prefix? lead text; some (read_number 0 rest)

-- The two ports and the revision in the text for a service.
pub read_docker_config : String → String → Option (ℤ × ℤ × ℤ)
read_docker_config service_type text = do
  prefix ← variable_prefix service_type
  after ← strip_prefix? prefix text
  (published, rest) ← read_field "_PORT=" after
  next ← strip_prefix? "\n" rest
  own ← strip_prefix? prefix next
  (container, last) ← read_field "_CONTAINER_PORT=" own
  final ← strip_prefix? "\n" last
  (revision, end) ← read_field "AUTOSTREAM_CONFIG_REVISION=" final
  some (pos published, pos container, pos revision)

abbrev line_feed : Char
line_feed = "\n"

break_text : (rest : String) → String.◌++◌ "\n" rest ≡ String.◌∷◌ line_feed rest
break_text rest = cons-append line_feed "" rest ∙ ap (λ s. String.◌∷◌ line_feed s) (nil-append rest)

read_field-decimal :
    (lead : String) (n : ℕ) (rest : String)
    → read_field lead (String.◌++◌ lead (String.◌++◌ (decimal n) (String.◌++◌ "\n" rest)))
      ≡ some (n, String.◌++◌ "\n" rest)
unfolding read_field is_digit
read_field-decimal lead n rest = rw (break_text rest) (
    rw (strip_prefix?-append lead (String.◌++◌ (decimal n) (String.◌∷◌ line_feed rest)))
      (ap some (read_number-decimal n line_feed rest refl)))

read_text :
    (service_type prefix : String) (p c r : ℕ)
    → variable_prefix service_type ≡ some prefix
    → read_docker_config service_type (docker_config_text prefix (pos p) (pos c) (pos r))
      ≡ some (pos p, pos c, pos r)
unfolding read_docker_config docker_config_text decimal_ℤ
read_text service_type prefix p c r e = rw e (
    rw (strip_prefix?-append prefix _) (
      rw (read_field-decimal "_PORT=" p _) (
        rw (strip_prefix?-append "\n" _) (
          rw (strip_prefix?-append prefix _) (
            rw (read_field-decimal "_CONTAINER_PORT=" c _) (
              rw (strip_prefix?-append "\n" _)
                (rw (read_field-decimal "AUTOSTREAM_CONFIG_REVISION=" r "") refl)))))))

port_not_negative : (port : ℤ) → valid_port port (pos 1024) ≡ true → port ≡ pos (pos_part port)
unfolding valid_port
port_not_negative (pos n) h = refl
port_not_negative (negsuc n) h = absurd (grind tests)

revision_not_negative : (r : ℤ) → valid_revision r ≡ true → r ≡ pos (pos_part r)
unfolding valid_revision
revision_not_negative (pos n) h = refl
revision_not_negative (negsuc n) h = absurd (grind tests)

text_of :
    (o : Option String) (text : String) (published container revision : ℤ)
    → elim o as (λ o. Result String) [
      | none ↦ err system_update_port_contract
      | some prefix ↦ ok (docker_config_text prefix published container revision)
    ]
      ≡ ok text
    → (prefix : String) × (o ≡ some prefix)
      × (docker_config_text prefix published container revision ≡ text)
text_of none text published container revision h = cc
text_of (some prefix) text published container revision h = (prefix, refl, cc)

-- The bytes of a Docker configuration read back to the ports and the revision that they were made
-- for.
pub read_docker_config-docker_config :
    (service_type text : String) (published container revision : ℤ)
    → docker_config service_type published container revision ≡ ok text
    → read_docker_config service_type text ≡ some (published, container, revision)
unfolding docker_config
read_docker_config-docker_config service_type text published container revision h =
    let (tested, made) =
      require-passes
        (valid_port published (pos 1024)
          && valid_port container (pos 1024)
          && valid_revision revision)
        system_update_port_contract _ _ h in
    let (ports, revision_valid) =
      and_true (valid_port published (pos 1024) && valid_port container (pos 1024))
        (valid_revision revision) tested in
    let (published_valid, container_valid) =
      and_true (valid_port published (pos 1024)) (valid_port container (pos 1024)) ports in
    let (prefix, e, same) =
      text_of (variable_prefix service_type) text published container revision made in
    let p = port_not_negative published published_valid in
    let c = port_not_negative container container_valid in
    let r = revision_not_negative revision revision_valid in
    let back =
      read_text service_type prefix (pos_part published) (pos_part container) (pos_part revision)
        e in
    rw (← same) (rw (p, c, r) back)
