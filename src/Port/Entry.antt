-- ===== src/Port/Entry.antt =====
-- The raw entry points of pkg/contracts/system_update_port_validation.go. The codec is
-- encoding/json: the reading of one document to its end, and its decoding into each structure.
pub mod Written
mod Tests
use autostream_contracts.Common.{String, Bool, Option, Check, system_update_port_contract}
use autostream_contracts.Text.Digest.{Sha256}
use autostream_contracts.Json.{Json, Members}
use autostream_contracts.Json.Entry.{is_object, entry}
use autostream_contracts.Port.Types.{SystemUpdatePortReconfiguration, SystemUpdatePortResultV2}
use autostream_contracts.Port.Create.{SystemUpdatePortCreateRequestV2, validate_create}
use autostream_contracts.Port.Plan.{validate_plan}
use autostream_contracts.Port.Result.{validate_result}
use autostream_contracts.Port.Baseline.{UpdaterPortPolicyBaseline, validate_baseline}
use autostream_contracts.Port.Document.{
  create_document, plan_document, result_document, baseline_document,
}

pub record PortCodec : Type 0 where
  pub read_json : String → Option Json
  pub decode_create : Json → Option SystemUpdatePortCreateRequestV2
  pub decode_plan : Json → Option SystemUpdatePortReconfiguration
  pub decode_result : Json → Option SystemUpdatePortResultV2
  pub decode_baseline : Json → Option UpdaterPortPolicyBaseline

module _ (codec : PortCodec) where
  -- `ValidateSystemUpdatePortCreateRequest`
  unfoldable pub validate_create_request : String → Check
  validate_create_request payload =
      entry codec.read_json codec.decode_create create_document system_update_port_contract
        validate_create payload

  -- `ValidateSystemUpdatePortPlanJSON`
  unfoldable pub validate_plan_json : Sha256 → String → Check
  validate_plan_json sha payload =
      entry codec.read_json codec.decode_plan (is_object plan_document) system_update_port_contract
        (validate_plan sha) payload

  -- `ValidateSystemUpdatePortResultJSON`
  unfoldable pub validate_result_json : Sha256 → SystemUpdatePortReconfiguration → String → Check
  validate_result_json sha plan payload =
      entry codec.read_json codec.decode_result (is_object result_document)
        system_update_port_contract (validate_result sha plan) payload

  -- `ValidateUpdaterPortPolicyBaselineJSON`
  unfoldable pub validate_baseline_json : String → Check
  validate_baseline_json payload =
      entry codec.read_json codec.decode_baseline baseline_document system_update_port_contract
        validate_baseline payload
