-- ===== src/Listener/Samples.antt =====
-- Test data: a configuration, and calls that know its address and its text.
use autostream_contracts.Common.{String, some, pos}
use autostream_contracts.Listener.{NodeListenerConfig, ListenerPlatform, listener_json}

abbrev pub sample_config : NodeListenerConfig
sample_config = record {
  schema_version = pos 2;
  service_type = "worker";
  bind_address = "127.0.0.1:9090";
  config_revision = pos 8;
}

abbrev sample_text : String
sample_text =
    "{\"schema_version\":2,\"service_type\":\"worker\",\"bind_address\":\"127.0.0.1:9090\",\"config_revision\":8}"

abbrev pub sample_payload : String
sample_payload =
    "{\"schema_version\":2,\"service_type\":\"worker\",\"bind_address\":\"127.0.0.1:9090\",\"config_revision\":8}\n"

abbrev pub sample_listener : ListenerPlatform
sample_listener = record {
  parse_addr_port = λ address. some (record { port = 9090; zone = ""; spelling = address });
  json_text = λ value. sample_text;
  read_json = λ payload. some (listener_json sample_config);
}
