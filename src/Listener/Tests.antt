-- ===== src/Listener/Tests.antt =====
-- The listener configuration at a concrete input.
use autostream_contracts.Common.{◌≡◌, refl, beq_ℤ, leb_ℤ, ok, leb→le, leb, true}
use autostream_contracts.Text.{byte_length}
use autostream_contracts.Listener.{validate_listener, marshal_listener}
use autostream_contracts.Listener.Samples.{sample_config, sample_payload, sample_listener}
use autostream_contracts.Listener.Parse.{parse_listener}
use autostream_contracts.Listener.Parse.RoundTrip.{parse_listener-marshal_listener}

sample_marshalled : marshal_listener sample_listener sample_config ≡ ok sample_payload
unfolding validate_listener marshal_listener beq_ℤ leb_ℤ
sample_marshalled = refl

sample_length : leb (byte_length sample_payload) 4096 ≡ true
unfolding byte_length
sample_length = refl

parse_listener-marshal_listener_example :
    parse_listener sample_listener sample_payload ≡ ok sample_config
unfolding leb_ℤ
parse_listener-marshal_listener_example =
    parse_listener-marshal_listener sample_listener sample_config sample_payload refl refl refl
      (leb→le _ _ sample_length) sample_marshalled
