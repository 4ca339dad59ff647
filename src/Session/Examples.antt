-- ===== src/Session/Examples.antt =====
-- A platform and a configuration for tests: floats are numbers, and the Opus library keeps as much
-- of a frame as fits.
use libpanaudia_core.Prelude.{List, [], some, take, true, ℕ, ◌∷◌}
use libpanaudia_core.Session.Track.{Platform}
use libpanaudia_core.Session.State.{SessionConfig}

abbrev float_of : List ℕ → ℕ
float_of [] = 0
float_of (b ∷ bs) = b

abbrev pub platform : Platform ℕ ℕ
platform = record {
  opus = record {
    encoder_create = λ rate channels. some 0;
    surround_encoder_create = λ rate channels. some 0;
    encoder_ctl = λ config h. h;
    multistream_encoder_ctl = λ config h. h;
    encode = λ h samples frames room. (some (take room samples), h);
    encode_multistream = λ h samples frames room. (some (take room samples), h);
    decoder_create = λ rate channels. some 0;
    multistream_decoder_create = λ rate channels. some 0;
    decode = λ h packet room. (packet, h);
    decode_multistream = λ h packet room. (packet, h);
  };
  mem = record { bytes = λ a. a ∷ 0 ∷ 0 ∷ 0 ∷ []; float = float_of };
  silence = 0;
}

-- "moq://h:7/x"
abbrev pub url : List ℕ
url = b'm' ∷ b':' ∷ b'/' ∷ b'/' ∷ b'h' ∷ b':' ∷ b'7' ∷ b'/' ∷ b'x' ∷ []

abbrev pub defaults : SessionConfig
defaults = record {
  server_url = url;
  jwt = [];
  tracks = [];
  jitter_buffer_min_ms = 20;
  jitter_buffer_max_ms = 200;
  jitter_buffer_initial_ms = 40;
  has_data_recv_callback = true;
  max_reconnect_attempts = 10;
  reconnect_base_delay_ms = 100;
  reconnect_max_delay_ms = 10000;
}
