-- ===== src/Moq/Messages/Setup.antt =====
-- CLIENT_SETUP and SERVER_SETUP.
use libpanaudia_core.Prelude.{List, [], ℕ, ◌∷◌}
use libpanaudia_core.Moq.Reader.{ok, ◌>>=◌, Parsed, cursor}
use libpanaudia_core.Moq.Params.{KvpParam, encode_params, decode_params}
use libpanaudia_core.Moq.Framing.{client_setup, build_control_message}
use libpanaudia_core.Moq.Messages.Keys.{moq_version, param_key_path, param_key_max_subscribe_id}

pub record ClientSetupConfig : Type 0 where
  pub version : ℕ
  pub path : List ℕ
  pub max_subscribe_id : ℕ

-- The fields' initial values.
abbrev pub default_setup : ClientSetupConfig
default_setup = record { version = moq_version; path = b'/' ∷ []; max_subscribe_id = 100 }

abbrev pub setup_params : ClientSetupConfig → List KvpParam
setup_params config =
    record { key = param_key_path; int_value = 0; bytes_value = config.path }
    ∷ record {
      key = param_key_max_subscribe_id;
      int_value = config.max_subscribe_id;
      bytes_value = [];
    }
    ∷ []

unfoldable pub build_client_setup : ClientSetupConfig → List ℕ
build_client_setup config = build_control_message client_setup (encode_params (setup_params config))

pub record ServerSetupResult : Type 0 where
  pub version : ℕ
  pub params : List KvpParam

unfoldable pub parse_server_setup : List ℕ → Parsed ServerSetupResult
parse_server_setup content = do
  (params, c) ← decode_params (cursor 0 content)
  ok (record { version = moq_version; params = params })
