-- ===== src/Moq/Messages/Keys.antt =====
-- The parameter keys and constants of include/panaudia/moq_protocol.h.
use libpanaudia_core.Prelude.{ℕ}

abbrev pub moq_version : ℕ
moq_version = 0xff000010

abbrev pub param_key_path : ℕ
param_key_path = 0x01

abbrev pub param_key_max_subscribe_id : ℕ
param_key_max_subscribe_id = 0x02

abbrev pub param_key_auth_token : ℕ
param_key_auth_token = 0x03

abbrev pub param_key_expires : ℕ
param_key_expires = 0x08

abbrev pub param_key_largest_object : ℕ
param_key_largest_object = 0x09

abbrev pub param_key_forward : ℕ
param_key_forward = 0x10

abbrev pub param_key_subscriber_priority : ℕ
param_key_subscriber_priority = 0x20

abbrev pub param_key_subscription_filter : ℕ
param_key_subscription_filter = 0x21

abbrev pub param_key_group_order : ℕ
param_key_group_order = 0x22

abbrev pub filter_latest_group : ℕ
filter_latest_group = 0x01

abbrev pub filter_latest_object : ℕ
filter_latest_object = 0x02
