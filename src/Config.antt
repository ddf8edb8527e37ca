-- ===== src/Config.antt =====
-- AppConfig of src/config.rs. Texts are bytes, ports and intervals numbers.
use a9_v.Prelude.{ℕ, Option, none, some}
use a9_v.Wire.{Bytes, text}

pub record AppConfig : Type 0 where
  pub server_ip : Bytes
  pub domain : Bytes
  pub client_target : Bytes
  pub client_token : Bytes
  pub server_token : Bytes
  pub tcp_registration_port : ℕ
  pub tcp_protocol_port : ℕ
  pub udp_protocol_port : ℕ
  pub udp_stream_port_1 : ℕ
  pub udp_stream_port_2 : ℕ
  pub web_port : ℕ
  pub max_retries : ℕ
  pub retry_timeout_ms : ℕ
  pub health_check_interval_ms : ℕ
  pub retransmission_interval_ms : ℕ

-- `AppConfig::default`
abbrev pub default : AppConfig
default = record {
  server_ip = text "192.168.1.99";
  domain = text "v720.naxclow.com";
  client_target = text "00112233445566778899aabbccddeeff";
  client_token = text "deadc0de";
  server_token = text "deadbeef";
  tcp_registration_port = 80;
  tcp_protocol_port = 6123;
  udp_protocol_port = 6123;
  udp_stream_port_1 = 53221;
  udp_stream_port_2 = 41234;
  web_port = 8080;
  max_retries = 3;
  retry_timeout_ms = 5000;
  health_check_interval_ms = 30000;
  retransmission_interval_ms = 100;
}

-- `AppConfig::load`, from what `read_to_string` gives and what the JSON library reads in it; `none`
-- is an error.
unfoldable pub load : (Bytes → Option AppConfig) → Option Bytes → Option AppConfig
load from_str (some config_str) = from_str config_str
load from_str none = some default
