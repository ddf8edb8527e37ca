-- ===== src/Protocol/Messages.antt =====
-- The messages of src/protocol/messages.rs and the helpers that create them. A text is its bytes, an
-- instant a number of nanoseconds, and `Value` the type of the JSON library;
-- `payload` is the field `data`.
use a9_v.Prelude.{ℕ, ◌/◌, ◌∷◌, [], Option, none}
use a9_v.Wire.{Bytes, text}
use a9_v.Config.{AppConfig}
use a9_v.Camera.{DeviceInfo}
use a9_v.Runtime.{Host}

pub record ConfigCheckRequest : Type 0 where
  pub devices_code : Bytes
  pub random : Bytes
  pub token : Bytes

pub record ConfigData : Type 0 where
  pub tcp_port : ℕ
  pub uid : Bytes
  pub is_bind : Bytes
  pub domain : Bytes
  pub update_url : Option Bytes
  pub host : Bytes
  pub curr_time : Bytes
  pub pwd : Bytes
  pub version : Option Bytes

pub record ConfigCheckResponse : Type 0 where
  pub code : ℕ
  pub message : Bytes
  pub payload : ConfigData

pub record RegistrationRequest : Type 0 where
  pub code : ℕ
  pub uid : Bytes
  pub token : Bytes
  pub domain : Bytes

pub record RegistrationResponse : Type 0 where
  pub code : ℕ
  pub status : ℕ

pub record SnapshotRequest : Type 0 where
  pub code : ℕ
  pub uid : Bytes

pub record SnapshotResponse : Type 0 where
  pub code : ℕ
  pub status : ℕ

pub record StreamingRequest : Type 0 where
  pub code : ℕ
  pub uid : Bytes

pub record StreamingResponse : Type 0 where
  pub code : ℕ
  pub status : ℕ

pub record NatProbeRequest : Type 0 where
  pub code : ℕ
  pub cli_target : Bytes
  pub cli_token : Bytes
  pub cli_ip : Bytes
  pub cli_port : ℕ
  pub cli_nat_ip : Bytes
  pub cli_nat_port : ℕ

pub record NatProbeResponse : Type 0 where
  pub code : ℕ
  pub status : ℕ
  pub dev_ip : Bytes
  pub dev_port : ℕ
  pub dev_nat_ip : Bytes
  pub dev_nat_port : ℕ
  pub cli_target : Bytes
  pub cli_token : Bytes

pub record DeviceStatusRequest : Type 0 where
  pub code : ℕ
  pub status : ℕ

pub record ForwardCommand (Value : Type 0) : Type 0 where
  pub code : ℕ
  pub target : Bytes
  pub content : Value

pub record DeviceInfoResponse : Type 0 where
  pub code : ℕ
  pub target : Bytes
  pub content : DeviceInfo

pub record UdpProbeRequest : Type 0 where
  pub code : ℕ

pub record UdpProbeResponse : Type 0 where
  pub code : ℕ
  pub ip : Bytes
  pub port : ℕ

pub record Code51Response : Type 0 where
  pub code : ℕ
  pub dev_target : Bytes
  pub status : ℕ

pub record Code50Request : Type 0 where
  pub code : ℕ

-- The UTF-8 bytes of the four characters that mean "operation successful".
abbrev pub succeeded : Bytes
succeeded = 0xe6 ∷ 0x93 ∷ 0x8d ∷ 0xe4 ∷ 0xbd ∷ 0x9c ∷ 0xe6 ∷ 0x88 ∷ 0x90 ∷ 0xe5 ∷ 0x8a ∷ 0x9f ∷ []

-- `timestamp()` of an instant, in whole seconds; `to_decimal` is `to_string` of an integer.
abbrev pub timestamp : ℕ → ℕ
timestamp now = now / 1000000000

unfoldable pub config_check_response : (ℕ → Bytes) → ℕ → Bytes → AppConfig → ConfigCheckResponse
config_check_response to_decimal now device_id config = record {
  code = 200;
  message = succeeded;
  payload = record {
    tcp_port = config.tcp_protocol_port;
    uid = device_id;
    is_bind = text "8";
    domain = config.domain;
    update_url = none;
    host = config.server_ip;
    curr_time = to_decimal (timestamp now);
    pwd = config.server_token;
    version = none;
  };
}

unfoldable pub registration_response : RegistrationResponse
registration_response = record { code = 101; status = 200 }

unfoldable pub nat_probe_request : AppConfig → NatProbeRequest
nat_probe_request config = record {
  code = 11;
  cli_target = config.client_target;
  cli_token = config.client_token;
  cli_ip = text "255.255.255.255";
  cli_port = 0;
  cli_nat_ip = config.server_ip;
  cli_nat_port = config.udp_protocol_port;
}

unfoldable pub udp_probe_response : AppConfig → ℕ → UdpProbeResponse
udp_probe_response config port = record { code = 21; ip = config.server_ip; port = port }

unfoldable pub code_50_request : Code50Request
code_50_request = record { code = 50 }

unfoldable pub device_status_request : DeviceStatusRequest
device_status_request = record { code = 53; status = 1 }

module _ {Value : Type 0} (host : Host Value) where
  unfoldable pub retransmission_request : AppConfig → ForwardCommand Value
  retransmission_request config = record {
    code = 301;
    target = config.client_target;
    content = host.object (("code", host.number 298) ∷ []);
  }

  unfoldable pub device_info_request : ℕ → AppConfig → ForwardCommand Value
  device_info_request now config = record {
    code = 301;
    target = config.client_target;
    content =
        host.object (("unixTimer", host.number (timestamp now)) ∷ ("code", host.number 4) ∷ []);
  }

  unfoldable pub start_streaming_request : AppConfig → ForwardCommand Value
  start_streaming_request config = record {
    code = 301;
    target = config.client_target;
    content = host.object (("code", host.number 3) ∷ []);
  }
