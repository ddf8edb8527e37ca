-- ===== src/Pool.antt =====
-- CameraPool of src/camera.rs, a file that src/main.rs does not include. Its messages and what they
-- do to a connection. `take_pending_command` is the one of that file, which gives no command, so that
-- a keepalive sends nothing. What the file uses and the repository does not have is a parameter: the
-- state `WaitingForCode51`, and the first of `udp_ports`.
pub mod Messages
pub mod Payload
pub mod Retry
pub mod Health
pub mod Connections
use a9_v.Prelude.{
  ℕ, ◌+◌, ◌-◌, ◌%◌, ◌^◌, List, [], ◌∷◌, ◌++◌, String, Bool, true, false, ◌&&◌, ◌||◌, Option, none,
  some, length, drop, ltb, leb, ◌==◌, if◌then◌else◌,
}
use a9_v.Prelude.Int.{ℤ, pos, negsuc}
use a9_v.Wire.{Bytes, text}
use a9_v.Camera.{CameraConnection, ProtocolState, streaming, update_keepalive}
use a9_v.Runtime.{Host}

-- What `parse_message` gives: its branches, with the fields that they fill in. The enum that the file
-- imports for it is not in the repository.
pub data ParsedMessage : Type 0 where
  keepalive : ParsedMessage
  register : Bytes → Option Bytes → Bytes → ℕ → ParsedMessage
  nat_probe_response : ℕ → Bytes → ℕ → Bytes → ℕ → Bytes → Bytes → ParsedMessage
  udp_probe_request : ParsedMessage
  probe_response_message : Bytes → ℕ → ParsedMessage
  unknown : ℕ → Bytes → ParsedMessage

-- More of serde_json, and the state that the repository lacks.
pub record PoolHost (Value : Type 0) : Type 0 where
  pub as_i64 : Value → Option ℤ
  pub as_str : Value → Option Bytes
  pub waiting_for_code51 : ProtocolState

abbrev pub starts_with : Bytes → Bytes → Bool
starts_with [] d = true
starts_with (a ∷ as') [] = false
starts_with (a ∷ as') (b ∷ bs) = a == b && starts_with as' bs

-- A JPEG start, an H.264 start code, or a large packet.
unfoldable pub is_video_data : Bytes → Bool
is_video_data d =
    if ltb (length d) 4
    then false
    else if starts_with (0xff ∷ 0xd8 ∷ []) d
    then true
    else if starts_with (0 ∷ 0 ∷ 0 ∷ 1 ∷ []) d
    then true
    else ltb 1024 (length d)

-- `as u16` on an `i64`.
abbrev pub as_u16 : ℤ → ℕ
as_u16 (pos n) = n % 65536
as_u16 (negsuc n) = 65535 - n % 65536

abbrev pub is_code : ℕ → ℤ → Bool
is_code n (pos k) = k == n
is_code n (negsuc k) = false

module _ {Value : Type 0} (host : Host Value) (pool : PoolHost Value) where
  abbrev pub str_or : Bytes → Value → String → Bytes
  str_or default v key = elim (pool.as_str (host.index v key)) [ some s ↦ s | none ↦ default ]

  abbrev pub u16_or : ℕ → Value → String → ℕ
  u16_or default v key = elim (host.as_u64 (host.index v key)) [
    | some n ↦ n % 65536
    | none ↦ default
  ]

  unfoldable pub read_code : Value → Bytes → ℤ → ParsedMessage
  read_code v json_part code =
      if is_code 100 code
      then register (str_or (text "unknown") v "uid") (pool.as_str (host.index v "token"))
          (str_or (text "0.0.0.0") v "ip") (u16_or 6123 v "port")
      else if is_code 12 code
      then nat_probe_response (u16_or 0 v "status") (str_or [] v "devIp") (u16_or 0 v "devPort")
          (str_or [] v "devNatIp") (u16_or 0 v "devNatPort") (str_or [] v "cliTarget")
          (str_or [] v "cliToken")
      else if is_code 20 code
      then udp_probe_request
      else if is_code 51 code
      then probe_response_message (str_or [] v "devTarget") (u16_or 0 v "status")
      else unknown (as_u16 code) json_part

  -- It gives no error.
  unfoldable pub parse_message : Bytes → ParsedMessage
  unfolding read_code
  parse_message d =
      let json_part = if ltb 20 (length d) then drop 20 d else d in
      if length d == 20 then keepalive else elim (host.from_str json_part) [
        | some v ↦ elim (pool.as_i64 (host.index v "code")) [
          | some code ↦ read_code v json_part code
          | none ↦ unknown 0 d
        ]
        | none ↦ unknown 0 d
      ]

  -- `process_tcp_message` on the connection that it finds; a keepalive's instant is `now`.
  unfoldable pub process_tcp_message : ℕ → Bytes → CameraConnection → CameraConnection
  unfolding parse_message
  process_tcp_message now d c = elim (parse_message d) [
    | keepalive ↦ update_keepalive now c
    | register device_id token ip port ↦ record c { token = token }
    | nat_probe_response status dev_ip dev_port dev_nat_ip dev_nat_port cli_target cli_token ↦
        record c { camera_nat_port = some dev_nat_port; protocol_state = pool.waiting_for_code51 }
    | _ ↦ c
  ]

  -- `code51_count += 1` on a `u32`, in a release build, where it wraps.
  abbrev pub counted : CameraConnection → CameraConnection
  counted c =
      let n = (c.code51_count + 1) % 2 ^ 32 in
      if leb 2 n
      then record c { code51_count = n; protocol_state = streaming }
      else record c { code51_count = n }

  -- `process_udp_message`, and the code that it sends, if any.
  unfoldable pub process_udp_message : Bytes → CameraConnection → CameraConnection × Option ℕ
  unfolding parse_message
  process_udp_message d c = elim (parse_message d) [
    | udp_probe_request ↦ (record c { protocol_state = pool.waiting_for_code51 }, some 21)
    | probe_response_message device_target status ↦ (counted c, some 50)
    | _ ↦ (c, none)
  ]
