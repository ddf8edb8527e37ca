-- ===== src/Pool/Payload.antt =====
-- The messages that src/camera.rs writes: a header of its own before a JSON text.
use a9_v.Prelude.{
  ℕ, ◌+◌, ◌%◌, ◌^◌, ◌≡◌, refl, sym, ap, ◌∙◌, [], ◌∷◌, ◌++◌, length, Option, none, some, arith,
}
use a9_v.Wire.{Bytes, Buf, text, to_le}
use a9_v.Runtime.{Host}
use a9_v.Protocol.Header.{ProtocolHeader, InRange, ok}
use a9_v.Protocol.Header
use a9_v.Protocol.Header.Layout.{flat, fields_of, to_bytes-flat}
use a9_v.Protocol.Header.RoundTrip.{from_bytes-to_bytes}

-- The payload of `create_code11_message`, `create_code21_message` and `create_code50_message`, from
-- the text of its value.
unfoldable pub framed_payload : Bytes → Bytes
framed_payload json_bytes =
    to_le 4 (length json_bytes % 2 ^ 32)
    ++ (to_le 2 0 ++ ((0 ∷ []) ++ ((0 ∷ []) ++ (text "00000000" ++ (to_le 4 0 ++ json_bytes)))))

-- The port of a code 21 message, from the nanoseconds since 1970.
abbrev pub code21_port : ℕ → ℕ
code21_port nanos = 32768 + nanos % 32767

module _ {Value : Type 0} (host : Host Value) where
  -- `none` is a panic, where the value cannot be printed.
  abbrev pub framed_value : Value → Option Bytes
  framed_value v = elim (host.to_string v) [ some s ↦ some (framed_payload s) | none ↦ none ]

  -- From the address of the server and the first of `udp_ports`.
  unfoldable pub create_code11_message : Bytes → ℕ → Option Bytes
  unfolding framed_payload
  create_code11_message server_ip udp_port = framed_value (
      host.object (
        ("code", host.number 11)
        ∷ ("cliTarget", host.string (text "00112233445566778899aabbccddeeff"))
        ∷ ("cliToken", host.string (text "deadc0de"))
        ∷ ("cliIp", host.string (text "255.255.255.255"))
        ∷ ("cliPort", host.number 0)
        ∷ ("cliNatIp", host.string server_ip)
        ∷ ("cliNatPort", host.number udp_port)
        ∷ []))

  unfoldable pub create_code21_message : ℕ → Option Bytes
  unfolding framed_payload
  create_code21_message nanos = framed_value (
      host.object (
        ("code", host.number 21)
        ∷ ("ip", host.string (text "192.168.1.99"))
        ∷ ("port", host.number (code21_port nanos))
        ∷ []))

  unfoldable pub create_code50_message : Option Bytes
  unfolding framed_payload
  create_code50_message = framed_value (host.object (("code", host.number 50) ∷ []))

abbrev pub text_header : ℕ → ProtocolHeader
text_header len = record {
  length = len % 2 ^ 32;
  cmd = 0;
  msg_flag = 0;
  deal_fl = 0;
  fwd_id = text "00000000";
  pkg_id = 0;
}

text_header-InRange : (len : ℕ) → InRange (text_header len)
text_header-InRange len = record {
  length_u32 = omega arith;
  cmd_u16 = omega arith;
  msg_flag_u8 = omega arith;
  deal_fl_u8 = omega arith;
  fwd_id_len = refl;
  fwd_id_u8 = omega arith;
  pkg_id_u32 = omega arith;
}

-- `ProtocolHeader::from_bytes` of src/protocol/binary.rs reads such a message as a header with command
-- 0, the length of the text and the forward id of eight zero digits, and leaves the text.
pub from_bytes-framed_payload :
    (buf : Buf) (s : Bytes)
    → Header.from_bytes buf (framed_payload s) ≡ ok (text_header (length s), s)
unfolding framed_payload fields_of
from_bytes-framed_payload buf s =
    let h = text_header (length s) in
    let same : framed_payload s ≡ flat (fields_of h) s = refl in
    ap (Header.from_bytes buf) (same ∙ sym (to_bytes-flat buf h s))
    ∙ from_bytes-to_bytes buf h s (text_header-InRange (length s))
