-- ===== src/Pool/Messages.antt =====
-- The messages that src/camera.rs writes, as its own `parse_message` reads them.
use a9_v.Prelude.{
  ℕ, ◌<◌, ◌≡◌, refl, length, drop, some, lt→ltb, ne→==, ◌≢◌, arith, [], ◌∷◌, Option, none, Bool,
  false, elem, if◌then◌else◌,
}
use a9_v.Prelude.Int.{ℤ, pos, negsuc}
use a9_v.Wire.{Bytes}
use a9_v.Runtime.{Host}
use a9_v.Pool.{
  ParsedMessage, keepalive, register, nat_probe_response, udp_probe_request, probe_response_message,
  unknown, as_u16, PoolHost, read_code, parse_message,
}
use a9_v.Pool.Payload.{framed_payload}

longer : (n : ℕ) → 20 < n → n ≢ 20
longer n h = omega arith

long : (s : Bytes) → 0 < length s → 20 < length (framed_payload s)
unfolding framed_payload
long s h = omega arith

-- The code that a message stands for, as the camera's protocol numbers them.
abbrev pub code_of : ParsedMessage → Option ℕ
code_of keepalive = none
code_of (register device_id token ip port) = some 100
code_of (nat_probe_response status dev_ip dev_port nat_ip nat_port target token) = some 12
code_of udp_probe_request = some 20
code_of (probe_response_message device_target status) = some 51
code_of (unknown code bytes) = some code

-- The text that a message keeps, where its code is unknown.
abbrev pub kept_text : ParsedMessage → Option Bytes
kept_text (unknown code bytes) = some bytes
kept_text keepalive = none
kept_text (register device_id token ip port) = none
kept_text (nat_probe_response status dev_ip dev_port nat_ip nat_port target token) = none
kept_text udp_probe_request = none
kept_text (probe_response_message device_target status) = none

-- The codes that the pool knows.
abbrev pub is_known : ℤ → Bool
is_known (pos n) = elem n (12 ∷ 20 ∷ 51 ∷ 100 ∷ [])
is_known (negsuc n) = false

module _ {Value : Type 0} (host : Host Value) (pool : PoolHost Value) where
  parse_message-long :
      (d s : Bytes) (v : Value) (code : ℤ)
      → 20 < length d
      → drop 20 d ≡ s
      → host.from_str s ≡ some v
      → pool.as_i64 (host.index v "code") ≡ some code
      → parse_message host pool d ≡ read_code host pool v s code
  unfolding parse_message
  parse_message-long d s v code h r e n =
      rw (lt→ltb 20 (length d) h, ne→== (longer (length d) h), r, e, n, lt→ltb 20 (length d) h, r)

  read_code_lem :
      (v : Value) (s : Bytes) (code : ℤ)
      → (code_of (read_code host pool v s code) ≡ some (as_u16 code))
        × (kept_text (read_code host pool v s code) ≡ (if is_known code then none else some s))
  unfolding read_code
  read_code_lem v s (negsuc n) = (refl, refl)
  read_code_lem v s (pos n) = ground arith

  -- A message with a text that is not empty and reads as a value with a code is read as the message
  -- of this code, as a `u16`, also where the code is not one of 12, 20, 51 and 100: then it keeps the
  -- text, without the header.
  pub parse_message-framed_payload :
      (s : Bytes) (v : Value) (code : ℤ)
      → 0 < length s
      → host.from_str s ≡ some v
      → pool.as_i64 (host.index v "code") ≡ some code
      → (code_of (parse_message host pool (framed_payload s)) ≡ some (as_u16 code))
        × (kept_text (parse_message host pool (framed_payload s))
            ≡ (if is_known code then none else some s))
  unfolding framed_payload
  parse_message-framed_payload s v code h e n =
      rw (parse_message-long (framed_payload s) s v code (long s h) refl e n)
        (read_code_lem v s code)
