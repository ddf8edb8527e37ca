-- ===== src/Web/Legacy.antt =====
-- The endpoints of src/web/server.rs that a camera asks when it registers. A query is the list of its
-- parameters, which axum has decoded.
pub mod Registration
use a9_v.Prelude.{
  ℕ, zero, suc, List, [], ◌∷◌, ◌++◌, Bool, true, false, ◌||◌, Option, none, some, take, ltb, leb,
  if◌then◌else◌,
}
use a9_v.Wire.{Bytes, text}
use a9_v.Wire.Decimal.{to_decimal}
use a9_v.Camera.{bytes_eq}
use a9_v.Protocol.Messages.{succeeded, timestamp}
use a9_v.Runtime.{Host, M, panicked, ◌>>=◌, pure, utc_now}
use a9_v.Web.{Json, Response, raw, ok_json, envelope}

pub record ConfigCheckParams : Type 0 where
  pub devices_code : Bytes
  pub random : Bytes
  pub token : Bytes

abbrev pub Query : Type 0
Query = List (Bytes × Bytes)

-- `params.get(key).cloned().unwrap_or_else(default)`
abbrev pub param_or : Bytes → Bytes → Query → Bytes
param_or default key [] = default
param_or default key ((k, v) ∷ params) = if bytes_eq k key then v else param_or default key params

-- `is_char_boundary`, past the start.
unfoldable pub is_char_boundary : ℕ → Bytes → Bool
is_char_boundary zero [] = true
is_char_boundary zero (b ∷ s) = ltb b 128 || leb 192 b
is_char_boundary (suc n) [] = false
is_char_boundary (suc n) (b ∷ s) = is_char_boundary n s

abbrev pub or_panic {ℓ} : {A : Type ℓ} → Option A → M A
or_panic (some a) = pure a
or_panic none = λ l w. panicked w

-- `&s[..n]`, which panics off a character's boundary.
unfoldable pub str_prefix : ℕ → Bytes → Option Bytes
unfolding is_char_boundary
str_prefix n s = if is_char_boundary n s then some (take n s) else none

module _ {Value : Type 0} (host : Host Value) (js : Json Value) where
  abbrev pub config_data : ConfigCheckParams → ℕ → Value
  config_data params now = host.object (
      ("uid", host.string params.devices_code)
      ∷ ("host", host.string (text "192.168.1.99"))
      ∷ ("domain", host.string (text "v720.naxclow.com"))
      ∷ ("tcpPort", host.number 6123)
      ∷ ("pwd", host.string (text "deadbeef"))
      ∷ ("isBind", host.string (text "8"))
      ∷ ("currTime", host.string (to_decimal (timestamp now)))
      ∷ ("updateUrl", js.null)
      ∷ ("version", js.null)
      ∷ [])

  -- The response is printed for the log, and the printing is unwrapped.
  unfoldable pub handle_config_check : ConfigCheckParams → M (Response Value)
  handle_config_check params = do
    now ← utc_now
    let response : Value = envelope host js 200 (text "OK") (config_data params now)
    s ← or_panic (host.to_string response)
    pure (ok_json host js (text "OK") (config_data params now))

  -- The custom response with the headers of an nginx.
  unfoldable pub bootstrap_response : Value → M (Response Value)
  bootstrap_response response = do
    s ← or_panic (host.to_string response)
    pure (record {
      status = 200;
      headers =
          (text "Server", text "nginx/1.14.0 (Ubuntu)")
          ∷ (text "Connection", text "keep-alive")
          ∷ (text "Content-Type", text "application/json; charset=utf-8")
          ∷ (text "Vary", text "Origin")
          ∷ (text "Vary", text "Access-Control-Request-Method")
          ∷ (text "Vary", text "Access-Control-Request-Headers")
          ∷ [];
      body = raw s;
    })

  unfoldable pub bootstrap_id : Bytes → Option Bytes
  unfolding str_prefix
  bootstrap_id random = elim (str_prefix 4 random) [
    | some s ↦ some (text "0800c001" ++ js.to_uppercase s)
    | none ↦ none
  ]

  unfoldable pub handle_bootstrap_registration : Query → M (Response Value)
  unfolding bootstrap_id bootstrap_response
  handle_bootstrap_registration params = do
    device_id ← or_panic (bootstrap_id (param_or (text "DEFGHI") (text "random") params))
    bootstrap_response (envelope host js 200 succeeded (host.string device_id))

  unfoldable pub handle_bootstrap_confirm : Query → M (Response Value)
  unfolding bootstrap_response
  handle_bootstrap_confirm params = bootstrap_response (envelope host js 200 succeeded js.null)
