-- ===== src/Web.antt =====
-- The HTTP endpoints of src/web/camera_endpoints.rs: what their handlers share. A camera's
-- `device_id` is always there (types.rs has a `String`, where the endpoints match an `Option`).
-- `manager.cameras.values()` comes in the order of the association list.
pub mod Info
pub mod Video
pub mod Control
pub mod Legacy
pub mod Routes
pub mod Invariant
pub mod Search
pub mod Reordered
use a9_v.Prelude.{
  ℕ, ◌≡◌, List, [], ◌∷◌, ◌++◌, String, Bool, Option, none, some, if◌then◌else◌, All, ◌<◌, map, ltb,
  leb, ◌&&◌, ◌-◌,
}
use a9_v.Prelude.Map.{Map}
use a9_v.Wire.{Bytes, text}
use a9_v.Camera.{CameraConnection, bytes_eq}
use a9_v.Runtime.{Host, M, World, done, ◌>>=◌, pure, manager_read, camera_try_read, get_camera}

abbrev pub to_upper : ℕ → ℕ
to_upper b = if leb 97 b && leb b 122 then b - 32 else b

-- More of serde_json, chrono's `to_rfc3339`, and Rust's `to_uppercase`, which on ASCII texts changes
-- the letters alone.
pub record Json (Value : Type 0) : Type 0 where
  pub null : Value
  pub boolean : Bool → Value
  pub array : List Value → Value
  pub to_rfc3339 : ℕ → Bytes
  pub to_uppercase : Bytes → Bytes
  pub to_uppercase_ascii : (s : Bytes) → All (λ b. b < 128) s → to_uppercase s ≡ map to_upper s

-- A body: `Json(value)`, a text, or bytes.
pub data Body (Value : Type 0) : Type 0 where
  json_value : Value → Body Value
  plain : Bytes → Body Value
  raw : Bytes → Body Value

-- A response, with the headers that the handler sets.
pub record Response (Value : Type 0) : Type 0 where
  pub status : ℕ
  pub headers : List (Bytes × Bytes)
  pub body : Body Value

-- `manager.cameras`
unfoldable pub cameras : M (Map CameraConnection)
cameras l w = done w.manager.cameras w

-- What a handler takes of a camera, if it has the id.
abbrev pub seen {ℓ} : {A : Type ℓ} → Bytes → (CameraConnection → A) → CameraConnection → Option A
seen device_id f c = if bytes_eq c.device_id device_id then some (f c) else none

abbrev pub or_else {ℓ} : {A : Type ℓ} → M (Option A) → Option A → M (Option A)
or_else rest (some a) = pure (some a)
or_else rest none = rest

-- The loop that looks for a camera, each read under a guard by `read`, and stops at the first.
unfoldable pub find {ℓ} :
    {A : Type ℓ}
    → (ℕ → M (Option A) → M (Option A))
    → Bytes
    → (CameraConnection → A)
    → Map CameraConnection
    → M (Option A)
find read device_id f [] = pure none
find read device_id f ((ip, c) ∷ m) =
    read ip (pure (seen device_id f c)) >>= or_else (find read device_id f m)

module _ {Value : Type 0} (host : Host Value) (js : Json Value) where
  abbrev pub envelope : ℕ → Bytes → Value → Value
  envelope code message payload =
      host.object
        (("code", host.number code) ∷ ("message", host.string message) ∷ ("data", payload) ∷ [])

  abbrev pub respond_json : ℕ → Value → Response Value
  respond_json status v = record { status = status; headers = []; body = json_value v }

  abbrev pub respond_text : ℕ → Bytes → Response Value
  respond_text status s = record { status = status; headers = []; body = plain s }

  abbrev pub ok_json : Bytes → Value → Response Value
  ok_json message payload = respond_json 200 (envelope 200 message payload)

  abbrev pub error_json : ℕ → Bytes → Response Value
  error_json status message = respond_json status (envelope status message js.null)
