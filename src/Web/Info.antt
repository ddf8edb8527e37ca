-- ===== src/Web/Info.antt =====
-- `list_cameras`, `get_camera_info` and `debug_buffer` of src/web/camera_endpoints.rs.
pub mod Deadlock
use a9_v.Prelude.{
  ℕ, ◌+◌, ◌/◌, ◌%◌, List, [], ◌∷◌, ◌++◌, Bool, true, false, Option, none, some, length, take, map,
  ltb, leb, ◌&&◌, if◌then◌else◌,
}
use a9_v.Prelude.Map.{Map, keys}
use a9_v.Wire.{Bytes, text}
use a9_v.Camera.{CameraConnection, ProtocolState, streaming, is_connected}
use a9_v.Stream.{StreamBuffer, frame_count, get_all_frames, get_latest_frame}
use a9_v.Manager.{ip_to_string}
use a9_v.Runtime.{Host, M, ◌>>=◌, pure, manager_read, camera_read, camera_try_read, get_camera}
use a9_v.Web.{Json, Response, cameras, find, ok_json, error_json, respond_text}

abbrev pub hex_digit : ℕ → ℕ
hex_digit n = if ltb n 10 then 48 + n else 55 + n

-- `{:02X}`
abbrev pub hex_byte : ℕ → Bytes
hex_byte b = hex_digit (b / 16) ∷ hex_digit (b % 16) ∷ []

-- `join(" ")`
abbrev pub join_space : List Bytes → Bytes
join_space [] = []
join_space (p ∷ []) = p
join_space (p ∷ q ∷ ps) = p ++ (32 ∷ join_space (q ∷ ps))

abbrev pub printable : ℕ → ℕ
printable b = if leb 32 b && leb b 126 then b else 46

abbrev pub total_bytes : List Bytes → ℕ
total_bytes [] = 0
total_bytes (f ∷ fs) = length f + total_bytes fs

abbrev pub is_streaming : ProtocolState → Bool
is_streaming s = elim s [ streaming ↦ true | _ ↦ false ]

module _ {Value : Type 0} (host : Host Value) (js : Json Value) where
  unfoldable pub device_ids : Map CameraConnection → M (List Bytes)
  device_ids [] = pure []
  device_ids ((ip, c) ∷ m) = do
    device_id ← camera_read host ip (pure c.device_id)
    rest ← device_ids m
    pure (device_id ∷ rest)

  abbrev pub camera_list : List Bytes → Value
  camera_list ids =
      host.object
        (("cameras", js.array (map host.string ids)) ∷ ("count", host.number (length ids)) ∷ [])

  unfoldable pub list_cameras : M (Response Value)
  unfolding cameras device_ids
  list_cameras =
      manager_read host
        do m ← cameras; ids ← device_ids m; pure (ok_json host js (text "OK") (camera_list ids))

  unfoldable pub buffer_stats : ℕ → ℕ → ℕ → Value
  buffer_stats count limit total = host.object (
      ("frame_count", host.number count)
      ∷ ("max_frames", host.number limit)
      ∷ ("total_bytes", host.number total)
      ∷ [])

  unfoldable pub stats_of : Option CameraConnection → Value
  unfolding buffer_stats frame_count get_all_frames
  stats_of none = buffer_stats 0 100 0
  stats_of (some c) =
      let b = c.stream_buffer in
      buffer_stats (frame_count b) b.max_frames (total_bytes (get_all_frames b))

  -- The second half of `get_camera_info`, with the manager's lock taken again.
  unfoldable pub buffer_info : ℕ → M Value
  unfolding stats_of
  buffer_info ip = manager_read host do
    camera ← get_camera ip
    c ← elim camera [ some c ↦ camera_try_read host ip (pure (some c)) | none ↦ pure none ]
    pure (stats_of c)

  unfoldable pub camera_info : Bytes → CameraConnection → Value → Value
  unfolding is_connected
  camera_info device_id c info = host.object (
      ("device_id", host.string device_id)
      ∷ ("ip", host.string (ip_to_string c.ip))
      ∷ ("connected", js.boolean (is_connected c))
      ∷ ("last_heartbeat", host.string (js.to_rfc3339 c.last_heartbeat))
      ∷ ("udp_ports", js.array (map host.number (keys c.udp_ports)))
      ∷ ("nat_ports", js.array (map host.number c.nat_ports))
      ∷ ("streaming", js.boolean (is_streaming c.state))
      ∷ ("stream_buffer", info)
      ∷ [])

  -- What the first half has read of the camera is the camera itself.
  unfoldable pub get_camera_info : Bytes → M (Response Value)
  unfolding cameras find buffer_info camera_info
  get_camera_info device_id = manager_read host do
    m ← cameras
    target_camera ← find (camera_read host) device_id (λ c. c) m
    elim target_camera [
      | some c ↦ do
        info ← buffer_info c.ip
        pure (ok_json host js (text "OK") (camera_info device_id c info))
      | none ↦ pure (error_json host js 404 (text "Camera not found"))
    ]

  abbrev pub or_null {ℓ} : {A : Type ℓ} → (A → Value) → Option A → Value
  or_null f none = js.null
  or_null f (some a) = f a

  unfoldable pub debug_info : StreamBuffer → Value
  unfolding get_all_frames get_latest_frame
  debug_info b =
      let latest_frame = get_latest_frame b in
      host.object (
        ("frame_count", host.number (length (get_all_frames b)))
        ∷ ("max_frames", host.number b.max_frames)
        ∷ ("latest_frame_size", or_null (λ (f : Bytes). host.number (length f)) latest_frame)
        ∷ (
          "latest_frame_hex",
          or_null (λ (f : Bytes). host.string (join_space (map hex_byte (take 16 f)))) latest_frame,
        )
        ∷ (
          "latest_frame_ascii",
          or_null (λ (f : Bytes). host.string (map printable (take 32 f))) latest_frame,
        )
        ∷ (
          "all_frame_sizes",
          js.array (map (λ (f : Bytes). host.number (length f)) (get_all_frames b)),
        )
        ∷ [])

  unfoldable pub debug_buffer : Bytes → M (Response Value)
  unfolding cameras find debug_info
  debug_buffer device_id = manager_read host do
    m ← cameras
    target_camera ← find (camera_read host) device_id (λ c. debug_info c.stream_buffer) m
    elim target_camera [
      | some info ↦ pure (ok_json host js (text "Buffer debug info") info)
      | none ↦ pure (respond_text host js 404 (text "Camera not found"))
    ]
