-- ===== src/Web/Routes/ReadOnly/Handlers.antt =====
-- The handlers of src/web/camera_endpoints.rs leave the server as it is.
use a9_v.Prelude.{ℕ, [], ◌∷◌, Option, none, some}
use a9_v.Prelude.Map.{Map}
use a9_v.Wire.{Bytes}
use a9_v.Camera.{CameraConnection}
use a9_v.Runtime.{Host, M, ◌>>=◌, pure, utc_now, camera_read, camera_try_read}
use a9_v.Web.{Json, Response, cameras, find}
use a9_v.Web.Info.{
  device_ids, list_cameras, buffer_info, stats_of, get_camera_info, debug_info, debug_buffer,
}
use a9_v.Web.Video.{latest_frame, get_video_stream, get_mjpeg_stream}
use a9_v.Web.Control.{
  Reply, target_ip, connection_of, with_conn, not_found, start_streaming, stop_streaming,
  trigger_snapshot,
}
use a9_v.Web.Routes.{without_task}
use a9_v.Web.Routes.ReadOnly.{
  Freedom, IsReadOnly, Reads, pure-IsReadOnly, bind-IsReadOnly, option-IsReadOnly,
  get_camera-IsReadOnly, cameras-IsReadOnly, utc_now-IsReadOnly, find-IsReadOnly,
  manager_read-IsReadOnly, camera_read-IsReadOnly, camera_try_read-IsReadOnly,
}

module _ {Value : Type 0} {host : Host Value} {fr : Freedom host} {P : Type 0} where
  target_ip-IsReadOnly : (device_id : Bytes) → IsReadOnly fr P (target_ip host device_id)
  unfolding target_ip
  target_ip-IsReadOnly device_id = manager_read-IsReadOnly _ (
      bind-IsReadOnly _ _ cameras-IsReadOnly (λ m.
        find-IsReadOnly (camera_try_read host) device_id (λ c. c.ip) m
          (λ ip o. camera_try_read-IsReadOnly ip (pure o) (pure-IsReadOnly o))))

  connection_of-IsReadOnly : (ip : ℕ) → IsReadOnly fr P (connection_of host ip)
  unfolding connection_of
  connection_of-IsReadOnly ip = bind-IsReadOnly _ _ (get_camera-IsReadOnly ip) (λ o.
      option-IsReadOnly o _ (pure none)
        (λ c. camera_try_read-IsReadOnly ip _ (pure-IsReadOnly c.tcp_conn)) (pure-IsReadOnly none))

module _ {Value : Type 0} {host : Host Value} (js : Json Value) {fr : Freedom host}
    {P : Type 0} where
  -- A handler that looks for the address and goes on with it, or answers that there is no camera.
  targeted-IsReadOnly :
      (device_id : Bytes) (k : ℕ → M (Reply Value))
      → ((ip : ℕ) → IsReadOnly fr P (k ip))
      → IsReadOnly fr P (
          target_ip host device_id >>= λ target. elim target [
            | some ip ↦ k ip
            | none ↦ not_found host js
          ])
  targeted-IsReadOnly device_id k h =
      bind-IsReadOnly _ _ (target_ip-IsReadOnly device_id)
        (λ o. option-IsReadOnly o k _ h (pure-IsReadOnly _))

  with_conn-IsReadOnly :
      (ip : ℕ) (k : ℕ → M (Reply Value))
      → ((conn : ℕ) → IsReadOnly fr P (k conn))
      → IsReadOnly fr P (with_conn host js ip k)
  with_conn-IsReadOnly ip k h =
      bind-IsReadOnly _ _ (manager_read-IsReadOnly _ (connection_of-IsReadOnly ip))
        (λ o. option-IsReadOnly o k _ h (pure-IsReadOnly _))

  accept-IsReadOnly : {R : Type 0} (k : ℕ → R) → IsReadOnly fr P (utc_now >>= λ now. pure (k now))
  accept-IsReadOnly k = bind-IsReadOnly _ _ utc_now-IsReadOnly (λ now. pure-IsReadOnly (k now))

  pub start_streaming-IsReadOnly :
      (device_id : Bytes) → IsReadOnly fr P (start_streaming host js device_id)
  unfolding start_streaming
  start_streaming-IsReadOnly device_id =
      targeted-IsReadOnly device_id _
        (λ ip. with_conn-IsReadOnly ip _ (λ conn. accept-IsReadOnly _))

  pub trigger_snapshot-IsReadOnly :
      (device_id : Bytes) → IsReadOnly fr P (trigger_snapshot host js device_id)
  unfolding trigger_snapshot
  trigger_snapshot-IsReadOnly device_id =
      targeted-IsReadOnly device_id _
        (λ ip. with_conn-IsReadOnly ip _ (λ conn. accept-IsReadOnly _))

  pub stop_streaming-IsReadOnly :
      (device_id : Bytes) → IsReadOnly fr P (stop_streaming host js device_id)
  unfolding stop_streaming
  stop_streaming-IsReadOnly device_id = targeted-IsReadOnly device_id _ (λ ip. accept-IsReadOnly _)

  pub without_task-IsReadOnly :
      (m : M (Response Value)) → IsReadOnly fr P m → IsReadOnly fr P (without_task host js m)
  without_task-IsReadOnly m h = bind-IsReadOnly m _ h (λ r. pure-IsReadOnly _)

module _ {Value : Type 0} {host : Host Value} (js : Json Value) {fr : Freedom host} {P : Type 0}
    (reads : Reads fr) where
  -- A search under read guards of the cameras.
  search-IsReadOnly :
      {A B : Type 0} (device_id : Bytes) (f : CameraConnection → A) (k : Option A → M B)
      → ((o : Option A) → IsReadOnly fr P (k o))
      → IsReadOnly fr P (cameras >>= λ m. find (camera_read host) device_id f m >>= k)
  search-IsReadOnly device_id f k h = bind-IsReadOnly _ _ cameras-IsReadOnly (λ m.
      bind-IsReadOnly _ k
        (find-IsReadOnly (camera_read host) device_id f m
          (λ ip o. camera_read-IsReadOnly reads ip (pure o) (pure-IsReadOnly o)))
        h)

  device_ids-IsReadOnly : (m : Map CameraConnection) → IsReadOnly fr P (device_ids host js m)
  unfolding device_ids
  device_ids-IsReadOnly [] = pure-IsReadOnly []
  device_ids-IsReadOnly ((ip, c) ∷ m) =
      bind-IsReadOnly _ _ (camera_read-IsReadOnly reads ip _ (pure-IsReadOnly c.device_id))
        (λ d. bind-IsReadOnly _ _ (device_ids-IsReadOnly m) (λ ds. pure-IsReadOnly (d ∷ ds)))

  pub list_cameras-IsReadOnly : IsReadOnly fr P (list_cameras host js)
  unfolding list_cameras
  list_cameras-IsReadOnly = manager_read-IsReadOnly _ (
      bind-IsReadOnly _ _ cameras-IsReadOnly
        (λ m. bind-IsReadOnly _ _ (device_ids-IsReadOnly m) (λ ids. pure-IsReadOnly _)))

  buffer_info-IsReadOnly : (ip : ℕ) → IsReadOnly fr P (buffer_info host js ip)
  unfolding buffer_info
  buffer_info-IsReadOnly ip = manager_read-IsReadOnly _ (
      bind-IsReadOnly _ _ (get_camera-IsReadOnly ip) (λ o.
        bind-IsReadOnly _ _
          (option-IsReadOnly o _ (pure none)
            (λ c. camera_try_read-IsReadOnly ip _ (pure-IsReadOnly (some c)))
            (pure-IsReadOnly none))
          (λ c. pure-IsReadOnly (stats_of host js c))))

  pub get_camera_info-IsReadOnly :
      (device_id : Bytes) → IsReadOnly fr P (get_camera_info host js device_id)
  unfolding get_camera_info
  get_camera_info-IsReadOnly device_id = manager_read-IsReadOnly _ (
      search-IsReadOnly device_id (λ c. c) _
        (λ o.
          option-IsReadOnly o _ _
            (λ c. bind-IsReadOnly _ _ (buffer_info-IsReadOnly c.ip) (λ info. pure-IsReadOnly _))
            (pure-IsReadOnly _)))

  pub debug_buffer-IsReadOnly :
      (device_id : Bytes) → IsReadOnly fr P (debug_buffer host js device_id)
  unfolding debug_buffer
  debug_buffer-IsReadOnly device_id = manager_read-IsReadOnly _ (
      search-IsReadOnly device_id (λ c. debug_info host js c.stream_buffer) _
        (λ o. option-IsReadOnly o _ _ (λ info. pure-IsReadOnly _) (pure-IsReadOnly _)))

  latest_frame-IsReadOnly : (device_id : Bytes) → IsReadOnly fr P (latest_frame host js device_id)
  unfolding latest_frame
  latest_frame-IsReadOnly device_id = bind-IsReadOnly _ _ cameras-IsReadOnly (λ m.
      find-IsReadOnly (camera_read host) device_id _ m
        (λ ip o. camera_read-IsReadOnly reads ip _ (pure-IsReadOnly o)))

  pub get_video_stream-IsReadOnly :
      (device_id : Bytes) → IsReadOnly fr P (get_video_stream host js device_id)
  unfolding get_video_stream
  get_video_stream-IsReadOnly device_id =
      manager_read-IsReadOnly _
        (bind-IsReadOnly _ _ (latest_frame-IsReadOnly device_id) (λ o. pure-IsReadOnly _))

  pub get_mjpeg_stream-IsReadOnly :
      (device_id : Bytes) → IsReadOnly fr P (get_mjpeg_stream host js device_id)
  unfolding get_mjpeg_stream
  get_mjpeg_stream-IsReadOnly device_id =
      manager_read-IsReadOnly _
        (bind-IsReadOnly _ _ (latest_frame-IsReadOnly device_id) (λ o. pure-IsReadOnly _))
