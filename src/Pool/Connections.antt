-- ===== src/Pool/Connections.antt =====
-- The connections of src/camera.rs, under the ids that are made from the addresses: what opens and ends
-- them, and what a TCP message and a datagram do to them.
pub mod Keys
pub mod Ends
use a9_v.Prelude.{ℕ, List, [], ◌∷◌, Bool, true, false, Option, none, some, if◌then◌else◌, ◌==◌}
use a9_v.Wire.{Bytes}
use a9_v.Camera.{CameraConnection, bytes_eq, add_video_frame}
use a9_v.Camera
use a9_v.Manager.{device_name}
use a9_v.Runtime.{Host}
use a9_v.Pool.{PoolHost, is_video_data, process_tcp_message, process_udp_message}
use a9_v.Pool.Health.{Connections, remove}

-- `connections.insert(device_id, conn)`
unfoldable pub insert_connection : Bytes → CameraConnection → Connections → Connections
insert_connection device_id c [] = (device_id, c) ∷ []
insert_connection device_id c ((k, d) ∷ m) =
    let rest = insert_connection device_id c m in
    if bytes_eq k device_id then (device_id, c) ∷ m else (k, d) ∷ rest

unfoldable pub camera_of : Bytes → Connections → Option CameraConnection
camera_of device_id [] = none
camera_of device_id ((k, c) ∷ m) =
    let rest = camera_of device_id m in if bytes_eq k device_id then some c else rest

-- The connection that `handle_new_tcp_connection` makes. `times` are the instants that it reads.
unfoldable pub new_connection : ℕ → ℕ → ℕ → ℕ × ℕ × ℕ → CameraConnection
unfolding device_name Camera.new
new_connection ip port socket times = record (Camera.new (device_name ip) ip (ip, port) times) {
  tcp_conn = some socket;
}

-- `handle_new_tcp_connection`, up to the task that it spawns.
unfoldable pub handle_new_tcp_connection : ℕ → ℕ → ℕ → ℕ × ℕ × ℕ → Connections → Connections
unfolding insert_connection device_name new_connection
handle_new_tcp_connection ip port socket times m =
    insert_connection (device_name ip) (new_connection ip port socket times) m

-- The end of `handle_tcp_connection`.
unfoldable pub end_tcp_connection : Bytes → Connections → Connections
unfolding remove
end_tcp_connection device_id m = remove device_id m

-- What the pool is told, in any order.
pub data Event : Type 0 where
  opens : ℕ → ℕ → ℕ → ℕ × ℕ × ℕ → Event
  message : ℕ → Bytes → Bytes → Event
  datagram : ℕ → Bytes → Event
  ends : Bytes → Event

module _ {Value : Type 0} (host : Host Value) (pool : PoolHost Value) where
  -- `connections.get_mut(device_id)` of `process_tcp_message`, at the instant `now`.
  unfoldable pub tcp_message : ℕ → Bytes → Bytes → Connections → Connections
  unfolding process_tcp_message
  tcp_message now device_id d [] = []
  tcp_message now device_id d ((k, c) ∷ m) =
      let rest = tcp_message now device_id d m in
      if bytes_eq k device_id then (k, process_tcp_message host pool now d c) ∷ m else (k, c) ∷ rest

  -- What a datagram does to the camera that it is from, and the code that it is answered with.
  unfoldable pub take_datagram : Bytes → CameraConnection → CameraConnection × Option ℕ
  unfolding is_video_data add_video_frame process_udp_message
  take_datagram d c =
      if is_video_data d then (add_video_frame d c, none) else process_udp_message host pool d c

  -- The first connection with the address.
  unfoldable pub handle_udp_message : ℕ → Bytes → Connections → Connections × Option ℕ
  unfolding take_datagram
  handle_udp_message ip d [] = ([], none)
  handle_udp_message ip d ((k, c) ∷ m) =
      let (rest, code) = handle_udp_message ip d m in
      let (c', sent) = take_datagram d c in
      if c.ip == ip then ((k, c') ∷ m, sent) else ((k, c) ∷ rest, code)

  abbrev pub handle : Event → Connections → Connections
  handle (opens ip port socket times) m = handle_new_tcp_connection ip port socket times m
  handle (message now device_id d) m = tcp_message now device_id d m
  handle (datagram ip d) m = (handle_udp_message ip d m).0
  handle (ends device_id) m = end_tcp_connection device_id m

  abbrev pub after_events : List Event → Connections
  after_events [] = []
  after_events (e ∷ es) = handle e (after_events es)
