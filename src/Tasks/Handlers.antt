-- ===== src/Tasks/Handlers.antt =====
-- What the handlers of src/router and of src/web/camera_endpoints.rs do with the locks, in the order of
-- the code. `k` is what follows. A `?` drops the guards and ends the handler.
pub mod Mix
pub mod Ordered
pub mod Deadlock
pub mod Reentry
use a9_v.Prelude.{ℕ, List, [], ◌∷◌, Bool, true, false, if◌then◌else◌}
use a9_v.Tasks.{
  Lock, manager, camera, connection, Access, shared, exclusive, Code, finish, take, drop, either,
  try_take,
}

-- `manager.write()`, `get_or_create_camera`, `camera.write()`: both guards to the end of the block.
abbrev pub update_locks : ℕ → Code → Code
update_locks ip k = take exclusive manager (take exclusive (camera ip) (drop (drop k)))

-- `manager.read()`, `get_camera`, `camera.read()`, and a write to the connection if there is one, under
-- all guards.
abbrev pub connection_locks : ℕ → ℕ → Code → Code
connection_locks ip conn k = take shared manager (
    either (drop k) (
      take shared (camera ip) (
        either (drop (drop k))
          (take exclusive (connection conn) (drop (drop (drop (either k finish))))))))

-- The connection is cloned, and written to when the guards are dropped.
abbrev pub clone_locks : ℕ → Code → Code
clone_locks ip k = take shared manager (either (drop k) (take shared (camera ip) (drop (drop k))))

abbrev pub write_locks : ℕ → ℕ → Code → Code
write_locks ip conn k =
    clone_locks ip (either k (take exclusive (connection conn) (drop (either k finish))))

-- The search for a camera by its id in a loop with `read()`, and with `try_read()`.
abbrev pub search_locks : List ℕ → Code → Code → Code
search_locks [] found missing = missing
search_locks (ip ∷ ips) found missing =
    take shared (camera ip) (drop (either found (search_locks ips found missing)))

abbrev pub read_locks : List ℕ → Code → Code
read_locks [] k = k
read_locks (ip ∷ ips) k = take shared (camera ip) (drop (read_locks ips k))

abbrev pub try_search_locks : List ℕ → Code → Code → Code
try_search_locks [] found missing = missing
try_search_locks (ip ∷ ips) found missing =
    let rest = try_search_locks ips found missing in
    try_take shared (camera ip) (drop (either found rest)) rest

-- `camera.try_read()` under a read guard of the manager.
abbrev pub try_camera_locks : ℕ → Code → Code
try_camera_locks ip k =
    take shared manager (either (drop k) (try_take shared (camera ip) (drop (drop k)) (drop k)))

abbrev pub sweep_locks : List ℕ → Code → Code
sweep_locks [] k = k
sweep_locks (ip ∷ ips) k =
    let rest = sweep_locks ips k in try_take exclusive (camera ip) (drop rest) rest

-- `send_empty_retransmission_confirmation` and `send_batch_retransmission_confirmation`.
abbrev pub confirm_locks : ℕ → Code → Code
confirm_locks ip k = try_camera_locks ip k

-- The task of `stop_streaming`: it gives up where a lock is not free.
abbrev pub stop_ask_locks : ℕ → ℕ → Code
stop_ask_locks ip conn =
    try_take shared manager
      (either (drop finish) (
        try_take shared (camera ip)
          (drop (drop (either finish (take exclusive (connection conn) (drop finish)))))
          (drop finish)))
      finish

abbrev pub close_locks : ℕ → Code → Code
close_locks ip k =
    try_take exclusive manager
      (either (drop k) (try_take exclusive (camera ip) (drop (drop k)) (drop k))) k

-- A packet with data, or the last one of a frame, which is confirmed under the camera's guard.
abbrev pub handle_video_frame_locks : Bool → ℕ → Code
handle_video_frame_locks last ip = either finish (
    take exclusive manager (
      drop (
        take exclusive (camera ip)
          (if last then either (confirm_locks ip (drop finish)) (drop finish) else drop finish))))

abbrev pub handle_udp_probe_locks : ℕ → Code
handle_udp_probe_locks ip = either (update_locks ip finish) finish

abbrev pub handle_udp_keepalive_locks : Code
handle_udp_keepalive_locks = finish

abbrev pub handle_code51_response_locks : ℕ → Code
handle_code51_response_locks ip =
    either finish (take exclusive manager (drop (take exclusive (camera ip) (drop finish))))

abbrev pub handle_udp_heartbeat_locks : ℕ → Code
handle_udp_heartbeat_locks ip = update_locks ip finish

abbrev pub periodic_incomplete_frame_task_locks : List ℕ → Code
periodic_incomplete_frame_task_locks ips = take exclusive manager (sweep_locks ips (drop finish))

abbrev pub connection_start_locks : ℕ → Code
connection_start_locks ip = update_locks ip finish

abbrev pub connection_end_locks : ℕ → Code
connection_end_locks ip =
    take exclusive manager (either (take exclusive (camera ip) (drop (drop finish))) (drop finish))

abbrev pub handle_registration_locks : ℕ → ℕ → Code
handle_registration_locks ip conn =
    either finish
      (update_locks ip (either (connection_locks ip conn (update_locks ip finish)) finish))

abbrev pub handle_snapshot_request_locks : ℕ → ℕ → Code
handle_snapshot_request_locks ip conn =
    either finish (connection_locks ip conn (update_locks ip finish))

abbrev pub handle_device_info_request_locks : ℕ → ℕ → Code
handle_device_info_request_locks ip conn = take shared manager (
    either (drop finish) (
      take shared (camera ip) (
        either (drop (drop finish)) (
          take exclusive (connection conn)
            (either (drop (drop (drop finish))) (update_locks ip (drop (drop (drop finish)))))))))

abbrev pub handle_nat_probe_response_locks : ℕ → ℕ → Code
handle_nat_probe_response_locks ip conn = write_locks ip conn (update_locks ip finish)

abbrev pub send_streaming_command_locks : ℕ → ℕ → Code
send_streaming_command_locks ip conn = write_locks ip conn finish

abbrev pub send_stop_streaming_command_locks : ℕ → ℕ → Code
send_stop_streaming_command_locks ip conn = write_locks ip conn finish

abbrev pub handle_streaming_request_locks : ℕ → ℕ → Code
handle_streaming_request_locks ip conn =
    either finish (connection_locks ip conn (update_locks ip finish))

abbrev pub start_streaming_for_camera_locks : ℕ → ℕ → Code
start_streaming_for_camera_locks ip conn = connection_locks ip conn (update_locks ip finish)

abbrev pub stop_streaming_for_camera_locks : ℕ → Code
stop_streaming_for_camera_locks ip =
    take exclusive manager (either (take exclusive (camera ip) (drop (drop finish))) (drop finish))

abbrev pub handle_heartbeat_locks : ℕ → Code
handle_heartbeat_locks ip = update_locks ip finish

abbrev pub handle_keepalive_locks : ℕ → ℕ → Code
handle_keepalive_locks ip conn = connection_locks ip conn finish

abbrev pub trigger_snapshot_for_camera_locks : ℕ → Code
trigger_snapshot_for_camera_locks ip = update_locks ip finish

abbrev pub handle_video_frame_tcp_locks : ℕ → Code
handle_video_frame_tcp_locks ip =
    take exclusive manager (drop (take exclusive (camera ip) (drop finish)))

abbrev pub list_cameras_locks : List ℕ → Code
list_cameras_locks ips = take shared manager (read_locks ips (drop finish))

abbrev pub get_camera_info_locks : List ℕ → ℕ → Code
get_camera_info_locks ips ip =
    take shared manager (search_locks ips (try_camera_locks ip (drop finish)) (drop finish))

abbrev pub get_video_stream_locks : List ℕ → Code
get_video_stream_locks ips = take shared manager (search_locks ips (drop finish) (drop finish))

abbrev pub stream_control_locks : List ℕ → ℕ → Code
stream_control_locks ips ip =
    take shared manager
      (try_search_locks ips (drop (either finish (try_camera_locks ip finish))) (drop finish))

abbrev pub stop_task_locks : ℕ → ℕ → Code
stop_task_locks ip conn = close_locks ip (stop_ask_locks ip conn)

abbrev pub snapshot_task_locks : ℕ → Code
snapshot_task_locks conn = take exclusive (connection conn) (drop finish)
