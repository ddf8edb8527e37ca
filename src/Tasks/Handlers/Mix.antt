-- ===== src/Tasks/Handlers/Mix.antt =====
-- The handlers of src/router and of src/web/camera_endpoints.rs that run side by side.
use a9_v.Prelude.{ℕ, List, Bool}
use a9_v.Tasks.{Code}
use a9_v.Tasks.Handlers.{
  connection_end_locks, connection_start_locks, get_camera_info_locks, get_video_stream_locks,
  handle_code51_response_locks, handle_device_info_request_locks, handle_heartbeat_locks,
  handle_keepalive_locks, handle_nat_probe_response_locks, handle_registration_locks,
  handle_snapshot_request_locks, handle_streaming_request_locks, handle_udp_heartbeat_locks,
  handle_udp_keepalive_locks, handle_udp_probe_locks, handle_video_frame_locks,
  handle_video_frame_tcp_locks, list_cameras_locks, periodic_incomplete_frame_task_locks,
  send_stop_streaming_command_locks, send_streaming_command_locks, snapshot_task_locks,
  start_streaming_for_camera_locks, stop_streaming_for_camera_locks, stop_task_locks,
  stream_control_locks, trigger_snapshot_for_camera_locks,
}

-- The handlers, with the address of the camera, its connection, and the addresses in the map.
pub data Handler : Type 0 where
  handle_udp_probe_task : ℕ → Handler
  handle_udp_keepalive_task : Handler
  handle_code51_response_task : ℕ → Handler
  handle_udp_heartbeat_task : ℕ → Handler
  handle_video_frame_task : Bool → ℕ → Handler
  incomplete_frames_task : List ℕ → Handler
  connection_start_task : ℕ → Handler
  connection_end_task : ℕ → Handler
  handle_registration_task : ℕ → ℕ → Handler
  handle_snapshot_request_task : ℕ → ℕ → Handler
  handle_device_info_request_task : ℕ → ℕ → Handler
  handle_nat_probe_response_task : ℕ → ℕ → Handler
  send_streaming_command_task : ℕ → ℕ → Handler
  send_stop_streaming_command_task : ℕ → ℕ → Handler
  handle_streaming_request_task : ℕ → ℕ → Handler
  start_streaming_for_camera_task : ℕ → ℕ → Handler
  stop_streaming_for_camera_task : ℕ → Handler
  handle_heartbeat_task : ℕ → Handler
  handle_keepalive_task : ℕ → ℕ → Handler
  trigger_snapshot_for_camera_task : ℕ → Handler
  handle_video_frame_tcp_task : ℕ → Handler
  list_cameras_task : List ℕ → Handler
  get_camera_info_task : List ℕ → ℕ → Handler
  get_video_stream_task : List ℕ → Handler
  stream_control_task : List ℕ → ℕ → Handler
  stop_task : ℕ → ℕ → Handler
  snapshot_task : ℕ → Handler

abbrev pub code_of : Handler → Code
code_of (handle_udp_probe_task ip) = handle_udp_probe_locks ip
code_of handle_udp_keepalive_task = handle_udp_keepalive_locks
code_of (handle_code51_response_task ip) = handle_code51_response_locks ip
code_of (handle_udp_heartbeat_task ip) = handle_udp_heartbeat_locks ip
code_of (handle_video_frame_task last ip) = handle_video_frame_locks last ip
code_of (incomplete_frames_task ips) = periodic_incomplete_frame_task_locks ips
code_of (connection_start_task ip) = connection_start_locks ip
code_of (connection_end_task ip) = connection_end_locks ip
code_of (handle_registration_task ip conn) = handle_registration_locks ip conn
code_of (handle_snapshot_request_task ip conn) = handle_snapshot_request_locks ip conn
code_of (handle_device_info_request_task ip conn) = handle_device_info_request_locks ip conn
code_of (handle_nat_probe_response_task ip conn) = handle_nat_probe_response_locks ip conn
code_of (send_streaming_command_task ip conn) = send_streaming_command_locks ip conn
code_of (send_stop_streaming_command_task ip conn) = send_stop_streaming_command_locks ip conn
code_of (handle_streaming_request_task ip conn) = handle_streaming_request_locks ip conn
code_of (start_streaming_for_camera_task ip conn) = start_streaming_for_camera_locks ip conn
code_of (stop_streaming_for_camera_task ip) = stop_streaming_for_camera_locks ip
code_of (handle_heartbeat_task ip) = handle_heartbeat_locks ip
code_of (handle_keepalive_task ip conn) = handle_keepalive_locks ip conn
code_of (trigger_snapshot_for_camera_task ip) = trigger_snapshot_for_camera_locks ip
code_of (handle_video_frame_tcp_task ip) = handle_video_frame_tcp_locks ip
code_of (list_cameras_task ips) = list_cameras_locks ips
code_of (get_camera_info_task ips ip) = get_camera_info_locks ips ip
code_of (get_video_stream_task ips) = get_video_stream_locks ips
code_of (stream_control_task ips ip) = stream_control_locks ips ip
code_of (stop_task ip conn) = stop_task_locks ip conn
code_of (snapshot_task conn) = snapshot_task_locks conn
