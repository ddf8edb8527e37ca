-- ===== src/Tcp/Invariant/Messages.antt =====
-- The cameras under the messages of src/router/tcp.rs, and under what the web server calls of it.
use a9_v.Prelude.{ℕ, refl, if_rule, ◌==◌, ◌||◌}
use a9_v.Wire.{Bytes}
use a9_v.Wire.Text.{is_utf8, trim_nul}
use a9_v.Protocol.Header.{ProtocolHeader}
use a9_v.Camera.{update_heartbeat, idle}
use a9_v.Runtime.{Host, skip, update_camera}
use a9_v.Runtime.Invariant.{
  Keeps, skip-Keeps, bind-Keeps, seq-Keeps, get_camera-Keeps, modify-Keeps, create_camera-Keeps,
  utc_now-Keeps,
}
use a9_v.Runtime.Invariant.Guards.{send-Keeps, manager_write-Keeps, camera_write-Keeps}
use a9_v.Udp.Invariant.{heartbeat-IsSoundCamera}
use a9_v.Udp.Invariant.Messages.{parse_header-Keeps}
use a9_v.Tcp.{
  stopped, started, start_streaming_for_camera, stop_streaming_for_camera, handle_heartbeat,
  handle_keepalive, trigger_snapshot_for_camera, handle_video_frame_tcp, add_tcp_payload,
}
use a9_v.Tcp.Router.{
  echoed_command, echoed_content, streaming_message, forward_message, json_code, json_message,
  dispatch, process_message, clean_up, connected, hung_up,
}
use a9_v.Tcp.Invariant.{
  stopped-IsSoundCamera, tcp_payload-IsSoundCamera, optional-Keeps, state-Keeps, set_state-Keeps,
  with_connection-Keeps, write_json-Keeps, handle_registration-Keeps, handle_snapshot_request-Keeps,
  handle_streaming_request-Keeps, handle_device_info_request-Keeps, handle_nat_probe_response-Keeps,
  send_streaming_command-Keeps, send_stop_streaming_command-Keeps,
}

module _ {Value : Type 0} (host : Host Value) (ip : ℕ) where
  pub start_streaming_for_camera-Keeps : Keeps ip (start_streaming_for_camera host ip)
  unfolding start_streaming_for_camera
  start_streaming_for_camera-Keeps =
      seq-Keeps _ _ (with_connection-Keeps host ip _ (λ conn. write_json-Keeps host ip conn _)) (
        state-Keeps host ip started (λ c t. record {
          address = t.address;
          buffer = t.buffer;
          bucket = t.bucket;
          packages = t.packages;
          session = (tt, t.session.1, t.session.2, t.session.3);
        }))

  pub stop_streaming_for_camera-Keeps : Keeps ip (stop_streaming_for_camera host ip)
  unfolding stop_streaming_for_camera
  stop_streaming_for_camera-Keeps = manager_write-Keeps host _ (
      get_camera-Keeps ip _
        (λ c s. camera_write-Keeps host ip _ (modify-Keeps ip stopped stopped-IsSoundCamera))
        skip-Keeps)

  pub trigger_snapshot_for_camera-Keeps : Keeps ip (trigger_snapshot_for_camera host ip)
  unfolding trigger_snapshot_for_camera
  trigger_snapshot_for_camera-Keeps = set_state-Keeps host ip idle (λ _. tt)

  handle_heartbeat-Keeps : Keeps ip (handle_heartbeat host ip)
  unfolding handle_heartbeat
  handle_heartbeat-Keeps =
      bind-Keeps _ _ utc_now-Keeps
        (λ now. state-Keeps host ip (update_heartbeat now) (heartbeat-IsSoundCamera now))

  handle_keepalive-Keeps : Keeps ip (handle_keepalive host ip)
  unfolding handle_keepalive
  handle_keepalive-Keeps = with_connection-Keeps host ip _ (λ conn. send-Keeps host _)

  handle_video_frame_tcp-Keeps : (p : Bytes) → Keeps ip (handle_video_frame_tcp host ip p)
  unfolding handle_video_frame_tcp
  handle_video_frame_tcp-Keeps p =
      seq-Keeps _ _ (manager_write-Keeps host _ (create_camera-Keeps ip)) (
        camera_write-Keeps host ip _ (
          bind-Keeps _ _ utc_now-Keeps (λ now.
            seq-Keeps _ _ (modify-Keeps ip _ (heartbeat-IsSoundCamera now))
              (modify-Keeps ip (add_tcp_payload p) (tcp_payload-IsSoundCamera p)))))

  echoed_command-Keeps : (n : ℕ) → Keeps ip (echoed_command host ip n)
  unfolding echoed_command
  echoed_command-Keeps n = if_rule (Keeps ip) (n == 298) skip-Keeps (
      if_rule (Keeps ip) (n == 4) (send_streaming_command-Keeps host ip)
        (if_rule (Keeps ip) (n == 3) (send_stop_streaming_command-Keeps host ip) skip-Keeps))

  echoed_content-Keeps : (v : Value) → Keeps ip (echoed_content host ip v)
  unfolding echoed_content
  echoed_content-Keeps v =
      optional-Keeps (host.get v "code") _ skip
        (λ code. optional-Keeps (host.as_u64 code) _ skip echoed_command-Keeps skip-Keeps)
        skip-Keeps

  streaming_message-Keeps : (s : Bytes) (v : Value) → Keeps ip (streaming_message host ip s v)
  unfolding streaming_message
  streaming_message-Keeps s v =
      optional-Keeps (host.get v "uid") _ skip (λ _. handle_streaming_request-Keeps host ip s)
        skip-Keeps

  forward_message-Keeps : (s : Bytes) (v : Value) → Keeps ip (forward_message host ip s v)
  unfolding forward_message
  forward_message-Keeps s v =
      optional-Keeps (host.get v "target") _ (streaming_message host ip s v)
        (λ _.
          optional-Keeps (host.get v "content") (echoed_content host ip)
            (streaming_message host ip s v) echoed_content-Keeps (streaming_message-Keeps s v))
        (streaming_message-Keeps s v)

  json_code-Keeps : (s : Bytes) (v : Value) (code : ℕ) → Keeps ip (json_code host ip s v code)
  unfolding json_code
  json_code-Keeps s v code =
      if_rule (Keeps ip) (code == 100) (handle_registration-Keeps host ip s) (
        if_rule (Keeps ip) (code == 12) (handle_nat_probe_response-Keeps host ip) (
          if_rule (Keeps ip) (code == 51) (handle_device_info_request-Keeps host ip) (
            if_rule (Keeps ip) (code == 201) (handle_snapshot_request-Keeps host ip s)
              (if_rule (Keeps ip) (code == 301) (forward_message-Keeps s v) skip-Keeps))))

  json_message-Keeps : (s : Bytes) → Keeps ip (json_message host ip s)
  unfolding json_message
  json_message-Keeps s =
      optional-Keeps (host.from_str s) _ skip
        (λ v.
          optional-Keeps (host.as_u64 (host.index v "code")) _ skip (json_code-Keeps s v)
            skip-Keeps)
        skip-Keeps

  dispatch-Keeps : (h : ProtocolHeader) (p : Bytes) → Keeps ip (dispatch host ip h p)
  unfolding dispatch
  dispatch-Keeps h p =
      if_rule (Keeps ip) (h.cmd == 0 || h.cmd == 87)
        (if_rule (Keeps ip) (is_utf8 p) (json_message-Keeps (trim_nul p)) skip-Keeps)
        (if_rule (Keeps ip) (h.cmd == 99) handle_keepalive-Keeps (
          if_rule (Keeps ip) (h.cmd == 100) handle_heartbeat-Keeps (
            if_rule (Keeps ip) (h.cmd == 1 || (h.cmd == 4 || (h.cmd == 6 || h.cmd == 7)))
              (handle_video_frame_tcp-Keeps p) skip-Keeps)))

  pub process_message-Keeps : (d : Bytes) → Keeps ip (process_message host ip d)
  unfolding process_message
  process_message-Keeps d = bind-Keeps _ _ (parse_header-Keeps host d) (λ r. dispatch-Keeps r.0 r.1)

  pub clean_up-Keeps : Keeps ip (clean_up host ip)
  unfolding clean_up
  clean_up-Keeps = manager_write-Keeps host _ (
      get_camera-Keeps ip _
        (λ c s. camera_write-Keeps host ip _ (
          modify-Keeps ip hung_up (λ d t. record {
            address = t.address;
            buffer = t.buffer;
            bucket = t.bucket;
            packages = t.packages;
            session = (refl, t.session.1, t.session.2, t.session.3);
          })))
        skip-Keeps)

  pub connected-Keeps : (conn : ℕ) → Keeps ip (update_camera host ip (connected conn))
  connected-Keeps conn = state-Keeps host ip (connected conn) (λ c t. record {
    address = t.address;
    buffer = t.buffer;
    bucket = t.bucket;
    packages = t.packages;
    session = (tt, t.session.1, t.session.2, t.session.3);
  })
