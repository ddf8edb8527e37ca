-- ===== src/Tcp/Invariant.antt =====
-- The cameras under the handlers of src/router/tcp.rs: the replies and the commands.
pub mod Messages
use a9_v.Prelude.{
  ℕ, List, [], ◌∷◌, Bool, true, false, Option, none, some, if_rule, if◌then◌else◌, ◌==◌, ◌||◌,
}
use a9_v.Wire.{Bytes}
use a9_v.Wire.Text.{is_utf8, trim_nul}
use a9_v.Protocol.Header.{ProtocolHeader}
use a9_v.Camera.{CameraConnection, ProtocolState, update_heartbeat, idle, streaming}
use a9_v.Camera.Session.{IsReached}
use a9_v.Stream.{clear}
use a9_v.Stream.Bounds.{IsBounded, add_fragment-IsBounded, step-IsBounded, step, reset}
use a9_v.Runtime.{
  Host, M, World, Outcome, done, failed, panicked, stuck, UidMessage, tcp, skip, send, ◌>>=◌, ◌>>◌,
  modify, create_camera, manager_write, camera_write, update_camera, world_of, Locks,
}
use a9_v.Runtime.Invariant.{
  IsSoundCamera, IsSound, Keeps, skip-Keeps, pure-Keeps, or_fail-Keeps, bind-Keeps, seq-Keeps,
  get_camera-Keeps, modify-Keeps, create_camera-Keeps, utc_now-Keeps,
}
use a9_v.Runtime.Invariant.Guards.{
  send-Keeps, manager_write-Keeps, manager_read-Keeps, camera_write-Keeps, camera_read-Keeps,
  update_camera-Keeps,
}
use a9_v.Udp.Invariant.{heartbeat-IsSoundCamera}
use a9_v.Udp.Invariant.Messages.{parse_header-Keeps}
use a9_v.Tcp.{
  with_connection, clone_connection, write_json, write_status, set_state, start_registration,
  started, stopped, add_tcp_payload, forward, code_value, base_info, device_status, nat_probe,
  handle_registration, handle_snapshot_request, handle_device_info_request,
  handle_nat_probe_response, send_streaming_command, send_stop_streaming_command,
  handle_streaming_request, start_streaming_for_camera, stop_streaming_for_camera, handle_heartbeat,
  handle_keepalive, trigger_snapshot_for_camera, handle_video_frame_tcp,
}
use a9_v.Tcp.Router.{
  echoed_command, echoed_content, streaming_message, forward_message, json_code, json_message,
  dispatch, process_message, Read, chunk, closed, broken, serve, clean_up, handle_connection,
  connected, hung_up,
}

pub stopped-IsSoundCamera :
    {ip : ℕ} (c : CameraConnection) → IsSoundCamera ip c → IsSoundCamera ip (stopped c)
unfolding clear step
stopped-IsSoundCamera c s = record {
  address = s.address;
  buffer = step-IsBounded reset c.stream_buffer s.buffer;
  bucket = s.bucket;
  packages = s.packages;
  session = (tt, s.session.1, s.session.2, s.session.3);
}

pub tcp_payload-IsSoundCamera :
    (p : Bytes) {ip : ℕ} (c : CameraConnection)
    → IsSoundCamera ip c
    → IsSoundCamera ip (add_tcp_payload p c)
tcp_payload-IsSoundCamera p c s = record {
  address = s.address;
  buffer = add_fragment-IsBounded 1 0 0 p c.stream_buffer s.buffer;
  bucket = s.bucket;
  packages = s.packages;
  session = s.session;
}

pub optional-Keeps :
    {ip : ℕ} {A B : Type 0} (o : Option A) (k : A → M B) (m : M B)
    → ((a : A) → Keeps ip (k a))
    → Keeps ip m
    → Keeps ip (elim o [ some a ↦ k a | none ↦ m ])
optional-Keeps none k m h g = g
optional-Keeps (some a) k m h g = h a

module _ {Value : Type 0} (host : Host Value) (ip : ℕ) where
  -- Updates that touch neither the buffer nor the lists of packet ids.
  pub state-Keeps :
      (f : CameraConnection → CameraConnection)
      → ((c : CameraConnection) → IsSoundCamera ip c → IsSoundCamera ip (f c))
      → Keeps ip (update_camera host ip f)
  state-Keeps f h = update_camera-Keeps host ip f h

  pub set_state-Keeps :
      (s : ProtocolState)
      → ((conn : Option ℕ) → IsReached s conn)
      → Keeps ip (update_camera host ip (set_state s))
  set_state-Keeps s h = state-Keeps (set_state s) (λ c t. record {
    address = t.address;
    buffer = t.buffer;
    bucket = t.bucket;
    packages = t.packages;
    session = (h c.tcp_conn, t.session.1, t.session.2, t.session.3);
  })

  pub with_connection-Keeps :
      (k : ℕ → M (Unit {0}))
      → ((conn : ℕ) → Keeps ip (k conn))
      → Keeps ip (with_connection host ip k)
  unfolding with_connection
  with_connection-Keeps k h = manager_read-Keeps host _ (
      get_camera-Keeps ip _
        (λ c s.
          camera_read-Keeps host ip _ (
            get_camera-Keeps ip _ (λ d t. optional-Keeps d.tcp_conn k skip h skip-Keeps)
              skip-Keeps))
        skip-Keeps)

  clone_connection-Keeps : Keeps ip (clone_connection host ip)
  unfolding clone_connection
  clone_connection-Keeps = manager_read-Keeps host _ (
      get_camera-Keeps ip _
        (λ c s.
          camera_read-Keeps host ip _
            (get_camera-Keeps ip _ (λ d t. pure-Keeps d.tcp_conn) (pure-Keeps none)))
        (pure-Keeps none))

  pub write_json-Keeps : (conn : ℕ) (v : Value) → Keeps ip (write_json host conn v)
  unfolding write_json
  write_json-Keeps conn v =
      bind-Keeps _ _ (or_fail-Keeps (host.to_string v))
        (λ s. seq-Keeps _ _ (send-Keeps host _) (send-Keeps host _))

  write_status-Keeps : (code status : ℕ) → Keeps ip (write_status host ip code status)
  unfolding write_status
  write_status-Keeps code status =
      bind-Keeps _ _ (or_fail-Keeps (host.status_to_string _))
        (λ s. with_connection-Keeps _ (λ conn. send-Keeps host _))

  cloned-Keeps :
      (k : ℕ → M (Unit {0}))
      → ((conn : ℕ) → Keeps ip (k conn))
      → Keeps ip (clone_connection host ip >>= λ t. elim t [ some conn ↦ k conn | none ↦ skip ])
  cloned-Keeps k h =
      bind-Keeps _ _ clone_connection-Keeps (λ t. optional-Keeps t k skip h skip-Keeps)

  pub handle_registration-Keeps : (s : Bytes) → Keeps ip (handle_registration host ip s)
  unfolding handle_registration
  handle_registration-Keeps s =
      optional-Keeps (host.registration_from_str s) _ skip
        (λ r.
          seq-Keeps _ _
            (state-Keeps (start_registration r) (λ c t. record {
              address = t.address;
              buffer = t.buffer;
              bucket = t.bucket;
              packages = t.packages;
              session = (tt, t.session.1, t.session.2, t.session.3);
            }))
            (seq-Keeps _ _ (write_status-Keeps 101 200) (set_state-Keeps idle (λ _. tt))))
        skip-Keeps

  pub handle_snapshot_request-Keeps : (s : Bytes) → Keeps ip (handle_snapshot_request host ip s)
  unfolding handle_snapshot_request
  handle_snapshot_request-Keeps s =
      optional-Keeps (host.uid_from_str s) _ skip
        (λ r. seq-Keeps _ _ (write_status-Keeps 202 200) (set_state-Keeps idle (λ _. tt)))
        skip-Keeps

  pub handle_streaming_request-Keeps : (s : Bytes) → Keeps ip (handle_streaming_request host ip s)
  unfolding handle_streaming_request
  handle_streaming_request-Keeps s =
      optional-Keeps (host.uid_from_str s) _ skip
        (λ r. seq-Keeps _ _ (write_status-Keeps 302 200) (set_state-Keeps streaming (λ _. tt)))
        skip-Keeps

  pub handle_device_info_request-Keeps : Keeps ip (handle_device_info_request host ip)
  unfolding handle_device_info_request
  handle_device_info_request-Keeps =
      with_connection-Keeps _
        (λ conn. seq-Keeps _ _ (write_json-Keeps conn _) (set_state-Keeps streaming (λ _. tt)))

  pub handle_nat_probe_response-Keeps : Keeps ip (handle_nat_probe_response host ip)
  unfolding handle_nat_probe_response
  handle_nat_probe_response-Keeps = bind-Keeps _ _ clone_connection-Keeps (λ t.
      seq-Keeps _ _
        (optional-Keeps t _ skip
          (λ conn.
            seq-Keeps _ _ (write_json-Keeps conn _)
              (seq-Keeps _ _ (write_json-Keeps conn _) (write_json-Keeps conn _)))
          skip-Keeps)
        (set_state-Keeps streaming (λ _. tt)))

  pub send_streaming_command-Keeps : Keeps ip (send_streaming_command host ip)
  unfolding send_streaming_command
  send_streaming_command-Keeps = cloned-Keeps _ (λ conn. write_json-Keeps conn _)

  pub send_stop_streaming_command-Keeps : Keeps ip (send_stop_streaming_command host ip)
  unfolding send_stop_streaming_command
  send_stop_streaming_command-Keeps = cloned-Keeps _ (λ conn. write_json-Keeps conn _)
