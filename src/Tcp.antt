-- ===== src/Tcp.antt =====
-- TcpRouter of src/router/tcp.rs: the handlers of a message from a camera. `ip` is its address; a
-- text from the camera is its bytes. What is only logged is left out.
pub mod Router
pub mod Safety
pub mod Effects
pub mod Returns
pub mod Registration
pub mod Lifecycle
pub mod Invariant
use a9_v.Prelude.{ℕ, ◌%◌, ◌^◌, [], ◌∷◌, ◌++◌, length, Bool, true, false, Option, none, some}
use a9_v.Wire.{Bytes, text}
use a9_v.Protocol.Header
use a9_v.Stream
use a9_v.Stream.{add_fragment}
use a9_v.Camera.{CameraConnection, ProtocolState, idle, registering, streaming, update_heartbeat}
use a9_v.Runtime.{
  Host, M, UidMessage, StatusMessage, tcp, ◌>>=◌, ◌>>◌, pure, skip, or_fail, utc_now, get_camera,
  modify, create_camera, manager_write, manager_read, camera_write, camera_read, send,
  update_camera,
}

abbrev pub set_state : ProtocolState → CameraConnection → CameraConnection
set_state s c = record c { state = s }

abbrev pub start_registration : UidMessage → CameraConnection → CameraConnection
start_registration r c = record c { device_id = r.uid; state = registering }

abbrev pub started : CameraConnection → CameraConnection
started c = record c { state = streaming; first_retransmission_sent = false }

abbrev pub stopped : CameraConnection → CameraConnection
stopped c = record c { udp_ports = []; stream_buffer = Stream.clear c.stream_buffer; state = idle }

abbrev pub add_tcp_payload : Bytes → CameraConnection → CameraConnection
add_tcp_payload p c = record c { stream_buffer = (add_fragment 1 0 0 p c.stream_buffer).0 }

module _ {Value : Type 0} (host : Host Value) where
  -- `if let Some(camera) = manager.read().get_camera(ip)`, then its connection under a read guard.
  unfoldable pub with_connection : ℕ → (ℕ → M (Unit {0})) → M (Unit {0})
  with_connection ip k = manager_read host do
    camera ← get_camera ip
    elim camera [
      | some _ ↦ camera_read host ip do
        c ← get_camera ip
        elim c [ some c' ↦ elim c'.tcp_conn [ some conn ↦ k conn | none ↦ skip ] | none ↦ skip ]
      | none ↦ skip
    ]

  -- The connection, cloned out of the guards.
  unfoldable pub clone_connection : ℕ → M (Option ℕ)
  clone_connection ip = manager_read host do
    camera ← get_camera ip
    elim camera [
      | some _ ↦
          camera_read host ip
            do c ← get_camera ip; elim c [ some c' ↦ pure c'.tcp_conn | none ↦ pure none ]
      | none ↦ pure none
    ]

  abbrev pub header_bytes : ℕ → Bytes
  header_bytes len = Header.to_bytes host.buf (Header.new 0 (len % 2 ^ 32) 0 0)

  -- A value, printed, behind a header of its own: two writes.
  unfoldable pub write_json : ℕ → Value → M (Unit {0})
  write_json conn value = do
    s ← or_fail (host.to_string value)
    send host (tcp conn (header_bytes (length s)))
    send host (tcp conn s)

  -- A status message behind a JSON header: one write.
  unfoldable pub write_status : ℕ → ℕ → ℕ → M (Unit {0})
  write_status ip code status = do
    s ← or_fail (host.status_to_string (record { code = code; status = status }))
    with_connection ip
        (λ conn. send host (tcp conn (Header.to_bytes host.buf (Header.json 0 (length s)) ++ s)))

  abbrev pub code_value : ℕ → Value
  code_value n = host.object (("code", host.number n) ∷ [])

  -- A forward command: code 301 to the client's target, with a content.
  abbrev pub forward : Value → Value
  forward content = host.object (
      ("code", host.number 301)
      ∷ ("target", host.string (text "00112233445566778899aabbccddeeff"))
      ∷ ("content", content)
      ∷ [])

  abbrev pub device_status : Value
  device_status = host.object (("code", host.number 53) ∷ ("status", host.number 1) ∷ [])

  abbrev pub base_info : Value
  base_info = host.object (("unitTimer", host.number 1755338876) ∷ ("code", host.number 4) ∷ [])

  abbrev pub nat_probe : Value
  nat_probe = host.object (
      ("code", host.number 11)
      ∷ ("cliTarget", host.string (text "00112233445566778899aabbccddeeff"))
      ∷ ("cliToken", host.string (text "deadc0de"))
      ∷ ("cliIp", host.string (text "255.255.255.255"))
      ∷ ("cliPort", host.number 0)
      ∷ ("cliNatIp", host.string (text "192.168.1.99"))
      ∷ ("cliNatPort", host.number 6123)
      ∷ [])

  module _ (ip : ℕ) where
    unfoldable pub handle_registration : Bytes → M (Unit {0})
    unfolding write_status
    handle_registration json_str = elim (host.registration_from_str json_str) [
      | some request ↦
          update_camera host ip (start_registration request)
          >> (write_status ip 101 200 >> update_camera host ip (set_state idle))
      | none ↦ skip
    ]

    unfoldable pub handle_snapshot_request : Bytes → M (Unit {0})
    unfolding write_status
    handle_snapshot_request json_str = elim (host.uid_from_str json_str) [
      | some request ↦ write_status ip 202 200 >> update_camera host ip (set_state idle)
      | none ↦ skip
    ]

    -- The camera's state is set while the guards of `with_connection` are still out.
    unfoldable pub handle_device_info_request : M (Unit {0})
    unfolding with_connection write_json
    handle_device_info_request =
        with_connection ip
          (λ conn. write_json conn (code_value 50) >> update_camera host ip (set_state streaming))

    unfoldable pub handle_nat_probe_response : M (Unit {0})
    unfolding clone_connection write_json
    handle_nat_probe_response = do
      tcp_conn ← clone_connection ip
      elim tcp_conn [
        | some conn ↦
            write_json conn device_status
            >> (write_json conn (forward (code_value 298)) >> write_json conn (forward base_info))
        | none ↦ skip
      ]
      update_camera host ip (set_state streaming)

    unfoldable pub send_streaming_command : M (Unit {0})
    unfolding clone_connection write_json
    send_streaming_command = do
      tcp_conn ← clone_connection ip
      elim tcp_conn [ some conn ↦ write_json conn (forward (code_value 3)) | none ↦ skip ]

    unfoldable pub send_stop_streaming_command : M (Unit {0})
    unfolding clone_connection write_json
    send_stop_streaming_command = do
      tcp_conn ← clone_connection ip
      elim tcp_conn [ some conn ↦ write_json conn (forward (code_value 0)) | none ↦ skip ]

    unfoldable pub handle_streaming_request : Bytes → M (Unit {0})
    unfolding write_status
    handle_streaming_request json_str = elim (host.uid_from_str json_str) [
      | some request ↦ write_status ip 302 200 >> update_camera host ip (set_state streaming)
      | none ↦ skip
    ]

    unfoldable pub start_streaming_for_camera : M (Unit {0})
    unfolding with_connection write_json
    start_streaming_for_camera =
        with_connection ip (λ conn. write_json conn nat_probe) >> update_camera host ip started

    unfoldable pub stop_streaming_for_camera : M (Unit {0})
    stop_streaming_for_camera = manager_write host do
      camera ← get_camera ip
      elim camera [ some _ ↦ camera_write host ip (modify ip stopped) | none ↦ skip ]

    unfoldable pub handle_heartbeat : M (Unit {0})
    handle_heartbeat = do now ← utc_now; update_camera host ip (update_heartbeat now)

    unfoldable pub handle_keepalive : M (Unit {0})
    unfolding with_connection
    handle_keepalive =
        with_connection ip
          (λ conn. send host (tcp conn (Header.to_bytes host.buf (Header.binary 99 0 0))))

    unfoldable pub trigger_snapshot_for_camera : M (Unit {0})
    trigger_snapshot_for_camera = update_camera host ip (set_state idle)

    unfoldable pub handle_video_frame_tcp : Bytes → M (Unit {0})
    handle_video_frame_tcp payload =
        manager_write host (create_camera ip)
        >> camera_write host ip (do
          now ← utc_now
          modify ip (update_heartbeat now)
          modify ip (add_tcp_payload payload))
