-- ===== src/Udp/Messages.antt =====
-- The other handlers of src/router/udp.rs, and `process_message`, which chooses among them.
use a9_v.Prelude.{
  ℕ, ◌+◌, [], ◌∷◌, ◌++◌, Bool, length, replicate, ◌&&◌, ◌||◌, some, ltb, ◌==◌, if◌then◌else◌,
}
use a9_v.Prelude.Map.{Map}
use a9_v.Wire.{Bytes}
use a9_v.Wire.Text.{is_utf8}
use a9_v.Protocol.Header.{ProtocolHeader, header_size}
use a9_v.Protocol.Header
use a9_v.Config.{AppConfig}
use a9_v.Stream.{complete_incomplete_frame}
use a9_v.Camera.{CameraConnection, update_heartbeat}
use a9_v.Runtime.{
  Host, M, guards, udp, done, ◌>>=◌, ◌>>◌, pure, skip, or_fail, utc_now, modify, create_camera,
  manager_write, camera_write, send, update_camera,
}
use a9_v.Udp.{parse_header, insert_port, next_probe, empty_confirmation, handle_video_frame}

abbrev pub set_video_port : ℕ → CameraConnection → CameraConnection
set_video_port port c = record c { random_video_socket = some port; random_video_port = some port }

abbrev pub probe_stepped : CameraConnection → CameraConnection
probe_stepped c = record c { probe_state = next_probe c.probe_state }

module _ {Value : Type 0} (host : Host Value) where
  -- A text behind a JSON header.
  abbrev pub framed_json : Bytes → Bytes
  framed_json s = Header.to_bytes host.buf (Header.json 0 (length s)) ++ s

  -- `serde_json::to_string(value)?`, and the message that is made from it.
  abbrev pub json_message : Value → M Bytes
  json_message value = do s ← or_fail (host.to_string value); pure (framed_json s)

  abbrev pub code_only : ℕ → Value
  code_only code = host.object (("code", host.number code) ∷ [])

  abbrev pub probe_response : AppConfig → ℕ → Value
  probe_response config port = host.object (
      ("code", host.number 21)
      ∷ ("ip", host.string config.server_ip)
      ∷ ("port", host.number port)
      ∷ [])

  module _ (local_port ip port : ℕ) where
    unfoldable pub handle_udp_keepalive : M (Unit {0})
    handle_udp_keepalive = do
      message ← json_message (code_only 101)
      send host (udp local_port ip port message)

    unfoldable pub draw : M ℕ
    draw l w = done (host.gen_range w.draws 32000 65000) (record w { draws = w.draws + 1 })

    -- The two arms on the result of the bind.
    unfoldable pub answer_probe : AppConfig → ℕ → M (Unit {0})
    answer_probe config random_port =
        if host.bind_ok random_port
        then (do
          update_camera host ip (set_video_port random_port)
          message ← json_message (probe_response config random_port)
          send host (udp local_port ip port message))
        else (do
          message ← json_message (probe_response config config.udp_stream_port_2)
          send host (udp local_port ip port message))

    unfoldable pub handle_udp_probe : AppConfig → M (Unit {0})
    unfolding draw answer_probe
    handle_udp_probe config = draw >>= answer_probe config

    unfoldable pub handle_raw_udp_keepalive : M (Unit {0})
    handle_raw_udp_keepalive = send host (udp local_port ip port (replicate 20 0))

    -- The payload is only logged, but one that is no UTF-8 ends the handler.
    unfoldable pub handle_code51_response : Bytes → M (Unit {0})
    handle_code51_response payload =
        if is_utf8 payload
        then (manager_write host (create_camera ip)
            >> camera_write host ip (do
              now ← utc_now
              modify ip (update_heartbeat now)
              modify ip probe_stepped
              message ← json_message (code_only 50)
              send host (udp local_port ip port message)))
        else skip

    unfoldable pub handle_udp_heartbeat : M (Unit {0})
    handle_udp_heartbeat = do
      now ← utc_now
      update_camera host ip (λ c. insert_port port (update_heartbeat now c))
      send host (udp local_port ip port empty_confirmation)

    -- The arm of `match header.cmd` for all other commands.
    unfoldable pub other_command : Bytes → ProtocolHeader → M (Unit {0})
    unfolding handle_raw_udp_keepalive
    other_command d h =
        if length d == 20 && (h.cmd == 0 && h.msg_flag == 0) then handle_raw_udp_keepalive else skip

    unfoldable pub dispatch : AppConfig → Bytes → ProtocolHeader → Bytes → M (Unit {0})
    unfolding handle_udp_probe handle_udp_heartbeat handle_udp_keepalive handle_code51_response
        other_command
    dispatch config d h payload =
        if h.cmd == 0
        then handle_udp_probe config
        else if h.cmd == 100
        then handle_udp_heartbeat
        else if h.cmd == 102
        then handle_udp_keepalive
        else if h.cmd == 1 || (h.cmd == 4 || (h.cmd == 6 || h.cmd == 7))
        then handle_video_frame host local_port ip port d
        else if h.cmd == 51
        then handle_code51_response payload
        else other_command d h

    unfoldable pub process_message : AppConfig → Bytes → M (Unit {0})
    unfolding dispatch
    process_message config d =
        if ltb (length d) header_size
        then skip
        else (do (h, payload) ← parse_header host d; dispatch config d h payload)

-- One round of `periodic_incomplete_frame_task`: `free` tells which cameras `try_write` gets, and the
-- others are passed over.
abbrev pub swept : CameraConnection → CameraConnection
swept c = record c { stream_buffer = (complete_incomplete_frame c.stream_buffer).0 }

unfoldable pub sweep_cameras : (ℕ → Bool) → Map CameraConnection → Map CameraConnection
sweep_cameras free [] = []
sweep_cameras free ((ip, c) ∷ m) = (ip, (if free ip then swept c else c)) ∷ sweep_cameras free m

unfoldable pub sweep_round : {Value : Type 0} → Host Value → M (Unit {0})
unfolding sweep_cameras
sweep_round host = manager_write host (λ l w. done tt (record w {
  manager = record w.manager {
    cameras = sweep_cameras (λ ip. host.write_granted (guards ip l)) w.manager.cameras;
  };
}))
