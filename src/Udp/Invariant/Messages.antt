-- ===== src/Udp/Invariant/Messages.antt =====
-- The cameras under the handlers of src/router/udp.rs: all messages.
use a9_v.Prelude.{ℕ, ◌+◌, ◌≤◌, ◌<◌, refl, arith, if_rule, ◌==◌, ltb, length, ◌||◌, ◌&&◌}
use a9_v.Wire.{Bytes}
use a9_v.Wire.Text.{is_utf8}
use a9_v.Protocol.Header.{ProtocolHeader, header_size}
use a9_v.Protocol.Header
use a9_v.Config.{AppConfig}
use a9_v.Camera.{update_heartbeat, ProbeState, not_started, in_progress, completed}
use a9_v.Camera.Session.{IsProbe}
use a9_v.Runtime.{
  Host, done, failed, panicked, udp, skip, send, ◌>>=◌, ◌>>◌, create_camera, manager_write,
  camera_write,
}
use a9_v.Runtime.Invariant.{
  IsKept-refl, Keeps, skip-Keeps, pure-Keeps, or_fail-Keeps, bind-Keeps, seq-Keeps, modify-Keeps,
  create_camera-Keeps, utc_now-Keeps,
}
use a9_v.Runtime.Invariant.Guards.{
  send-Keeps, manager_write-Keeps, camera_write-Keeps, update_camera-Keeps,
}
use a9_v.Udp.{next_probe, parse_header, insert_port, take_video_frame, handle_video_frame}
use a9_v.Udp.Messages.{
  json_message, framed_json, code_only, probe_response, set_video_port, probe_stepped,
  handle_udp_keepalive, draw, answer_probe, handle_udp_probe, handle_raw_udp_keepalive,
  handle_code51_response, handle_udp_heartbeat, other_command, dispatch, process_message,
}
use a9_v.Udp.Invariant.{heartbeat-IsSoundCamera, take_video_frame-Keeps}

next_probe-IsProbe : (p : ProbeState) → IsProbe p → IsProbe (next_probe p)
unfolding next_probe
next_probe-IsProbe not_started h = omega arith
next_probe-IsProbe (in_progress count) h = ground arith
next_probe-IsProbe completed h = tt

module _ {Value : Type 0} (host : Host Value) where
  pub parse_header-Keeps : {ip : ℕ} (d : Bytes) → Keeps ip (parse_header host d)
  parse_header-Keeps {ip} d = by_result (Header.from_bytes host.buf d)
    where
      by_result :
          (r : Header.Parsed (ProtocolHeader × Bytes))
          → Keeps ip (λ l w. elim r [
            | Header.ok a ↦ done a w
            | Header.err ↦ failed w
            | Header.panic ↦ panicked w
          ])
      by_result (Header.ok a) = record { keeps = λ l w s. IsKept-refl ip w s }
      by_result Header.err = record { keeps = λ l w s. IsKept-refl ip w s }
      by_result Header.panic = record { keeps = λ l w s. IsKept-refl ip w s }

  json_message-Keeps : {ip : ℕ} (v : Value) → Keeps ip (json_message host v)
  json_message-Keeps v =
      bind-Keeps _ _ (or_fail-Keeps (host.to_string v)) (λ s. pure-Keeps (framed_json host s))

  module _ (local_port ip port : ℕ) where
    respond-Keeps :
        (v : Value) → Keeps ip (json_message host v >>= λ m. send host (udp local_port ip port m))
    respond-Keeps v = bind-Keeps _ _ (json_message-Keeps v) (λ m. send-Keeps host _)

    handle_video_frame-Keeps : (d : Bytes) → Keeps ip (handle_video_frame host local_port ip port d)
    unfolding handle_video_frame
    handle_video_frame-Keeps d =
        if_rule (Keeps ip) (ltb (length d) header_size) skip-Keeps
          (by_result (Header.from_bytes host.buf d))
      where
        by_result :
            (r : Header.Parsed (ProtocolHeader × Bytes))
            → Keeps ip (elim r [
              | Header.ok r' ↦
                  manager_write host (create_camera ip)
                  >> camera_write host ip (take_video_frame host local_port ip port r'.0 r'.1)
              | Header.err ↦ skip
              | Header.panic ↦ λ l w. panicked w
            ])
        by_result (Header.ok r) =
            seq-Keeps _ _ (manager_write-Keeps host _ (create_camera-Keeps ip)) (
              camera_write-Keeps host ip _ (take_video_frame-Keeps host local_port ip port r.0 r.1))
        by_result Header.err = skip-Keeps
        by_result Header.panic = record { keeps = λ l w s. IsKept-refl ip w s }

    answer_probe-Keeps :
        (config : AppConfig) (p : ℕ)
        → (32000 ≤ p) × (p < 65000)
        → Keeps ip (answer_probe host local_port ip port config p)
    unfolding answer_probe
    answer_probe-Keeps config p h =
        if_rule (Keeps ip) (host.bind_ok p)
          (seq-Keeps _ _
            (update_camera-Keeps host ip (set_video_port p) (λ c s. record {
              address = s.address;
              buffer = s.buffer;
              bucket = s.bucket;
              packages = s.packages;
              session = (s.session.0, (refl, h.0, h.1), s.session.2, s.session.3);
            }))
            (respond-Keeps (probe_response host config p)))
          (respond-Keeps (probe_response host config config.udp_stream_port_2))

    -- The port that is drawn is one of the range that it is drawn from.
    handle_udp_probe-Keeps :
        (config : AppConfig) → Keeps ip (handle_udp_probe host local_port ip port config)
    unfolding handle_udp_probe draw
    handle_udp_probe-Keeps config = record {
      keeps = λ l w s.
          let random_port : ℕ = host.gen_range w.draws 32000 65000 in
          let bounds = host.gen_range_bounds w.draws 32000 65000 (omega arith) in
          (answer_probe-Keeps config random_port bounds).keeps l (record w { draws = w.draws + 1 })
            s;
    }

    handle_code51_response-Keeps :
        (p : Bytes) → Keeps ip (handle_code51_response host local_port ip port p)
    unfolding handle_code51_response
    handle_code51_response-Keeps p =
        if_rule (Keeps ip) (is_utf8 p)
          (seq-Keeps _ _ (manager_write-Keeps host _ (create_camera-Keeps ip)) (
            camera_write-Keeps host ip _ (
              bind-Keeps _ _ utc_now-Keeps (λ now.
                seq-Keeps _ _ (modify-Keeps ip _ (heartbeat-IsSoundCamera now)) (
                  seq-Keeps _ _
                    (modify-Keeps ip probe_stepped (λ c s. record {
                      address = s.address;
                      buffer = s.buffer;
                      bucket = s.bucket;
                      packages = s.packages;
                      session = (
                        s.session.0,
                        s.session.1,
                        next_probe-IsProbe c.probe_state s.session.2,
                        s.session.3,
                      );
                    }))
                    (respond-Keeps (code_only host 50)))))))
          skip-Keeps

    handle_udp_heartbeat-Keeps : Keeps ip (handle_udp_heartbeat host local_port ip port)
    unfolding handle_udp_heartbeat
    handle_udp_heartbeat-Keeps = bind-Keeps _ _ utc_now-Keeps (λ now.
        seq-Keeps _ _
          (update_camera-Keeps host ip (λ c. insert_port port (update_heartbeat now c))
            (λ c s.
              let t = heartbeat-IsSoundCamera now c s in
              record {
                address = t.address;
                buffer = t.buffer;
                bucket = t.bucket;
                packages = t.packages;
                session = t.session;
              }))
          (send-Keeps host _))

    handle_udp_keepalive-Keeps : Keeps ip (handle_udp_keepalive host local_port ip port)
    unfolding handle_udp_keepalive
    handle_udp_keepalive-Keeps = respond-Keeps (code_only host 101)

    other_command-Keeps :
        (d : Bytes) (h : ProtocolHeader) → Keeps ip (other_command host local_port ip port d h)
    unfolding other_command handle_raw_udp_keepalive
    other_command-Keeps d h =
        if_rule (Keeps ip) (length d == 20 && (h.cmd == 0 && h.msg_flag == 0)) (send-Keeps host _)
          skip-Keeps

    dispatch-Keeps :
        (config : AppConfig) (d : Bytes) (h : ProtocolHeader) (p : Bytes)
        → Keeps ip (dispatch host local_port ip port config d h p)
    unfolding dispatch
    dispatch-Keeps config d h p = if_rule (Keeps ip) (h.cmd == 0) (handle_udp_probe-Keeps config) (
        if_rule (Keeps ip) (h.cmd == 100) handle_udp_heartbeat-Keeps (
          if_rule (Keeps ip) (h.cmd == 102) handle_udp_keepalive-Keeps (
            if_rule (Keeps ip) (h.cmd == 1 || (h.cmd == 4 || (h.cmd == 6 || h.cmd == 7)))
              (handle_video_frame-Keeps d)
              (if_rule (Keeps ip) (h.cmd == 51) (handle_code51_response-Keeps p)
                (other_command-Keeps d h)))))

    pub process_message-Keeps :
        (config : AppConfig) (d : Bytes)
        → Keeps ip (process_message host local_port ip port config d)
    unfolding process_message
    process_message-Keeps config d =
        if_rule (Keeps ip) (ltb (length d) header_size) skip-Keeps
          (bind-Keeps _ _ (parse_header-Keeps d) (λ r. dispatch-Keeps config d r.0 r.1))
