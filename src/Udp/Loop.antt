-- ===== src/Udp/Loop.antt =====
-- The receive loop of UdpRouter::start in src/router/udp.rs, and how it goes on.
use a9_v.Prelude.{
  ℕ, zero, suc, ◌≡◌, refl, List, [], ◌∷◌, ◌==◌, ◌||◌, ◌&&◌, length, ltb, if_rule, replicate, take,
  Option-cases, inl, inr,
}
use a9_v.Wire.{Bytes}
use a9_v.Wire.Text.{is_utf8}
use a9_v.Protocol.Header.{ProtocolHeader, header_size}
use a9_v.Protocol.Header.RoundTrip.{parsed_cases}
use a9_v.Config.{AppConfig}
use a9_v.Camera.{update_heartbeat}
use a9_v.Runtime.{
  Host, M, World, Locks, Packet, Outcome, done, failed, panicked, stuck, udp, idle_locks, skip,
  send, attempt, after_attempt, ◌>>=◌, ◌>>◌, create_camera,
}
use a9_v.Runtime.Cells.{
  manager_write-idle, camera_write-idle, modify-created, modify-set_camera, writing_camera,
}
use a9_v.Tcp.Safety.{Ends, Returns, >>-Returns, update_camera-Returns, send-Ends}
use a9_v.Udp.{parse_header, insert_port, empty_confirmation, handle_video_frame}
use a9_v.Udp.Video.{handle_video_frame-silent}
use a9_v.Udp.Messages.{
  json_message, code_only, probe_response, set_video_port, probe_stepped, handle_udp_keepalive,
  draw, answer_probe, handle_udp_probe, handle_raw_udp_keepalive, handle_code51_response,
  handle_udp_heartbeat, other_command, dispatch, process_message, sweep_round,
}

-- What comes to the socket: a datagram with the address and the port of its source, or an error of
-- `recv_from`.
pub data Received : Type 0 where
  datagram : ℕ → ℕ → Bytes → Received
  recv_error : Received

-- The length of the buffer of the loop. `recv_from` cuts off what does not fit into it.
abbrev pub buffer_size : ℕ
buffer_size = 4096

module _ {Value : Type 0} (host : Host Value) (local_port : ℕ) (config : AppConfig) where
  -- The rounds of the loop on what is received. An error of a handler is logged.
  unfoldable pub receive : List Received → M (Unit {0})
  unfolding process_message
  receive [] = skip
  receive (datagram ip port d ∷ rs) =
      let rest = receive rs in
      attempt (process_message host local_port ip port config (take buffer_size d)) >> rest
  receive (recv_error ∷ rs) = receive rs

  -- It only sleeps.
  unfoldable pub periodic_retransmission_task : ℕ → M (Unit {0})
  periodic_retransmission_task rounds = skip

  unfoldable pub periodic_incomplete_frame_task : ℕ → M (Unit {0})
  unfolding sweep_round
  periodic_incomplete_frame_task zero = skip
  periodic_incomplete_frame_task (suc rounds) =
      sweep_round host >> periodic_incomplete_frame_task rounds

  -- The tasks that `start` spawns, for so many rounds, and then its own loop.
  unfoldable pub router_tasks : ℕ → List Received → List (M (Unit {0}))
  unfolding periodic_retransmission_task periodic_incomplete_frame_task receive
  router_tasks rounds received =
      periodic_retransmission_task rounds
      ∷ periodic_incomplete_frame_task rounds
      ∷ receive received
      ∷ []

  module _ (ip port : ℕ) where
    respond-Ends :
        (v : Value) (l : Locks) (w : World)
        → Ends ((json_message host v >>= λ m. send host (udp local_port ip port m)) l w)
    respond-Ends v l w = elim (Option-cases (host.to_string v)) [
      | inl e ↦ rw e (λ b. b)
      | inr (s, e) ↦ rw e (send-Ends host _ l w)
    ]

    respond-Returns :
        (v : Value) → Returns (json_message host v >>= λ m. send host (udp local_port ip port m))
    respond-Returns v = record { returns = λ w. respond-Ends v idle_locks w }

    skip-Returns : Returns skip
    skip-Returns = record { returns = λ w b. b }

    handle_udp_probe-Returns : Returns (handle_udp_probe host local_port ip port config)
    unfolding handle_udp_probe answer_probe draw
    handle_udp_probe-Returns = record {
      returns = λ w. (answered (host.gen_range w.draws 32000 65000)).returns _;
    }
      where
        answered : (p : ℕ) → Returns (answer_probe host local_port ip port config p)
        answered p =
            if_rule Returns (host.bind_ok p)
              (>>-Returns host _ _ (update_camera-Returns host ip (set_video_port p))
                (respond-Returns (probe_response host config p)))
              (respond-Returns (probe_response host config config.udp_stream_port_2))

    send-Returns : (p : Packet) → Returns (send host p)
    send-Returns p = record { returns = λ w. send-Ends host p idle_locks w }

    handle_udp_heartbeat-Returns : Returns (handle_udp_heartbeat host local_port ip port)
    unfolding handle_udp_heartbeat
    handle_udp_heartbeat-Returns = record {
      returns = λ w.
          (>>-Returns host _ (send host (udp local_port ip port empty_confirmation))
              (update_camera-Returns host ip (λ c. insert_port port (update_heartbeat w.clock c)))
              (send-Returns (udp local_port ip port empty_confirmation))).returns
            w;
    }

    handle_code51_response-Returns :
        (p : Bytes) → Returns (handle_code51_response host local_port ip port p)
    unfolding handle_code51_response create_camera
    handle_code51_response-Returns p =
        if_rule Returns (is_utf8 p)
          (record {
            returns = λ w.
                rw
                  (
                    manager_write-idle host (create_camera ip) w,
                    camera_write-idle,
                    modify-created ip (update_heartbeat w.clock) (writing_camera ip) w,
                    modify-set_camera ip probe_stepped,
                  )
                  (respond-Ends (code_only host 50) (writing_camera ip) _);
          })
          skip-Returns

    handle_video_frame-Returns :
        (d : Bytes) → Returns (handle_video_frame host local_port ip port d)
    handle_video_frame-Returns d = record {
      returns = λ w.
          let (v, e, _, _) = handle_video_frame-silent host local_port ip port d w in rw e (λ b. b);
    }

    other_command-Returns :
        (d : Bytes) (h : ProtocolHeader) → Returns (other_command host local_port ip port d h)
    unfolding other_command handle_raw_udp_keepalive
    other_command-Returns d h =
        if_rule Returns (length d == 20 && (h.cmd == 0 && h.msg_flag == 0))
          (send-Returns (udp local_port ip port (replicate 20 0))) skip-Returns

    dispatch-Returns :
        (d : Bytes) (h : ProtocolHeader) (p : Bytes)
        → Returns (dispatch host local_port ip port config d h p)
    unfolding dispatch handle_udp_keepalive
    dispatch-Returns d h p = if_rule Returns (h.cmd == 0) handle_udp_probe-Returns (
        if_rule Returns (h.cmd == 100) handle_udp_heartbeat-Returns (
          if_rule Returns (h.cmd == 102) (respond-Returns (code_only host 101)) (
            if_rule Returns (h.cmd == 1 || (h.cmd == 4 || (h.cmd == 6 || h.cmd == 7)))
              (handle_video_frame-Returns d)
              (if_rule Returns (h.cmd == 51) (handle_code51_response-Returns p)
                (other_command-Returns d h)))))

    -- Started with no lock held, processing any datagram ends with a value or an error, without a
    -- panic or a wait for ever.
    pub udp_message-returns :
        (d : Bytes) (w : World)
        → Ends (process_message host local_port ip port config d idle_locks w)
    unfolding process_message
    udp_message-returns d w =
        if_rule (λ (m : M (Unit {0})). Ends (m idle_locks w)) (ltb (length d) header_size) (λ b. b)
          (elim (parsed_cases host.buf d) [
            | inl (_, e) ↦ rw (e, parse_header) (λ b. b)
            | inr (h, p, e) ↦ rw (e, parse_header) ((dispatch-Returns d h p).returns w)
          ])

  attempted : (o : Outcome (Unit {0})) → Ends o → (w' : World) × (after_attempt o ≡ done tt w')
  attempted (done a w) h = (w, refl)
  attempted (failed w) h = (w, refl)
  attempted (panicked w) h = absurd (h tt)
  attempted (stuck l w) h = absurd (h tt)

  -- Whatever is received, datagrams with any bytes and errors, the loop gets through it: no datagram
  -- ends it or keeps it waiting, where no other task holds a lock.
  pub receive-continues :
      (rs : List Received) (w : World) → (w' : World) × (receive rs idle_locks w ≡ done tt w')
  unfolding receive
  receive-continues [] w = (w, refl)
  receive-continues (datagram ip port d ∷ rs) w =
      let (v, e) =
        attempted (process_message host local_port ip port config (take buffer_size d) idle_locks w)
          (udp_message-returns ip port (take buffer_size d) w) in
      let (w', q) = receive-continues rs v in (w', rw e q)
  receive-continues (recv_error ∷ rs) w = receive-continues rs w
