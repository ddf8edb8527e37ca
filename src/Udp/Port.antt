-- ===== src/Udp/Port.antt =====
-- The port that src/router/udp.rs offers to a camera that probes it.
use a9_v.Prelude.{ℕ, ◌+◌, ◌<◌, ◌≤◌, ◌≡◌, some, subst, arith, if◌then◌else◌, Bool-cases, inl, inr}
use a9_v.Wire.{Bytes}
use a9_v.Config.{AppConfig}
use a9_v.Runtime.{Host, World, done, udp, idle_locks, set_camera, ◌>>=◌, send}
use a9_v.Runtime.Cells.{camera_at, update_camera-idle}
use a9_v.Runtime.Sends.{Delivers, sent, send-sent}
use a9_v.Udp.Messages.{
  handle_udp_probe, answer_probe, set_video_port, probe_response, json_message, framed_json,
}

module _ {Value : Type 0} (host : Host Value) (local_port ip port : ℕ) where
  reply-sent :
      (v : Value) (s : Bytes) (w : World)
      → Delivers host
      → host.to_string v ≡ some s
      → (json_message host v >>= λ m. send host (udp local_port ip port m)) idle_locks w
        ≡ done tt (sent (udp local_port ip port (framed_json host s)) w)
  reply-sent v s w d e = rw (e, send-sent host _ idle_locks w d)

  module _ (config : AppConfig) (w : World) where
    -- The random port, the world after it is drawn, and the port that is offered.
    abbrev pub random_port : ℕ
    random_port = host.gen_range w.draws 32000 65000

    abbrev pub drawn : World
    drawn = record w { draws = w.draws + 1 }

    abbrev pub offered_port : ℕ
    offered_port = if host.bind_ok random_port then random_port else config.udp_stream_port_2

    -- The socket is stored where there is one.
    abbrev pub port_stored : World
    port_stored =
        if host.bind_ok random_port
        then set_camera ip (set_video_port random_port (camera_at ip w)) drawn
        else drawn

    -- Where the writes succeed and the response can be printed, a probe is answered with a port, over
    -- the socket that it came in on: a random one from 32000 to 64999, which is stored in the camera,
    -- if a socket can be bound to it, and otherwise the second stream port of the configuration, and
    -- no camera changes then.
    pub handle_udp_probe_lem :
        (s : Bytes)
        → Delivers host
        → host.to_string (probe_response host config offered_port) ≡ some s
        → (32000 ≤ random_port)
          × (random_port < 65000)
          × (handle_udp_probe host local_port ip port config idle_locks w
              ≡ done tt (sent (udp local_port ip port (framed_json host s)) port_stored))
    unfolding handle_udp_probe answer_probe
    handle_udp_probe_lem s d e =
        let (lo, hi) = host.gen_range_bounds w.draws 32000 65000 (omega arith) in
        (
          lo,
          hi,
          elim (Bool-cases (host.bind_ok random_port)) [
            | inl b ↦
                rw (b, answer_probe, update_camera-idle host ip (set_video_port random_port) drawn)
                  (reply-sent (probe_response host config random_port) s _ d
                    (subst (λ x. host.to_string (probe_response host config x) ≡ some s) (rw b) e))
            | inr b ↦
                rw (b, answer_probe)
                  (reply-sent (probe_response host config config.udp_stream_port_2) s drawn d
                    (subst (λ x. host.to_string (probe_response host config x) ≡ some s) (rw b) e))
          ],
        )
