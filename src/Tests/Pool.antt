-- ===== src/Tests/Pool.antt =====
-- The camera pool of src/camera.rs, the receive loop of src/router/udp.rs and the start of src/main.rs.
use a9_v.Prelude.{◌≡◌, ◌≢◌, refl, ap, [], ◌∷◌, ℕ, none, some, arith, elem, not, ◌==◌, if◌then◌else◌}
use a9_v.Prelude.Int.{pos}
use a9_v.Config.{AppConfig}
use a9_v.Config
use a9_v.Camera.{nat_traversal}
use a9_v.Runtime.{World, done, idle_locks}
use a9_v.Udp.Loop.{datagram, recv_error, receive, receive-continues}
use a9_v.Server.Startup.{Sockets}
use a9_v.Pool.{PoolHost, parse_message}
use a9_v.Pool.Payload.{framed_payload}
use a9_v.Pool.Messages.{code_of, kept_text, is_known, parse_message-framed_payload}
use a9_v.Pool.Retry.{Network, IsRetried, send_with_retry, send_with_retry-IsRetried}
use a9_v.Pool.Health.{Connections, health_round, healthy_only, health_round-healthy_only}
use a9_v.Wire.{Bytes, text}
use a9_v.Manager.{device_name}
use a9_v.Pool.Connections.{camera_of, handle_new_tcp_connection, end_tcp_connection}
use a9_v.Pool.Connections.Ends.{end_tcp_connection_lem}
use a9_v.Tests.Setup.{plain_host, camera, world}

receive-continues_example :
    (w' : World) × (receive plain_host 6123 Config.default
        (datagram 7 53221 (1 ∷ 2 ∷ []) ∷ recv_error ∷ [])
        idle_locks
        world
      ≡ done tt w')
receive-continues_example =
    receive-continues plain_host 6123 Config.default
      (datagram 7 53221 (1 ∷ 2 ∷ []) ∷ recv_error ∷ []) world

-- A system on which a port is free until it is bound.
abbrev free_ports : Sockets
free_ports = record {
  bind_tcp = λ bound port. not (elem port bound);
  bind_udp = λ bound port. not (elem port bound);
  tcp_taken = λ bound port h. ap not h;
  udp_taken = λ bound port h. ap not h;
}

abbrev clash : AppConfig
clash = record Config.default { web_port = 80 }

abbrev plain_pool : PoolHost ℕ
plain_pool = record {
  as_i64 = λ v. some (pos v);
  as_str = λ v. none;
  waiting_for_code51 = nat_traversal;
}

parse_message-framed_payload_example :
    (code_of (parse_message plain_host plain_pool (framed_payload (51 ∷ []))) ≡ some 51)
    × (kept_text (parse_message plain_host plain_pool (framed_payload (51 ∷ [])))
        ≡ (if is_known (pos 51) then none else some (51 ∷ [])))
parse_message-framed_payload_example =
    parse_message-framed_payload plain_host plain_pool (51 ∷ []) 51 (pos 51) (omega arith) refl refl

-- The third send is let through.
abbrev third : Network
third = record { send_ok = λ n. n == 2; connect_to = λ n. none; now = λ n. n }

send_with_retry-IsRetried_example :
    IsRetried third camera.tcp_conn 3 (send_with_retry third 3 camera)
send_with_retry-IsRetried_example = send_with_retry-IsRetried third 3 camera

abbrev two_cameras : Connections
two_cameras = (1 ∷ [], camera) ∷ (2 ∷ [], record camera { last_keepalive = 99000000000 }) ∷ []

health_round-healthy_only_example :
    health_round 100000000000 two_cameras ≡ healthy_only 100000000000 two_cameras
health_round-healthy_only_example =
    health_round-healthy_only 100000000000 two_cameras (((λ e. cc), tt), (tt, tt))

-- 0.0.0.7 and 0.0.1.7, and an id of neither.
abbrev other_id : Bytes
other_id = text "cam9"

other_id-ne : other_id ≢ device_name 7
unfolding device_name
other_id-ne e = cc

end_tcp_connection_lem_example :
    let opened =
      handle_new_tcp_connection 263 6123 4
        (2, 2, 2)
        (handle_new_tcp_connection 7 6123 3 (1, 1, 1) []) in
    let left = end_tcp_connection (device_name 7) opened in
    (camera_of (device_name 263) left ≡ none) × (camera_of other_id left ≡ camera_of other_id [])
end_tcp_connection_lem_example =
    end_tcp_connection_lem plain_host plain_pool [] 7 263 6123 6123 3 4 (1, 1, 1) (2, 2, 2) other_id
      refl other_id-ne
