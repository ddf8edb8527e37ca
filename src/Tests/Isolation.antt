-- ===== src/Tests/Isolation.antt =====
-- A camera at 0.0.0.7, and what the server does for another one.
use a9_v.Prelude.{◌≡◌, ◌∷◌, [], arith}
use a9_v.Prelude.Map.{lookup}
use a9_v.Config
use a9_v.Runtime.{World, world_of, idle_locks}
use a9_v.Udp.Messages.{process_message}
use a9_v.Tcp.{start_streaming_for_camera}
use a9_v.Server.Isolation.{TurnsFor, none_yet, one_more, datagram, starts, TurnsFor-IsApart}
use a9_v.Tests.Setup.{plain_host, plain_json}
use a9_v.Tests.Turns.{accepted, accepted-Reachable}

-- A datagram from 0.0.0.9, and a start of its streaming.
abbrev heard : World
heard =
    world_of
      (process_message plain_host 6123 9 53221 Config.default (1 ∷ 2 ∷ []) idle_locks accepted)

abbrev streams : World
streams = world_of (start_streaming_for_camera plain_host 9 idle_locks heard)

turns : TurnsFor plain_host plain_json Config.default 9 accepted streams
turns =
    one_more (one_more none_yet (datagram idle_locks accepted 6123 53221 (1 ∷ 2 ∷ [])))
      (starts idle_locks heard)

TurnsFor-IsApart_example : lookup 7 streams.manager.cameras ≡ lookup 7 accepted.manager.cameras
TurnsFor-IsApart_example =
    TurnsFor-IsApart plain_host plain_json Config.default 9 7 accepted-Reachable
      (λ e. omega (arith, e)) turns
