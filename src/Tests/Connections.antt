-- ===== src/Tests/Connections.antt =====
-- Messages over a camera's TCP connection that src/router/tcp.rs handles.
use a9_v.Prelude.{
  ◌+◌, ◌≡◌, refl, subst, [], ◌∷◌, ◌++◌, All, none, some, some-injective, arith, if◌then◌else◌,
}
use a9_v.Prelude.Map.{lookup}
use a9_v.Wire.{Bytes}
use a9_v.Wire.Text.{trim_nul}
use a9_v.Protocol.Header.{ProtocolHeader, InRange, to_bytes, from_bytes, ok}
use a9_v.Protocol.Header.RoundTrip.{from_bytes-to_bytes}
use a9_v.Camera.{disconnected, idle, registering, update_heartbeat}
use a9_v.Runtime.{
  World, M, done, failed, stuck, idle_locks, set_camera, manager_read, manager_write,
}
use a9_v.Runtime.Cells.{camera_at}
use a9_v.Tcp.{handle_device_info_request, handle_registration, handle_video_frame_tcp}
use a9_v.Runtime.Sends.{sent}
use a9_v.Tcp.Effects.{handle_video_frame_tcp_lem}
use a9_v.Tcp.Safety.{waiting, IsLost, Ends, handle_device_info_request-deadlock}
use a9_v.Tcp.Returns.{AsksNoInfo, process_message-returns}
use a9_v.Tcp.Router.{process_message, handle_connection, chunk, closed}
use a9_v.Tcp.Registration.{answer, handle_registration_lem}
use a9_v.Tcp.Lifecycle.{IsHarmless, handle_connection-disconnected}
use a9_v.Tests.Setup.{plain_buf, plain_host, delivers, camera, world}
use a9_v.Tests.Headers.{heartbeat}

found : lookup 7 world.manager.cameras ≡ some camera
found = refl

handle_device_info_request-deadlock_example :
    (w' : World) × (handle_device_info_request plain_host 7 idle_locks world ≡ stuck (waiting 7) w')
    × ((m : M (Unit {0})) (v : World)
        → IsLost (manager_read plain_host m (waiting 7) v)
          × IsLost (manager_write plain_host m (waiting 7) v))
handle_device_info_request-deadlock_example =
    handle_device_info_request-deadlock plain_host 7 3 (50 ∷ []) camera world found refl delivers
      refl

handle_registration_lem_example :
    handle_registration plain_host 7 (65 ∷ 66 ∷ []) idle_locks world ≡ (
      if plain_host.send_ok 0
      then done tt (
          set_camera 7
            (record camera { device_id = 65 ∷ 66 ∷ []; state = idle })
            (sent (answer plain_host 3 (101 ∷ 200 ∷ [])) world))
      else failed
          (record (set_camera 7
            (record camera { device_id = 65 ∷ 66 ∷ []; state = registering })
            world) { sends = 0 + 1 }))
handle_registration_lem_example =
    handle_registration_lem plain_host 7 3 camera world found refl (65 ∷ 66 ∷ []) (101 ∷ 200 ∷ [])
      (record { code = 100; uid = 65 ∷ 66 ∷ [] }) refl refl

handle_video_frame_tcp_lem_example :
    handle_video_frame_tcp plain_host 7 (1 ∷ 2 ∷ []) idle_locks world
    ≡ done tt (set_camera 7 (update_heartbeat 5 (camera_at 7 world)) world)
handle_video_frame_tcp_lem_example = handle_video_frame_tcp_lem plain_host 7 (1 ∷ 2 ∷ []) world

abbrev json_header : ProtocolHeader
json_header = record heartbeat { cmd = 0 }

json_header-InRange : InRange json_header
json_header-InRange = record {
  length_u32 = omega arith;
  cmd_u16 = omega arith;
  msg_flag_u8 = omega arith;
  deal_fl_u8 = omega arith;
  fwd_id_len = refl;
  fwd_id_u8 = omega arith;
  pkg_id_u32 = omega arith;
}

abbrev registration : Bytes
registration = to_bytes plain_buf json_header ++ 100 ∷ []

from_bytes-registration : from_bytes plain_buf registration ≡ ok (json_header, 100 ∷ [])
from_bytes-registration = from_bytes-to_bytes plain_buf json_header (100 ∷ []) json_header-InRange

registration-AsksNoInfo :
    (h : ProtocolHeader) (p : Bytes)
    → from_bytes plain_buf registration ≡ ok (h, p)
    → AsksNoInfo plain_host 7 (trim_nul p)
unfolding trim_nul
registration-AsksNoInfo h p e =
    let same : (100 ∷ []) ≡ p = cc (from_bytes-registration, e) in
    subst (λ q. AsksNoInfo plain_host 7 (trim_nul q)) same
      (λ v r q. omega (arith, some-injective _ _ r, some-injective _ _ q))

process_message-returns_example : Ends (process_message plain_host 7 registration idle_locks world)
process_message-returns_example =
    process_message-returns plain_host 7 registration world registration-AsksNoInfo

registrations-IsHarmless :
    All (IsHarmless plain_host 7) (chunk registration ∷ chunk registration ∷ [])
registrations-IsHarmless = (registration-AsksNoInfo, (registration-AsksNoInfo, tt))

handle_connection-disconnected_example :
    (w' : World) × (handle_connection plain_host 7 4
        ((chunk registration ∷ chunk registration ∷ []) ++ closed ∷ [])
        idle_locks
        world
      ≡ done tt w')
    × ((camera_at 7 w').tcp_conn ≡ none)
    × ((camera_at 7 w').state ≡ disconnected)
handle_connection-disconnected_example =
    handle_connection-disconnected plain_host 7 4 (chunk registration ∷ chunk registration ∷ [])
      world registrations-IsHarmless
