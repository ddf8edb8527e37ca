-- ===== src/Tests/Turns.antt =====
-- A server that a camera has connected to.
use a9_v.Prelude.{refl, [], ◌∷◌, ◌≤◌, ◌≡◌, ◌∙◌, ap, length, IsDistinct, some}
use a9_v.Prelude.Map.{lookup}
use a9_v.Config
use a9_v.Manager
use a9_v.Web.Info.{get_camera_info, list_cameras}
use a9_v.Server.Info.{ok_answer, info_of, ids_of, get_camera_info_lem}
use a9_v.Camera.{CameraConnection}
use a9_v.Camera.Session.{IsSession}
use a9_v.Runtime.{set_camera, done, World, world_of, update_camera, idle_locks}
use a9_v.Runtime.Cells.{camera_at, update_camera-idle, lookup-set_camera}
use a9_v.Tcp.Router.{connected}
use a9_v.Server.{boot, accepts, Reachable, booted, after, Reachable-cameras, Reachable-IsSession}
use a9_v.Tests.Setup.{plain_host, plain_json}

abbrev pub fresh : World
fresh = boot Config.default 1

abbrev pub accepted : World
accepted = world_of (update_camera plain_host 7 (connected 3) idle_locks fresh)

abbrev pub known : CameraConnection
known = connected 3 (camera_at 7 fresh)

pub accepted-Reachable : Reachable plain_host plain_json Config.default accepted
accepted-Reachable = after (booted 1) (accepts idle_locks fresh 7 3)

pub lookup-accepted : lookup 7 accepted.manager.cameras ≡ some known
lookup-accepted =
    ap (λ o. lookup 7 (world_of o).manager.cameras)
      (update_camera-idle plain_host 7 (connected 3) fresh)
    ∙ lookup-set_camera 7 known fresh

Reachable-cameras_example :
    (known.ip ≡ 7)
    × (known.stream_buffer.max_frames ≡ 100)
    × (length known.stream_buffer.frames ≤ 100)
    × IsDistinct known.retransmission_bucket
    × IsDistinct known.received_packages
Reachable-cameras_example =
    Reachable-cameras plain_host plain_json Config.default 7 known accepted-Reachable
      lookup-accepted

Reachable-IsSession_example : IsSession known
Reachable-IsSession_example =
    Reachable-IsSession plain_host plain_json Config.default 7 known accepted-Reachable
      lookup-accepted

fresh-cameras : (set_camera 7 known fresh).manager.cameras ≡ (7, known) ∷ []
unfolding set_camera Manager.new
fresh-cameras = refl

accepted-cameras : accepted.manager.cameras ≡ (7, known) ∷ []
accepted-cameras =
    ap (λ o. (world_of o).manager.cameras) (update_camera-idle plain_host 7 (connected 3) fresh)
    ∙ fresh-cameras

get_camera_info_lem_example :
    (length known.stream_buffer.frames ≤ 100)
    × (get_camera_info plain_host plain_json known.device_id idle_locks accepted
        ≡ done
            (ok_answer plain_host plain_json
              (info_of plain_host plain_json known.device_id 7 known))
            accepted)
    × (list_cameras plain_host plain_json idle_locks accepted
        ≡ done
            (ok_answer plain_host plain_json
              (ids_of plain_host plain_json accepted.manager.cameras))
            accepted)
get_camera_info_lem_example =
    get_camera_info_lem plain_host plain_json Config.default known.device_id [] [] 7 known accepted
      accepted-Reachable accepted-cameras lookup-accepted tt refl
