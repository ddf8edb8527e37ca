-- ===== src/Tests/Web.antt =====
-- The web server of src/web on a server with one camera, whose id is the text of one byte 109.
use a9_v.Prelude.{◌≡◌, refl, [], ◌∷◌, ℕ, arith, none, some}
use a9_v.Wire.{Bytes}
use a9_v.Camera.{idle}
use a9_v.Runtime.{Locks, done, tcp, writing, set_camera, idle_locks}
use a9_v.Runtime.Sends.{sent}
use a9_v.Web.Video.{crlf, mjpeg_data}
use a9_v.Web.Video.Multipart.{read_part, read_part-mjpeg_data}
use a9_v.Web.Control.{Reply, start_streaming, stop_streaming, trigger_snapshot, run_task, stop_task}
use a9_v.Web.Control.Effects.{json_packet, stop_task_lem, stop_task-lost}
use a9_v.Web.Routes.{api_info, serve}
use a9_v.Web.Routes.ReadOnly.{Leaves}
use a9_v.Web.Routes.ReadOnly.Answers.{IsReadable, serve-Leaves, control-answers}
use a9_v.Tests.Setup.{plain_host, plain_json, camera, world, delivers}

abbrev id : Bytes
id = 109 ∷ []

serve-Leaves_example :
    Leaves ⊥
      (IsReadable plain_host idle_locks)
      world
      (serve plain_host plain_json (api_info id) idle_locks world)
serve-Leaves_example = serve-Leaves plain_host plain_json (api_info id) idle_locks world

-- The camera's lock is taken by a writer.
abbrev camera_taken : Locks
camera_taken = record { manager = []; cameras = (7, writing ∷ []) ∷ [] }

control-answers_example :
    ((a : Reply ℕ) × (start_streaming plain_host plain_json id camera_taken world ≡ done a world))
    × ((b : Reply ℕ) × (stop_streaming plain_host plain_json id camera_taken world ≡ done b world))
    × ((c : Reply ℕ) × (trigger_snapshot plain_host plain_json id camera_taken world
          ≡ done c world))
control-answers_example = control-answers plain_host plain_json id camera_taken world refl

read_part-mjpeg_data_example : read_part (mjpeg_data (255 ∷ 216 ∷ [])) ≡ some (255 ∷ 216 ∷ [], crlf)
read_part-mjpeg_data_example = read_part-mjpeg_data (255 ∷ 216 ∷ []) (omega arith)

stop_task_lem_example :
    run_task plain_host (stop_task 7) idle_locks world
    ≡ done tt (
        sent (tcp 3 (json_packet plain_host (301 ∷ []))) (
          set_camera 7
            (record camera {
              udp_ports = [];
              stream_buffer = record camera.stream_buffer { frames = []; current_frame = none };
              state = idle;
            })
            world))
stop_task_lem_example = stop_task_lem plain_host 7 3 camera (301 ∷ []) world delivers refl refl refl

stop_task-lost_example :
    run_task plain_host (stop_task 7) (record { manager = writing ∷ []; cameras = [] }) world
    ≡ done tt world
stop_task-lost_example =
    stop_task-lost plain_host 7 (record { manager = writing ∷ []; cameras = [] }) [] world refl
