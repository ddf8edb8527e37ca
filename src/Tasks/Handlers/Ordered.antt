-- ===== src/Tasks/Handlers/Ordered.antt =====
-- The handlers that take the manager's lock before a camera's, and a camera's before a connection's.
use Prim.{⊥}
use a9_v.Prelude.{ℕ, ◌≤◌, ◌≡◌, refl, List, [], ◌∷◌, All, map, true, false, arith, ◌⊎◌}
use a9_v.Tasks.{
  manager, connection, Access, shared, exclusive, Code, finish, take, drop, either, Guards, System,
  Step, Run, start,
}
use a9_v.Tasks.Order.{IsOrdered}
use a9_v.Tasks.Order.Progress.{AreFinished}
use a9_v.Tasks.Order.Ends.{sizes, Run-IsOrdered}
use a9_v.Tasks.Handlers.{
  update_locks, connection_locks, write_locks, search_locks, read_locks, try_search_locks,
  try_camera_locks, sweep_locks, stop_ask_locks,
}
use a9_v.Tasks.Handlers.Mix.{
  Handler, handle_udp_probe_task, handle_udp_keepalive_task, handle_code51_response_task,
  handle_udp_heartbeat_task, handle_video_frame_task, incomplete_frames_task, connection_start_task,
  connection_end_task, handle_registration_task, handle_snapshot_request_task,
  handle_device_info_request_task, handle_nat_probe_response_task, send_streaming_command_task,
  send_stop_streaming_command_task, handle_streaming_request_task, start_streaming_for_camera_task,
  stop_streaming_for_camera_task, handle_heartbeat_task, handle_keepalive_task,
  trigger_snapshot_for_camera_task, handle_video_frame_tcp_task, list_cameras_task,
  get_camera_info_task, get_video_stream_task, stream_control_task, stop_task, snapshot_task,
  code_of,
}

-- All but three: the last packet of a frame, device info and the information on a camera.
abbrev pub TakesInOrder : Handler → Type 0
TakesInOrder (handle_video_frame_task last ip) = last ≡ false
TakesInOrder (handle_device_info_request_task ip conn) = ⊥
TakesInOrder (get_camera_info_task ips ip) = ⊥
TakesInOrder h = Unit

abbrev under_manager : Access → Guards
under_manager a = (manager, a) ∷ []

update_locks-IsOrdered : (ip : ℕ) (k : Code) → IsOrdered k [] → IsOrdered (update_locks ip k) []
update_locks-IsOrdered ip k o = (tt, ((omega arith, tt), o))

connection_locks-IsOrdered :
    (ip conn : ℕ) (k : Code) → IsOrdered k [] → IsOrdered (connection_locks ip conn k) []
connection_locks-IsOrdered ip conn k o =
    (tt, (o, ((omega arith, tt), (o, ((omega arith, (omega arith, tt)), (o, refl))))))

write_locks-IsOrdered :
    (ip conn : ℕ) (k : Code) → IsOrdered k [] → IsOrdered (write_locks ip conn k) []
write_locks-IsOrdered ip conn k o =
    let w : IsOrdered (either k (take exclusive (connection conn) (drop (either k finish)))) [] =
      (o, (tt, (o, refl))) in
    (tt, (w, ((omega arith, tt), w)))

search_locks-IsOrdered :
    (ips : List ℕ) (a : Access) (found missing : Code)
    → IsOrdered found (under_manager a)
    → IsOrdered missing (under_manager a)
    → IsOrdered (search_locks ips found missing) (under_manager a)
search_locks-IsOrdered [] a found missing p q = q
search_locks-IsOrdered (ip ∷ ips) a found missing p q =
    ((omega arith, tt), (p, search_locks-IsOrdered ips a found missing p q))

read_locks-IsOrdered :
    (ips : List ℕ) (a : Access) (k : Code)
    → IsOrdered k (under_manager a)
    → IsOrdered (read_locks ips k) (under_manager a)
read_locks-IsOrdered [] a k o = o
read_locks-IsOrdered (ip ∷ ips) a k o = ((omega arith, tt), read_locks-IsOrdered ips a k o)

try_search_locks-IsOrdered :
    (ips : List ℕ) (a : Access) (found missing : Code)
    → IsOrdered found (under_manager a)
    → IsOrdered missing (under_manager a)
    → IsOrdered (try_search_locks ips found missing) (under_manager a)
try_search_locks-IsOrdered [] a found missing p q = q
try_search_locks-IsOrdered (ip ∷ ips) a found missing p q =
    let r = try_search_locks-IsOrdered ips a found missing p q in ((p, r), r)

sweep_locks-IsOrdered :
    (ips : List ℕ) (a : Access) (k : Code)
    → IsOrdered k (under_manager a)
    → IsOrdered (sweep_locks ips k) (under_manager a)
sweep_locks-IsOrdered [] a k o = o
sweep_locks-IsOrdered (ip ∷ ips) a k o = let r = sweep_locks-IsOrdered ips a k o in (r, r)

try_camera_locks-IsOrdered :
    (ip : ℕ) (k : Code) → IsOrdered k [] → IsOrdered (try_camera_locks ip k) []
try_camera_locks-IsOrdered ip k o = (tt, (o, (o, o)))

code_of-IsOrdered : (h : Handler) → TakesInOrder h → IsOrdered (code_of h) []
code_of-IsOrdered (handle_udp_probe_task ip) t = (update_locks-IsOrdered ip finish refl, refl)
code_of-IsOrdered handle_udp_keepalive_task t = refl
code_of-IsOrdered (handle_code51_response_task ip) t = (refl, (tt, (tt, refl)))
code_of-IsOrdered (handle_udp_heartbeat_task ip) t = update_locks-IsOrdered ip finish refl
code_of-IsOrdered (handle_video_frame_task true ip) t = cc
code_of-IsOrdered (handle_video_frame_task false ip) t = (refl, (tt, (tt, refl)))
code_of-IsOrdered (incomplete_frames_task ips) t =
    (tt, sweep_locks-IsOrdered ips exclusive (drop finish) refl)
code_of-IsOrdered (connection_start_task ip) t = update_locks-IsOrdered ip finish refl
code_of-IsOrdered (connection_end_task ip) t = (tt, (((omega arith, tt), refl), refl))
code_of-IsOrdered (handle_registration_task ip conn) t =
    let u = update_locks-IsOrdered ip finish refl in
    (
      refl,
      update_locks-IsOrdered ip (either (connection_locks ip conn (update_locks ip finish)) finish)
          (connection_locks-IsOrdered ip conn (update_locks ip finish) u, refl),
    )
code_of-IsOrdered (handle_snapshot_request_task ip conn) t = (
  refl,
  connection_locks-IsOrdered ip conn (update_locks ip finish)
      (update_locks-IsOrdered ip finish refl),
)
code_of-IsOrdered (handle_device_info_request_task ip conn) t = absurd t
code_of-IsOrdered (handle_nat_probe_response_task ip conn) t =
    write_locks-IsOrdered ip conn (update_locks ip finish) (update_locks-IsOrdered ip finish refl)
code_of-IsOrdered (send_streaming_command_task ip conn) t =
    write_locks-IsOrdered ip conn finish refl
code_of-IsOrdered (send_stop_streaming_command_task ip conn) t =
    write_locks-IsOrdered ip conn finish refl
code_of-IsOrdered (handle_streaming_request_task ip conn) t = (
  refl,
  connection_locks-IsOrdered ip conn (update_locks ip finish)
      (update_locks-IsOrdered ip finish refl),
)
code_of-IsOrdered (start_streaming_for_camera_task ip conn) t =
    connection_locks-IsOrdered ip conn (update_locks ip finish)
      (update_locks-IsOrdered ip finish refl)
code_of-IsOrdered (stop_streaming_for_camera_task ip) t = (tt, (((omega arith, tt), refl), refl))
code_of-IsOrdered (handle_heartbeat_task ip) t = update_locks-IsOrdered ip finish refl
code_of-IsOrdered (handle_keepalive_task ip conn) t = connection_locks-IsOrdered ip conn finish refl
code_of-IsOrdered (trigger_snapshot_for_camera_task ip) t = update_locks-IsOrdered ip finish refl
code_of-IsOrdered (handle_video_frame_tcp_task ip) t = (tt, (tt, refl))
code_of-IsOrdered (list_cameras_task ips) t =
    (tt, read_locks-IsOrdered ips shared (drop finish) refl)
code_of-IsOrdered (get_camera_info_task ips ip) t = absurd t
code_of-IsOrdered (get_video_stream_task ips) t =
    (tt, search_locks-IsOrdered ips shared (drop finish) (drop finish) refl refl)
code_of-IsOrdered (stream_control_task ips ip) t = (
  tt,
  try_search_locks-IsOrdered ips shared (drop (either finish (try_camera_locks ip finish)))
      (drop finish) (refl, try_camera_locks-IsOrdered ip finish refl) refl,
)
code_of-IsOrdered (stop_task ip conn) t =
    let a : IsOrdered (stop_ask_locks ip conn) [] = ((refl, ((refl, (tt, refl)), refl)), refl) in
    ((a, (a, a)), a)
code_of-IsOrdered (snapshot_task conn) t = (tt, refl)

codes-IsOrdered :
    (hs : List Handler) → All TakesInOrder hs → All (λ c. IsOrdered c []) (map code_of hs)
codes-IsOrdered [] t = tt
codes-IsOrdered (h ∷ hs) t = (code_of-IsOrdered h t.0, codes-IsOrdered hs t.1)

-- Any handlers of the routers and of the camera endpoints, started together and interleaved in any way
-- at the locks, none of them the last packet of a frame over UDP, code 51 over TCP or
-- `get_camera_info`: after any run all of them are at their end with no guard left, or one of them can
-- go on; and a run has no more steps than their sizes add up to. So no run ends in a deadlock, and one
-- that goes on as long as it can ends with all of them at their end.
pub handlers-AreFinished :
    (hs : List Handler) {n : ℕ} {t : System}
    → All TakesInOrder hs
    → Run (start (map code_of hs)) n t
    → (n ≤ sizes (map code_of hs)) × (AreFinished t ⊎ ((u : System) × Step t u))
handlers-AreFinished hs o r = Run-IsOrdered (map code_of hs) (codes-IsOrdered hs o) r
