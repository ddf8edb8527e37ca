-- ===== src/Tcp/Router.antt =====
-- `process_message` and `handle_connection` of src/router/tcp.rs.
use a9_v.Prelude.{ℕ, List, [], ◌∷◌, Bool, true, false, ◌||◌, none, some, ◌==◌, if◌then◌else◌}
use a9_v.Wire.{Bytes}
use a9_v.Wire.Text.{is_utf8, trim_nul}
use a9_v.Protocol.Header.{ProtocolHeader}
use a9_v.Camera.{CameraConnection, configuring, disconnected}
use a9_v.Runtime.{
  Host, M, done, failed, panicked, stuck, ◌>>=◌, ◌>>◌, skip, attempt, get_camera, modify,
  manager_write, camera_write, update_camera,
}
use a9_v.Udp.{parse_header}
use a9_v.Tcp.{
  handle_registration, handle_snapshot_request, handle_device_info_request,
  handle_nat_probe_response, send_streaming_command, send_stop_streaming_command,
  handle_streaming_request, handle_heartbeat, handle_keepalive, handle_video_frame_tcp,
}

abbrev pub connected : ℕ → CameraConnection → CameraConnection
connected conn c = record c { tcp_conn = some conn; state = configuring }

abbrev pub hung_up : CameraConnection → CameraConnection
hung_up c = record c { tcp_conn = none; state = disconnected }

-- What a read from the socket gives.
pub data Read : Type 0 where
  chunk : Bytes → Read
  closed : Read
  broken : Read

module _ {Value : Type 0} (host : Host Value) (ip : ℕ) where
  -- The code of the content of an echoed forward command.
  unfoldable pub echoed_command : ℕ → M (Unit {0})
  echoed_command n =
      if n == 298
      then skip
      else if n == 4
      then send_streaming_command host ip
      else if n == 3
      then send_stop_streaming_command host ip
      else skip

  unfoldable pub echoed_content : Value → M (Unit {0})
  unfolding echoed_command
  echoed_content content = elim (host.get content "code") [
    | some code ↦ elim (host.as_u64 code) [ some n ↦ echoed_command n | none ↦ skip ]
    | none ↦ skip
  ]

  unfoldable pub streaming_message : Bytes → Value → M (Unit {0})
  streaming_message json_str json = elim (host.get json "uid") [
    | some _ ↦ handle_streaming_request host ip json_str
    | none ↦ skip
  ]

  -- A message with code 301.
  unfoldable pub forward_message : Bytes → Value → M (Unit {0})
  unfolding echoed_content streaming_message
  forward_message json_str json = elim (host.get json "target") [
    | some _ ↦ elim (host.get json "content") [
      | some content ↦ echoed_content content
      | none ↦ streaming_message json_str json
    ]
    | none ↦ streaming_message json_str json
  ]

  unfoldable pub json_code : Bytes → Value → ℕ → M (Unit {0})
  unfolding forward_message
  json_code json_str json code =
      if code == 100
      then handle_registration host ip json_str
      else if code == 12
      then handle_nat_probe_response host ip
      else if code == 51
      then handle_device_info_request host ip
      else if code == 201
      then handle_snapshot_request host ip json_str
      else if code == 301
      then forward_message json_str json
      else skip

  -- The value behind its text without leading zero bytes.
  unfoldable pub json_message : Bytes → M (Unit {0})
  unfolding json_code
  json_message clean = elim (host.from_str clean) [
    | some json ↦ elim (host.as_u64 (host.index json "code")) [
      | some code ↦ json_code clean json code
      | none ↦ skip
    ]
    | none ↦ skip
  ]

  unfoldable pub dispatch : ProtocolHeader → Bytes → M (Unit {0})
  unfolding json_message
  dispatch h payload =
      if h.cmd == 0 || h.cmd == 87
      then (if is_utf8 payload then json_message (trim_nul payload) else skip)
      else if h.cmd == 99
      then handle_keepalive host ip
      else if h.cmd == 100
      then handle_heartbeat host ip
      else if h.cmd == 1 || (h.cmd == 4 || (h.cmd == 6 || h.cmd == 7))
      then handle_video_frame_tcp host ip payload
      else skip

  unfoldable pub process_message : Bytes → M (Unit {0})
  unfolding dispatch
  process_message d = do (h, payload) ← parse_header host d; dispatch h payload

  -- The read loop: whether it has ended. Where the reads run out, the handler waits for the next.
  unfoldable pub serve : List Read → M Bool
  unfolding process_message
  serve [] = λ l w. done false w
  serve (chunk d ∷ rs) =
      let rest : M Bool = serve rs in
      λ l w. elim (process_message d l w) [
        | done _ w' ↦ rest l w'
        | failed w' ↦ done true w'
        | panicked w' ↦ panicked w'
        | stuck l' w' ↦ stuck l' w'
      ]
  serve (closed ∷ rs) = λ l w. done true w
  serve (broken ∷ rs) = λ l w. done true w

  unfoldable pub clean_up : M (Unit {0})
  clean_up = manager_write host do
    camera ← get_camera ip
    elim camera [ some _ ↦ camera_write host ip (modify ip hung_up) | none ↦ skip ]

  -- `conn` stands for the accepted connection.
  unfoldable pub handle_connection : ℕ → List Read → M (Unit {0})
  unfolding serve clean_up
  handle_connection conn reads = do
    update_camera host ip (connected conn)
    ended ← serve reads
    if ended then clean_up else skip

-- What `accept` gives: a connection from an address, or an error.
pub data Accepted : Type 0 where
  accepted : ℕ → ℕ → Accepted
  accept_error : Accepted

module _ {Value : Type 0} (host : Host Value) (reads : ℕ → List Read) where
  -- The tasks that the accept loop spawns, where `reads` is what each connection will give. An error
  -- of a task is logged.
  unfoldable pub run : List Accepted → List (M (Unit {0}))
  unfolding handle_connection
  run [] = []
  run (accepted ip conn ∷ as') = attempt (handle_connection host ip conn (reads conn)) ∷ run as'
  run (accept_error ∷ as') = run as'
