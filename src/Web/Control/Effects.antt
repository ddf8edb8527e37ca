-- ===== src/Web/Control/Effects.antt =====
-- What the tasks that src/web/camera_endpoints.rs spawns do, and the message that they send.
use a9_v.Prelude.{ℕ, ◌≡◌, refl, List, [], ◌∷◌, ◌++◌, length, none, some, arith}
use a9_v.Prelude.Map.{lookup}
use a9_v.Wire.{Bytes}
use a9_v.Protocol.Header.{InRange, ok}
use a9_v.Protocol.Header
use a9_v.Protocol.Header.RoundTrip.{from_bytes-to_bytes}
use a9_v.Camera.{CameraConnection, idle}
use a9_v.Stream.{clear}
use a9_v.Runtime.{
  Host, World, Mode, done, tcp, Locks, idle_locks, writing, get_camera, set_camera, modify,
}
use a9_v.Runtime.Cells.{reading_manager, lookup-set_camera}
use a9_v.Runtime.Sends.{Delivers, sent, send-sent}
use a9_v.Tcp.{forward, code_value, stopped}
use a9_v.Web.Search.{camera_try_read-free}
use a9_v.Web.Control.{
  send_tcp_message, close_streams, connection_of, manager_try_write, camera_try_write,
  manager_try_read, send_stop, run_task, stop_task, snapshot_task,
}

module _ {Value : Type 0} (host : Host Value) where
  abbrev pub json_packet : Bytes → Bytes
  json_packet s = Header.to_bytes host.buf (Header.json 0 (length s)) ++ s

  send_tcp_message-sent :
      (conn : ℕ) (v : Value) (s : Bytes) (l : Locks) (w : World)
      → Delivers host
      → host.to_string v ≡ some s
      → send_tcp_message host conn v l w ≡ done tt (sent (tcp conn (json_packet s)) w)
  unfolding send_tcp_message
  send_tcp_message-sent conn v s l w d e = rw (e, send-sent host _ l w d)

  json-InRange : (n : ℕ) → InRange (Header.json 0 n)
  unfolding Header.json Header.new
  json-InRange n = record {
    length_u32 = omega arith;
    cmd_u16 = omega arith;
    msg_flag_u8 = omega arith;
    deal_fl_u8 = omega arith;
    fwd_id_len = refl;
    fwd_id_u8 = omega arith;
    pkg_id_u32 = omega arith;
  }

  -- The snapshot task sends one packet over the connection, under any locks and without a change to
  -- a camera, and the packet parses as a JSON header with the length of the snapshot command and
  -- then the command, where the command can be printed and the write succeeds.
  pub snapshot_task_lem :
      (conn : ℕ) (s : Bytes) (l : Locks) (w : World)
      → Delivers host
      → host.to_string (forward host (code_value host 5)) ≡ some s
      → (run_task host (snapshot_task conn) l w ≡ done tt (sent (tcp conn (json_packet s)) w))
        × (Header.from_bytes host.buf (json_packet s) ≡ ok (Header.json 0 (length s), s))
  unfolding run_task
  snapshot_task_lem conn s l w d e = (
    rw (send_tcp_message-sent conn (forward host (code_value host 5)) s l w d e),
    from_bytes-to_bytes host.buf (Header.json 0 (length s)) s (json-InRange (length s)),
  )

  close_streams-idle :
      (ip : ℕ) (c : CameraConnection) (w : World)
      → lookup ip w.manager.cameras ≡ some c
      → close_streams host ip idle_locks w ≡ done tt (set_camera ip (stopped c) w)
  unfolding close_streams manager_try_write camera_try_write get_camera modify
  close_streams-idle ip c w e = rw (host.write_free, e, host.write_free, e)

  connection_of-free :
      (ip : ℕ) (c : CameraConnection) (w : World)
      → lookup ip w.manager.cameras ≡ some c
      → connection_of host ip reading_manager w ≡ done c.tcp_conn w
  unfolding connection_of get_camera
  connection_of-free ip c w e = rw (e, camera_try_read-free host ip c.tcp_conn w)

  send_stop-sent :
      (ip conn : ℕ) (c : CameraConnection) (s : Bytes) (w : World)
      → Delivers host
      → host.to_string (forward host (code_value host 0)) ≡ some s
      → lookup ip w.manager.cameras ≡ some c
      → c.tcp_conn ≡ some conn
      → send_stop host ip idle_locks w ≡ done tt (sent (tcp conn (json_packet s)) w)
  unfolding send_stop manager_try_read
  send_stop-sent ip conn c s w d p e t = rw (
    host.read_free,
    connection_of-free ip c w e,
    t,
    send_tcp_message-sent conn (forward host (code_value host 0)) s idle_locks w d p,
  )

  -- The stop task of a connected camera drops its frames and its frame in progress, forgets its UDP
  -- ports and makes it idle, and keeps the rest of it, the socket for its video included; then it sends
  -- the stop command in one packet. This is where no lock is taken, the command can be printed and the
  -- write succeeds.
  pub stop_task_lem :
      (ip conn : ℕ) (c : CameraConnection) (s : Bytes) (w : World)
      → Delivers host
      → host.to_string (forward host (code_value host 0)) ≡ some s
      → lookup ip w.manager.cameras ≡ some c
      → c.tcp_conn ≡ some conn
      → run_task host (stop_task ip) idle_locks w
        ≡ done tt (
            sent (tcp conn (json_packet s)) (
              set_camera ip
                (record c {
                  udp_ports = [];
                  stream_buffer = record c.stream_buffer { frames = []; current_frame = none };
                  state = idle;
                })
                w))
  unfolding run_task clear
  stop_task_lem ip conn c s w d p e t = rw (close_streams-idle ip c w e) (
      send_stop-sent ip conn (stopped c) s (set_camera ip (stopped c) w) d p
        (lookup-set_camera ip (stopped c) w) t)

  -- While a writer has the manager's lock, the stop task does nothing: the camera goes on as it was.
  pub stop_task-lost :
      (ip : ℕ) (l : Locks) (g : List Mode) (w : World)
      → l.manager ≡ writing ∷ g
      → run_task host (stop_task ip) l w ≡ done tt w
  unfolding run_task close_streams send_stop manager_try_write manager_try_read
  stop_task-lost ip l g w e = rw (e, host.write_excluded writing g, host.read_excluded g)
