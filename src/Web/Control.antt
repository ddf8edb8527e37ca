-- ===== src/Web/Control.antt =====
-- `start_streaming`, `stop_streaming`, `trigger_snapshot` and `send_tcp_message` of
-- src/web/camera_endpoints.rs. A handler answers at once; the task that it spawns is part of what it
-- returns, and `run_task` is what the task does, at any later time.
pub mod Effects
use a9_v.Prelude.{ℕ, List, [], ◌∷◌, ◌++◌, Option, none, some, length, if◌then◌else◌}
use a9_v.Prelude.Map.{lookup, insert}
use a9_v.Wire.{Bytes, text}
use a9_v.Protocol.Header
use a9_v.Camera.{CameraConnection}
use a9_v.Manager.{ip_to_string}
use a9_v.Runtime.{
  Host, M, World, Locks, Mode, writing, reading, guards, done, tcp, ◌>>=◌, ◌>>◌, pure, skip,
  or_fail, attempt, utc_now, modify, get_camera, manager_read, camera_try_read, send,
}
use a9_v.Tcp.{start_streaming_for_camera, stopped, forward, code_value}
use a9_v.Web.{Json, Response, cameras, find, ok_json, error_json}

pub data Task : Type 0 where
  start_task : ℕ → Task
  stop_task : ℕ → Task
  snapshot_task : ℕ → Task

-- A response, and the task that has been spawned, if any.
abbrev pub Reply : Type 0 → Type 0
Reply Value = Response Value × Option Task

module _ {Value : Type 0} (host : Host Value) where
  unfoldable pub send_tcp_message : ℕ → Value → M (Unit {0})
  send_tcp_message conn json_data = do
    s ← or_fail (host.to_string json_data)
    send host (tcp conn (Header.to_bytes host.buf (Header.json 0 (length s)) ++ s))

  -- `if let Ok(guard) = lock.try_write() { m }`, on the manager and on a camera.
  unfoldable pub manager_try_write : M (Unit {0}) → M (Unit {0})
  manager_try_write m l w =
      if host.write_granted l.manager
      then m (record l { manager = writing ∷ l.manager }) w
      else done tt w

  unfoldable pub camera_try_write : ℕ → M (Unit {0}) → M (Unit {0})
  camera_try_write ip m l w =
      if host.write_granted (guards ip l)
      then m (record l { cameras = insert ip (writing ∷ guards ip l) l.cameras }) w
      else done tt w

  unfoldable pub manager_try_read {ℓ} : {A : Type ℓ} → M (Option A) → M (Option A)
  manager_try_read m l w =
      if host.read_granted l.manager
      then m (record l { manager = reading ∷ l.manager }) w
      else done none w

  unfoldable pub target_ip : Bytes → M (Option ℕ)
  unfolding cameras find
  target_ip device_id =
      manager_read host do m ← cameras; find (camera_try_read host) device_id (λ c. c.ip) m

  -- The connection of a camera, if its lock is free.
  unfoldable pub connection_of : ℕ → M (Option ℕ)
  connection_of ip = do
    camera ← get_camera ip
    elim camera [ some c ↦ camera_try_read host ip (pure c.tcp_conn) | none ↦ pure none ]

  unfoldable pub close_streams : ℕ → M (Unit {0})
  unfolding manager_try_write camera_try_write
  close_streams ip = manager_try_write do
    camera ← get_camera ip
    elim camera [ some _ ↦ camera_try_write ip (modify ip stopped) | none ↦ skip ]

  unfoldable pub send_stop : ℕ → M (Unit {0})
  unfolding manager_try_read connection_of send_tcp_message
  send_stop ip = do
    tcp_conn ← manager_try_read (connection_of ip)
    elim tcp_conn [
      | some conn ↦ attempt (send_tcp_message conn (forward host (code_value host 0)))
      | none ↦ skip
    ]

  unfoldable pub run_task : Task → M (Unit {0})
  unfolding close_streams send_stop send_tcp_message start_streaming_for_camera
  run_task (start_task ip) = attempt (start_streaming_for_camera host ip)
  run_task (stop_task ip) = close_streams ip >> send_stop ip
  run_task (snapshot_task conn) = attempt (send_tcp_message conn (forward host (code_value host 5)))

module _ {Value : Type 0} (host : Host Value) (js : Json Value) where
  abbrev pub accepted_data : Bytes → ℕ → ℕ → Bytes → Value
  accepted_data device_id ip now note = host.object (
      ("device_id", host.string device_id)
      ∷ ("ip", host.string (ip_to_string ip))
      ∷ ("timestamp", host.string (js.to_rfc3339 now))
      ∷ ("note", host.string note)
      ∷ [])

  abbrev pub accept : Bytes → Bytes → Bytes → ℕ → Task → M (Reply Value)
  accept message note device_id ip task = do
    now ← utc_now
    pure (ok_json host js message (accepted_data device_id ip now note), some task)

  abbrev pub not_found : M (Reply Value)
  not_found = pure (error_json host js 404 (text "Camera not found"), none)

  -- `Some(tcp_conn)`, or the error that there is none.
  abbrev pub with_conn : ℕ → (ℕ → M (Reply Value)) → M (Reply Value)
  with_conn ip k = do
    tcp_conn ← manager_read host (connection_of host ip)
    elim tcp_conn [
      | some conn ↦ k conn
      | none ↦ pure (error_json host js 500 (text "No TCP connection found for camera"), none)
    ]

  unfoldable pub start_streaming : Bytes → M (Reply Value)
  unfolding target_ip connection_of
  start_streaming device_id = do
    target ← target_ip host device_id
    elim target [
      | some ip ↦ with_conn ip (λ conn.
          accept (text "Streaming start command sent successfully")
            (text "Streaming control commands are being sent in background") device_id ip
            (start_task ip))
      | none ↦ not_found
    ]

  unfoldable pub stop_streaming : Bytes → M (Reply Value)
  unfolding target_ip
  stop_streaming device_id = do
    target ← target_ip host device_id
    elim target [
      | some ip ↦
          accept (text "Streaming stop command sent successfully")
            (text "Streaming stop commands are being sent in background") device_id ip
            (stop_task ip)
      | none ↦ not_found
    ]

  unfoldable pub trigger_snapshot : Bytes → M (Reply Value)
  unfolding target_ip connection_of
  trigger_snapshot device_id = do
    target ← target_ip host device_id
    elim target [
      | some ip ↦ with_conn ip (λ conn.
          accept (text "Snapshot command sent successfully")
            (text "Snapshot command is being sent in background") device_id ip (snapshot_task conn))
      | none ↦ not_found
    ]
