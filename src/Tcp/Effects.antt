-- ===== src/Tcp/Effects.antt =====
-- The writes of src/router/tcp.rs, where the handler holds no lock before.
use a9_v.Prelude.{ℕ, ◌≡◌, refl, length, some}
use a9_v.Prelude.Map.{lookup}
use a9_v.Wire.{Bytes}
use a9_v.Camera.{CameraConnection, update_heartbeat}
use a9_v.Runtime.{
  Host, World, M, done, tcp, Locks, idle_locks, get_camera, set_camera, create_camera,
}
use a9_v.Runtime.Cells.{
  camera_at, reading_both, manager_read-idle, camera_read-manager, manager_write-idle,
  camera_write-idle, modify-created, modify-set_camera, writing_camera,
}
use a9_v.Runtime.Sends.{Delivers, sent, send-sent}
use a9_v.Stream.{add_fragment}
use a9_v.Tcp.{
  with_connection, clone_connection, write_json, header_bytes, handle_video_frame_tcp,
  add_tcp_payload,
}

module _ {Value : Type 0} (host : Host Value) where
  pub with_connection-some :
      (ip conn : ℕ) (k : ℕ → M (Unit {0})) (c : CameraConnection) (w : World)
      → lookup ip w.manager.cameras ≡ some c
      → c.tcp_conn ≡ some conn
      → with_connection host ip k idle_locks w ≡ k conn (reading_both ip) w
  unfolding with_connection get_camera
  with_connection-some ip conn k c w e t = rw (manager_read-idle, e, camera_read-manager, e, t)

  pub clone_connection-idle :
      (ip : ℕ) (c : CameraConnection) (w : World)
      → lookup ip w.manager.cameras ≡ some c
      → clone_connection host ip idle_locks w ≡ done c.tcp_conn w
  unfolding clone_connection get_camera
  clone_connection-idle ip c w e = rw (manager_read-idle, e, camera_read-manager, e)

  pub write_json-sent :
      (conn : ℕ) (v : Value) (s : Bytes) (l : Locks) (w : World)
      → Delivers host
      → host.to_string v ≡ some s
      → write_json host conn v l w
        ≡ done tt (sent (tcp conn s) (sent (tcp conn (header_bytes host (length s))) w))
  unfolding write_json
  write_json-sent conn v s l w d e = rw (e, send-sent host _ l w d, send-sent host _ l _ d)

  -- With no lock held, a TCP video message updates the heartbeat of the camera, made if it was
  -- missing, and changes nothing else: its payload does not get into the buffer.
  pub handle_video_frame_tcp_lem :
      (ip : ℕ) (p : Bytes) (w : World)
      → handle_video_frame_tcp host ip p idle_locks w
        ≡ done tt (set_camera ip (update_heartbeat w.clock (camera_at ip w)) w)
  unfolding handle_video_frame_tcp create_camera
  handle_video_frame_tcp_lem ip p w = rw (
    manager_write-idle host (create_camera ip) w,
    camera_write-idle,
    modify-created ip (update_heartbeat w.clock) (writing_camera ip) w,
    modify-set_camera ip (add_tcp_payload p),
    unbuffered p (update_heartbeat w.clock (camera_at ip w)),
  )
    where
      unbuffered : (p : Bytes) (c : CameraConnection) → add_tcp_payload p c ≡ c
      unbuffered p c = unfold add_fragment in refl
