-- ===== src/Web/Info/Deadlock.antt =====
-- `get_camera_info` of src/web/camera_endpoints.rs takes the manager's lock a second time while it
-- has a guard of it.
use a9_v.Prelude.{ℕ, ◌≡◌, [], ◌∷◌, ◌++◌, All}
use a9_v.Prelude.Map.{Map}
use a9_v.Wire.{Bytes, text}
use a9_v.Camera.{CameraConnection}
use a9_v.Runtime.{
  Host, M, World, Locks, done, stuck, queued, reading, idle_locks, then_do, manager_read,
  manager_write, camera_read,
}
use a9_v.Runtime.Cells.{reading_manager}
use a9_v.Web.{Json, cameras, ok_json}
use a9_v.Web.Search.{HasOtherId, find-found, camera_read-free}
use a9_v.Web.Info.{buffer_info, camera_info, get_camera_info}

-- The locks with a writer that has come to wait while the handler has its first guard.
abbrev pub writer_waits : Locks
writer_waits = record { manager = queued ∷ reading ∷ []; cameras = [] }

module _ {Value : Type 0} (host : Host Value) (js : Json Value) where
  pub get_camera_info-buffer_info :
      (device_id : Bytes) (before after : Map CameraConnection) (ip : ℕ) (c : CameraConnection)
      (w : World)
      → w.manager.cameras ≡ before ++ (ip, c) ∷ after
      → All (HasOtherId device_id) before
      → c.device_id ≡ device_id
      → get_camera_info host js device_id idle_locks w
        ≡ then_do
            (λ info w'.
              done (ok_json host js (text "OK") (camera_info host js device_id c info)) w')
            (buffer_info host js c.ip reading_manager w)
  unfolding get_camera_info manager_read cameras
  get_camera_info-buffer_info device_id before after ip c w e h i =
      simp (e, host.read_free)
        (rw (
          find-found (camera_read host) device_id (λ d. d) reading_manager (camera_read-free host)
            before after ip c w h i))

  -- Started with no lock held for an id that a camera has, the handler comes to its second half,
  -- `buffer_info`, with its read guard of the manager still out, and answers with what that gives. A
  -- writer that comes meanwhile has to wait, and then the second half waits for the writer: neither
  -- ever goes on.
  pub get_camera_info-deadlock :
      {A : Type 0} (m : M A) (device_id : Bytes) (before after : Map CameraConnection) (ip : ℕ)
      (c : CameraConnection) (w v : World)
      → w.manager.cameras ≡ before ++ (ip, c) ∷ after
      → All (HasOtherId device_id) before
      → c.device_id ≡ device_id
      → (get_camera_info host js device_id idle_locks w
          ≡ then_do
              (λ info w'.
                done (ok_json host js (text "OK") (camera_info host js device_id c info)) w')
              (buffer_info host js c.ip reading_manager w))
        × (manager_write host m reading_manager v ≡ stuck writer_waits v)
        × (buffer_info host js c.ip writer_waits v ≡ stuck writer_waits v)
  unfolding manager_write buffer_info manager_read
  get_camera_info-deadlock m device_id before after ip c w v e h i = (
    get_camera_info-buffer_info device_id before after ip c w e h i,
    rw (host.write_excluded reading []),
    rw (host.read_queued (reading ∷ [])),
  )
