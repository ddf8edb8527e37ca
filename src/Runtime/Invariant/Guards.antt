-- ===== src/Runtime/Invariant/Guards.antt =====
-- The invariant of the cameras under sends and lock guards.
use a9_v.Prelude.{ℕ, Bool, true, false, Option, none, if◌then◌else◌}
use a9_v.Camera.{CameraConnection}
use a9_v.Runtime.{
  Host, guards, World, M, Outcome, done, failed, stuck, Packet, world_of, create_camera,
  manager_write, manager_read, camera_write, camera_read, camera_try_read, send, update_camera,
}
use a9_v.Runtime.Invariant.{
  IsSoundCamera, IsKept, IsKept-refl, Keeps, seq-Keeps, create_camera-Keeps, modify-Keeps,
}

branch-IsKept :
    {A : Type 0} (ip : ℕ) (w : World) (c : Bool) (x y : Outcome A)
    → IsKept ip w (world_of x)
    → IsKept ip w (world_of y)
    → IsKept ip w (world_of (if c then x else y))
branch-IsKept ip w true x y p q = p
branch-IsKept ip w false x y p q = q

module _ {Value : Type 0} (host : Host Value) where
  pub send-Keeps : {ip : ℕ} (p : Packet) → Keeps ip (send host p)
  unfolding send
  send-Keeps {ip} p = record {
    keeps = λ l w s.
        branch-IsKept ip w (host.send_ok w.sends) (done tt _) (failed _) (IsKept-refl ip w s)
          (IsKept-refl ip w s);
  }

  pub manager_write-Keeps :
      {ip : ℕ} {A : Type 0} (m : M A) → Keeps ip m → Keeps ip (manager_write host m)
  unfolding manager_write
  manager_write-Keeps {ip} m h = record {
    keeps = λ l w s.
        branch-IsKept ip w (host.write_granted l.manager) (m _ w) (stuck _ w) (h.keeps _ w s)
          (IsKept-refl ip w s);
  }

  pub manager_read-Keeps :
      {ip : ℕ} {A : Type 0} (m : M A) → Keeps ip m → Keeps ip (manager_read host m)
  unfolding manager_read
  manager_read-Keeps {ip} m h = record {
    keeps = λ l w s.
        branch-IsKept ip w (host.read_granted l.manager) (m _ w) (stuck _ w) (h.keeps _ w s)
          (IsKept-refl ip w s);
  }

  pub camera_write-Keeps :
      {A : Type 0} (ip : ℕ) (m : M A) → Keeps ip m → Keeps ip (camera_write host ip m)
  unfolding camera_write
  camera_write-Keeps ip m h = record {
    keeps = λ l w s.
        branch-IsKept ip w (host.write_granted (guards ip l)) (m _ w) (stuck _ w) (h.keeps _ w s)
          (IsKept-refl ip w s);
  }

  pub camera_read-Keeps :
      {A : Type 0} (ip : ℕ) (m : M A) → Keeps ip m → Keeps ip (camera_read host ip m)
  unfolding camera_read
  camera_read-Keeps ip m h = record {
    keeps = λ l w s.
        branch-IsKept ip w (host.read_granted (guards ip l)) (m _ w) (stuck _ w) (h.keeps _ w s)
          (IsKept-refl ip w s);
  }

  pub camera_try_read-Keeps :
      {A : Type 0} (ip : ℕ) (m : M (Option A)) → Keeps ip m → Keeps ip (camera_try_read host ip m)
  unfolding camera_try_read
  camera_try_read-Keeps ip m h = record {
    keeps = λ l w s.
        branch-IsKept ip w (host.read_granted (guards ip l)) (m _ w) (done none w) (h.keeps _ w s)
          (IsKept-refl ip w s);
  }

  pub update_camera-Keeps :
      (ip : ℕ) (f : CameraConnection → CameraConnection)
      → ((c : CameraConnection) → IsSoundCamera ip c → IsSoundCamera ip (f c))
      → Keeps ip (update_camera host ip f)
  unfolding update_camera
  update_camera-Keeps ip f h = manager_write-Keeps _ (
      seq-Keeps (create_camera ip) _ (create_camera-Keeps ip)
        (camera_write-Keeps ip _ (modify-Keeps ip f h)))
