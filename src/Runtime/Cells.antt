-- ===== src/Runtime/Cells.antt =====
-- Reading and writing a camera's cell, where the handler holds no other lock.
use a9_v.Prelude.{ℕ, ◌≡◌, ◌≢◌, ap, List, [], ◌∷◌, Option, none, some, arith, Option-cases, inl, inr}
use a9_v.Prelude.Map.{lookup, lookup-insert_self, lookup-insert_ne, insert-insert}
use a9_v.Camera.{CameraConnection}
use a9_v.Camera
use a9_v.Manager.{get_or_create_camera, device_name}
use a9_v.Runtime.{
  Host, World, guards, manager_read, camera_read, done, M, Locks, idle_locks, Mode, writing,
  reading, set_camera, modified, modify, get_camera, update_camera, manager_write, camera_write,
}

abbrev pub fresh_camera : ℕ → World → CameraConnection
fresh_camera ip w = Camera.new (device_name ip) ip (ip, 6123) (w.clock, w.clock, w.clock)

abbrev camera_or : CameraConnection → Option CameraConnection → CameraConnection
camera_or d none = d
camera_or d (some c) = c

-- The camera of an address, or the one that would be created for it.
abbrev pub camera_at : ℕ → World → CameraConnection
camera_at ip w = camera_or (fresh_camera ip w) (lookup ip w.manager.cameras)

abbrev pub created : ℕ → World → World
created ip w = record w { manager = get_or_create_camera ip (w.clock, w.clock, w.clock) w.manager }

pub lookup-created :
    (ip : ℕ) (w : World) → lookup ip (created ip w).manager.cameras ≡ some (camera_at ip w)
unfolding get_or_create_camera
lookup-created ip w = elim (Option-cases (lookup ip w.manager.cameras)) [
  | inl e ↦ rw (e, get_or_create_camera, camera_at) (lookup-insert_self ip _ w.manager.cameras)
  | inr (c, e) ↦ rw (e, get_or_create_camera, camera_at) e
]

pub set_camera-created :
    (ip : ℕ) (c : CameraConnection) (w : World) → set_camera ip c (created ip w) ≡ set_camera ip c w
unfolding set_camera get_or_create_camera
set_camera-created ip c w = elim (Option-cases (lookup ip w.manager.cameras)) [
  | inl e ↦
      rw (e, get_or_create_camera)
        (ap (λ m. record w { manager = record w.manager { cameras = m } })
          (insert-insert ip (fresh_camera ip w) c w.manager.cameras))
  | inr (d, e) ↦ rw (e, get_or_create_camera)
]

pub lookup-set_camera :
    (ip : ℕ) (c : CameraConnection) (w : World)
    → lookup ip (set_camera ip c w).manager.cameras ≡ some c
unfolding set_camera
lookup-set_camera ip c w = lookup-insert_self ip c w.manager.cameras

pub set_camera-set_camera :
    (ip : ℕ) (b c : CameraConnection) (w : World)
    → set_camera ip c (set_camera ip b w) ≡ set_camera ip c w
unfolding set_camera
set_camera-set_camera ip b c w =
    ap (λ m. record w { manager = record w.manager { cameras = m } })
      (insert-insert ip b c w.manager.cameras)

pub modify-set_camera :
    (ip : ℕ) (f : CameraConnection → CameraConnection) (l : Locks) (c : CameraConnection)
    (w : World)
    → modify ip f l (set_camera ip c w) ≡ done tt (set_camera ip (f c) w)
unfolding modify
modify-set_camera ip f l c w =
    rw (lookup-set_camera ip c w, modified) (ap (done tt) (set_camera-set_camera ip c (f c) w))

pub modify-created :
    (ip : ℕ) (f : CameraConnection → CameraConnection) (l : Locks) (w : World)
    → modify ip f l (created ip w) ≡ done tt (set_camera ip (f (camera_at ip w)) w)
unfolding modify
modify-created ip f l w =
    rw (lookup-created ip w, modified) (ap (done tt) (set_camera-created ip (f (camera_at ip w)) w))

pub get_camera-set_camera :
    (ip : ℕ) (l : Locks) (c : CameraConnection) (w : World)
    → get_camera ip l (set_camera ip c w) ≡ done (some c) (set_camera ip c w)
unfolding get_camera
get_camera-set_camera ip l c w = ap (λ o. done o (set_camera ip c w)) (lookup-set_camera ip c w)

-- The locks under the write guard of one camera, and of the manager alone.
abbrev pub writing_camera : ℕ → Locks
writing_camera ip = record { manager = []; cameras = (ip, writing ∷ []) ∷ [] }

abbrev pub writing_manager : Locks
writing_manager = record { manager = writing ∷ []; cameras = [] }

abbrev pub reading_manager : Locks
reading_manager = record { manager = reading ∷ []; cameras = [] }

abbrev pub reading_both : ℕ → Locks
reading_both ip = record { manager = reading ∷ []; cameras = (ip, reading ∷ []) ∷ [] }

pub guards_self :
    (ip : ℕ) (m : List Mode) (g : List Mode)
    → guards ip (record { manager = m; cameras = (ip, g) ∷ [] }) ≡ g
guards_self ip m g = ground arith

-- A write to one camera's cell leaves the others alone.
pub lookup-set_camera_ne :
    (ip j : ℕ) (c : CameraConnection) (w : World)
    → ip ≢ j
    → lookup j (set_camera ip c w).manager.cameras ≡ lookup j w.manager.cameras
unfolding set_camera
lookup-set_camera_ne ip j c w h = lookup-insert_ne ip j c w.manager.cameras h

module _ {Value : Type 0} (host : Host Value) where
  pub manager_write-idle {ℓ} :
      {A : Type ℓ} (m : M A) (w : World) → manager_write host m idle_locks w ≡ m writing_manager w
  unfolding manager_write
  manager_write-idle m w = rw host.write_free

  pub manager_read-idle {ℓ} :
      {A : Type ℓ} (m : M A) (w : World) → manager_read host m idle_locks w ≡ m reading_manager w
  unfolding manager_read
  manager_read-idle m w = rw host.read_free

  pub camera_write-idle {ℓ} :
      {A : Type ℓ} (ip : ℕ) (m : M A) (w : World)
      → camera_write host ip m idle_locks w ≡ m (writing_camera ip) w
  unfolding camera_write
  camera_write-idle ip m w = rw host.write_free

  pub camera_read-manager {ℓ} :
      {A : Type ℓ} (ip : ℕ) (m : M A) (w : World)
      → camera_read host ip m reading_manager w ≡ m (reading_both ip) w
  unfolding camera_read
  camera_read-manager ip m w = rw host.read_free

  pub update_camera-idle :
      (ip : ℕ) (f : CameraConnection → CameraConnection) (w : World)
      → update_camera host ip f idle_locks w ≡ done tt (set_camera ip (f (camera_at ip w)) w)
  unfolding update_camera
  update_camera-idle ip f w =
      rw host.write_free (
        modify-created ip f (record { manager = writing ∷ []; cameras = (ip, writing ∷ []) ∷ [] })
          w)

pub camera_at-found :
    (ip : ℕ) (w : World) (c : CameraConnection)
    → lookup ip w.manager.cameras ≡ some c
    → camera_at ip w ≡ c
camera_at-found ip w c e = rw e
