-- ===== src/Web/Search.antt =====
-- The search for a camera by its id, where no lock is in its way.
use a9_v.Prelude.{ℕ, ◌≡◌, ◌≢◌, refl, [], ◌∷◌, ◌++◌, Option, none, some, All}
use a9_v.Prelude.Map.{Map}
use a9_v.Wire.{Bytes}
use a9_v.Camera.{CameraConnection}
use a9_v.Camera.Ids.{bytes_eq_refl, bytes_eq-ne}
use a9_v.Runtime.{Host, M, World, Locks, done, pure, camera_read, camera_try_read}
use a9_v.Runtime.Cells.{reading_manager}
use a9_v.Web.{find, seen}

-- An entry of the map whose camera has another id.
abbrev pub HasOtherId : Bytes → ℕ × CameraConnection → Type 0
HasOtherId device_id e = e.1.device_id ≢ device_id

module _ {A : Type 0} (read : ℕ → M (Option A) → M (Option A)) (device_id : Bytes)
    (f : CameraConnection → A) (l : Locks)
    (free : (ip : ℕ) (o : Option A) (w : World) → read ip (pure o) l w ≡ done o w) where
  pub find-missing :
      (m : Map CameraConnection) (w : World)
      → All (HasOtherId device_id) m
      → find read device_id f m l w ≡ done none w
  unfolding find
  find-missing [] w h = refl
  find-missing ((ip, c) ∷ m) w h =
      rw (free ip (seen device_id f c) w, bytes_eq-ne c.device_id device_id h.0)
        (find-missing m w h.1)

  pub find-found :
      (before after : Map CameraConnection) (ip : ℕ) (c : CameraConnection) (w : World)
      → All (HasOtherId device_id) before
      → c.device_id ≡ device_id
      → find read device_id f (before ++ (ip, c) ∷ after) l w ≡ done (some (f c)) w
  unfolding find
  find-found [] after ip c w h e = rw (free ip (seen device_id f c) w, e, bytes_eq_refl device_id)
  find-found ((j, d) ∷ before) after ip c w h e =
      rw (free j (seen device_id f d) w, bytes_eq-ne d.device_id device_id h.0)
        (find-found before after ip c w h.1 e)

module _ {Value : Type 0} (host : Host Value) where
  pub camera_read-free :
      {A : Type 0} (ip : ℕ) (o : Option A) (w : World)
      → camera_read host ip (pure o) reading_manager w ≡ done o w
  unfolding camera_read
  camera_read-free ip o w = rw host.read_free

  pub camera_try_read-free :
      {A : Type 0} (ip : ℕ) (o : Option A) (w : World)
      → camera_try_read host ip (pure o) reading_manager w ≡ done o w
  unfolding camera_try_read
  camera_try_read-free ip o w = rw host.read_free
