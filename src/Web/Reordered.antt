-- ===== src/Web/Reordered.antt =====
-- The endpoints of src/web/camera_endpoints.rs go through the cameras in the order of a HashMap, which
-- is any order: what they find where no two cameras have one id.
use a9_v.Prelude.{
  ◌≡◌, ◌≢◌, refl, sym, ◌∙◌, [], ◌∷◌, Option, none, some, All, if◌then◌else◌, Bool-cases, inl, inr,
  ap, Option-cases,
}
use a9_v.Prelude.Map.{Map}
use a9_v.Prelude.{ℕ}
use a9_v.Wire.{Bytes, text}
use a9_v.Stream.{get_latest_frame}
use a9_v.Camera.{CameraConnection, bytes_eq}
use a9_v.Camera.Ids.{bytes_eq_injective, bytes_eq-ne}
use a9_v.Runtime.{Host, M, World, done, then_do, manager_read, idle_locks, camera_read}
use a9_v.Runtime.Cells.{reading_manager, manager_read-idle}
use a9_v.Web.{Json, Response, cameras, find, seen, respond_text, ok_json}
use a9_v.Web.Search.{camera_read-free}
use a9_v.Web.Info.{debug_buffer, debug_info}
use a9_v.Web.Video.{get_video_stream, get_mjpeg_stream, latest_frame}

-- The same entries in another order.
pub data Reordered : Map CameraConnection → Map CameraConnection → Type 0 where
  unchanged : (m : Map CameraConnection) → Reordered m m
  behind :
      (e : ℕ × CameraConnection) {m m' : Map CameraConnection}
      → Reordered m m'
      → Reordered (e ∷ m) (e ∷ m')
  exchanged :
      (d e : ℕ × CameraConnection) (m : Map CameraConnection) → Reordered (d ∷ e ∷ m) (e ∷ d ∷ m)
  again : {m n o : Map CameraConnection} → Reordered m n → Reordered n o → Reordered m o

abbrev HasOther : CameraConnection → ℕ × CameraConnection → Type 0
HasOther c e = c.device_id ≢ e.1.device_id

-- No two cameras have one id.
abbrev pub HasDistinctIds : Map CameraConnection → Type 0
HasDistinctIds [] = Unit
HasDistinctIds ((ip, c) ∷ m) = All (HasOther c) m × HasDistinctIds m

-- The first camera with an id.
unfoldable first_with : Bytes → Map CameraConnection → Option CameraConnection
first_with device_id [] = none
first_with device_id ((ip, c) ∷ m) =
    let rest = first_with device_id m in if bytes_eq c.device_id device_id then some c else rest

All-Reordered :
    (P : ℕ × CameraConnection → Type 0) {m m' : Map CameraConnection}
    → Reordered m m'
    → All P m
    → All P m'
All-Reordered P (unchanged m) h = h
All-Reordered P (behind e r) h = (h.0, All-Reordered P r h.1)
All-Reordered P (exchanged d e m) h = (h.1.0, (h.0, h.1.1))
All-Reordered P (again r s) h = All-Reordered P s (All-Reordered P r h)

Reordered-HasDistinctIds :
    {m m' : Map CameraConnection} → Reordered m m' → HasDistinctIds m → HasDistinctIds m'
Reordered-HasDistinctIds (unchanged m) h = h
Reordered-HasDistinctIds (behind e r) h =
    (All-Reordered (HasOther e.1) r h.0, Reordered-HasDistinctIds r h.1)
Reordered-HasDistinctIds (exchanged d e m) h = ((λ p. h.0.0 (sym p), h.1.0), (h.0.1, h.1.1))
Reordered-HasDistinctIds (again r s) h = Reordered-HasDistinctIds s (Reordered-HasDistinctIds r h)

first_with-Reordered :
    (device_id : Bytes) {m m' : Map CameraConnection}
    → Reordered m m'
    → HasDistinctIds m
    → first_with device_id m ≡ first_with device_id m'
unfolding first_with
first_with-Reordered device_id (unchanged m) h = refl
first_with-Reordered device_id (behind (ip, c) r) h = rw (first_with-Reordered device_id r h.1)
first_with-Reordered device_id (exchanged (ip, c) (ip', d) m) h =
    elim (Bool-cases (bytes_eq c.device_id device_id)) [
      | inl e ↦ rw (
        e,
        bytes_eq-ne d.device_id device_id
            (λ p. h.0.0 (bytes_eq_injective c.device_id device_id e ∙ sym p)),
      )
      | inr e ↦ rw e
    ]
first_with-Reordered device_id (again r s) h =
    first_with-Reordered device_id r h
    ∙ first_with-Reordered device_id s (Reordered-HasDistinctIds r h)

abbrev mapped {ℓ} : {A : Type ℓ} → (CameraConnection → A) → Option CameraConnection → Option A
mapped f none = none
mapped f (some c) = some (f c)

module _ {Value : Type 0} (host : Host Value) where
  find-first_with :
      {A : Type 0} (device_id : Bytes) (f : CameraConnection → A) (m : Map CameraConnection)
      (w : World)
      → find (camera_read host) device_id f m reading_manager w
        ≡ done (mapped f (first_with device_id m)) w
  unfolding find first_with
  find-first_with device_id f [] w = refl
  find-first_with device_id f ((ip, c) ∷ m) w = elim (Bool-cases (bytes_eq c.device_id device_id)) [
    | inl e ↦ rw (camera_read-free host ip (seen device_id f c) w, e)
    | inr e ↦
        rw (camera_read-free host ip (seen device_id f c) w, e) (find-first_with device_id f m w)
  ]

abbrev pub with_cameras : Map CameraConnection → World → World
with_cameras m w = record w { manager = record w.manager { cameras = m } }

-- A handler gives the same response in two worlds, and leaves both as they are.
abbrev pub AnswersAlike : {A : Type 0} → M A → World → World → Type 0
AnswersAlike {A} handler v w =
    (a : A) × (handler idle_locks v ≡ done a v) × (handler idle_locks w ≡ done a w)

module _ {Value : Type 0} (host : Host Value) (js : Json Value) where
  answers_alike :
      {A B : Type 0} (device_id : Bytes) (f : CameraConnection → A) (k : Option A → B)
      (m : Map CameraConnection) (w : World)
      → Reordered w.manager.cameras m
      → HasDistinctIds w.manager.cameras
      → AnswersAlike
          (manager_read host (λ l v.
            then_do
              (λ o v'. done (k o) v')
              (find (camera_read host) device_id f v.manager.cameras l v)))
          w
          (with_cameras m w)
  answers_alike device_id f k m w r h =
      let found = first_with device_id w.manager.cameras in
      (
        k (mapped f found),
        rw (manager_read-idle host, find-first_with host device_id f w.manager.cameras w),
        rw (
          manager_read-idle host,
          find-first_with host device_id f m (with_cameras m w),
          ← first_with-Reordered device_id r h,
        ),
      )

  abbrev debug_answer : Option CameraConnection → Response Value
  debug_answer none = respond_text host js 404 (text "Camera not found")
  debug_answer (some c) =
      ok_json host js (text "Buffer debug info") (debug_info host js c.stream_buffer)

  debug_buffer-first_with :
      (device_id : Bytes) (w : World)
      → debug_buffer host js device_id idle_locks w
        ≡ done (debug_answer (first_with device_id w.manager.cameras)) w
  unfolding debug_buffer cameras
  debug_buffer-first_with device_id w =
      elim (Option-cases (first_with device_id w.manager.cameras)) [
        | inl e ↦
            rw (manager_read-idle host, find-first_with host device_id _ w.manager.cameras w, e)
        | inr (c, e) ↦
            rw (manager_read-idle host, find-first_with host device_id _ w.manager.cameras w, e)
      ]

  -- Where no two cameras have one id, the answers of `get_video_stream`, `get_mjpeg_stream` and
  -- `debug_buffer` do not depend on the order in which the map of the cameras is gone through: with the
  -- same entries in any other order each gives the same response, found or not, and changes nothing.
  pub Reordered-AnswersAlike :
      (device_id : Bytes) (m : Map CameraConnection) (w : World)
      → Reordered w.manager.cameras m
      → HasDistinctIds w.manager.cameras
      → AnswersAlike (get_video_stream host js device_id) w (with_cameras m w)
        × AnswersAlike (get_mjpeg_stream host js device_id) w (with_cameras m w)
        × AnswersAlike (debug_buffer host js device_id) w (with_cameras m w)
  unfolding get_video_stream get_mjpeg_stream debug_buffer latest_frame cameras
  Reordered-AnswersAlike device_id m w r h = (
    answers_alike device_id (λ c. get_latest_frame c.stream_buffer) _ m w r h,
    answers_alike device_id (λ c. get_latest_frame c.stream_buffer) _ m w r h,
    (
      debug_answer (first_with device_id w.manager.cameras),
      debug_buffer-first_with device_id w,
      debug_buffer-first_with device_id (with_cameras m w)
          ∙ ap (λ o. done (debug_answer o) (with_cameras m w))
              (sym (first_with-Reordered device_id r h)),
    ),
  )
