-- ===== src/Web/Video/Latest.antt =====
-- What the two video endpoints of src/web/camera_endpoints.rs answer, where no lock is in their way.
use a9_v.Prelude.{◌<◌, ◌≡◌, refl, ap, ℕ, List, [], ◌∷◌, ◌++◌, none, some, All, ◌∙◌}
use a9_v.Prelude.Map.{Map}
use a9_v.Wire.{Bytes, text, to_le}
use a9_v.Camera.{CameraConnection}
use a9_v.Stream.{StreamBuffer, last?, get_latest_frame, add_complete_frame, add_fragment}
use a9_v.Stream.Packets.{Middle, add_middles, joined, payloads, frame_delivered}
use a9_v.Runtime.{Host, World, done, idle_locks, camera_read}
use a9_v.Runtime.Cells.{reading_manager, manager_read-idle}
use a9_v.Web.{Json, cameras, respond_text}
use a9_v.Web.Search.{HasOtherId, find-missing, find-found, camera_read-free}
use a9_v.Web.Video.{
  mjpeg_data, stream_response, latest_response, latest_frame, get_video_stream, get_mjpeg_stream,
}

last?-append : (l : List Bytes) (f : Bytes) → last? (l ++ f ∷ []) ≡ some f
last?-append [] f = refl
last?-append (g ∷ []) f = refl
last?-append (g ∷ h ∷ l) f = last?-append (h ∷ l) f

pub latest-add_complete_frame :
    (f : Bytes) (b : StreamBuffer) → get_latest_frame (add_complete_frame f b) ≡ some f
unfolding get_latest_frame add_complete_frame
latest-add_complete_frame f b = search last?-append

module _ {Value : Type 0} (host : Host Value) (js : Json Value) (device_id : Bytes)
    (w : World) where
  -- Where no camera has the id, both endpoints answer 404.
  pub stream-missing :
      All (HasOtherId device_id) w.manager.cameras
      → (get_video_stream host js device_id idle_locks w
          ≡ done (respond_text host js 404 (text "Camera not found")) w)
        × (get_mjpeg_stream host js device_id idle_locks w
            ≡ done (respond_text host js 404 (text "Camera not found")) w)
  unfolding get_video_stream get_mjpeg_stream latest_frame cameras latest_response
  stream-missing h =
      let e =
        find-missing (camera_read host) device_id (λ c. get_latest_frame c.stream_buffer)
          reading_manager (camera_read-free host) w.manager.cameras w h in
      (rw (manager_read-idle host, e), rw (manager_read-idle host, e))

  module _ (before after : Map CameraConnection) (ip : ℕ) (c : CameraConnection) where
    latest_frame-found :
        w.manager.cameras ≡ before ++ (ip, c) ∷ after
        → All (HasOtherId device_id) before
        → c.device_id ≡ device_id
        → latest_frame host js device_id reading_manager w
          ≡ done (some (get_latest_frame c.stream_buffer)) w
    unfolding latest_frame cameras
    latest_frame-found e h i = simp e (
        find-found (camera_read host) device_id (λ c. get_latest_frame c.stream_buffer)
          reading_manager (camera_read-free host) before after ip c w h i)

    -- Where the buffer of the first camera with the id is what a frame's packets make of a buffer,
    -- the first with flag 250, the last with flag 252 and a size above zero and below a million
    -- behind its bytes, video and audio packets between them, both endpoints answer 200 with this
    -- frame: as it is, and in a multipart body.
    pub stream-delivered :
        (b : StreamBuffer) (first_pkg last_pkg : ℕ) (first last : Bytes) (ms : List Middle)
        (size : ℕ)
        → w.manager.cameras ≡ before ++ (ip, c) ∷ after
        → All (HasOtherId device_id) before
        → c.device_id ≡ device_id
        → 0 < size
        → size < 1000000
        → c.stream_buffer
          ≡ (add_fragment 1 252 last_pkg
              (last ++ to_le 4 size)
              (add_middles ms (add_fragment 1 250 first_pkg first b).0)).0
        → (get_video_stream host js device_id idle_locks w
            ≡ done
                (stream_response host js
                  (text "image/jpeg")
                  (first ++ (joined (payloads ms) ++ last)))
                w)
          × (get_mjpeg_stream host js device_id idle_locks w
              ≡ done
                  (stream_response host js
                    (text "multipart/x-mixed-replace; boundary=frame")
                    (mjpeg_data (first ++ (joined (payloads ms) ++ last))))
                  w)
    unfolding get_video_stream get_mjpeg_stream latest_response
    stream-delivered b first_pkg last_pkg first last ms size e h i p q d =
        let stored =
          ap get_latest_frame (d ∙ frame_delivered b first_pkg last_pkg first last ms size p q)
          ∙ latest-add_complete_frame (first ++ (joined (payloads ms) ++ last))
              (record b { current_frame = none }) in
        let found = latest_frame-found e h i in
        (rw (manager_read-idle host, found, stored), rw (manager_read-idle host, found, stored))

    -- Where the first camera with the id has no frame, both endpoints answer 204.
    pub stream-empty :
        w.manager.cameras ≡ before ++ (ip, c) ∷ after
        → All (HasOtherId device_id) before
        → c.device_id ≡ device_id
        → c.stream_buffer.frames ≡ []
        → (get_video_stream host js device_id idle_locks w
            ≡ done (respond_text host js 204 (text "No video frames available")) w)
          × (get_mjpeg_stream host js device_id idle_locks w
              ≡ done (respond_text host js 204 (text "No video frames available")) w)
    unfolding get_video_stream get_mjpeg_stream latest_response get_latest_frame
    stream-empty e h i z =
        let found = latest_frame-found e h i in
        (rw (manager_read-idle host, found, z), rw (manager_read-idle host, found, z))
