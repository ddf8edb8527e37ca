-- ===== src/Web/Video.antt =====
-- `get_video_stream` and `get_mjpeg_stream` of src/web/camera_endpoints.rs.
pub mod Multipart
pub mod Latest
use a9_v.Prelude.{[], ◌∷◌, ◌++◌, Option, none, some, length}
use a9_v.Wire.{Bytes, text}
use a9_v.Wire.Decimal.{to_decimal}
use a9_v.Stream.{get_latest_frame}
use a9_v.Runtime.{Host, M, ◌>>=◌, pure, manager_read, camera_read}
use a9_v.Web.{Json, Response, raw, cameras, find, respond_text}

abbrev pub crlf : Bytes
crlf = 13 ∷ 10 ∷ []

-- The multipart body with one frame.
unfoldable pub mjpeg_data : Bytes → Bytes
mjpeg_data frame =
    text "--frame"
    ++ (crlf
        ++ (text "Content-Type: image/jpeg"
            ++ (crlf
                ++ (text "Content-Length: "
                    ++ (to_decimal (length frame) ++ (crlf ++ (crlf ++ (frame ++ crlf))))))))

module _ {Value : Type 0} (host : Host Value) (js : Json Value) where
  unfoldable pub stream_response : Bytes → Bytes → Response Value
  stream_response content_type bytes = record {
    status = 200;
    headers =
        (text "Content-Type", content_type)
        ∷ (text "Cache-Control", text "no-cache")
        ∷ (text "Connection", text "keep-alive")
        ∷ [];
    body = raw bytes;
  }

  -- What is answered with the camera's latest frame, if the camera is found and has one.
  unfoldable pub latest_response : (Bytes → Response Value) → Option (Option Bytes) → Response Value
  latest_response respond (some (some frame)) = respond frame
  latest_response respond (some none) = respond_text host js 204 (text "No video frames available")
  latest_response respond none = respond_text host js 404 (text "Camera not found")

  -- The search that both endpoints make.
  unfoldable pub latest_frame : Bytes → M (Option (Option Bytes))
  unfolding cameras find get_latest_frame
  latest_frame device_id = do
    m ← cameras
    find (camera_read host) device_id (λ c. get_latest_frame c.stream_buffer) m

  unfoldable pub get_video_stream : Bytes → M (Response Value)
  unfolding latest_frame latest_response stream_response
  get_video_stream device_id = manager_read host do
    target_camera ← latest_frame device_id
    pure (latest_response (stream_response (text "image/jpeg")) target_camera)

  unfoldable pub get_mjpeg_stream : Bytes → M (Response Value)
  unfolding latest_frame latest_response stream_response mjpeg_data
  get_mjpeg_stream device_id = manager_read host do
    target_camera ← latest_frame device_id
    pure (
        latest_response
          (λ frame.
            stream_response (text "multipart/x-mixed-replace; boundary=frame") (mjpeg_data frame))
          target_camera)
