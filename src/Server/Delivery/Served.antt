-- ===== src/Server/Delivery/Served.antt =====
-- From the datagrams that src/router/udp.rs receives to what src/web/camera_endpoints.rs answers.
use a9_v.Prelude.{ℕ, ◌<◌, ◌≡◌, ◌≢◌, refl, ◌∙◌, List, [], ◌∷◌, ◌++◌, All}
use a9_v.Prelude.Map.{Map}
use a9_v.Wire.{Bytes, text, to_le}
use a9_v.Config.{AppConfig}
use a9_v.Camera.{CameraConnection}
use a9_v.Stream.{StreamBuffer}
use a9_v.Stream.Packets.{Middle, video, audio, add_middles, joined, payloads}
use a9_v.Runtime.{Host, World, done, idle_locks}
use a9_v.Udp.Loop.{receive}
use a9_v.Web.{Json, raw}
use a9_v.Web.Search.{HasOtherId}
use a9_v.Web.Video.{get_video_stream, get_mjpeg_stream, stream_response, mjpeg_data}
use a9_v.Web.Video.Latest.{stream-delivered}
use a9_v.Server.Delivery.{
  VideoPacket, jpeg, pcm, Fits, IsShort, add_packets, arriving, receive-Holds,
}

abbrev pub middle_packets : List Middle → List VideoPacket
middle_packets [] = []
middle_packets (video pkg p ∷ ms) = jpeg 251 pkg p ∷ middle_packets ms
middle_packets (audio flag pkg p ∷ ms) = pcm flag pkg p ∷ middle_packets ms

-- The packets of a frame: its first bytes, what comes between, and its last bytes with a size.
abbrev pub frame_packets : ℕ → Bytes → List Middle → ℕ → Bytes → ℕ → List VideoPacket
frame_packets first_pkg first ms last_pkg last size =
    jpeg 250 first_pkg first ∷ (middle_packets ms ++ jpeg 252 last_pkg (last ++ to_le 4 size) ∷ [])

pub add_packets-middles :
    (ms : List Middle) (ps : List VideoPacket) (b : StreamBuffer)
    → add_packets (middle_packets ms ++ ps) b ≡ add_packets ps (add_middles ms b)
add_packets-middles [] ps b = refl
add_packets-middles (video pkg p ∷ ms) ps b = add_packets-middles ms ps _
add_packets-middles (audio flag pkg p ∷ ms) ps b = add_packets-middles ms ps _

module _ {Value : Type 0} (host : Host Value) (js : Json Value) (config : AppConfig)
    (local_port ip port : ℕ) where
  -- A camera sends the packets of a frame, each with its header, whose flags and package ids fit their
  -- fields and whose payloads have 4076 bytes at most, with a size above zero and below a million
  -- behind the last. The receive loop gets through them, and then the video endpoint answers 200 with
  -- the payloads of the frame put together, and the endpoint for MJPEG answers 200 with these in a
  -- multipart body. The camera is known before under its address, no camera before it in the map has
  -- its address or its id, and no other task runs meanwhile.
  pub frame-served :
      (before after : Map CameraConnection) (c : CameraConnection) (w : World)
      (first_pkg last_pkg : ℕ) (first last : Bytes) (ms : List Middle) (size : ℕ)
      → w.manager.cameras ≡ before ++ (ip, c) ∷ after
      → All (λ (e : ℕ × CameraConnection). e.0 ≢ ip) before
      → All (HasOtherId c.device_id) before
      → All Fits (frame_packets first_pkg first ms last_pkg last size)
      → All IsShort (frame_packets first_pkg first ms last_pkg last size)
      → 0 < size
      → size < 1000000
      → (w' : World) × (receive host local_port config
            (arriving host config local_port ip port
              (frame_packets first_pkg first ms last_pkg last size))
            idle_locks
            w
          ≡ done tt w')
        × (get_video_stream host js c.device_id idle_locks w'
            ≡ done
                (record {
                  status = 200;
                  headers =
                      (text "Content-Type", text "image/jpeg")
                      ∷ (text "Cache-Control", text "no-cache")
                      ∷ (text "Connection", text "keep-alive")
                      ∷ [];
                  body = raw (first ++ (joined (payloads ms) ++ last));
                })
                w')
        × (get_mjpeg_stream host js c.device_id idle_locks w'
            ≡ done
                (record {
                  status = 200;
                  headers =
                      (text "Content-Type", text "multipart/x-mixed-replace; boundary=frame")
                      ∷ (text "Cache-Control", text "no-cache")
                      ∷ (text "Connection", text "keep-alive")
                      ∷ [];
                  body = raw (mjpeg_data (first ++ (joined (payloads ms) ++ last)));
                })
                w')
  unfolding stream_response
  frame-served before after c w first_pkg last_pkg first last ms size e keys ids fits short p q =
      let b = c.stream_buffer in
      let ps = frame_packets first_pkg first ms last_pkg last size in
      let (w', r, held) =
        receive-Holds host config local_port ip port before after c.device_id keys ps w b fits short
          (record { camera = c; found = e; named = refl; buffer = refl }) in
      let served =
        stream-delivered host js c.device_id w' before after ip held.camera b first_pkg last_pkg
          first last ms size held.found ids held.named p q
          (held.buffer ∙ add_packets-middles ms _ _) in
      (w', r, served.0, served.1)
