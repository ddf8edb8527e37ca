-- ===== src/Server/Delivery/Interleaved.antt =====
-- The packets of a frame between the turns that the server takes for other cameras.
use a9_v.Prelude.{ℕ, ◌<◌, ◌≡◌, ◌≢◌, refl, ap, ◌∙◌, List, [], ◌∷◌, ◌++◌, All, none, some}
use a9_v.Prelude.Map.{lookup}
use a9_v.Wire.{Bytes}
use a9_v.Config.{AppConfig}
use a9_v.Camera.{CameraConnection}
use a9_v.Stream.{StreamBuffer, get_latest_frame}
use a9_v.Stream.Packets.{Middle, joined, payloads, frame_delivered}
use a9_v.Runtime.{Host, World, world_of, idle_locks}
use a9_v.Runtime.Cells.{camera_at, camera_at-found, lookup-set_camera}
use a9_v.Runtime.Invariant.{IsSound}
use a9_v.Udp.Video.{framed}
use a9_v.Udp.Messages.{process_message}
use a9_v.Udp.Invariant.Messages.{process_message-Keeps}
use a9_v.Web.{Json}
use a9_v.Web.Video.Latest.{latest-add_complete_frame}
use a9_v.Server.{Reachable, Reachable-IsSound}
use a9_v.Server.Isolation.{TurnsFor, TurnsFor-IsKept}
use a9_v.Server.Delivery.{
  VideoPacket, header_of, payload_of, Fits, add_packet, add_packets, framed-Takes, encode,
  packet-handled,
}
use a9_v.Server.Delivery.Served.{frame_packets, add_packets-middles}

module _ {Value : Type 0} (host : Host Value) (js : Json Value) (config : AppConfig) (ip : ℕ) where
  abbrev pub sent_packet : ℕ → ℕ → VideoPacket → World → World
  sent_packet local_port port p w = world_of (
      process_message host local_port ip port config (encode host config local_port ip port p)
        idle_locks w)

  -- The server takes the packets of a camera in their order, each on any of its sockets and from any
  -- port of the camera, with any turns for other addresses before, between and after them.
  pub data Receives : World → List VideoPacket → World → Type 0 where
    at_end : (w : World) → Receives w [] w
    packet :
        (local_port port : ℕ) (p : VideoPacket) {ps : List VideoPacket} (w : World) {u : World}
        → Receives (sent_packet local_port port p w) ps u
        → Receives w (p ∷ ps) u
    others :
        (other : ℕ) {v w u : World} {ps : List VideoPacket}
        → other ≢ ip
        → TurnsFor host js config other v w
        → Receives w ps u
        → Receives v ps u

  -- The camera of the address, with this id and buffer.
  pub record HasBuffer (device_id : Bytes) (b : StreamBuffer) (w : World) : Type 0 where
    pub camera : CameraConnection
    pub found : lookup ip w.manager.cameras ≡ some camera
    pub named : camera.device_id ≡ device_id
    pub buffer : camera.stream_buffer ≡ b

  sent_packet-HasBuffer :
      (local_port port : ℕ) (p : VideoPacket) (device_id : Bytes) (b : StreamBuffer) (w : World)
      → Fits p
      → HasBuffer device_id b w
      → HasBuffer device_id (add_packet p b) (sent_packet local_port port p w)
  sent_packet-HasBuffer local_port port p device_id b w f h =
      let c = camera_at ip w in
      let d = framed (header_of p) (payload_of p) port w.clock c in
      let same = camera_at-found ip w h.camera h.found in
      let (taken, kept) = framed-Takes p port w.clock c in
      record {
        camera = d;
        found =
            ap (λ o. lookup ip (world_of o).manager.cameras)
              (packet-handled host config local_port ip port p w f)
            ∙ lookup-set_camera ip d w;
        named = kept ∙ ap (λ x. x.device_id) same ∙ h.named;
        buffer = taken ∙ ap (λ x. add_packet p x.stream_buffer) same ∙ ap (add_packet p) h.buffer;
      }

  Receives-HasBuffer :
      (device_id : Bytes) {v u : World} {ps : List VideoPacket} (b : StreamBuffer)
      → Receives v ps u
      → IsSound v
      → All Fits ps
      → HasBuffer device_id b v
      → HasBuffer device_id (add_packets ps b) u
  Receives-HasBuffer device_id b (at_end w) s f h = h
  Receives-HasBuffer device_id b (packet local_port port p w r) s f h =
      Receives-HasBuffer device_id (add_packet p b) r
        ((process_message-Keeps host local_port ip port config _).keeps idle_locks w s).0 f.1
        (sent_packet-HasBuffer local_port port p device_id b w f.0 h)
  Receives-HasBuffer device_id b (others other n t r) s f h =
      let k = TurnsFor-IsKept host js config other t s in
      Receives-HasBuffer device_id b r k.0 f (record {
        camera = h.camera;
        found = k.1 ip n ∙ h.found;
        named = h.named;
        buffer = h.buffer;
      })

  -- The server has come to a world where it knows a camera, and takes the packets of a frame of the
  -- camera in their order, whose flags and package ids fit their fields, with a size above zero and
  -- below a million behind the last: each on any socket and port, with no lock in its way, and with any
  -- turns for other addresses before, between and after them. Then the camera is known under its id,
  -- and the latest frame of its buffer is the payloads of the frame put together.
  pub frame-latest :
      (c : CameraConnection) {w u : World} (first_pkg last_pkg : ℕ) (first last : Bytes)
      (ms : List Middle) (size : ℕ)
      → Reachable host js config w
      → lookup ip w.manager.cameras ≡ some c
      → All Fits (frame_packets first_pkg first ms last_pkg last size)
      → 0 < size
      → size < 1000000
      → Receives w (frame_packets first_pkg first ms last_pkg last size) u
      → (d : CameraConnection) × (lookup ip u.manager.cameras ≡ some d)
        × (d.device_id ≡ c.device_id)
        × (get_latest_frame d.stream_buffer ≡ some (first ++ (joined (payloads ms) ++ last)))
  frame-latest c first_pkg last_pkg first last ms size reached e fits p q r =
      let b = c.stream_buffer in
      let h =
        Receives-HasBuffer c.device_id b r (Reachable-IsSound host js config reached) fits
          (record { camera = c; found = e; named = refl; buffer = refl }) in
      let stored =
        h.buffer
        ∙ add_packets-middles ms _ _
        ∙ frame_delivered b first_pkg last_pkg first last ms size p q in
      (
        h.camera,
        h.found,
        h.named,
        ap get_latest_frame stored
            ∙ latest-add_complete_frame (first ++ (joined (payloads ms) ++ last))
                (record b { current_frame = none }),
      )
