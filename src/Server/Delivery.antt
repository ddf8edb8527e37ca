-- ===== src/Server/Delivery.antt =====
-- From a camera's datagrams, by the receive loop of src/router/udp.rs, to its buffer of src/types.rs.
pub mod Served
pub mod Interleaved
use a9_v.Prelude.{
  ℕ, ◌%◌, ◌^◌, ◌<◌, ◌≡◌, ◌≢◌, refl, sym, ap, subst, ◌∙◌, List, [], ◌∷◌, ◌++◌, All, length, none,
  some, arith, false, take, take_all, ◌≤◌, ◌+◌, true, not, if_rule, ne→==, ltb, ◌==◌,
}
use a9_v.Prelude.Map.{Map, lookup, insert}
use a9_v.Wire.{Bytes, text, to_le}
use a9_v.Protocol.Header.{ProtocolHeader, InRange, ok}
use a9_v.Protocol.Header
use a9_v.Protocol.Header.RoundTrip.{from_bytes-to_bytes}
use a9_v.Protocol.Header.Layout.{fields_of, to_bytes-flat, length-flat}
use a9_v.Config.{AppConfig}
use a9_v.Camera.{
  CameraConnection, add_received_package, add_to_retransmission_bucket, update_heartbeat,
  get_and_clear_retransmission_bucket,
}
use a9_v.Stream.{StreamBuffer, add_fragment}
use a9_v.Stream.Packets.{Middle, video, audio, add_middles, joined, payloads}
use a9_v.Runtime.{Host, World, done, idle_locks, set_camera, attempt}
use a9_v.Runtime.Cells.{camera_at, camera_at-found}
use a9_v.Udp.{parse_header}
use a9_v.Udp.Video.{framed, long_enough, handle_video_frame-framed}
use a9_v.Udp.Messages.{dispatch, process_message}
use a9_v.Udp.Probe.{parse_header-ok}
use a9_v.Udp.Loop.{Received, datagram, receive, buffer_size}
use a9_v.Web.{Json}
use a9_v.Web.Search.{HasOtherId}
use a9_v.Web.Video.{get_video_stream, get_mjpeg_stream, stream_response, mjpeg_data}
use a9_v.Web.Video.Latest.{stream-delivered}

-- A JPEG or an audio packet of a camera: its flag, its package id and its payload.
pub data VideoPacket : Type 0 where
  jpeg : ℕ → ℕ → Bytes → VideoPacket
  pcm : ℕ → ℕ → Bytes → VideoPacket

abbrev pub header_of : VideoPacket → ProtocolHeader
header_of (jpeg flag pkg p) = Header.new 1 (length p % 2 ^ 32) flag pkg
header_of (pcm flag pkg p) = Header.new 6 (length p % 2 ^ 32) flag pkg

abbrev pub payload_of : VideoPacket → Bytes
payload_of (jpeg flag pkg p) = p
payload_of (pcm flag pkg p) = p

-- The header and the payload fit into the buffer of the receive loop.
abbrev pub IsShort : VideoPacket → Type 0
IsShort p = length (payload_of p) ≤ 4076

-- The flag and the package id fit their fields.
abbrev pub Fits : VideoPacket → Type 0
Fits (jpeg flag pkg p) = (flag < 256) × (pkg < 2 ^ 32)
Fits (pcm flag pkg p) = (flag < 256) × (pkg < 2 ^ 32)

abbrev pub add_packet : VideoPacket → StreamBuffer → StreamBuffer
add_packet (jpeg flag pkg p) b = (add_fragment 1 flag pkg p b).0
add_packet (pcm flag pkg p) b = (add_fragment 6 flag pkg p b).0

abbrev pub add_packets : List VideoPacket → StreamBuffer → StreamBuffer
add_packets [] b = b
add_packets (p ∷ ps) b = add_packets ps (add_packet p b)

header-InRange : (p : VideoPacket) → Fits p → InRange (header_of p)
unfolding Header.new
header-InRange (jpeg flag pkg p) f = record {
  length_u32 = omega arith;
  cmd_u16 = omega arith;
  msg_flag_u8 = f.0;
  deal_fl_u8 = omega arith;
  fwd_id_len = refl;
  fwd_id_u8 = omega arith;
  pkg_id_u32 = f.1;
}
header-InRange (pcm flag pkg p) f = record {
  length_u32 = omega arith;
  cmd_u16 = omega arith;
  msg_flag_u8 = f.0;
  deal_fl_u8 = omega arith;
  fwd_id_len = refl;
  fwd_id_u8 = omega arith;
  pkg_id_u32 = f.1;
}

insert_split :
    (before after : Map CameraConnection) (ip : ℕ) (c d : CameraConnection)
    → All (λ (e : ℕ × CameraConnection). e.0 ≢ ip) before
    → insert ip d (before ++ (ip, c) ∷ after) ≡ before ++ (ip, d) ∷ after
insert_split [] after ip c d h = ground arith
insert_split ((j, e) ∷ before) after ip c d h =
    rw (ne→== h.0) (ap (◌∷◌ (j, e)) (insert_split before after ip c d h.1))

lookup_split :
    (before after : Map CameraConnection) (ip : ℕ) (c : CameraConnection)
    → All (λ (e : ℕ × CameraConnection). e.0 ≢ ip) before
    → lookup ip (before ++ (ip, c) ∷ after) ≡ some c
lookup_split [] after ip c h = ground arith
lookup_split ((j, e) ∷ before) after ip c h = rw (ne→== h.0) (lookup_split before after ip c h.1)

module _ {Value : Type 0} (host : Host Value) (config : AppConfig) (local_port ip port : ℕ) where
  -- The bytes that a camera sends for a packet.
  abbrev pub encode : VideoPacket → Bytes
  encode p = Header.to_bytes host.buf (header_of p) ++ payload_of p

  -- The encodings as they are sent, whatever their lengths.
  abbrev pub arriving : List VideoPacket → List Received
  arriving [] = []
  arriving (p ∷ ps) = datagram ip port (encode p) ∷ arriving ps

  encode-parsed :
      (p : VideoPacket)
      → Fits p
      → Header.from_bytes host.buf (encode p) ≡ ok (header_of p, payload_of p)
  encode-parsed p f = from_bytes-to_bytes host.buf (header_of p) (payload_of p) (header-InRange p f)

  pub packet-handled :
      (p : VideoPacket) (w : World)
      → Fits p
      → process_message host local_port ip port config (encode p) idle_locks w
        ≡ done tt
            (set_camera ip (framed (header_of p) (payload_of p) port w.clock (camera_at ip w)) w)
  unfolding process_message
  packet-handled p w f =
      let e = encode-parsed p f in
      rw
        (
          long_enough host local_port ip port (encode p) e,
          parse_header-ok host (encode p) (header_of p) (payload_of p) idle_locks w e,
        )
        (dispatched p e)
    where
      dispatched :
          (p : VideoPacket)
          → Header.from_bytes host.buf (encode p) ≡ ok (header_of p, payload_of p)
          → dispatch host local_port ip port config
              (encode p)
              (header_of p)
              (payload_of p)
              idle_locks
              w
            ≡ done tt (
                set_camera ip (framed (header_of p) (payload_of p) port w.clock (camera_at ip w)) w)
      dispatched (jpeg flag pkg q) e =
          unfold dispatch Header.new in
          handle_video_frame-framed host local_port ip port (encode (jpeg flag pkg q))
            (header_of (jpeg flag pkg q)) q w e
      dispatched (pcm flag pkg q) e =
          unfold dispatch Header.new in
          handle_video_frame-framed host local_port ip port (encode (pcm flag pkg q))
            (header_of (pcm flag pkg q)) q w e

-- The buffer has taken the packet, and the id is the same.
abbrev pub Takes : VideoPacket → CameraConnection → CameraConnection → Type 0
Takes p c d = (d.stream_buffer ≡ add_packet p c.stream_buffer) × (d.device_id ≡ c.device_id)

pub framed-Takes :
    (p : VideoPacket) (port now : ℕ) (c : CameraConnection)
    → Takes p c (framed (header_of p) (payload_of p) port now c)
unfolding add_received_package add_to_retransmission_bucket update_heartbeat
    get_and_clear_retransmission_bucket Header.new
framed-Takes (jpeg flag pkg q) port now c =
    if_rule (Takes (jpeg flag pkg q) c) (flag == 252)
      (if_rule (Takes (jpeg flag pkg q) c) (not c.first_retransmission_sent) (refl, refl)
        (refl, refl))
      (refl, refl)
framed-Takes (pcm flag pkg q) port now c =
    if_rule (Takes (pcm flag pkg q) c) (flag == 252)
      (if_rule (Takes (pcm flag pkg q) c) (not c.first_retransmission_sent) (refl, refl)
        (refl, refl))
      (refl, refl)

-- The camera of the address in the map, where it is and with which buffer.
pub record Holds (before after : Map CameraConnection) (ip : ℕ) (device_id : Bytes) (w : World)
    (b : StreamBuffer) : Type 0 where
  pub camera : CameraConnection
  pub found : w.manager.cameras ≡ before ++ (ip, camera) ∷ after
  pub named : camera.device_id ≡ device_id
  pub buffer : camera.stream_buffer ≡ b

module _ {Value : Type 0} (host : Host Value) (config : AppConfig) (local_port ip port : ℕ)
    (before after : Map CameraConnection) (device_id : Bytes)
    (others : All (λ (e : ℕ × CameraConnection). e.0 ≢ ip) before) where
  packet-Holds :
      (p : VideoPacket) (w : World) (b : StreamBuffer)
      → Fits p
      → Holds before after ip device_id w b
      → (w' : World) × (process_message host local_port ip port config
            (encode host config local_port ip port p)
            idle_locks
            w
          ≡ done tt w')
        × Holds before after ip device_id w' (add_packet p b)
  unfolding set_camera
  packet-Holds p w b f s =
      let c = s.camera in
      let at =
        camera_at-found ip w c (ap (lookup ip) s.found ∙ lookup_split before after ip c others) in
      let d = framed (header_of p) (payload_of p) port w.clock c in
      let (e, n) = framed-Takes p port w.clock c in
      (
        set_camera ip d w,
        packet-handled host config local_port ip port p w f
            ∙ ap
                (λ x.
                  done tt (set_camera ip (framed (header_of p) (payload_of p) port w.clock x) w))
                at,
        record {
          camera = d;
          found = ap (insert ip d) s.found ∙ insert_split before after ip c d others;
          named = n ∙ s.named;
          buffer = e ∙ ap (add_packet p) s.buffer;
        },
      )

  encode_length :
      (p : VideoPacket)
      → length (encode host config local_port ip port p) ≡ length (payload_of p) + 20
  unfolding fields_of Header.new
  encode_length (jpeg flag pkg q) =
      let h = header_of (jpeg flag pkg q) in
      ap length (to_bytes-flat host.buf h q) ∙ length-flat (fields_of h) q refl
  encode_length (pcm flag pkg q) =
      let h = header_of (pcm flag pkg q) in
      ap length (to_bytes-flat host.buf h q) ∙ length-flat (fields_of h) q refl

  received_whole :
      (p : VideoPacket)
      → IsShort p
      → take buffer_size (encode host config local_port ip port p)
        ≡ encode host config local_port ip port p
  received_whole p h =
      take_all buffer_size (encode host config local_port ip port p)
        (omega (arith, h, encode_length p))

  pub receive-Holds :
      (ps : List VideoPacket) (w : World) (b : StreamBuffer)
      → All Fits ps
      → All IsShort ps
      → Holds before after ip device_id w b
      → (w' : World) × (receive host local_port config
            (arriving host config local_port ip port ps)
            idle_locks
            w
          ≡ done tt w')
        × Holds before after ip device_id w' (add_packets ps b)
  unfolding receive
  receive-Holds [] w b f z s = (w, refl, s)
  receive-Holds (p ∷ ps) w b f z s =
      let (v, e, t) = packet-Holds p w b f.0 s in
      let (w', e', t') = receive-Holds ps v (add_packet p b) f.1 z.1 t in
      (w', rw (received_whole p z.0) (rw e e'), t')
