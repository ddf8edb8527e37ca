-- ===== src/Tests/Served.antt =====
-- A frame of four packets, from the datagrams to the response.
use a9_v.Prelude.{ℕ, some, ◌≡◌, refl, List, [], ◌∷◌, ◌++◌, arith}
use a9_v.Wire.{Bytes, text}
use a9_v.Config
use a9_v.Stream.Packets.{Middle, video, audio, joined, payloads}
use a9_v.Prelude.Map.{lookup}
use a9_v.Camera.{CameraConnection}
use a9_v.Stream.{get_latest_frame}
use a9_v.Runtime.{World, world_of, done, idle_locks}
use a9_v.Udp.Messages.{process_message}
use a9_v.Server.Isolation
use a9_v.Server.Isolation.{none_yet, one_more}
use a9_v.Server.Delivery.Interleaved.{sent_packet, Receives, at_end, packet, others, frame-latest}
use a9_v.Tests.Turns.{accepted, known, accepted-Reachable, lookup-accepted}
use a9_v.Udp.Loop.{receive}
use a9_v.Web.{raw}
use a9_v.Web.Video.{get_video_stream, get_mjpeg_stream, mjpeg_data}
use a9_v.Server.Delivery.{arriving, VideoPacket, jpeg}
use a9_v.Server.Delivery.Served.{frame_packets, frame-served}
use a9_v.Tests.Setup.{plain_host, plain_json, camera, world}

abbrev middles : List Middle
middles = video 10 (4 ∷ []) ∷ audio 255 11 (9 ∷ []) ∷ []

abbrev frame : Bytes
frame = (3 ∷ []) ++ (joined (payloads middles) ++ 6 ∷ [])

frame-served_example :
    (w' : World) × (receive plain_host 6123 Config.default
        (arriving plain_host Config.default 6123 7 53221
          (frame_packets 9 (3 ∷ []) middles 12 (6 ∷ []) 3))
        idle_locks
        world
      ≡ done tt w')
    × (get_video_stream plain_host plain_json camera.device_id idle_locks w'
        ≡ done
            (record {
              status = 200;
              headers =
                  (text "Content-Type", text "image/jpeg")
                  ∷ (text "Cache-Control", text "no-cache")
                  ∷ (text "Connection", text "keep-alive")
                  ∷ [];
              body = raw frame;
            })
            w')
    × (get_mjpeg_stream plain_host plain_json camera.device_id idle_locks w'
        ≡ done
            (record {
              status = 200;
              headers =
                  (text "Content-Type", text "multipart/x-mixed-replace; boundary=frame")
                  ∷ (text "Cache-Control", text "no-cache")
                  ∷ (text "Connection", text "keep-alive")
                  ∷ [];
              body = raw (mjpeg_data frame);
            })
            w')
frame-served_example =
    frame-served plain_host plain_json Config.default 6123 7 53221 [] [] camera world 9 12 (3 ∷ [])
      (6 ∷ []) middles 3 refl tt tt (omega arith) (omega arith) (omega arith) (omega arith)

-- Between the packets a datagram comes from another camera, on another socket.
abbrev heard_other : World → World
heard_other w =
    world_of (process_message plain_host 53221 9 4000 Config.default (1 ∷ 2 ∷ []) idle_locks w)

abbrev sent : ℕ → VideoPacket → World → World
sent port p w = sent_packet plain_host plain_json Config.default 7 6123 port p w

abbrev first_packet : VideoPacket
first_packet = jpeg 250 9 (3 ∷ [])

abbrev last_packet : VideoPacket
last_packet = jpeg 252 12 (6 ∷ 3 ∷ 0 ∷ 0 ∷ 0 ∷ [])

abbrev between : World
between = heard_other (sent 53221 first_packet accepted)

abbrev finished : World
finished = sent 4001 last_packet between

received :
    Receives plain_host plain_json Config.default 7 accepted
      (first_packet ∷ last_packet ∷ [])
      finished
received = packet 6123 53221 first_packet accepted (
    others 9 (λ e. omega (arith, e))
      (one_more none_yet
        (Isolation.datagram idle_locks (sent 53221 first_packet accepted) 53221 4000 (1 ∷ 2 ∷ [])))
      (packet 6123 4001 last_packet between (at_end finished)))

frame-latest_example :
    (d : CameraConnection) × (lookup 7 finished.manager.cameras ≡ some d)
    × (d.device_id ≡ known.device_id)
    × (get_latest_frame d.stream_buffer ≡ some (3 ∷ 6 ∷ []))
frame-latest_example =
    frame-latest plain_host plain_json Config.default 7 known 9 12 (3 ∷ []) (6 ∷ []) [] 3
      accepted-Reachable lookup-accepted (omega arith) (omega arith) (omega arith) received
