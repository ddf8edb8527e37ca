-- ===== src/Tests/Datagrams.antt =====
-- Datagrams that src/router/udp.rs handles.
use a9_v.Prelude.{
  ℕ, ◌≤◌, ◌≡◌, ◌≢◌, ◌↔◌, refl, List, [], ◌∷◌, ◌++◌, length, replicate, All, true, arith,
  if◌then◌else◌, ◌==◌, ◌&&◌, ◌||◌,
}
use a9_v.Wire.{Bytes, to_le}
use a9_v.Wire.Text.{is_utf8}
use a9_v.Protocol.Header.{ProtocolHeader, InRange, to_bytes}
use a9_v.Protocol.Header.RoundTrip.{from_bytes-to_bytes}
use a9_v.Camera.{new, not_started, completed}
use a9_v.Runtime.{World, done, idle_locks, set_camera}
use a9_v.Runtime.Cells.{camera_at}
use a9_v.Udp.{handle_video_frame, batch_confirmation}
use a9_v.Stream.{add_fragment}
use a9_v.Prelude.Map.{insert}
use a9_v.Udp.Video.{with_id, handle_video_frame_lem, handle_video_frame-silent}
use a9_v.Config
use a9_v.Udp.Messages.{process_message}
use a9_v.Udp.Probe.{
  process_message-unknown, batch_confirmation-length, documented_confirmation, confirmation_tail,
  code51s, code51s-completed_iff,
}
use a9_v.Tests.Setup.{plain_buf, plain_host, world}

abbrev header : ℕ → ℕ → ProtocolHeader
header cmd flag = record {
  length = 2;
  cmd = cmd;
  msg_flag = flag;
  deal_fl = 0;
  fwd_id = replicate 8 0;
  pkg_id = 5;
}

last_packet-InRange : InRange (header 1 252)
last_packet-InRange = record {
  length_u32 = omega arith;
  cmd_u16 = omega arith;
  msg_flag_u8 = omega arith;
  deal_fl_u8 = omega arith;
  fwd_id_len = refl;
  fwd_id_u8 = omega arith;
  pkg_id_u32 = omega arith;
}

unknown-InRange : InRange (header 200 255)
unknown-InRange = record {
  length_u32 = omega arith;
  cmd_u16 = omega arith;
  msg_flag_u8 = omega arith;
  deal_fl_u8 = omega arith;
  fwd_id_len = refl;
  fwd_id_u8 = omega arith;
  pkg_id_u32 = omega arith;
}

abbrev last_packet : Bytes
last_packet = to_bytes plain_buf (header 1 252) ++ 6 ∷ 6 ∷ []

abbrev unknown_message : Bytes
unknown_message = to_bytes plain_buf (header 200 255) ++ 6 ∷ 6 ∷ []

handle_video_frame_lem_example :
    handle_video_frame plain_host 6000 7 53221 last_packet idle_locks world
    ≡ done tt (
        set_camera 7
          (record (camera_at 7 world) {
            last_heartbeat = 5;
            udp_ports = insert 53221 1 (camera_at 7 world).udp_ports;
            stream_buffer = (add_fragment 1 252 5 (6 ∷ 6 ∷ []) (camera_at 7 world).stream_buffer).0;
            retransmission_bucket =
                if 252 == 252 && (camera_at 7 world).first_retransmission_sent
                then []
                else with_id 5 (camera_at 7 world).retransmission_bucket;
            first_retransmission_sent = (camera_at 7 world).first_retransmission_sent || 252 == 252;
            received_packages = with_id 5 (camera_at 7 world).received_packages;
          })
          world)
handle_video_frame_lem_example =
    handle_video_frame_lem plain_host 6000 7 53221 last_packet (header 1 252) (6 ∷ 6 ∷ []) world
      (from_bytes-to_bytes plain_buf (header 1 252) (6 ∷ 6 ∷ []) last_packet-InRange)

handle_video_frame-silent_example :
    (w' : World) × (handle_video_frame plain_host 6000 7 53221 last_packet idle_locks world
      ≡ done tt w')
    × (w'.out ≡ [])
    × (w'.sends ≡ 0)
handle_video_frame-silent_example =
    handle_video_frame-silent plain_host 6000 7 53221 last_packet world

process_message-unknown_example :
    process_message plain_host 6000 7 53221 Config.default unknown_message idle_locks world
    ≡ done tt world
process_message-unknown_example =
    process_message-unknown plain_host 6000 7 53221 Config.default unknown_message (6 ∷ 6 ∷ [])
      (header 200 255) world
      (from_bytes-to_bytes plain_buf (header 200 255) (6 ∷ 6 ∷ []) unknown-InRange)
      (λ e. omega (arith, e)) (λ e. omega (arith, e)) (λ e. omega (arith, e))
      (λ e. omega (arith, e)) (λ e. omega (arith, e)) (λ e. omega (arith, e))
      (λ e. omega (arith, e)) (λ e. omega (arith, e))

batch_confirmation-length_example :
    (batch_confirmation (5 ∷ []) ≡ to_le 4 16 ++ (replicate 4 0 ++ confirmation_tail (5 ∷ [])))
    × (batch_confirmation (5 ∷ []) ≢ documented_confirmation (5 ∷ []))
batch_confirmation-length_example = batch_confirmation-length (5 ∷ []) (omega arith)

abbrev texts : List Bytes
texts = (65 ∷ []) ∷ [] ∷ (195 ∷ 164 ∷ []) ∷ []

texts-utf8 : All (λ p. is_utf8 p ≡ true) texts
unfolding is_utf8
texts-utf8 = (refl, (refl, (refl, tt)))

unprobed : (camera_at 7 world).probe_state ≡ not_started
unfolding new
unprobed = refl

code51s-completed_iff_example :
    ((camera_at 7 (code51s plain_host 6000 7 53221 texts world)).probe_state ≡ completed)
    ↔ (3 ≤ length texts)
code51s-completed_iff_example =
    code51s-completed_iff plain_host 6000 7 53221 texts world texts-utf8 unprobed
