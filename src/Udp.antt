-- ===== src/Udp.antt =====
-- UdpRouter of src/router/udp.rs. A source is an address and a port; `local_port` is the port of the
-- socket that a message came in on. What is only logged is left out.
pub mod Confirm
pub mod Video
pub mod Messages
pub mod Loop
pub mod Probe
pub mod Port
pub mod Invariant
use a9_v.Prelude.{
  ℕ, ◌+◌, ◌*◌, ◌%◌, ◌^◌, List, [], ◌∷◌, ◌++◌, String, length, replicate, Bool, true, false, not,
  ◌&&◌, ◌||◌, Option, none, some, ltb, leb, ◌==◌, if◌then◌else◌,
}
use a9_v.Prelude.Map.{Map, lookup, insert}
use a9_v.Wire.{Bytes, to_le, text}
use a9_v.Wire.Text.{is_utf8}
use a9_v.Protocol.Header.{ProtocolHeader, header_size}
use a9_v.Protocol.Header
use a9_v.Config.{AppConfig}
use a9_v.Stream.{add_fragment, complete_incomplete_frame}
use a9_v.Camera.{
  CameraConnection, ProbeState, not_started, in_progress, completed, update_heartbeat,
  add_to_retransmission_bucket, get_and_clear_retransmission_bucket, add_received_package,
}
use a9_v.Runtime.{
  Host, World, M, Locks, Outcome, done, failed, panicked, stuck, Packet, udp, ◌>>=◌, ◌>>◌, pure,
  skip, or_fail, attempt, utc_now, get_camera, modify, create_camera, manager_write, manager_read,
  camera_write, camera_try_read, send, update_camera,
}

-- `ProtocolHeader::from_bytes(data)?`
abbrev pub parse_header : {Value : Type 0} → Host Value → Bytes → M (ProtocolHeader × Bytes)
parse_header host d l w = elim (Header.from_bytes host.buf d) [
  | Header.ok r ↦ done r w
  | Header.err ↦ failed w
  | Header.panic ↦ panicked w
]

abbrev pub insert_port : ℕ → CameraConnection → CameraConnection
insert_port port c = record c { udp_ports = insert port 1 c.udp_ports }

abbrev pub add_payload : ProtocolHeader → Bytes → CameraConnection → CameraConnection
add_payload h p c = record c {
  stream_buffer = (add_fragment h.cmd h.msg_flag h.pkg_id p c.stream_buffer).0;
}

-- The start of a message with command 605: its length, the command and the device id.
abbrev pub confirm_head : Bytes → Bytes
confirm_head total_length = total_length ++ (to_le 4 605 ++ text "00000000")

abbrev encode_ids : List ℕ → Bytes
encode_ids [] = []
encode_ids (i ∷ is) = to_le 4 i ++ encode_ids is

-- `total_length` is a `u32` here.
abbrev pub empty_confirmation : Bytes
empty_confirmation = confirm_head (to_le 4 12)

-- `total_length` is a `usize` here, which `to_le_bytes` writes in eight bytes.
abbrev pub batch_confirmation : List ℕ → Bytes
batch_confirmation ids = confirm_head (to_le 8 ((12 + length ids * 4) % 2 ^ 64)) ++ encode_ids ids

-- The branches on `probe_state`.
unfoldable pub next_probe : ProbeState → ProbeState
next_probe not_started = in_progress 1
next_probe (in_progress count) = if leb 3 (count + 1) then completed else in_progress (count + 1)
next_probe completed = completed

module _ {Value : Type 0} (host : Host Value) where
  -- `camera_guard.udp_ports.keys().next()` under a read guard that is not waited for.
  unfoldable pub camera_udp_port : ℕ → M (Option ℕ)
  camera_udp_port ip = manager_read host do
    camera ← get_camera ip
    elim camera [
      | some _ ↦ camera_try_read host ip do
        c ← get_camera ip
        elim c [ some c' ↦ pure (host.next_key c'.udp_ports) | none ↦ pure none ]
      | none ↦ pure none
    ]

  unfoldable pub send_batch_retransmission_confirmation : ℕ → ℕ → List ℕ → M (Unit {0})
  unfolding camera_udp_port send
  send_batch_retransmission_confirmation local_port ip [] = skip
  send_batch_retransmission_confirmation local_port ip (i ∷ ids) = do
    port ← camera_udp_port ip
    elim port [
      | some p ↦ send host (udp local_port ip p (batch_confirmation (i ∷ ids)))
      | none ↦ skip
    ]

  unfoldable pub send_empty_retransmission_confirmation : ℕ → ℕ → M (Unit {0})
  unfolding camera_udp_port send
  send_empty_retransmission_confirmation local_port ip = do
    port ← camera_udp_port ip
    elim port [ some p ↦ send host (udp local_port ip p empty_confirmation) | none ↦ skip ]

  -- The part of `handle_video_frame` for a last packet.
  unfoldable pub confirm_frame : ℕ → ℕ → CameraConnection → M (Unit {0})
  unfolding send_batch_retransmission_confirmation send_empty_retransmission_confirmation
  confirm_frame local_port ip c =
      if not c.first_retransmission_sent
      then (do
        modify ip (λ d. record d { first_retransmission_sent = true })
        attempt (send_empty_retransmission_confirmation local_port ip))
      else (let (packages, c') = get_and_clear_retransmission_bucket c in
          do
            modify ip (λ _. c')
            attempt (send_batch_retransmission_confirmation local_port ip packages))

  -- `handle_video_frame` under the camera's write guard.
  unfoldable pub take_video_frame : ℕ → ℕ → ℕ → ProtocolHeader → Bytes → M (Unit {0})
  unfolding confirm_frame
  take_video_frame local_port ip port h payload = do
    now ← utc_now
    modify ip (update_heartbeat now)
    modify ip (insert_port port)
    modify ip (add_payload h payload)
    modify ip (add_to_retransmission_bucket h.pkg_id)
    c ← get_camera ip
    elim c [
      | some c' ↦ if h.msg_flag == 252 then confirm_frame local_port ip c' else skip
      | none ↦ skip
    ]
    modify ip (add_received_package h.pkg_id)

  unfoldable pub handle_video_frame : ℕ → ℕ → ℕ → Bytes → M (Unit {0})
  unfolding take_video_frame create_camera
  handle_video_frame local_port ip port d =
      if ltb (length d) header_size then skip else elim (Header.from_bytes host.buf d) [
        | Header.ok r ↦
            manager_write host (create_camera ip)
            >> camera_write host ip (take_video_frame local_port ip port r.0 r.1)
        | Header.err ↦ skip
        | Header.panic ↦ λ l w. panicked w
      ]
