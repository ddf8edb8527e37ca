-- ===== src/Udp/Invariant.antt =====
-- The cameras under the handlers of src/router/udp.rs: video packets and the periodic task.
pub mod Messages
use a9_v.Prelude.{
  ℕ, List, [], ◌∷◌, All, Bool, true, false, not, Option, none, some, if_rule, if◌then◌else◌, ◌==◌,
  ltb, length, ◌||◌, ◌&&◌, ◌≡◌, Bool-cases, inl, inr,
}
use a9_v.Prelude.Map.{Map}
use a9_v.Wire.{Bytes}
use a9_v.Wire.Text.{is_utf8}
use a9_v.Protocol.Header.{ProtocolHeader, header_size}
use a9_v.Protocol.Header
use a9_v.Config.{AppConfig}
use a9_v.Stream.Bounds.{add_fragment-IsBounded, sweep-IsBounded}
use a9_v.Camera.{
  CameraConnection, update_heartbeat, add_to_retransmission_bucket, add_received_package,
  get_and_clear_retransmission_bucket,
}
use a9_v.Camera.Bucket.{push_new-IsDistinct}
use a9_v.Runtime.{
  Outcome, world_of, Host, M, World, Locks, udp, done, skip, send, ◌>>=◌, ◌>>◌, modify,
  create_camera, manager_write, camera_write, attempt, get_camera, pure,
}
use a9_v.Runtime.Invariant.{
  IsSoundCamera, IsSoundEntry, IsSound, Keeps, skip-Keeps, pure-Keeps, or_fail-Keeps, bind-Keeps,
  seq-Keeps, attempt-Keeps, get_camera-Keeps, modify-Keeps, create_camera-Keeps, utc_now-Keeps,
}
use a9_v.Runtime.Invariant.Guards.{
  send-Keeps, manager_write-Keeps, manager_read-Keeps, camera_write-Keeps, camera_try_read-Keeps,
  update_camera-Keeps,
}
use a9_v.Udp.{
  parse_header, insert_port, add_payload, batch_confirmation, empty_confirmation, camera_udp_port,
  send_batch_retransmission_confirmation, send_empty_retransmission_confirmation, confirm_frame,
  take_video_frame, handle_video_frame,
}
use a9_v.Udp.Messages.{
  json_message, framed_json, code_only, probe_response, set_video_port, probe_stepped,
  handle_udp_keepalive, draw, answer_probe, handle_udp_probe, handle_raw_udp_keepalive,
  handle_code51_response, handle_udp_heartbeat, other_command, dispatch, process_message, swept,
  sweep_cameras, sweep_round,
}

pub heartbeat-IsSoundCamera :
    (now : ℕ) {ip : ℕ} (c : CameraConnection)
    → IsSoundCamera ip c
    → IsSoundCamera ip (update_heartbeat now c)
unfolding update_heartbeat
heartbeat-IsSoundCamera now c s = record {
  address = s.address;
  buffer = s.buffer;
  bucket = s.bucket;
  packages = s.packages;
  session = s.session;
}

bucket-IsSoundCamera :
    (i : ℕ) {ip : ℕ} (c : CameraConnection)
    → IsSoundCamera ip c
    → IsSoundCamera ip (add_to_retransmission_bucket i c)
unfolding add_to_retransmission_bucket
bucket-IsSoundCamera i c s = record {
  address = s.address;
  buffer = s.buffer;
  bucket = push_new-IsDistinct i c.retransmission_bucket s.bucket;
  packages = s.packages;
  session = s.session;
}

package-IsSoundCamera :
    (i : ℕ) {ip : ℕ} (c : CameraConnection)
    → IsSoundCamera ip c
    → IsSoundCamera ip (add_received_package i c)
unfolding add_received_package
package-IsSoundCamera i c s = record {
  address = s.address;
  buffer = s.buffer;
  bucket = s.bucket;
  packages = push_new-IsDistinct i c.received_packages s.packages;
  session = s.session;
}

cleared-IsSoundCamera :
    {ip : ℕ} (c : CameraConnection)
    → IsSoundCamera ip c
    → IsSoundCamera ip (get_and_clear_retransmission_bucket c).1
unfolding get_and_clear_retransmission_bucket
cleared-IsSoundCamera c s = record {
  address = s.address;
  buffer = s.buffer;
  bucket = tt;
  packages = s.packages;
  session = s.session;
}

payload-IsSoundCamera :
    (h : ProtocolHeader) (p : Bytes) {ip : ℕ} (c : CameraConnection)
    → IsSoundCamera ip c
    → IsSoundCamera ip (add_payload h p c)
payload-IsSoundCamera h p c s = record {
  address = s.address;
  buffer = add_fragment-IsBounded h.cmd h.msg_flag h.pkg_id p c.stream_buffer s.buffer;
  bucket = s.bucket;
  packages = s.packages;
  session = s.session;
}

swept-IsSoundCamera :
    {ip : ℕ} (c : CameraConnection) → IsSoundCamera ip c → IsSoundCamera ip (swept c)
swept-IsSoundCamera c s = record {
  address = s.address;
  buffer = sweep-IsBounded c.stream_buffer s.buffer;
  bucket = s.bucket;
  packages = s.packages;
  session = s.session;
}

sweep_cameras_sound :
    (free : ℕ → Bool) (m : Map CameraConnection)
    → All IsSoundEntry m
    → All IsSoundEntry (sweep_cameras free m)
unfolding sweep_cameras
sweep_cameras_sound free [] h = tt
sweep_cameras_sound free ((ip, c) ∷ m) h = (
  if_rule (IsSoundCamera ip) (free ip) (swept-IsSoundCamera c h.0) h.0,
  sweep_cameras_sound free m h.1,
)

module _ {Value : Type 0} (host : Host Value) where
  pub sweep_round-IsSound :
      (l : Locks) (w : World) → IsSound w → IsSound (world_of (sweep_round host l w))
  unfolding sweep_round manager_write
  sweep_round-IsSound l w s =
      if_rule (λ (o : Outcome (Unit {0})). IsSound (world_of o)) (host.write_granted l.manager)
        (sweep_cameras_sound _ w.manager.cameras s) s

  camera_udp_port-Keeps : (ip : ℕ) → Keeps ip (camera_udp_port host ip)
  unfolding camera_udp_port
  camera_udp_port-Keeps ip = manager_read-Keeps host _ (
      get_camera-Keeps ip _
        (λ c s.
          camera_try_read-Keeps host ip _ (
            get_camera-Keeps ip _ (λ d t. pure-Keeps (host.next_key d.udp_ports))
              (pure-Keeps none)))
        (pure-Keeps none))

  module _ (local_port ip port : ℕ) where
    reply-Keeps :
        (o : Option ℕ) (p : ℕ → Bytes)
        → Keeps ip (elim o [ some q ↦ send host (udp local_port ip q (p q)) | none ↦ skip ])
    reply-Keeps none p = skip-Keeps
    reply-Keeps (some q) p = send-Keeps host _

    send_empty-Keeps : Keeps ip (send_empty_retransmission_confirmation host local_port ip)
    unfolding send_empty_retransmission_confirmation
    send_empty-Keeps =
        bind-Keeps _ _ (camera_udp_port-Keeps ip) (λ o. reply-Keeps o (λ _. empty_confirmation))

    send_batch-Keeps :
        (ids : List ℕ) → Keeps ip (send_batch_retransmission_confirmation host local_port ip ids)
    unfolding send_batch_retransmission_confirmation
    send_batch-Keeps [] = skip-Keeps
    send_batch-Keeps (i ∷ ids) =
        bind-Keeps _ _ (camera_udp_port-Keeps ip)
          (λ o. reply-Keeps o (λ _. batch_confirmation (i ∷ ids)))

    confirm_frame-Keeps :
        (c : CameraConnection) → IsSoundCamera ip c → Keeps ip (confirm_frame host local_port ip c)
    unfolding confirm_frame
    confirm_frame-Keeps c s =
        if_rule (Keeps ip) (not c.first_retransmission_sent)
          (seq-Keeps _ _
            (modify-Keeps ip _ (λ d t. record {
              address = t.address;
              buffer = t.buffer;
              bucket = t.bucket;
              packages = t.packages;
              session = t.session;
            }))
            (attempt-Keeps _ send_empty-Keeps))
          (seq-Keeps _ _ (modify-Keeps ip _ (λ d t. cleared-IsSoundCamera c s))
            (attempt-Keeps _ (send_batch-Keeps (get_and_clear_retransmission_bucket c).0)))

    pub take_video_frame-Keeps :
        (h : ProtocolHeader) (p : Bytes) → Keeps ip (take_video_frame host local_port ip port h p)
    unfolding take_video_frame
    take_video_frame-Keeps h p = bind-Keeps _ _ utc_now-Keeps (λ now.
        seq-Keeps _ _ (modify-Keeps ip _ (heartbeat-IsSoundCamera now)) (
          seq-Keeps _ _
            (modify-Keeps ip (insert_port port) (λ d t. record {
              address = t.address;
              buffer = t.buffer;
              bucket = t.bucket;
              packages = t.packages;
              session = t.session;
            }))
            (seq-Keeps _ _ (modify-Keeps ip _ (payload-IsSoundCamera h p)) (
              seq-Keeps _ _ (modify-Keeps ip _ (bucket-IsSoundCamera h.pkg_id)) (
                get_camera-Keeps ip _
                  (λ c s.
                    seq-Keeps _ _
                      (if_rule (Keeps ip) (h.msg_flag == 252) (confirm_frame-Keeps c s) skip-Keeps)
                      (modify-Keeps ip _ (package-IsSoundCamera h.pkg_id)))
                  (seq-Keeps skip _ skip-Keeps
                    (modify-Keeps ip _ (package-IsSoundCamera h.pkg_id))))))))
