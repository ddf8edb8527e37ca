-- ===== src/Udp/Video.antt =====
-- `handle_video_frame` of src/router/udp.rs.
use a9_v.Prelude.{
  ℕ, ◌≡◌, refl, false, if◌then◌else◌, ◌==◌, Bool-cases, inl, inr, length, ltb, ltb→lt, lt→ltb, List,
  [], ◌∷◌, ◌++◌, elem, ◌&&◌, ◌||◌, ap, ◌∙◌,
}
use a9_v.Wire.{Bytes}
use a9_v.Protocol.Header.{ProtocolHeader, header_size}
use a9_v.Protocol.Header
use a9_v.Protocol.Header.RoundTrip.{from_bytes_total, parsed_cases}
use a9_v.Camera.{
  CameraConnection, update_heartbeat, add_to_retransmission_bucket, add_received_package,
  get_and_clear_retransmission_bucket, push_new,
}
use a9_v.Prelude.Map.{insert}
use a9_v.Stream.{add_fragment}
use a9_v.Runtime.{Host, World, idle_locks, done, set_camera, create_camera, skip}
use a9_v.Runtime.Cells.{
  camera_at, created, writing_camera, modify-set_camera, modify-created, get_camera-set_camera,
  manager_write-idle, camera_write-idle,
}
use a9_v.Udp.{insert_port, add_payload, handle_video_frame, take_video_frame, confirm_frame}
use a9_v.Udp.Confirm.{confirmed, confirm_frame-writing}

-- A list of ids with one more at its end, unless it is there.
abbrev pub with_id : ℕ → List ℕ → List ℕ
with_id i l = if elem i l then l else l ++ i ∷ []

pushed : (i : ℕ) (l : List ℕ) → push_new i l ≡ with_id i l
pushed i l = elim (Bool-cases (elem i l)) [ inl e ↦ rw e | inr e ↦ rw e ]

module _ (h : ProtocolHeader) (payload : Bytes) (port now : ℕ) where
  -- The camera when the packet has gone into its buffer and its bucket.
  abbrev pub recorded : CameraConnection → CameraConnection
  recorded c =
      add_to_retransmission_bucket h.pkg_id
        (add_payload h payload (insert_port port (update_heartbeat now c)))

  -- What a packet does to the camera.
  abbrev pub framed : CameraConnection → CameraConnection
  framed c =
      add_received_package h.pkg_id
        (if h.msg_flag == 252 then confirmed (recorded c) else recorded c)

module _ {Value : Type 0} (host : Host Value) (local_port ip port : ℕ) where
  end_of_frame :
      (h : ProtocolHeader) (c : CameraConnection) (w : World)
      → (if h.msg_flag == 252 then confirm_frame host local_port ip c else skip)
          (writing_camera ip)
          (set_camera ip c w)
        ≡ done tt (set_camera ip (if h.msg_flag == 252 then confirmed c else c) w)
  end_of_frame h c w = elim (Bool-cases (h.msg_flag == 252)) [
    | inl e ↦ rw e (confirm_frame-writing host local_port ip c w)
    | inr e ↦ rw e
  ]

  take_video_frame-created :
      (h : ProtocolHeader) (payload : Bytes) (w : World)
      → take_video_frame host local_port ip port h payload (writing_camera ip) (created ip w)
        ≡ done tt (set_camera ip (framed h payload port w.clock (camera_at ip w)) w)
  unfolding take_video_frame
  take_video_frame-created h payload w = rw (
    modify-created ip (update_heartbeat w.clock) (writing_camera ip) w,
    modify-set_camera ip (insert_port port),
    modify-set_camera ip (add_payload h payload),
    modify-set_camera ip (add_to_retransmission_bucket h.pkg_id),
    get_camera-set_camera,
    end_of_frame h (recorded h payload port w.clock (camera_at ip w)) w,
    modify-set_camera,
  )

  pub long_enough :
      (d : Bytes) {h : ProtocolHeader} {p : Bytes}
      → Header.from_bytes host.buf d ≡ Header.ok (h, p)
      → ltb (length d) header_size ≡ false
  long_enough d e = elim (Bool-cases (ltb (length d) header_size)) [
    | inl short ↦ absurd (cc ((from_bytes_total host.buf d).0.1 (ltb→lt _ _ short)))
    | inr enough ↦ enough
  ]

  pub handle_video_frame-framed :
      (d : Bytes) (h : ProtocolHeader) (p : Bytes) (w : World)
      → Header.from_bytes host.buf d ≡ Header.ok (h, p)
      → handle_video_frame host local_port ip port d idle_locks w
        ≡ done tt (set_camera ip (framed h p port w.clock (camera_at ip w)) w)
  unfolding handle_video_frame create_camera
  handle_video_frame-framed d h p w e = rw (
    long_enough d e,
    e,
    manager_write-idle host (create_camera ip) w,
    camera_write-idle,
    take_video_frame-created h p w,
  )

  framed_fields :
      (h : ProtocolHeader) (p : Bytes) (now : ℕ) (c : CameraConnection)
      → framed h p port now c ≡ (record c {
        last_heartbeat = now;
        udp_ports = insert port 1 c.udp_ports;
        stream_buffer = (add_fragment h.cmd h.msg_flag h.pkg_id p c.stream_buffer).0;
        retransmission_bucket =
            if h.msg_flag == 252 && c.first_retransmission_sent
            then []
            else with_id h.pkg_id c.retransmission_bucket;
        first_retransmission_sent = c.first_retransmission_sent || h.msg_flag == 252;
        received_packages = with_id h.pkg_id c.received_packages;
      })
  unfolding update_heartbeat add_to_retransmission_bucket add_received_package
      get_and_clear_retransmission_bucket
  framed_fields h p now c =
      let bucket = pushed h.pkg_id c.retransmission_bucket in
      let received = pushed h.pkg_id c.received_packages in
      elim (Bool-cases (h.msg_flag == 252)) [
        | inl last ↦ elim (Bool-cases c.first_retransmission_sent) [
          | inl again ↦ rw (last, again) (cc)
          | inr first ↦ rw (last, first) (cc)
        ]
        | inr e ↦ elim (Bool-cases c.first_retransmission_sent) [
          | inl again ↦ rw (e, again) (cc)
          | inr first ↦ rw (e, first) (cc)
        ]
      ]

  -- With no lock held, a datagram with a header always ends in one state. The camera of its source,
  -- made if it was missing, has the time as its last heartbeat, the port of the source among its UDP
  -- ports, the payload in its buffer as a fragment with the command, flag and package id of the
  -- header, and this package id at the end of its received packages, unless it was there. So it is with
  -- the retransmission bucket, but for flag 252 after a first one it is empty. For flag 252 the first
  -- retransmission counts as sent. Nothing else has changed, and nothing is sent.
  pub handle_video_frame_lem :
      (d : Bytes) (h : ProtocolHeader) (p : Bytes) (w : World)
      → Header.from_bytes host.buf d ≡ Header.ok (h, p)
      → let c = camera_at ip w in
        handle_video_frame host local_port ip port d idle_locks w
        ≡ done tt (
            set_camera ip
              (record c {
                last_heartbeat = w.clock;
                udp_ports = insert port 1 c.udp_ports;
                stream_buffer = (add_fragment h.cmd h.msg_flag h.pkg_id p c.stream_buffer).0;
                retransmission_bucket =
                    if h.msg_flag == 252 && c.first_retransmission_sent
                    then []
                    else with_id h.pkg_id c.retransmission_bucket;
                first_retransmission_sent = c.first_retransmission_sent || h.msg_flag == 252;
                received_packages = with_id h.pkg_id c.received_packages;
              })
              w)
  handle_video_frame_lem d h p w e =
      handle_video_frame-framed d h p w e
      ∙ ap (λ x. done tt (set_camera ip x w)) (framed_fields h p w.clock (camera_at ip w))

  -- With no lock held, no datagram makes the handler send anything, try to send anything, fail or
  -- hang: the confirmations that it asks for are never sent.
  pub handle_video_frame-silent :
      (d : Bytes) (w : World)
      → (w' : World) × (handle_video_frame host local_port ip port d idle_locks w ≡ done tt w')
        × (w'.out ≡ w.out)
        × (w'.sends ≡ w.sends)
  unfolding handle_video_frame set_camera
  handle_video_frame-silent d w = elim (parsed_cases host.buf d) [
    | inl (short, e) ↦ (w, rw (lt→ltb _ _ short), refl, refl)
    | inr (h, p, e) ↦ (_, handle_video_frame-framed d h p w e, refl, refl)
  ]
