-- ===== src/Tcp/Registration.antt =====
-- What the sequences of src/router/tcp.rs write and leave behind, for a connected camera.
use a9_v.Prelude.{
  ℕ, ◌+◌, ◌≡◌, ap, ◌∙◌, ◌++◌, length, true, false, some, Bool-cases, inl, inr, if◌then◌else◌,
}
use a9_v.Prelude.Map.{lookup, insert-insert}
use a9_v.Wire.{Bytes}
use a9_v.Protocol.Header
use a9_v.Camera.{CameraConnection, ProtocolState, streaming, idle, registering}
use a9_v.Runtime.{
  Host, UidMessage, World, done, failed, Packet, tcp, Locks, update_camera, idle_locks, set_camera,
  send,
}
use a9_v.Runtime.Cells.{camera_at-found, lookup-set_camera, update_camera-idle, reading_both}
use a9_v.Tcp.{
  write_status, header_bytes, set_state, start_registration, handle_registration,
  handle_nat_probe_response, device_status, forward, code_value, base_info,
}
use a9_v.Runtime.Sends.{Delivers, sent}
use a9_v.Tcp.Effects.{with_connection-some, clone_connection-idle, write_json-sent}

set_camera-sent :
    (ip : ℕ) (b c : CameraConnection) (p : Packet) (w : World)
    → set_camera ip c (sent p (set_camera ip b w)) ≡ set_camera ip c (sent p w)
unfolding set_camera
set_camera-sent ip b c p w =
    ap (λ m. record (sent p w) { manager = record w.manager { cameras = m } })
      (insert-insert ip b c w.manager.cameras)

-- The world after a text has gone out behind its header.
abbrev pub wrote : {Value : Type 0} → Host Value → ℕ → Bytes → World → World
wrote host conn s w = sent (tcp conn s) (sent (tcp conn (header_bytes host (length s))) w)

-- A status message: the text behind its JSON header, in one write.
abbrev pub answer : {Value : Type 0} → Host Value → ℕ → Bytes → Packet
answer host conn body = tcp conn (Header.to_bytes host.buf (Header.json 0 (length body)) ++ body)

module _ {Value : Type 0} (host : Host Value) (ip conn : ℕ) (c : CameraConnection) (w : World)
    (e : lookup ip w.manager.cameras ≡ some c) (t : c.tcp_conn ≡ some conn) where
  abbrev registering_camera : UidMessage → CameraConnection
  registering_camera r = start_registration r c

  pub send-set_camera :
      (p : Packet) (l : Locks) (b : CameraConnection)
      → host.send_ok w.sends ≡ true
      → send host p l (set_camera ip b w) ≡ done tt (sent p (set_camera ip b w))
  unfolding set_camera send
  send-set_camera p l b h = rw h

  send_fails-set_camera :
      (p : Packet) (l : Locks) (b : CameraConnection)
      → host.send_ok w.sends ≡ false
      → send host p l (set_camera ip b w)
        ≡ failed (record (set_camera ip b w) { sends = w.sends + 1 })
  unfolding set_camera send
  send_fails-set_camera p l b h = rw h

  then_set_state :
      (p : Packet) (b : CameraConnection) (s : ProtocolState)
      → update_camera host ip (set_state s) idle_locks (sent p (set_camera ip b w))
        ≡ done tt (set_camera ip (set_state s b) (sent p w))
  then_set_state p b s =
      update_camera-idle host ip (set_state s) (sent p (set_camera ip b w))
      ∙ ap (λ d. done tt (set_camera ip (set_state s d) (sent p (set_camera ip b w))))
          (camera_at-found ip (sent p (set_camera ip b w)) b (lookup-set_camera ip b w))
      ∙ ap (done tt) (set_camera-sent ip b (set_state s b) p w)

  -- For a connected camera, a registration text that can be read stores its uid as the device id and, if
  -- the status message with code 101 and status 200 can be printed, is answered with it over the
  -- camera's connection, behind its JSON header. The camera is idle then; where the answer cannot be
  -- sent, the handler fails and the camera is left registering. Nothing else of the camera changes.
  pub handle_registration_lem :
      (s body : Bytes) (r : UidMessage)
      → host.registration_from_str s ≡ some r
      → host.status_to_string (record { code = 101; status = 200 }) ≡ some body
      → handle_registration host ip s idle_locks w ≡ (
          if host.send_ok w.sends
          then done tt (
              set_camera ip
                (record c { device_id = r.uid; state = idle })
                (sent (answer host conn body) w))
          else failed
              (record (set_camera ip (record c { device_id = r.uid; state = registering }) w) {
                sends = w.sends + 1;
              }))
  unfolding handle_registration write_status
  handle_registration_lem s body r p q =
      let v = set_camera ip (start_registration r c) w in
      elim (Bool-cases (host.send_ok w.sends)) [
        | inl h ↦
            rw
              (
                p,
                handle_registration,
                update_camera-idle host ip (start_registration r) w,
                camera_at-found ip w c e,
                q,
                write_status,
                with_connection-some host ip conn _ (start_registration r c) v
                    (lookup-set_camera ip _ w) t,
                h,
              )
              (rw
                (send-set_camera (answer host conn body) (reading_both ip) (start_registration r c)
                  h)
                (then_set_state (answer host conn body) (start_registration r c) idle))
        | inr h ↦
            rw
              (
                p,
                handle_registration,
                update_camera-idle host ip (start_registration r) w,
                camera_at-found ip w c e,
                q,
                write_status,
                with_connection-some host ip conn _ (start_registration r c) v
                    (lookup-set_camera ip _ w) t,
                h,
              )
              (rw (
                send_fails-set_camera (answer host conn body) (reading_both ip)
                  (start_registration r c) h))
      ]

  -- For a connected camera, where the writes succeed and the messages can be printed, a NAT probe
  -- answer is followed by the device status and the two forward commands with contents 298 and 4, in
  -- this order, and the camera is streaming then.
  pub handle_nat_probe_response_lem :
      (s1 s2 s3 : Bytes)
      → Delivers host
      → host.to_string (device_status host) ≡ some s1
      → host.to_string (forward host (code_value host 298)) ≡ some s2
      → host.to_string (forward host (base_info host)) ≡ some s3
      → handle_nat_probe_response host ip idle_locks w
        ≡ done tt (
            set_camera ip
              (set_state streaming c)
              (wrote host conn s3 (wrote host conn s2 (wrote host conn s1 w))))
  unfolding handle_nat_probe_response
  handle_nat_probe_response_lem s1 s2 s3 d p1 p2 p3 =
      let w1 = wrote host conn s1 w in
      let w2 = wrote host conn s2 w1 in
      let w3 = wrote host conn s3 w2 in
      rw (
        clone_connection-idle host ip c w e ∙ ap (λ o. done o w) t,
        write_json-sent host conn (device_status host) s1 idle_locks w d p1,
        write_json-sent host conn (forward host (code_value host 298)) s2 idle_locks w1 d p2,
        write_json-sent host conn (forward host (base_info host)) s3 idle_locks w2 d p3,
        update_camera-idle host ip (set_state streaming) w3,
        camera_at-found ip w3 c e,
      )
