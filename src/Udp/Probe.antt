-- ===== src/Udp/Probe.antt =====
-- The answers of src/router/udp.rs to a camera's probes, heartbeats and unknown commands.
use a9_v.Prelude.{
  ℕ, zero, suc, ◌+◌, ◌*◌, ◌≤◌, ◌≡◌, ◌≢◌, ◌↔◌, refl, sym, ap, ◌∙◌, List, [], ◌∷◌, ◌++◌, length, Bool,
  true, some, if◌then◌else◌, ◌==◌, arith, Bool-cases, Option-cases, inl, inr, ne→==, All, ◌<◌, ◌^◌,
  ◌-◌, ◌%◌, map, replicate,
}
use a9_v.Prelude.Map.{Map, lookup}
use a9_v.Wire.{Bytes, to_le}
use a9_v.Wire.Text.{is_utf8}
use a9_v.Protocol.Header.{ProtocolHeader}
use a9_v.Protocol.Header
use a9_v.Config.{AppConfig}
use a9_v.Stream.Packets.{joined}
use a9_v.Camera.{CameraConnection, ProbeState, not_started, completed, update_heartbeat}
use a9_v.Runtime.{
  world_of, Host, World, done, failed, Packet, udp, Locks, idle_locks, set_camera, send,
  create_camera, ◌>>=◌,
}
use a9_v.Runtime.Cells.{
  camera_at, writing_camera, modify-set_camera, modify-created, manager_write-idle,
  camera_write-idle, update_camera-idle, lookup-set_camera, camera_at-found,
}
use a9_v.Udp.{
  next_probe, empty_confirmation, batch_confirmation, encode_ids, insert_port, parse_header,
}
use a9_v.Udp.Video.{long_enough}
use a9_v.Udp.Messages.{
  handle_udp_heartbeat, handle_code51_response, process_message, sweep_cameras, swept,
  probe_stepped, json_message, code_only,
}

module _ {Value : Type 0} (host : Host Value) where
  pub parse_header-ok :
      (d : Bytes) (h : ProtocolHeader) (p : Bytes) (l : Locks) (w : World)
      → Header.from_bytes host.buf d ≡ Header.ok (h, p)
      → parse_header host d l w ≡ done (h, p) w
  parse_header-ok d h p l w e = rw (e, parse_header)

  -- A reply leaves the cameras as they are, also where it cannot be printed or sent.
  reply-manager :
      (v : Value) (f : Bytes → Packet) (l : Locks) (w : World)
      → (world_of ((json_message host v >>= λ m. send host (f m)) l w)).manager ≡ w.manager
  unfolding send
  reply-manager v f l w = elim (Option-cases (host.to_string v)) [
    | inl e ↦ rw e
    | inr (s, e) ↦ elim (Bool-cases (host.send_ok w.sends)) [
      | inl sent ↦ rw (e, sent)
      | inr lost ↦ rw (e, lost)
    ]
  ]

module _ {Value : Type 0} (host : Host Value) (local_port ip port : ℕ) where
  -- A heartbeat stores its time and the camera's UDP port, and is answered with the empty
  -- confirmation to the port that it came from. Where that send fails, the camera is updated too.
  pub handle_udp_heartbeat_lem :
      (w : World)
      → let w' = set_camera ip (insert_port port (update_heartbeat w.clock (camera_at ip w))) w in
        handle_udp_heartbeat host local_port ip port idle_locks w ≡ (
          if host.send_ok w.sends
          then done tt (record w' {
            sends = w.sends + 1;
            out = w.out ++ udp local_port ip port empty_confirmation ∷ [];
          })
          else failed (record w' { sends = w.sends + 1 }))
  unfolding handle_udp_heartbeat set_camera send
  handle_udp_heartbeat_lem w =
      rw (update_camera-idle host ip (λ c. insert_port port (update_heartbeat w.clock c)) w)

  module _ (payload : Bytes) (w : World) (u : is_utf8 payload ≡ true) where
    abbrev stepped : World
    stepped = set_camera ip (probe_stepped (update_heartbeat w.clock (camera_at ip w))) w

    handle_code51_response-world :
        (world_of (handle_code51_response host local_port ip port payload idle_locks w)).manager
        ≡ stepped.manager
    unfolding handle_code51_response create_camera send
    handle_code51_response-world =
        rw
          (
            u,
            manager_write-idle host (create_camera ip) w,
            camera_write-idle,
            modify-created ip (update_heartbeat w.clock) (writing_camera ip) w,
            modify-set_camera ip probe_stepped,
          )
          (reply-manager host (code_only host 50) (udp local_port ip port) (writing_camera ip)
            stepped)

  -- With no lock held, a datagram with a header whose command no arm names changes nothing and sends
  -- nothing, also where it has the twenty bytes of a raw keepalive.
  pub process_message-unknown :
      (config : AppConfig) (d p : Bytes) (h : ProtocolHeader) (w : World)
      → Header.from_bytes host.buf d ≡ Header.ok (h, p)
      → h.cmd ≢ 0
      → h.cmd ≢ 100
      → h.cmd ≢ 102
      → h.cmd ≢ 1
      → h.cmd ≢ 4
      → h.cmd ≢ 6
      → h.cmd ≢ 7
      → h.cmd ≢ 51
      → process_message host local_port ip port config d idle_locks w ≡ done tt w
  unfolding process_message
  process_message-unknown config d p h w e n0 n1 n2 n3 n4 n5 n6 n7 =
      rw
        (
          long_enough host local_port ip port d e,
          parse_header-ok host d h p idle_locks w e,
          ne→== n0,
          ne→== n2,
          ne→== n1,
          ne→== n3,
          ne→== n4,
          ne→== n5,
          ne→== n6,
          ne→== n7,
        )
        (elim (Bool-cases (length d == 20)) [ inl q ↦ rw q | inr q ↦ rw q ])

-- What follows the length in a message with command 605: the command in four bytes, the device id of
-- eight zero digits, and the ids with four bytes each.
abbrev pub confirmation_tail : List ℕ → Bytes
confirmation_tail ids = to_le 4 605 ++ (replicate 8 48 ++ joined (map (to_le 4) ids))

-- The layout that the comment above the code describes, with the length in four bytes.
abbrev pub documented_confirmation : List ℕ → Bytes
documented_confirmation ids = to_le 4 (12 + length ids * 4) ++ confirmation_tail ids

encode_ids-joined : (ids : List ℕ) → encode_ids ids ≡ joined (map (to_le 4) ids)
encode_ids-joined [] = refl
encode_ids-joined (i ∷ ids) = ap (◌++◌ (to_le 4 i)) (encode_ids-joined ids)

to_le8-small : (n : ℕ) → n < 2 ^ 32 → to_le 8 (n % 2 ^ 64) ≡ to_le 4 n ++ replicate 4 0
to_le8-small n h = ground arith

-- On a 64-bit target, where a `usize` has eight bytes, the batch confirmation of fewer than 2 ^ 30 - 3
-- ids is its documented layout, command, device id and ids included, with four zero bytes put in behind
-- the four bytes of the length; and so it is never the documented layout.
pub batch_confirmation-length :
    (ids : List ℕ)
    → length ids < 2 ^ 30 - 3
    → (batch_confirmation ids
        ≡ to_le 4 (12 + length ids * 4) ++ (replicate 4 0 ++ confirmation_tail ids))
      × (batch_confirmation ids ≢ documented_confirmation ids)
batch_confirmation-length ids h = (whole, λ e. absurd (omega (arith, ap length (sym whole ∙ e))))
  where
    n : ℕ
    n = 12 + length ids * 4

    coded : batch_confirmation ids ≡ to_le 8 (n % 2 ^ 64) ++ confirmation_tail ids
    coded =
        ap (λ s. to_le 8 (n % 2 ^ 64) ++ (to_le 4 605 ++ (replicate 8 48 ++ s)))
          (encode_ids-joined ids)

    whole : batch_confirmation ids ≡ to_le 4 n ++ (replicate 4 0 ++ confirmation_tail ids)
    whole = coded ∙ ap (λ s. s ++ confirmation_tail ids) (to_le8-small n (omega (arith, h)))

-- The probes of one camera, one after another.
abbrev pub probes : ℕ → ProbeState → ProbeState
probes zero s = s
probes (suc n) s = probes n (next_probe s)

probes-completed : (n : ℕ) → probes n completed ≡ completed
unfolding next_probe
probes-completed zero = refl
probes-completed (suc n) = probes-completed n

-- A round of the periodic task keeps each camera at its address, completes or drops the frame in
-- progress in its buffer if the camera is free, and leaves it as it is otherwise.
pub lookup-sweep_cameras :
    (free : ℕ → Bool) (ip : ℕ) (m : Map CameraConnection) (c : CameraConnection)
    → lookup ip m ≡ some c
    → lookup ip (sweep_cameras free m) ≡ some (if free ip then swept c else c)
unfolding sweep_cameras
lookup-sweep_cameras free ip [] c e = cc
lookup-sweep_cameras free ip ((j, d) ∷ m) c e = elim (Bool-cases (j == ip)) [
  | inl q ↦ let same : j ≡ ip = ground arith in let found : d ≡ c = cc in rw q (rw (same, found))
  | inr q ↦ rw q (lookup-sweep_cameras free ip m c (cc))
]

probes_cases : (n : ℕ) → (probes n not_started ≡ completed) ↔ (3 ≤ n)
unfolding next_probe
probes_cases zero = (λ e. cc, λ h. absurd (omega arith))
probes_cases (suc zero) = (λ e. cc, λ h. absurd (omega arith))
probes_cases (suc (suc zero)) = (λ e. cc, λ h. absurd (omega arith))
probes_cases (suc (suc (suc n))) = (λ _. omega arith, λ _. probes-completed n)

module _ {Value : Type 0} (host : Host Value) (local_port ip port : ℕ) where
  -- Code 51 datagrams with these payloads, one after another.
  pub code51s : List Bytes → World → World
  code51s [] w = w
  code51s (p ∷ ps) w =
      code51s ps (world_of (handle_code51_response host local_port ip port p idle_locks w))

  camera_at-stepped :
      (p : Bytes) (w : World)
      → is_utf8 p ≡ true
      → (camera_at ip
          (world_of (handle_code51_response host local_port ip port p idle_locks w))).probe_state
        ≡ next_probe (camera_at ip w).probe_state
  unfolding update_heartbeat
  camera_at-stepped p w u =
      ap (λ c. c.probe_state)
        (camera_at-found ip
          (world_of (handle_code51_response host local_port ip port p idle_locks w)) _
          (ap (λ m. lookup ip m.cameras)
              (handle_code51_response-world host local_port ip port p w u)
            ∙ lookup-set_camera ip _ w))

  code51s-probes :
      (ps : List Bytes) (w : World)
      → All (λ p. is_utf8 p ≡ true) ps
      → (camera_at ip (code51s ps w)).probe_state ≡ probes (length ps) (camera_at ip w).probe_state
  unfolding code51s
  code51s-probes [] w h = refl
  code51s-probes (p ∷ ps) w h =
      code51s-probes ps (world_of (handle_code51_response host local_port ip port p idle_locks w))
        h.1
      ∙ ap (probes (length ps)) (camera_at-stepped p w h.0)

  -- The probe exchange of a camera that has not begun it is completed by the third code 51 answer
  -- with a UTF-8 payload, not before, and stays completed, whether or not the replies to them could
  -- be printed and sent.
  pub code51s-completed_iff :
      (ps : List Bytes) (w : World)
      → All (λ p. is_utf8 p ≡ true) ps
      → (camera_at ip w).probe_state ≡ not_started
      → ((camera_at ip (code51s ps w)).probe_state ≡ completed) ↔ (3 ≤ length ps)
  code51s-completed_iff ps w h s = rw (code51s-probes ps w h, s) (probes_cases (length ps))
