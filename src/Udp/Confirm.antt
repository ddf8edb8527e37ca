-- ===== src/Udp/Confirm.antt =====
-- The retransmission confirmations of src/router/udp.rs: who can send them.
use a9_v.Prelude.{
  ℕ, ◌≡◌, refl, ap, ◌∙◌, List, [], ◌∷◌, true, false, not, none, if◌then◌else◌, Option-cases,
  Bool-cases, inl, inr,
}
use a9_v.Prelude.Map.{lookup}
use a9_v.Camera.{CameraConnection, get_and_clear_retransmission_bucket}
use a9_v.Runtime.{
  Host, World, Locks, writing, reading, done, get_camera, set_camera, guards, manager_read,
  camera_try_read,
}
use a9_v.Runtime.Cells.{writing_camera, guards_self, modify-set_camera}
use a9_v.Udp.{
  camera_udp_port, send_batch_retransmission_confirmation, send_empty_retransmission_confirmation,
  confirm_frame,
}

-- What a last packet does to the camera.
abbrev pub confirmed : CameraConnection → CameraConnection
confirmed c =
    if not c.first_retransmission_sent
    then record c { first_retransmission_sent = true }
    else (get_and_clear_retransmission_bucket c).1

module _ {Value : Type 0} (host : Host Value) (local_port ip : ℕ) where
  abbrev under_manager : Locks
  under_manager = record { manager = reading ∷ []; cameras = (ip, writing ∷ []) ∷ [] }

  -- The port is asked for under a guard that cannot be given out beside the write guard.
  camera_udp_port-writing :
      (w : World) → camera_udp_port host ip (writing_camera ip) w ≡ done none w
  unfolding camera_udp_port manager_read get_camera camera_try_read
  camera_udp_port-writing w =
      let blocked : host.read_granted (guards ip under_manager) ≡ false =
        ap host.read_granted (guards_self ip (reading ∷ []) (writing ∷ []))
        ∙ host.read_excluded [] in
      elim (Option-cases (lookup ip w.manager.cameras)) [
        | inl e ↦ rw (host.read_free, e)
        | inr (c, e) ↦ rw (host.read_free, e, blocked)
      ]

  pub send_empty-writing :
      (w : World)
      → send_empty_retransmission_confirmation host local_port ip (writing_camera ip) w ≡ done tt w
  unfolding send_empty_retransmission_confirmation
  send_empty-writing w = rw camera_udp_port-writing

  pub send_batch-writing :
      (ids : List ℕ) (w : World)
      → send_batch_retransmission_confirmation host local_port ip ids (writing_camera ip) w
        ≡ done tt w
  unfolding send_batch_retransmission_confirmation
  send_batch-writing [] w = refl
  send_batch-writing (i ∷ ids) w = rw camera_udp_port-writing

  pub confirm_frame-writing :
      (c : CameraConnection) (w : World)
      → confirm_frame host local_port ip c (writing_camera ip) (set_camera ip c w)
        ≡ done tt (set_camera ip (confirmed c) w)
  unfolding confirm_frame
  confirm_frame-writing c w = elim (Bool-cases (not c.first_retransmission_sent)) [
    | inl e ↦ rw (e, modify-set_camera) (rw send_empty-writing)
    | inr e ↦ rw (e, modify-set_camera) (rw send_batch-writing)
  ]
