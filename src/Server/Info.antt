-- ===== src/Server/Info.antt =====
-- What `get_camera_info` of src/web/camera_endpoints.rs answers on a server that has been started by
-- src/main.rs.
use a9_v.Prelude.{
  suc, ◌+◌, List, sym, length-append, true, false, map, refl, ℕ, ◌≤◌, ◌≡◌, ap, ◌∙◌, [], ◌∷◌, ◌++◌,
  All, length, some,
}
use a9_v.Prelude.Map.{Map, lookup, keys}
use a9_v.Wire.{Bytes, text}
use a9_v.Config.{AppConfig}
use a9_v.Camera.{CameraConnection, idle, streaming, is_connected}
use a9_v.Stream.Packets.{joined}
use a9_v.Manager.{ip_to_string}
use a9_v.Stream.{frame_count, get_all_frames}
use a9_v.Runtime.{
  camera_read, Host, World, done, idle_locks, then_do, get_camera, manager_read, camera_try_read,
}
use a9_v.Runtime.Cells.{reading_manager, manager_read-idle}
use a9_v.Web.{cameras, Json, Response, json_value, ok_json}
use a9_v.Web.Search.{HasOtherId}
use a9_v.Web.Info.{
  buffer_info, buffer_stats, stats_of, total_bytes, camera_info, get_camera_info, list_cameras,
  camera_list, device_ids,
}
use a9_v.Web.Info.Deadlock.{get_camera_info-buffer_info}
use a9_v.Server.{Reachable, Reachable-cameras}

total_bytes-joined : (fs : List Bytes) → total_bytes fs ≡ length (joined fs)
total_bytes-joined [] = refl
total_bytes-joined (f ∷ fs) =
    ap (λ n. length f + n) (total_bytes-joined fs) ∙ sym (length-append f (joined fs))

map-ids :
    {A : Type 0} (f : Bytes → A) (m : Map CameraConnection)
    → map f (map (λ (e : ℕ × CameraConnection). e.1.device_id) m)
      ≡ map (λ (e : ℕ × CameraConnection). f e.1.device_id) m
map-ids f [] = refl
map-ids f (e ∷ m) = ap (◌∷◌ (f e.1.device_id)) (map-ids f m)

length-ids :
    (m : Map CameraConnection)
    → length (map (λ (e : ℕ × CameraConnection). e.1.device_id) m) ≡ length m
length-ids [] = refl
length-ids (e ∷ m) = ap suc (length-ids m)

module _ {Value : Type 0} (host : Host Value) (js : Json Value) where
  -- An answer with status 200 and an envelope around the value.
  abbrev pub ok_answer : Value → Response Value
  ok_answer v = record {
    status = 200;
    headers = [];
    body = json_value (
        host.object
          (("code", host.number 200) ∷ ("message", host.string (text "OK")) ∷ ("data", v) ∷ []));
  }

  -- What the endpoint tells of a camera, with its id and its address, the limit of its frames and the
  -- number of their bytes.
  abbrev pub told : Bytes → ℕ → ℕ → ℕ → CameraConnection → Value
  told device_id ip limit bytes c = host.object (
      ("device_id", host.string device_id)
      ∷ ("ip", host.string (ip_to_string ip))
      ∷ ("connected", js.boolean (elim c.state [ idle ↦ true | streaming ↦ true | _ ↦ false ]))
      ∷ ("last_heartbeat", host.string (js.to_rfc3339 c.last_heartbeat))
      ∷ ("udp_ports", js.array (map host.number (keys c.udp_ports)))
      ∷ ("nat_ports", js.array (map host.number c.nat_ports))
      ∷ ("streaming", js.boolean (elim c.state [ streaming ↦ true | _ ↦ false ]))
      ∷ (
        "stream_buffer",
        host.object (
            ("frame_count", host.number (length c.stream_buffer.frames))
            ∷ ("max_frames", host.number limit)
            ∷ ("total_bytes", host.number bytes)
            ∷ []),
      )
      ∷ [])

  abbrev pub info_of : Bytes → ℕ → CameraConnection → Value
  info_of device_id ip c = told device_id ip 100 (length (joined c.stream_buffer.frames)) c

  -- What the endpoint tells of all cameras.
  abbrev pub ids_of : Map CameraConnection → Value
  ids_of m = host.object (
      ("cameras", js.array (map (λ (e : ℕ × CameraConnection). host.string e.1.device_id) m))
      ∷ ("count", host.number (length m))
      ∷ [])

  buffer_info-free :
      (ip : ℕ) (c : CameraConnection) (w : World)
      → lookup ip w.manager.cameras ≡ some c
      → buffer_info host js ip reading_manager w ≡ done (stats_of host js (some c)) w
  unfolding buffer_info manager_read camera_try_read get_camera
  buffer_info-free ip c w e = rw (host.read_shared [] host.read_free, e, host.read_free)

  device_ids-free :
      (m : Map CameraConnection) (w : World)
      → device_ids host js m reading_manager w
        ≡ done (map (λ (e : ℕ × CameraConnection). e.1.device_id) m) w
  unfolding device_ids camera_read
  device_ids-free [] w = refl
  device_ids-free ((ip, c) ∷ m) w = rw (host.read_free, device_ids-free m w)

  camera_info-info_of :
      (device_id : Bytes) (ip : ℕ) (c : CameraConnection)
      → c.ip ≡ ip
      → c.stream_buffer.max_frames ≡ 100
      → camera_info host js device_id c (stats_of host js (some c)) ≡ info_of device_id ip c
  unfolding camera_info stats_of buffer_stats frame_count get_all_frames is_connected
  camera_info-info_of device_id ip c a m =
      let b = c.stream_buffer in
      ap (λ i. told device_id i b.max_frames (total_bytes b.frames) c) a
      ∙ ap (λ n. told device_id ip n (total_bytes b.frames) c) m
      ∙ ap (λ n. told device_id ip 100 n c) (total_bytes-joined b.frames)

  camera_list-ids_of :
      (m : Map CameraConnection)
      → camera_list host js (map (λ (e : ℕ × CameraConnection). e.1.device_id) m) ≡ ids_of m
  camera_list-ids_of m =
      ap
        (λ texts. host.object (
          ("cameras", js.array texts)
          ∷ ("count", host.number (length (map (λ (e : ℕ × CameraConnection). e.1.device_id) m)))
          ∷ []))
        (map-ids host.string m)
      ∙ ap
          (λ n. host.object (
            ("cameras", js.array (map (λ (e : ℕ × CameraConnection). host.string e.1.device_id) m))
            ∷ ("count", host.number n)
            ∷ []))
          (length-ids m)

  -- On a server that its turns have taken to this state, with no lock held, `get_camera_info` answers
  -- 200 for the first camera with the id: with this id, the address under which the manager has it,
  -- whether it is idle or streaming, its last heartbeat, its UDP and NAT ports, whether it is
  -- streaming, the number of its frames, which is at most 100, the limit of 100, and the number of
  -- bytes of the frames together. And `list_cameras` answers 200 with the ids of all cameras, in the
  -- order of the map, and the number of the cameras.
  pub get_camera_info_lem :
      (config : AppConfig) (device_id : Bytes) (before after : Map CameraConnection) (ip : ℕ)
      (c : CameraConnection) (w : World)
      → Reachable host js config w
      → w.manager.cameras ≡ before ++ (ip, c) ∷ after
      → lookup ip w.manager.cameras ≡ some c
      → All (HasOtherId device_id) before
      → c.device_id ≡ device_id
      → (length c.stream_buffer.frames ≤ 100)
        × (get_camera_info host js device_id idle_locks w
            ≡ done (ok_answer (info_of device_id ip c)) w)
        × (list_cameras host js idle_locks w ≡ done (ok_answer (ids_of w.manager.cameras)) w)
  unfolding list_cameras cameras
  get_camera_info_lem config device_id before after ip c w r e k h i =
      let (address, limit, fits, _, _) = Reachable-cameras host js config ip c r k in
      let stats = buffer_info-free c.ip c w (ap (λ j. lookup j w.manager.cameras) address ∙ k) in
      (
        fits,
        get_camera_info-buffer_info host js device_id before after ip c w e h i
            ∙ ap
                (then_do (λ info w'.
                  done (ok_json host js (text "OK") (camera_info host js device_id c info)) w'))
                stats
            ∙ ap (λ v. done (ok_answer v) w) (camera_info-info_of device_id ip c address limit),
        rw (manager_read-idle host, device_ids-free w.manager.cameras w)
            (ap (λ v. done (ok_answer v) w) (camera_list-ids_of w.manager.cameras)),
      )
