-- ===== src/Tcp/Lifecycle.antt =====
-- A camera's TCP connection in src/router/tcp.rs, from its start to its end.
use a9_v.Prelude.{
  ℕ, ◌≡◌, refl, List, [], ◌∷◌, ◌++◌, All, true, none, some, ap, Option-cases, inl, inr,
}
use a9_v.Prelude.Map.{lookup}
use a9_v.Wire.{Bytes}
use a9_v.Wire.Text.{trim_nul}
use a9_v.Protocol.Header.{ProtocolHeader}
use a9_v.Protocol.Header
use a9_v.Camera.{new, disconnected, idle}
use a9_v.Stream.{clear}
use a9_v.Runtime.{
  Host, World, Outcome, done, failed, panicked, stuck, idle_locks, get_camera, set_camera, modify,
  camera_write,
}
use a9_v.Runtime.Cells.{
  camera_at, camera_at-found, lookup-set_camera, update_camera-idle, manager_write-idle,
}
use a9_v.Tcp.{stop_streaming_for_camera}
use a9_v.Tcp.Safety.{Ends}
use a9_v.Tcp.Returns.{AsksNoInfo, process_message-returns}
use a9_v.Tcp.Router.{
  Read, chunk, closed, broken, serve, clean_up, handle_connection, process_message, hung_up,
  connected,
}

module _ {Value : Type 0} (host : Host Value) (ip : ℕ) where
  -- What is read is no message whose payload is a JSON text with code 51.
  abbrev pub IsHarmless : Read → Type 0
  IsHarmless (chunk d) =
      (h : ProtocolHeader) (p : Bytes)
      → Header.from_bytes host.buf d ≡ Header.ok (h, p)
      → AsksNoInfo host ip (trim_nul p)
  IsHarmless closed = Unit {0}
  IsHarmless broken = Unit {0}

  serve-ended :
      (rs : List Read) (w : World)
      → All IsHarmless rs
      → (w' : World) × (serve host ip (rs ++ closed ∷ []) idle_locks w ≡ done true w')
  unfolding serve
  serve-ended [] w a = (w, refl)
  serve-ended (closed ∷ rs) w a = (w, refl)
  serve-ended (broken ∷ rs) w a = (w, refl)
  serve-ended (chunk d ∷ rs) w a =
      after (process_message host ip d idle_locks w) refl (process_message-returns host ip d w a.0)
        (λ v. serve-ended rs v a.1)
    where
      after :
          (o : Outcome (Unit {0}))
          → process_message host ip d idle_locks w ≡ o
          → Ends o
          → ((v : World)
              → (w' : World) × (serve host ip (rs ++ closed ∷ []) idle_locks v ≡ done true w'))
          → (w' : World) × (serve host ip (chunk d ∷ (rs ++ closed ∷ [])) idle_locks w
              ≡ done true w')
      after (done _ v) e n k = let (w', q) = k v in (w', rw (serve, e) q)
      after (failed v) e n k = (v, rw (serve, e))
      after (panicked v) e n k = absurd (n tt)
      after (stuck l v) e n k = absurd (n tt)

  clean_up-disconnected :
      (w : World)
      → (w' : World) × (clean_up host ip idle_locks w ≡ done tt w')
        × ((camera_at ip w').tcp_conn ≡ none)
        × ((camera_at ip w').state ≡ disconnected)
  unfolding clean_up get_camera modify new camera_write
  clean_up-disconnected w = elim (Option-cases (lookup ip w.manager.cameras)) [
    | inl e ↦ (w, rw (manager_write-idle, e, clean_up), rw (e, camera_at), rw (e, camera_at))
    | inr (c, e) ↦ (
      set_camera ip (hung_up c) w,
      rw (manager_write-idle, e, clean_up, host.write_free, e),
      ap (λ d. d.tcp_conn)
          (camera_at-found ip (set_camera ip (hung_up c) w) (hung_up c)
            (lookup-set_camera ip (hung_up c) w)),
      ap (λ d. d.state)
          (camera_at-found ip (set_camera ip (hung_up c) w) (hung_up c)
            (lookup-set_camera ip (hung_up c) w)),
    )
  ]

  -- Started with no lock held, a connection that the camera closes at the end, and over which no message with code 51 comes,
  -- is served to an end, whatever its other messages do, and leaves the camera disconnected and
  -- without a connection.
  pub handle_connection-disconnected :
      (conn : ℕ) (rs : List Read) (w : World)
      → All IsHarmless rs
      → (w' : World) × (handle_connection host ip conn (rs ++ closed ∷ []) idle_locks w
          ≡ done tt w')
        × ((camera_at ip w').tcp_conn ≡ none)
        × ((camera_at ip w').state ≡ disconnected)
  unfolding handle_connection
  handle_connection-disconnected conn rs w a =
      let (v, e) = serve-ended rs (set_camera ip (connected conn (camera_at ip w)) w) a in
      let (w', q, p, r) = clean_up-disconnected v in
      (w', rw (update_camera-idle host ip (connected conn) w, e) q, p, r)

  -- Stopping the stream of a known camera always ends, and then the camera is idle, its buffer has
  -- no frame and none in progress, and its UDP ports are forgotten; nothing is sent. Where the
  -- address has no camera, nothing changes.
  pub stop_streaming_for_camera_lem :
      (w : World)
      → stop_streaming_for_camera host ip idle_locks w
        ≡ done tt (elim (lookup ip w.manager.cameras) [
          | none ↦ w
          | some c ↦
              set_camera ip
                (record c {
                  udp_ports = [];
                  stream_buffer = record c.stream_buffer { frames = []; current_frame = none };
                  state = idle;
                })
                w
        ])
  unfolding stop_streaming_for_camera get_camera modify camera_write clear
  stop_streaming_for_camera_lem w = elim (Option-cases (lookup ip w.manager.cameras)) [
    | inl e ↦ rw (manager_write-idle, e, stop_streaming_for_camera)
    | inr (c, e) ↦ rw (manager_write-idle, e, stop_streaming_for_camera, host.write_free, e)
  ]
