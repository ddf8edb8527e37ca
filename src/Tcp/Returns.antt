-- ===== src/Tcp/Returns.antt =====
-- How the handlers of src/router/tcp.rs end.
use a9_v.Prelude.{
  ℕ, ◌≡◌, ◌≢◌, ◌∙◌, ap, ◌||◌, Option, none, some, Option-cases, inl, inr, if_rule, ◌==◌, ne→==,
}
use a9_v.Wire.{Bytes}
use a9_v.Wire.Text.{is_utf8, trim_nul}
use a9_v.Protocol.Header.{ProtocolHeader}
use a9_v.Protocol.Header
use a9_v.Protocol.Header.RoundTrip.{parsed_cases}
use a9_v.Camera.{CameraConnection, streaming, idle, update_heartbeat}
use a9_v.Runtime.{Host, UidMessage, World, M, idle_locks, update_camera, skip, ◌>>◌}
use a9_v.Udp.{parse_header}
use a9_v.Tcp.{
  write_json, write_status, set_state, start_registration, handle_registration,
  handle_snapshot_request, handle_nat_probe_response, send_streaming_command,
  send_stop_streaming_command, handle_streaming_request, handle_heartbeat, handle_keepalive,
  handle_video_frame_tcp, device_status, forward, code_value, base_info,
}
use a9_v.Tcp.Router.{
  echoed_command, echoed_content, forward_message, streaming_message, json_code, json_message,
  dispatch, process_message,
}
use a9_v.Tcp.Effects.{handle_video_frame_tcp_lem}
use a9_v.Tcp.Safety.{
  Ends, Returns, >>-Returns, update_camera-Returns, send-Ends, with_connection-Returns,
  cloned-Returns, write_status-Returns, write_json-Returns, clone_connection-cases,
}

module _ {Value : Type 0} (host : Host Value) (ip : ℕ) where
  skip-Returns : Returns skip
  skip-Returns = record { returns = λ w b. b }

  optional-Returns :
      {A : Type 0} (o : Option A) (k : A → M (Unit {0})) (m : M (Unit {0}))
      → ((a : A) → Returns (k a))
      → Returns m
      → Returns (elim o [ some a ↦ k a | none ↦ m ])
  optional-Returns none k m h g = g
  optional-Returns (some a) k m h g = h a

  answer-Returns :
      (o : Option UidMessage) (code : ℕ) (f : CameraConnection → CameraConnection)
      → Returns (elim o [
        | some r ↦ write_status host ip code 200 >> update_camera host ip f
        | none ↦ skip
      ])
  answer-Returns o code f =
      optional-Returns o (λ _. write_status host ip code 200 >> update_camera host ip f) skip
        (λ _.
          >>-Returns host _ _ (write_status-Returns host ip code 200)
            (update_camera-Returns host ip f))
        skip-Returns

  handle_registration-Returns : (s : Bytes) → Returns (handle_registration host ip s)
  unfolding handle_registration
  handle_registration-Returns s =
      optional-Returns (host.registration_from_str s)
        (λ r.
          update_camera host ip (start_registration r)
          >> (write_status host ip 101 200 >> update_camera host ip (set_state idle)))
        skip
        (λ r. >>-Returns host _ _ (update_camera-Returns host ip (start_registration r)) (
          >>-Returns host _ _ (write_status-Returns host ip 101 200)
            (update_camera-Returns host ip (set_state idle))))
        skip-Returns

  handle_snapshot_request-Returns : (s : Bytes) → Returns (handle_snapshot_request host ip s)
  unfolding handle_snapshot_request
  handle_snapshot_request-Returns s = answer-Returns (host.uid_from_str s) 202 (set_state idle)

  handle_streaming_request-Returns : (s : Bytes) → Returns (handle_streaming_request host ip s)
  unfolding handle_streaming_request
  handle_streaming_request-Returns s =
      answer-Returns (host.uid_from_str s) 302 (set_state streaming)

  handle_nat_probe_response-Returns : Returns (handle_nat_probe_response host ip)
  unfolding handle_nat_probe_response
  handle_nat_probe_response-Returns = record {
    returns = λ w.
        let (t, e) = clone_connection-cases host ip w in
        rw e (
          (>>-Returns host _ _
              (optional-Returns t
                (λ conn.
                  write_json host conn (device_status host)
                  >> (write_json host conn (forward host (code_value host 298))
                      >> write_json host conn (forward host (base_info host))))
                skip
                (λ conn. >>-Returns host _ _ (write_json-Returns host conn _) (
                  >>-Returns host _ _ (write_json-Returns host conn _)
                    (write_json-Returns host conn _)))
                skip-Returns)
              (update_camera-Returns host ip (set_state streaming))).returns
            w);
  }

  echoed_command-Returns : (n : ℕ) → Returns (echoed_command host ip n)
  unfolding echoed_command send_streaming_command send_stop_streaming_command
  echoed_command-Returns n = if_rule Returns (n == 298) skip-Returns (
      if_rule Returns (n == 4) (cloned-Returns host ip _ (λ conn. write_json-Returns host conn _)) (
        if_rule Returns (n == 3) (cloned-Returns host ip _ (λ conn. write_json-Returns host conn _))
          skip-Returns))

  echoed_content-Returns : (v : Value) → Returns (echoed_content host ip v)
  unfolding echoed_content
  echoed_content-Returns v =
      optional-Returns (host.get v "code") _ skip
        (λ c.
          optional-Returns (host.as_u64 c) (echoed_command host ip) skip echoed_command-Returns
            skip-Returns)
        skip-Returns

  streaming_message-Returns : (s : Bytes) (v : Value) → Returns (streaming_message host ip s v)
  unfolding streaming_message
  streaming_message-Returns s v =
      optional-Returns (host.get v "uid") (λ _. handle_streaming_request host ip s) skip
        (λ _. handle_streaming_request-Returns s) skip-Returns

  forward_message-Returns : (s : Bytes) (v : Value) → Returns (forward_message host ip s v)
  unfolding forward_message
  forward_message-Returns s v =
      optional-Returns (host.get v "target") _ (streaming_message host ip s v)
        (λ _.
          optional-Returns (host.get v "content") (echoed_content host ip)
            (streaming_message host ip s v) echoed_content-Returns (streaming_message-Returns s v))
        (streaming_message-Returns s v)

  handle_keepalive-Returns : Returns (handle_keepalive host ip)
  unfolding handle_keepalive
  handle_keepalive-Returns = with_connection-Returns host ip _ (λ conn w. send-Ends host _ _ w)

  handle_heartbeat-Returns : Returns (handle_heartbeat host ip)
  unfolding handle_heartbeat
  handle_heartbeat-Returns = record {
    returns = λ w. (update_camera-Returns host ip (update_heartbeat w.clock)).returns w;
  }

  handle_video_frame_tcp-Returns : (p : Bytes) → Returns (handle_video_frame_tcp host ip p)
  handle_video_frame_tcp-Returns p = record {
    returns = λ w. rw (handle_video_frame_tcp_lem host ip p w) (λ b. b);
  }

  json_code-Returns :
      (s : Bytes) (v : Value) (code : ℕ) → code ≢ 51 → Returns (json_code host ip s v code)
  unfolding json_code
  json_code-Returns s v code h = if_rule Returns (code == 100) (handle_registration-Returns s) (
      if_rule Returns (code == 12) handle_nat_probe_response-Returns (
        rw (ne→== h) (
          if_rule Returns (code == 201) (handle_snapshot_request-Returns s)
            (if_rule Returns (code == 301) (forward_message-Returns s v) skip-Returns))))

  -- The text is no JSON value with code 51.
  abbrev pub AsksNoInfo : Bytes → Type 0
  AsksNoInfo s =
      (v : Value) → host.from_str s ≡ some v → host.as_u64 (host.index v "code") ≢ some 51

  json_message-Returns : (s : Bytes) → AsksNoInfo s → Returns (json_message host ip s)
  unfolding json_message
  json_message-Returns s h = elim (Option-cases (host.from_str s)) [
    | inl e ↦ rw (e, json_message) skip-Returns
    | inr (v, e) ↦ elim (Option-cases (host.as_u64 (host.index v "code"))) [
      | inl n ↦ rw (e, n, json_message) skip-Returns
      | inr (code, n) ↦
          rw (e, n, json_message) (json_code-Returns s v code (λ q. h v e (n ∙ ap some q)))
    ]
  ]

  dispatch-Returns :
      (h : ProtocolHeader) (p : Bytes) → AsksNoInfo (trim_nul p) → Returns (dispatch host ip h p)
  unfolding dispatch
  dispatch-Returns h p q =
      if_rule Returns (h.cmd == 0 || h.cmd == 87)
        (if_rule Returns (is_utf8 p) (json_message-Returns (trim_nul p) q) skip-Returns)
        (if_rule Returns (h.cmd == 99) handle_keepalive-Returns (
          if_rule Returns (h.cmd == 100) handle_heartbeat-Returns (
            if_rule Returns (h.cmd == 1 || (h.cmd == 4 || (h.cmd == 6 || h.cmd == 7)))
              (handle_video_frame_tcp-Returns p) skip-Returns)))

  -- Started with no lock held, processing any bytes ends with a value or an error, without a panic or a
  -- wait for ever, unless the payload behind their header is a JSON text with code 51.
  pub process_message-returns :
      (d : Bytes) (w : World)
      → ((h : ProtocolHeader) (p : Bytes)
          → Header.from_bytes host.buf d ≡ Header.ok (h, p)
          → AsksNoInfo (trim_nul p))
      → Ends (process_message host ip d idle_locks w)
  unfolding process_message
  process_message-returns d w q = elim (parsed_cases host.buf d) [
    | inl (_, e) ↦ rw (e, parse_header) (λ b. b)
    | inr (h, p, e) ↦ rw (e, parse_header) ((dispatch-Returns h p (q h p e)).returns w)
  ]
