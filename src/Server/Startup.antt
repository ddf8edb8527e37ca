-- ===== src/Server/Startup.antt =====
-- `main` of src/main.rs, from the loaded configuration: the sockets that it binds, the tasks that it
-- spawns, and what it does when one of them ends. The routers' tasks do not end.
use a9_v.Prelude.{ℕ, ◌≡◌, ◌≢◌, refl, List, [], ◌∷◌, Bool, true, false, elem, if◌then◌else◌}
use a9_v.Config.{AppConfig}

-- The operating system: whether a port can be bound, from those that this process has bound. A port
-- that is bound is not bound again.
pub record Sockets : Type 0 where
  pub bind_tcp : List ℕ → ℕ → Bool
  pub bind_udp : List ℕ → ℕ → Bool
  pub tcp_taken : (bound : List ℕ) (port : ℕ) → elem port bound ≡ true → bind_tcp bound port ≡ false
  pub udp_taken : (bound : List ℕ) (port : ℕ) → elem port bound ≡ true → bind_udp bound port ≡ false

-- What the handle of a task gives when the task has ended: the task's own result, or an error of the
-- task, which is a panic.
pub data Joined : Type 0 where
  joined_ok joined_err : Joined
  join_error : Joined

-- How `main` ends: with an error, with `Ok` and a line in the log or none, or not at all.
pub data MainEnd : Type 0 where
  main_err : MainEnd
  main_ok : Bool → MainEnd
  serving : MainEnd

-- An arm of `tokio::select!`: `if let Err(e) = result { log }`
unfoldable pub select_arm : Joined → MainEnd
select_arm joined_ok = main_ok false
select_arm joined_err = main_ok false
select_arm join_error = main_ok true

bound :
    (b : Bool) (m : MainEnd)
    → (m ≢ main_err → m ≡ main_ok false)
    → (if b then m else main_err) ≢ main_err
    → (if b then m else main_err) ≡ main_ok false
bound true m h n = h n
bound false m h n = absurd (n refl)

module _ (os : Sockets) where
  -- `start_web_server` on two ports, one task after the other: the first that cannot bind its port
  -- ends with the error, and ends `main`.
  unfoldable pub web_servers : List ℕ → ℕ → ℕ → MainEnd
  unfolding select_arm
  web_servers bound p q =
      if os.bind_tcp bound p
      then (if os.bind_tcp (p ∷ bound) q then serving else select_arm joined_err)
      else select_arm joined_err

  -- `registration_first` tells which of the two web tasks runs first.
  unfoldable pub main : AppConfig → Bool → MainEnd
  unfolding web_servers
  main config registration_first =
      let tcp = config.tcp_protocol_port ∷ [] in
      let udp_1 = config.udp_protocol_port ∷ [] in
      let udp_2 = config.udp_stream_port_1 ∷ udp_1 in
      if os.bind_tcp [] config.tcp_protocol_port
      then (if os.bind_udp [] config.udp_protocol_port
          then (if os.bind_udp udp_1 config.udp_stream_port_1
              then (if os.bind_udp udp_2 config.udp_stream_port_2
                  then (if registration_first
                      then web_servers tcp 80 config.web_port
                      else web_servers tcp config.web_port 80)
                  else main_err)
              else main_err)
          else main_err)
      else main_err
