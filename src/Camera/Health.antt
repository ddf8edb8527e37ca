-- ===== src/Camera/Health.antt =====
-- The timeouts of CameraConnection in src/types.rs, against the instants that they compare.
use a9_v.Prelude.{ℕ, ◌+◌, ◌*◌, ◌^◌, ◌≤◌, ◌<◌, ◌≡◌, ◌↔◌, true, arith}
use a9_v.Camera.{
  CameraConnection, is_healthy, is_connection_healthy, should_send_retransmission,
  get_and_clear_received_packages,
}

-- For a timeout above zero and below 2^63 seconds, a camera is healthy exactly as long as less than
-- that many seconds have passed since its last heartbeat, also where the clock has gone back.
pub is_healthy_iff :
    (now timeout : ℕ) (c : CameraConnection)
    → timeout < 2 ^ 63
    → 0 < timeout
    → (is_healthy now timeout c ≡ true) ↔ (now < c.last_heartbeat + 1000000000 * timeout)
unfolding is_healthy
is_healthy_iff now timeout c h p = ground arith

-- A connection is healthy exactly until thirty seconds after its last keepalive.
pub is_connection_healthy_iff :
    (now : ℕ) (c : CameraConnection)
    → (is_connection_healthy now c ≡ true) ↔ (now < c.last_keepalive + 30 * 1000000000)
unfolding is_connection_healthy
is_connection_healthy_iff now c = ground arith

-- A retransmission is due exactly from a hundred milliseconds after the received packages were
-- last taken out.
pub should_send_retransmission_iff :
    (taken now : ℕ) (c : CameraConnection)
    → (should_send_retransmission now (get_and_clear_received_packages taken c).1 ≡ true)
      ↔ (taken + 100000000 ≤ now)
unfolding should_send_retransmission get_and_clear_received_packages
should_send_retransmission_iff taken now c = ground arith
