-- ===== src/Pool/Retry.antt =====
-- `send_with_retry` of src/camera.rs, on a connection, with the sends and the
-- reconnections as they succeed or fail.
use a9_v.Prelude.{
  ℕ, zero, suc, ◌+◌, ◌*◌, ◌^◌, ◌%◌, ◌≤◌, ◌<◌, ◌≡◌, refl, Bool, true, false, not, ◌||◌, Option, none,
  some, if◌then◌else◌, ◌==◌, arith, ◌&&◌, ap, ◌∙◌, subst, ltb, ltb→lt, Bool-cases, Option-cases,
  inl, inr,
}
use native.Mathlib.Numerals.{towards_suc}
use a9_v.Camera.{CameraConnection, is_connection_healthy}

-- Whether the n-th send and the n-th connection succeed, the connection that the latter gives, and
-- the clock.
pub record Network : Type 0 where
  pub send_ok : ℕ → Bool
  pub connect_to : ℕ → Option ℕ
  pub now : ℕ → ℕ

-- A connection, the attempts that have failed, the milliseconds slept, and whether one has succeeded.
pub record Attempt : Type 0 where
  pub camera : CameraConnection
  pub attempts : ℕ
  pub slept : ℕ
  pub succeeded : Bool

abbrev pub is_none : Option ℕ → Bool
is_none none = true
is_none (some a) = false

grown : (n slept : ℕ) → slept + 100 ≤ 100 * 2 ^ n → slept + 100 ≤ 100 * 2 ^ (n + 1)
grown n slept h = simp towards_suc (omega arith)

waited :
    (n slept : ℕ)
    → slept + 100 ≤ 100 * 2 ^ n
    → slept + 100 * 2 ^ n % 2 ^ 64 + 100 ≤ 100 * 2 ^ (n + 1)
waited n slept h = simp towards_suc (omega arith)

module _ (net : Network) where
  unfoldable pub ensure_connection : ℕ → CameraConnection → CameraConnection
  ensure_connection n c =
      if is_none c.tcp_conn || not (is_connection_healthy (net.now n) c)
      then (elim (net.connect_to n) [ some conn ↦ record c { tcp_conn = some conn } | none ↦ c ])
      else c

  -- `send_tcp_message`: without a connection it is an error.
  abbrev pub send_succeeds : ℕ → CameraConnection → Bool
  send_succeeds n c = elim c.tcp_conn [ some conn ↦ net.send_ok n | none ↦ false ]

  -- What the loop does after the n-th attempt has failed, where more may follow. The delay is a
  -- `u64`, which wraps in a release build.
  abbrev pub retried : ℕ → Attempt → Attempt
  retried n a = record a {
    camera = ensure_connection n a.camera;
    attempts = n + 1;
    slept = a.slept + 100 * 2 ^ n % 2 ^ 64;
  }

  -- The loop with `left` attempts left. After the last it neither sleeps nor reconnects.
  unfoldable pub retry_loop : ℕ → Attempt → Attempt
  unfolding ensure_connection
  retry_loop zero a = a
  retry_loop (suc left) a =
      let next =
        if left == 0 then record a { attempts = a.attempts + 1 } else retried a.attempts a in
      let rest = retry_loop left next in
      if send_succeeds a.attempts a.camera
      then record a { camera = record a.camera { retry_count = 0 }; succeeded = true }
      else rest

  unfoldable pub send_with_retry : ℕ → CameraConnection → Attempt
  unfolding retry_loop
  send_with_retry max_retries c =
      retry_loop max_retries (record { camera = c; attempts = 0; slept = 0; succeeded = false })

  -- Whether there is a connection at the n-th attempt: one from the start, or one that an earlier
  -- reconnection has given.
  abbrev pub linked : Option ℕ → ℕ → Bool
  linked conn zero = not (is_none conn)
  linked conn (suc n) = linked conn n || not (is_none (net.connect_to n))

  -- Whether the n-th attempt is let through.
  abbrev pub passes : Option ℕ → ℕ → Bool
  passes conn n = linked conn n && net.send_ok n

  -- None of the first n attempts is let through.
  abbrev pub AllFail : Option ℕ → ℕ → Type 0
  AllFail conn n = (k : ℕ) → k < n → passes conn k ≡ false

  -- What holds of the result after `max` attempts at most, from such a connection.
  pub record IsRetried (conn : Option ℕ) (max : ℕ) (a : Attempt) : Type 0 where
    pub exhausted : a.succeeded ≡ false → (a.attempts ≡ max) × AllFail conn max
    pub sent :
        a.succeeded ≡ true
        → (a.attempts < max) × (passes conn a.attempts ≡ true) × AllFail conn a.attempts
    pub reset : a.succeeded ≡ true → a.camera.retry_count ≡ 0
    pub slept_bound : a.slept + 100 ≤ 100 * 2 ^ a.attempts

  send_succeeds-passes :
      (conn : Option ℕ) (n : ℕ) (c : CameraConnection)
      → linked conn n ≡ not (is_none c.tcp_conn)
      → passes conn n ≡ send_succeeds n c
  send_succeeds-passes conn n c h = elim (Option-cases c.tcp_conn) [
    | inl e ↦ rw (h, e)
    | inr (t, e) ↦ rw (h, e)
  ]

  ensure_connection-linked :
      (conn : Option ℕ) (n : ℕ) (c : CameraConnection)
      → linked conn n ≡ not (is_none c.tcp_conn)
      → linked conn (suc n) ≡ not (is_none (ensure_connection n c).tcp_conn)
  unfolding ensure_connection
  ensure_connection-linked conn n c h = elim (Option-cases c.tcp_conn) [
    | inl e ↦ elim (Option-cases (net.connect_to n)) [
      | inl q ↦ simp (h, e, q)
      | inr (t, q) ↦ simp (h, e, q)
    ]
    | inr (t, e) ↦ elim (Option-cases (net.connect_to n)) [
      | inl q ↦ ground arith
      | inr (u, q) ↦ ground arith
    ]
  ]

  AllFail-suc :
      (conn : Option ℕ) (n : ℕ) → AllFail conn n → passes conn n ≡ false → AllFail conn (n + 1)
  AllFail-suc conn n h e k l = elim (Bool-cases (ltb k n)) [
    | inl p ↦ h k (ltb→lt k n p)
    | inr p ↦ let same : k ≡ n = ground arith in ap (passes conn) same ∙ e
  ]

  retry_loop-IsRetried :
      (conn : Option ℕ) (left max : ℕ) (a : Attempt)
      → a.attempts + left ≡ max
      → a.succeeded ≡ false
      → a.slept + 100 ≤ 100 * 2 ^ a.attempts
      → (0 < left → linked conn a.attempts ≡ not (is_none a.camera.tcp_conn))
      → AllFail conn a.attempts
      → IsRetried conn max (retry_loop left a)
  unfolding retry_loop
  retry_loop-IsRetried conn zero max a e f s c h = record {
    exhausted = λ _. (omega arith, subst (AllFail conn) (omega arith) h);
    sent = λ t. absurd (cc);
    reset = λ t. absurd (cc);
    slept_bound = s;
  }
  retry_loop-IsRetried conn (suc left) max a e f s c h =
      let same = send_succeeds-passes conn a.attempts a.camera (c (omega arith)) in
      elim (Bool-cases (send_succeeds a.attempts a.camera)) [
        | inl y ↦ rw y (record {
          exhausted = λ t. absurd (cc);
          sent = λ _. (omega arith, same ∙ y, h);
          reset = λ _. refl;
          slept_bound = s;
        })
        | inr y ↦
            let step : suc a.attempts ≡ a.attempts + 1 = omega arith in
            let later =
              subst
                (λ m.
                  linked conn m ≡ not (is_none (ensure_connection a.attempts a.camera).tcp_conn))
                step (ensure_connection-linked conn a.attempts a.camera (c (omega arith))) in
            let fails = AllFail-suc conn a.attempts h (same ∙ y) in
            rw y (elim (Bool-cases (left == 0)) [
              | inl z ↦ rw z (
                  retry_loop-IsRetried conn left max (record a { attempts = a.attempts + 1 })
                    (omega arith) f (grown a.attempts a.slept s) (λ p. absurd (ground (arith, p)))
                    fails)
              | inr z ↦ rw z (
                  retry_loop-IsRetried conn left max (retried a.attempts a) (omega arith) f
                    (waited a.attempts a.slept s) (λ _. later) fails)
            ])
      ]

  -- An attempt is let through where the network lets its send through and there is a connection: the
  -- camera's own, or one that the reconnection after an earlier attempt has given. `send_with_retry`
  -- fails only where none of the first `max_retries` attempts is let through, and then it has made them
  -- all. Where it succeeds, it has stopped at the first attempt that is let through, which is among
  -- these, and the retry count is 0. The delays together stay below 100 milliseconds times two to the
  -- number of failed attempts.
  pub send_with_retry-IsRetried :
      (max_retries : ℕ) (c : CameraConnection)
      → IsRetried c.tcp_conn max_retries (send_with_retry max_retries c)
  unfolding send_with_retry
  send_with_retry-IsRetried max_retries c =
      retry_loop-IsRetried c.tcp_conn max_retries max_retries
        (record { camera = c; attempts = 0; slept = 0; succeeded = false }) (omega arith) refl
        (omega arith) (λ _. refl) (λ k l. absurd (omega (arith, l)))
