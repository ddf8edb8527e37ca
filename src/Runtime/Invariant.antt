-- ===== src/Runtime/Invariant.antt =====
-- An invariant of the cameras, on their addresses, buffers, lists of packet ids and sessions, and the
-- steps that the handlers are made of.
pub mod Guards
use a9_v.Prelude.{
  ℕ, ◌≡◌, ◌≢◌, ◌∙◌, refl, subst, List, [], ◌∷◌, Bool, true, false, All, IsDistinct, Option, none,
  some, arith, Bool-cases, Option-cases, inl, inr, if◌then◌else◌, ◌==◌,
}
use a9_v.Prelude.Map.{Map, lookup, insert, lookup-insert_ne}
use a9_v.Camera.{CameraConnection}
use a9_v.Camera
use a9_v.Camera.Session.{IsSession}
use a9_v.Stream
use a9_v.Stream.Bounds.{IsBounded}
use a9_v.Manager.{get_or_create_camera, device_name}
use a9_v.Runtime.{
  Host, Locks, guards, World, M, Outcome, done, failed, panicked, stuck, Packet, world_of, then_do,
  ◌>>=◌, ◌>>◌, pure, skip, or_fail, utc_now, attempt, after_attempt, get_camera, set_camera,
  modified, modify, create_camera, manager_write, manager_read, camera_write, camera_read,
  camera_try_read, send, update_camera,
}

pub record IsSoundCamera (ip : ℕ) (c : CameraConnection) : Type 0 where
  pub address : c.ip ≡ ip
  pub buffer : IsBounded 100 c.stream_buffer
  pub bucket : IsDistinct c.retransmission_bucket
  pub packages : IsDistinct c.received_packages
  pub session : IsSession c

abbrev pub IsSoundEntry : ℕ × CameraConnection → Type 0
IsSoundEntry e = IsSoundCamera e.0 e.1

abbrev pub IsSound : World → Type 0
IsSound w = All IsSoundEntry w.manager.cameras

-- The cameras of other addresses are as they were.
abbrev pub IsApart : ℕ → World → World → Type 0
IsApart ip v w = (j : ℕ) → ip ≢ j → lookup j w.manager.cameras ≡ lookup j v.manager.cameras

abbrev pub IsKept : ℕ → World → World → Type 0
IsKept ip v w = IsSound w × IsApart ip v w

-- A step for one address keeps the cameras sound and leaves the others alone, under any locks and
-- however it ends.
pub record Keeps (ip : ℕ) {A : Type 0} (m : M A) : Type 0 where
  pub keeps : (l : Locks) (w : World) → IsSound w → IsKept ip w (world_of (m l w))

insert_sound :
    (ip : ℕ) (c : CameraConnection) (m : Map CameraConnection)
    → IsSoundCamera ip c
    → All IsSoundEntry m
    → All IsSoundEntry (insert ip c m)
insert_sound ip c [] s h = (s, tt)
insert_sound ip c ((j, d) ∷ m) s h = elim (Bool-cases (j == ip)) [
  | inl e ↦ rw e (s, h.1)
  | inr e ↦ rw e (h.0, insert_sound ip c m s h.1)
]

found :
    (j ip : ℕ) (d c : CameraConnection) (m : Map CameraConnection)
    → (j == ip) ≡ true
    → lookup ip ((j, d) ∷ m) ≡ some c
    → ◌≡◌ {A = ℕ × CameraConnection} (j, d) (ip, c)
found j ip d c m q e = ground arith

pub lookup_sound :
    (ip : ℕ) (c : CameraConnection) (m : Map CameraConnection)
    → lookup ip m ≡ some c
    → All IsSoundEntry m
    → IsSoundCamera ip c
lookup_sound ip c [] e h = absurd (cc)
lookup_sound ip c ((j, d) ∷ m) e h = elim (Bool-cases (j == ip)) [
  | inl q ↦ subst (λ (e : ℕ × CameraConnection). IsSoundCamera e.0 e.1) (found j ip d c m q e) h.0
  | inr q ↦ lookup_sound ip c m (cc) h.1
]

pub new-IsSoundCamera :
    (name : List ℕ) (ip : ℕ) (addr : ℕ × ℕ) (t : ℕ × ℕ × ℕ)
    → IsSoundCamera ip (Camera.new name ip addr t)
unfolding Camera.new Stream.new
new-IsSoundCamera name ip addr t = record {
  address = refl;
  buffer = record { limit = refl; positive = omega arith; within = omega arith };
  bucket = tt;
  packages = tt;
  session = (refl, tt, tt, (refl, refl, refl, refl, refl, refl, refl, refl, refl));
}

pub IsKept-refl : (ip : ℕ) (w : World) → IsSound w → IsKept ip w w
IsKept-refl ip w s = (s, λ j n. refl)

pub IsKept-trans : (ip : ℕ) (u v w : World) → IsKept ip u v → IsKept ip v w → IsKept ip u w
IsKept-trans ip u v w a b = (b.0, λ j n. b.1 j n ∙ a.1 j n)

pub skip-Keeps : {ip : ℕ} → Keeps ip skip
skip-Keeps {ip} = record { keeps = λ l w s. IsKept-refl ip w s }

pub pure-Keeps : {ip : ℕ} {A : Type 0} (a : A) → Keeps ip (pure a)
pure-Keeps {ip} a = record { keeps = λ l w s. IsKept-refl ip w s }

pub or_fail-Keeps : {ip : ℕ} {A : Type 0} (o : Option A) → Keeps ip (or_fail o)
or_fail-Keeps {ip} none = record { keeps = λ l w s. IsKept-refl ip w s }
or_fail-Keeps {ip} (some a) = record { keeps = λ l w s. IsKept-refl ip w s }

pub bind-Keeps :
    {ip : ℕ} {A B : Type 0} (m : M A) (k : A → M B)
    → Keeps ip m
    → ((a : A) → Keeps ip (k a))
    → Keeps ip (m >>= k)
bind-Keeps {ip} {A = A} m k h g = record { keeps = λ l w s. step l w (m l w) (h.keeps l w s) }
  where
    step :
        (l : Locks) (w : World) (o : Outcome A)
        → IsKept ip w (world_of o)
        → IsKept ip w (world_of (then_do (λ a w'. k a l w') o))
    step l w (done a v) s = IsKept-trans ip w v (world_of (k a l v)) s ((g a).keeps l v s.0)
    step l w (failed v) s = s
    step l w (panicked v) s = s
    step l w (stuck l' v) s = s

pub seq-Keeps :
    {ip : ℕ} {B : Type 0} (m : M (Unit {0})) (k : M B) → Keeps ip m → Keeps ip k → Keeps ip (m >> k)
seq-Keeps m k h g = bind-Keeps m (λ _. k) h (λ _. g)

pub attempt-Keeps : {ip : ℕ} (m : M (Unit {0})) → Keeps ip m → Keeps ip (attempt m)
attempt-Keeps {ip} m h = record { keeps = λ l w s. step w (m l w) (h.keeps l w s) }
  where
    step :
        (w : World) (o : Outcome (Unit {0}))
        → IsKept ip w (world_of o)
        → IsKept ip w (world_of (after_attempt o))
    step w (done a v) s = s
    step w (failed v) s = s
    step w (panicked v) s = s
    step w (stuck l' v) s = s

-- A camera that is looked up is sound.
pub get_camera-Keeps :
    {B : Type 0} (ip : ℕ) (k : Option CameraConnection → M B)
    → ((c : CameraConnection) → IsSoundCamera ip c → Keeps ip (k (some c)))
    → Keeps ip (k none)
    → Keeps ip (get_camera ip >>= k)
unfolding get_camera
get_camera-Keeps ip k h g = record {
  keeps = λ l w s. elim (Option-cases (lookup ip w.manager.cameras)) [
    | inl e ↦ rw e (g.keeps l w s)
    | inr (c, e) ↦ rw e ((h c (lookup_sound ip c w.manager.cameras e s)).keeps l w s)
  ];
}

pub modify-Keeps :
    (ip : ℕ) (f : CameraConnection → CameraConnection)
    → ((c : CameraConnection) → IsSoundCamera ip c → IsSoundCamera ip (f c))
    → Keeps ip (modify ip f)
unfolding modify set_camera
modify-Keeps ip f h = record {
  keeps = λ l w s. elim (Option-cases (lookup ip w.manager.cameras)) [
    | inl e ↦ rw (e, modified) (IsKept-refl ip w s)
    | inr (c, e) ↦
        rw (e, modified)
          (
            insert_sound ip (f c) w.manager.cameras (h c (lookup_sound ip c w.manager.cameras e s))
                s,
            λ j n. lookup-insert_ne ip j (f c) w.manager.cameras n,
          )
  ];
}

pub create_camera-Keeps : (ip : ℕ) → Keeps ip (create_camera ip)
unfolding create_camera get_or_create_camera
create_camera-Keeps ip = record {
  keeps = λ l w s. elim (Option-cases (lookup ip w.manager.cameras)) [
    | inl e ↦
        let c = Camera.new (device_name ip) ip (ip, 6123) (w.clock, w.clock, w.clock) in
        rw (e, get_or_create_camera)
          (
            insert_sound ip c w.manager.cameras (new-IsSoundCamera (device_name ip) ip (ip, 6123) _)
                s,
            λ j n. lookup-insert_ne ip j c w.manager.cameras n,
          )
    | inr (c, e) ↦ rw (e, get_or_create_camera) (IsKept-refl ip w s)
  ];
}

pub utc_now-Keeps : {ip : ℕ} → Keeps ip utc_now
utc_now-Keeps {ip} = record { keeps = λ l w s. IsKept-refl ip w s }
