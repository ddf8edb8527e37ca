-- ===== src/Runtime.antt =====
-- What the handlers of src/router run on: the host, which stands for the tokio runtime, the network,
-- the JSON library, the random numbers and the `bytes` crate; the world that they share; and the
-- effects of a handler. A handler runs by itself: other tasks run before and after it, and the clock
-- stands still meanwhile. A lock guard that goes out of scope is released, on an error too, so the
-- locks that are held are passed down to the scope of the guard.
pub mod Cells
pub mod Sends
pub mod Invariant
use a9_v.Prelude.{
  ℕ, ◌+◌, ◌<◌, ◌≤◌, ◌≡◌, List, [], ◌∷◌, ◌++◌, String, Bool, true, false, Option, none, some,
  if◌then◌else◌,
}
use a9_v.Prelude.Map.{Map, lookup, insert}
use a9_v.Wire.{Bytes, Buf}
use a9_v.Camera.{CameraConnection}
use a9_v.Manager.{CameraManager, get_or_create_camera}

-- A guard on a lock, or a writer that waits for it.
pub data Mode : Type 0 where
  reading writing queued : Mode

-- The locks of the manager and of the cameras, each with its guards.
pub record Locks : Type 0 where
  pub manager : List Mode
  pub cameras : Map (List Mode)

abbrev pub idle_locks : Locks
idle_locks = record { manager = []; cameras = [] }

abbrev pub guards : ℕ → Locks → List Mode
guards ip l = elim (lookup ip l.cameras) [ none ↦ [] | some g ↦ g ]

-- A response with a code and a status, or a request with a uid.
pub record StatusMessage : Type 0 where
  pub code : ℕ
  pub status : ℕ

pub record UidMessage : Type 0 where
  pub code : ℕ
  pub uid : Bytes

pub record Host (Value : Type 0) : Type 0 where
  pub buf : Buf
  -- tokio's RwLock: whether a guard is given out, from the guards that are out and the queue.
  pub read_granted : List Mode → Bool
  pub write_granted : List Mode → Bool
  pub read_free : read_granted [] ≡ true
  pub write_free : write_granted [] ≡ true
  pub write_excluded : (m : Mode) (l : List Mode) → write_granted (m ∷ l) ≡ false
  pub read_excluded : (l : List Mode) → read_granted (writing ∷ l) ≡ false
  pub read_queued : (l : List Mode) → read_granted (queued ∷ l) ≡ false
  pub read_shared : (l : List Mode) → read_granted l ≡ true → read_granted (reading ∷ l) ≡ true
  -- Whether the n-th send or write succeeds, a bind to a port does, and the n-th random port.
  pub send_ok : ℕ → Bool
  pub bind_ok : ℕ → Bool
  pub gen_range : ℕ → ℕ → ℕ → ℕ
  pub gen_range_bounds :
      (n lo hi : ℕ) → lo < hi → (lo ≤ gen_range n lo hi) × (gen_range n lo hi < hi)
  -- The key that the iteration over a HashMap begins with.
  pub next_key : Map ℕ → Option ℕ
  -- serde_json: reading, `value[key]`, `get`, `as_u64`, building and printing a value, and the
  -- messages with a derived reader or printer.
  pub from_str : Bytes → Option Value
  pub index : Value → String → Value
  pub get : Value → String → Option Value
  pub as_u64 : Value → Option ℕ
  pub object : List (String × Value) → Value
  pub number : ℕ → Value
  pub string : Bytes → Value
  pub to_string : Value → Option Bytes
  pub status_to_string : StatusMessage → Option Bytes
  pub registration_from_str : Bytes → Option UidMessage
  pub uid_from_str : Bytes → Option UidMessage

-- What leaves the server: from a UDP port to an address and port, or over a TCP connection.
pub data Packet : Type 0 where
  udp : ℕ → ℕ → ℕ → Bytes → Packet
  tcp : ℕ → Bytes → Packet

pub record World : Type 0 where
  pub manager : CameraManager
  pub clock : ℕ
  pub sends : ℕ
  pub draws : ℕ
  pub out : List Packet

-- How a handler ends: with a value, with an error that `?` passes on, with a panic, or never, because
-- it waits for a lock that it holds itself.
pub data Outcome {ℓ} (A : Type ℓ) : Type ℓ where
  done : A → World → Outcome A
  failed : World → Outcome A
  panicked : World → Outcome A
  stuck : Locks → World → Outcome A

-- The world in which a handler ends or stops.
abbrev pub world_of {ℓ} : {A : Type ℓ} → Outcome A → World
world_of (done a w) = w
world_of (failed w) = w
world_of (panicked w) = w
world_of (stuck l w) = w

abbrev pub M {ℓ} : Type ℓ → Type ℓ
M A = Locks → World → Outcome A

abbrev pub then_do {ℓ κ} :
    {A : Type ℓ} {B : Type κ} → (A → World → Outcome B) → Outcome A → Outcome B
then_do f (done a w) = f a w
then_do f (failed w) = failed w
then_do f (panicked w) = panicked w
then_do f (stuck l w) = stuck l w

infixl 5 ◌>>=◌ ◌>>◌
abbrev pub ◌>>=◌ {ℓ κ} : {A : Type ℓ} {B : Type κ} → M A → (A → M B) → M B
◌>>=◌ m f l w = then_do (λ a w'. f a l w') (m l w)

abbrev pub ◌>>◌ {ℓ} : {B : Type ℓ} → M (Unit {0}) → M B → M B
◌>>◌ m k l w = then_do (λ _ w'. k l w') (m l w)

abbrev pub pure {ℓ} : {A : Type ℓ} → A → M A
pure a l w = done a w

abbrev pub skip : M (Unit {0})
skip l w = done tt w

-- `Utc::now()`
abbrev pub utc_now : M ℕ
utc_now l w = done w.clock w

abbrev pub or_fail {ℓ} : {A : Type ℓ} → Option A → M A
or_fail none l w = failed w
or_fail (some a) l w = done a w

abbrev pub after_attempt : Outcome (Unit {0}) → Outcome (Unit {0})
after_attempt (done a w) = done a w
after_attempt (failed w) = done tt w
after_attempt (panicked w) = panicked w
after_attempt (stuck l w) = stuck l w

-- `if let Err(e) = m { log }`
abbrev pub attempt : M (Unit {0}) → M (Unit {0})
attempt m l w = after_attempt (m l w)

-- The camera of an address as it is in the map. (The code holds its shared cell.)
unfoldable pub get_camera : ℕ → M (Option CameraConnection)
get_camera ip l w = done (lookup ip w.manager.cameras) w

unfoldable pub set_camera : ℕ → CameraConnection → World → World
set_camera ip c w = record w {
  manager = record w.manager { cameras = insert ip c w.manager.cameras };
}

abbrev pub modified :
    ℕ → (CameraConnection → CameraConnection) → World → Option CameraConnection → World
modified ip f w none = w
modified ip f w (some c) = set_camera ip (f c) w

unfoldable pub modify : ℕ → (CameraConnection → CameraConnection) → M (Unit {0})
unfolding set_camera
modify ip f l w = done tt (modified ip f w (lookup ip w.manager.cameras))

unfoldable pub create_camera : ℕ → M (Unit {0})
create_camera ip l w =
    done tt (record w { manager = get_or_create_camera ip (w.clock, w.clock, w.clock) w.manager })

module _ {Value : Type 0} (host : Host Value) where
  unfoldable pub manager_write {ℓ} : {A : Type ℓ} → M A → M A
  manager_write m l w =
      if host.write_granted l.manager
      then m (record l { manager = writing ∷ l.manager }) w
      else stuck (record l { manager = queued ∷ l.manager }) w

  unfoldable pub manager_read {ℓ} : {A : Type ℓ} → M A → M A
  manager_read m l w =
      if host.read_granted l.manager
      then m (record l { manager = reading ∷ l.manager }) w
      else stuck l w

  unfoldable pub camera_write {ℓ} : {A : Type ℓ} → ℕ → M A → M A
  camera_write ip m l w =
      if host.write_granted (guards ip l)
      then m (record l { cameras = insert ip (writing ∷ guards ip l) l.cameras }) w
      else stuck (record l { cameras = insert ip (queued ∷ guards ip l) l.cameras }) w

  unfoldable pub camera_read {ℓ} : {A : Type ℓ} → ℕ → M A → M A
  camera_read ip m l w =
      if host.read_granted (guards ip l)
      then m (record l { cameras = insert ip (reading ∷ guards ip l) l.cameras }) w
      else stuck l w

  -- `try_read`: where no guard is given out at once, it does not wait.
  unfoldable pub camera_try_read {ℓ} : {A : Type ℓ} → ℕ → M (Option A) → M (Option A)
  camera_try_read ip m l w =
      if host.read_granted (guards ip l)
      then m (record l { cameras = insert ip (reading ∷ guards ip l) l.cameras }) w
      else done none w

  -- A send, which counts whether it succeeds or not.
  unfoldable pub send : Packet → M (Unit {0})
  send p l w =
      if host.send_ok w.sends
      then done tt (record w { sends = w.sends + 1; out = w.out ++ p ∷ [] })
      else failed (record w { sends = w.sends + 1 })

  -- `let camera = manager.write().get_or_create_camera(ip); camera.write()`, both guards in one
  -- scope.
  unfoldable pub update_camera : ℕ → (CameraConnection → CameraConnection) → M (Unit {0})
  unfolding create_camera manager_write camera_write modify
  update_camera ip f = manager_write (create_camera ip >> camera_write ip (modify ip f))
