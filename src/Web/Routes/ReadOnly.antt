-- ===== src/Web/Routes/ReadOnly.antt =====
-- Handlers that leave the server as it is: they answer, panic or wait.
pub mod Handlers
pub mod Answers
use a9_v.Prelude.{
  ℕ, ◌≡◌, List, [], ◌∷◌, true, false, Option, none, some, if◌then◌else◌, Bool-cases, inl, inr,
}
use a9_v.Prelude.Map.{Map, insert}
use a9_v.Wire.{Bytes}
use a9_v.Camera.{CameraConnection}
use a9_v.Runtime.{
  Host, M, World, Locks, Outcome, done, panicked, stuck, failed, guards, reading, then_do, ◌>>=◌,
  pure, utc_now, get_camera, manager_read, camera_read, camera_try_read,
}
use a9_v.Web.{cameras, find, or_else, seen}
use a9_v.Web.Legacy.{or_panic}

-- An outcome that leaves the world as it was, and is no error. `P` says that it may be a panic, `Q`
-- that it may not be a wait.
pub data Leaves {A : Type 0} (P Q : Type 0) (w : World) : Outcome A → Type 0 where
  answers : (a : A) → Leaves P Q w (done a w)
  panics : P → Leaves P Q w (panicked w)
  waits : ¬ Q → (l : Locks) → Leaves P Q w (stuck l w)

weaken :
    {A : Type 0} {P Q R : Type 0} {w : World} {o : Outcome A}
    → (Q → R)
    → Leaves P R w o
    → Leaves P Q w o
weaken f (answers a) = answers a
weaken f (panics p) = panics p
weaken f (waits n l) = waits (λ q. n (f q)) l

-- Locks under which the manager's lock is granted to a reader, then and after further readers.
pub record Freedom {Value : Type 0} (host : Host Value) : Type 1 where
  pub Free : Locks → Type 0
  pub manager_free : (l : Locks) → Free l → host.read_granted l.manager ≡ true
  pub manager_kept : (l : Locks) → Free l → Free (record l { manager = reading ∷ l.manager })
  pub camera_kept :
      (ip : ℕ) (l : Locks)
      → Free l
      → host.read_granted (guards ip l) ≡ true
      → Free (record l { cameras = insert ip (reading ∷ guards ip l) l.cameras })

pub record IsReadOnly {Value A : Type 0} {host : Host Value} (fr : Freedom host) (P : Type 0)
    (m : M A) : Type 0 where
  pub leaves : (l : Locks) (w : World) → Leaves P (fr.Free l) w (m l w)

-- Under the free locks the cameras' locks are granted to readers too.
abbrev pub Reads : {Value : Type 0} {host : Host Value} → Freedom host → Type 0
Reads {host = host} fr = (ip : ℕ) (l : Locks) → fr.Free l → host.read_granted (guards ip l) ≡ true

module _ {Value : Type 0} {host : Host Value} {fr : Freedom host} {P : Type 0} where
  pub pure-IsReadOnly : {A : Type 0} (a : A) → IsReadOnly fr P (pure a)
  pure-IsReadOnly a = record { leaves = λ l w. answers a }

  pub bind-IsReadOnly :
      {A B : Type 0} (m : M A) (k : A → M B)
      → IsReadOnly fr P m
      → ((a : A) → IsReadOnly fr P (k a))
      → IsReadOnly fr P (m >>= k)
  bind-IsReadOnly {A = A} m k h g = record { leaves = λ l w. step l w (m l w) (h.leaves l w) }
    where
      step :
          (l : Locks) (w : World) (o : Outcome A)
          → Leaves P (fr.Free l) w o
          → Leaves P (fr.Free l) w (then_do (λ a w'. k a l w') o)
      step l w _ (answers a) = (g a).leaves l w
      step l w _ (panics p) = panics p
      step l w _ (waits n l') = waits n l'

  pub or_panic-IsReadOnly : {A : Type 0} → P → (o : Option A) → IsReadOnly fr P (or_panic o)
  or_panic-IsReadOnly p none = record { leaves = λ l w. panics p }
  or_panic-IsReadOnly p (some a) = record { leaves = λ l w. answers a }

  pub option-IsReadOnly :
      {A B : Type 0} (o : Option A) (k : A → M B) (m : M B)
      → ((a : A) → IsReadOnly fr P (k a))
      → IsReadOnly fr P m
      → IsReadOnly fr P (elim o [ some a ↦ k a | none ↦ m ])
  option-IsReadOnly none k m h g = g
  option-IsReadOnly (some a) k m h g = h a

  pub or_else-IsReadOnly :
      {A : Type 0} (rest : M (Option A)) (o : Option A)
      → IsReadOnly fr P rest
      → IsReadOnly fr P (or_else rest o)
  or_else-IsReadOnly rest none h = h
  or_else-IsReadOnly rest (some a) h = pure-IsReadOnly (some a)

  pub get_camera-IsReadOnly : (ip : ℕ) → IsReadOnly fr P (get_camera ip)
  unfolding get_camera
  get_camera-IsReadOnly ip = record { leaves = λ l w. answers _ }

  pub cameras-IsReadOnly : IsReadOnly fr P cameras
  unfolding cameras
  cameras-IsReadOnly = record { leaves = λ l w. answers _ }

  pub utc_now-IsReadOnly : IsReadOnly fr P utc_now
  utc_now-IsReadOnly = record { leaves = λ l w. answers w.clock }

  pub find-IsReadOnly :
      {A : Type 0} (read : ℕ → M (Option A) → M (Option A)) (device_id : Bytes)
      (f : CameraConnection → A) (m : Map CameraConnection)
      → ((ip : ℕ) (o : Option A) → IsReadOnly fr P (read ip (pure o)))
      → IsReadOnly fr P (find read device_id f m)
  unfolding find
  find-IsReadOnly read device_id f [] h = pure-IsReadOnly none
  find-IsReadOnly read device_id f ((ip, c) ∷ m) h =
      bind-IsReadOnly _ _ (h ip (seen device_id f c))
        (λ o. or_else-IsReadOnly _ o (find-IsReadOnly read device_id f m h))

  pub manager_read-IsReadOnly :
      {A : Type 0} (m : M A) → IsReadOnly fr P m → IsReadOnly fr P (manager_read host m)
  unfolding manager_read
  manager_read-IsReadOnly m h = record {
    leaves = λ l w. elim (Bool-cases (host.read_granted l.manager)) [
      | inl e ↦ rw e (weaken (fr.manager_kept l) (h.leaves _ w))
      | inr e ↦ rw e (waits (λ q. let y = fr.manager_free l q in absurd (cc)) l)
    ];
  }

  pub camera_read-IsReadOnly :
      {A : Type 0}
      → Reads fr
      → (ip : ℕ) (m : M A) → IsReadOnly fr P m
      → IsReadOnly fr P (camera_read host ip m)
  unfolding camera_read
  camera_read-IsReadOnly reads ip m h = record {
    leaves = λ l w. elim (Bool-cases (host.read_granted (guards ip l))) [
      | inl e ↦ rw e (weaken (λ q. fr.camera_kept ip l q e) (h.leaves _ w))
      | inr e ↦ rw e (waits (λ q. let y = reads ip l q in absurd (cc)) l)
    ];
  }

  pub camera_try_read-IsReadOnly :
      {A : Type 0} (ip : ℕ) (m : M (Option A))
      → IsReadOnly fr P m
      → IsReadOnly fr P (camera_try_read host ip m)
  unfolding camera_try_read
  camera_try_read-IsReadOnly ip m h = record {
    leaves = λ l w. elim (Bool-cases (host.read_granted (guards ip l))) [
      | inl e ↦ rw e (weaken (λ q. fr.camera_kept ip l q e) (h.leaves _ w))
      | inr e ↦ rw e (answers none)
    ];
  }
