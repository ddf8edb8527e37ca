-- ===== src/Manager/Cameras.antt =====
-- The cameras that CameraManager of src/types.rs keeps.
use a9_v.Prelude.{
  ℕ, ◌≡◌, ◌≢◌, refl, List, [], ◌∷◌, elem, IsDistinct, false, ◌||◌, none, some, if◌then◌else◌, ◌==◌,
  arith, Option, Option-cases, Bool-cases, inl, inr,
}
use a9_v.Prelude.Map.{Map, lookup, insert, remove, keys, lookup-insert_self, lookup-insert_ne}
use a9_v.Config.{AppConfig}
use a9_v.Camera.{CameraConnection}
use a9_v.Camera
use a9_v.Manager.{
  CameraManager, new, device_name, get_or_create_camera, remove_camera, get_camera, list_cameras,
}

abbrev pub found_or : CameraConnection → Option CameraConnection → CameraConnection
found_or d none = d
found_or d (some c) = c

-- Asked for the camera of an address, the manager has it afterwards: the one that it had, or a new
-- one with the name and the port 6123. The cameras of other addresses stay, and asking again
-- changes nothing.
pub get_or_create_camera_lem :
    (ip j : ℕ) (t t' : ℕ × ℕ × ℕ) (m : CameraManager)
    → ip ≢ j
    → let m' = get_or_create_camera ip t m in
      (get_camera ip m'
        ≡ some (found_or (Camera.new (device_name ip) ip (ip, 6123) t) (get_camera ip m)))
      × (get_camera j m' ≡ get_camera j m)
      × (get_or_create_camera ip t' m' ≡ m')
unfolding get_or_create_camera get_camera
get_or_create_camera_lem ip j t t' m h = elim (Option-cases (lookup ip m.cameras)) [
  | inl e ↦
      let new_camera = Camera.new (device_name ip) ip (ip, 6123) t in
      let here : lookup ip (insert ip new_camera m.cameras) ≡ some new_camera =
        lookup-insert_self ip new_camera m.cameras in
      (
        rw (e, get_or_create_camera) here,
        rw (e, get_or_create_camera) (lookup-insert_ne ip j new_camera m.cameras h),
        rw (e, get_or_create_camera) (rw (here, get_or_create_camera, e)),
      )
  | inr (c, e) ↦ (
    rw (e, get_or_create_camera) e,
    rw (e, get_or_create_camera),
    rw (e, get_or_create_camera) (rw (e, get_or_create_camera, e)),
  )
]

module _ {V : Type 0} where
  elem-keys-insert :
      (a k : ℕ) (v : V) (m : Map V) → elem a (keys (insert k v m)) ≡ (elem a (keys m) || a == k)
  elem-keys-insert a k v [] = ground arith
  elem-keys-insert a k v ((j, w) ∷ m) = ground (arith, elem-keys-insert a k v m)

  insert-IsDistinct :
      (k : ℕ) (v : V) (m : Map V) → IsDistinct (keys m) → IsDistinct (keys (insert k v m))
  insert-IsDistinct k v [] d = (refl, tt)
  insert-IsDistinct k v ((j, w) ∷ m) d = elim (Bool-cases (j == k)) [
    | inl e ↦ rw e (ground (arith), d.1)
    | inr e ↦ rw e (ground (arith, elem-keys-insert j k v m), insert-IsDistinct k v m d.1)
  ]

  remove-absent :
      (a k : ℕ) (m : Map V) → elem a (keys m) ≡ false → elem a (keys (remove k m)) ≡ false
  remove-absent a k [] h = refl
  remove-absent a k ((j, w) ∷ m) h = ground (arith, remove-absent a k m)

  remove-IsDistinct : (k : ℕ) (m : Map V) → IsDistinct (keys m) → IsDistinct (keys (remove k m))
  remove-IsDistinct k [] d = tt
  remove-IsDistinct k ((j, w) ∷ m) d = elim (Bool-cases (j == k)) [
    | inl e ↦ rw e d.1
    | inr e ↦ rw e (remove-absent j k m d.0, remove-IsDistinct k m d.1)
  ]

  lookup-absent : (a : ℕ) (m : Map V) → elem a (keys m) ≡ false → lookup a m ≡ none
  lookup-absent a [] h = refl
  lookup-absent a ((j, w) ∷ m) h = ground (arith, lookup-absent a m)

  lookup-remove :
      (k j : ℕ) (m : Map V)
      → IsDistinct (keys m)
      → lookup j (remove k m) ≡ (if k == j then none else lookup j m)
  lookup-remove k j [] d = ground arith
  lookup-remove k j ((i, w) ∷ m) d = ground (arith, lookup-remove k j m d.1, lookup-absent i m d.0)

-- The calls that change the manager.
pub data Call : Type 0 where
  create : ℕ → ℕ × ℕ × ℕ → Call
  forget : ℕ → Call

abbrev pub calls : List Call → CameraManager → CameraManager
calls [] m = m
calls (create ip t ∷ cs) m = calls cs (get_or_create_camera ip t m)
calls (forget ip ∷ cs) m = calls cs (remove_camera ip m)

calls-IsDistinct :
    (cs : List Call) (m : CameraManager)
    → IsDistinct (keys m.cameras)
    → IsDistinct (keys (calls cs m).cameras)
unfolding get_or_create_camera remove_camera
calls-IsDistinct [] m d = d
calls-IsDistinct (create ip t ∷ cs) m d =
    calls-IsDistinct cs (get_or_create_camera ip t m) (elim (Option-cases (lookup ip m.cameras)) [
      | inl e ↦ rw (e, get_or_create_camera) (insert-IsDistinct ip _ m.cameras d)
      | inr (c, e) ↦ rw (e, get_or_create_camera) d
    ])
calls-IsDistinct (forget ip ∷ cs) m d =
    calls-IsDistinct cs (remove_camera ip m) (remove-IsDistinct ip m.cameras d)

-- After any calls on a new manager, no address is listed twice, and removing a camera takes away
-- the one of its address and no other.
pub remove_camera_lem :
    (cs : List Call) (config : AppConfig) (ip j : ℕ)
    → let m = calls cs (new config) in
      IsDistinct (list_cameras m)
      × (get_camera j (remove_camera ip m) ≡ (if ip == j then none else get_camera j m))
unfolding get_camera remove_camera list_cameras new
remove_camera_lem cs config ip j =
    let d = calls-IsDistinct cs (new config) tt in
    (d, lookup-remove ip j (calls cs (new config)).cameras d)
