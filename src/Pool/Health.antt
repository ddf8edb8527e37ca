-- ===== src/Pool/Health.antt =====
-- A round of `run_health_checks` of src/camera.rs, on the map from device ids to connections.
use a9_v.Prelude.{
  ℕ, ◌+◌, ◌≡◌, ◌≢◌, refl, ltb, arith, List, [], ◌∷◌, not, All, if◌then◌else◌, Bool-cases, inl, inr,
}
use a9_v.Wire.{Bytes}
use a9_v.Camera.{CameraConnection, bytes_eq, is_connection_healthy}
use a9_v.Camera.Ids.{bytes_eq_refl, bytes_eq-ne}

abbrev pub Connections : Type 0
Connections = List (Bytes × CameraConnection)

-- The ids that the first loop marks for removal.
unfoldable pub to_remove : ℕ → Connections → List Bytes
to_remove now [] = []
to_remove now ((device_id, c) ∷ m) =
    let rest = to_remove now m in
    if not (is_connection_healthy now c) then device_id ∷ rest else rest

-- `connections.remove(&device_id)`
unfoldable pub remove : Bytes → Connections → Connections
remove device_id [] = []
remove device_id ((k, c) ∷ m) =
    let rest = remove device_id m in if bytes_eq k device_id then m else (k, c) ∷ rest

unfoldable pub remove_each : List Bytes → Connections → Connections
unfolding remove
remove_each [] m = m
remove_each (device_id ∷ ids) m = remove_each ids (remove device_id m)

unfoldable pub health_round : ℕ → Connections → Connections
unfolding to_remove remove_each
health_round now m = remove_each (to_remove now m) m

-- The connections with a keepalive in the last thirty seconds, in their order.
abbrev pub healthy_only : ℕ → Connections → Connections
healthy_only now [] = []
healthy_only now ((k, c) ∷ m) =
    let rest = healthy_only now m in
    if ltb now (c.last_keepalive + 30000000000) then (k, c) ∷ rest else rest

-- No id is a key twice.
abbrev pub IsKeyed : Connections → Type 0
IsKeyed [] = Unit {0}
IsKeyed ((k, c) ∷ m) = All (λ (e : Bytes × CameraConnection). k ≢ e.0) m × IsKeyed m

remove_each-other :
    (ids : List Bytes) (k : Bytes) (c : CameraConnection) (m : Connections)
    → All (λ i. k ≢ i) ids
    → remove_each ids ((k, c) ∷ m) ≡ (k, c) ∷ remove_each ids m
unfolding remove_each remove
remove_each-other [] k c m h = refl
remove_each-other (i ∷ ids) k c m h =
    rw (bytes_eq-ne k i h.0) (remove_each-other ids k c (remove i m) h.1)

to_remove-others :
    (now : ℕ) (k : Bytes) (m : Connections)
    → All (λ (e : Bytes × CameraConnection). k ≢ e.0) m
    → All (λ i. k ≢ i) (to_remove now m)
unfolding to_remove
to_remove-others now k [] h = tt
to_remove-others now k ((i, c) ∷ m) h = elim (Bool-cases (is_connection_healthy now c)) [
  | inl e ↦ rw e (to_remove-others now k m h.1)
  | inr e ↦ rw e (h.0, to_remove-others now k m h.1)
]

remove_each-first :
    (ids : List Bytes) (k : Bytes) (c : CameraConnection) (m : Connections)
    → remove_each (k ∷ ids) ((k, c) ∷ m) ≡ remove_each ids m
unfolding remove_each remove
remove_each-first ids k c m = rw (bytes_eq_refl k)

recent :
    (now : ℕ) (c : CameraConnection)
    → is_connection_healthy now c ≡ ltb now (c.last_keepalive + 30000000000)
unfolding is_connection_healthy
recent now c = ground arith

-- Where no id is a key twice, as in a map, a round keeps the connections with a keepalive in the last
-- thirty seconds, in their order, and no others.
pub health_round-healthy_only :
    (now : ℕ) (m : Connections) → IsKeyed m → health_round now m ≡ healthy_only now m
unfolding health_round to_remove
health_round-healthy_only now [] h = unfold remove_each in refl
health_round-healthy_only now ((k, c) ∷ m) h =
    let others = to_remove-others now k m h.0 in
    let ih = health_round-healthy_only now m h.1 in
    elim (Bool-cases (is_connection_healthy now c)) [
      | inl e ↦ rw (← recent now c, e, remove_each-other (to_remove now m) k c m others, ih)
      | inr e ↦ rw (← recent now c, e, remove_each-first (to_remove now m) k c m, ih)
    ]
