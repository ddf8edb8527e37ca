-- ===== src/Tests/Cameras.antt =====
-- Cameras of src/types.rs, their buckets, timeouts and names.
use a9_v.Prelude.{ℕ, ◌%◌, ◌≡◌, ◌↔◌, refl, [], ◌∷◌, arith, List, ◌≢◌}
use a9_v.Camera.{new}
use a9_v.Manager.{device_name}
use a9_v.Manager.Cameras.{Call, create}
use a9_v.Manager.Name.{device_name-eq_iff}
use a9_v.Tests.Setup.{camera}

empty_bucket : camera.retransmission_bucket ≡ []
unfolding new
empty_bucket = refl

device_name-eq_iff_example : (device_name 263 ≡ device_name 7) ↔ (263 % 256 ≡ 7 % 256)
device_name-eq_iff_example = device_name-eq_iff 263 7

seven_ne_eight : ◌≢◌ {A = ℕ} 7 8
seven_ne_eight = omega arith

abbrev made : List Call
made = create 7 (1, 2, 3) ∷ create 8 (4, 5, 6) ∷ create 7 (7, 8, 9) ∷ []
