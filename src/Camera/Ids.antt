-- ===== src/Camera/Ids.antt =====
-- The comparison of ids.
use a9_v.Prelude.{◌≡◌, ◌≢◌, refl, [], ◌∷◌, true, false, arith, Bool-cases, inl, inr}
use a9_v.Wire.{Bytes}
use a9_v.Camera.{bytes_eq}

pub bytes_eq_refl : (s : Bytes) → bytes_eq s s ≡ true
bytes_eq_refl [] = refl
bytes_eq_refl (b ∷ s) = ground (arith, bytes_eq_refl s)

pub bytes_eq_injective : (s t : Bytes) → bytes_eq s t ≡ true → s ≡ t
bytes_eq_injective [] [] h = refl
bytes_eq_injective [] (b ∷ t) h = absurd (cc)
bytes_eq_injective (a ∷ s) [] h = absurd (cc)
bytes_eq_injective (a ∷ s) (b ∷ t) h = ground (arith, bytes_eq_injective s t)

pub bytes_eq-ne : (s t : Bytes) → s ≢ t → bytes_eq s t ≡ false
bytes_eq-ne s t h = elim (Bool-cases (bytes_eq s t)) [
  | inl e ↦ absurd (h (bytes_eq_injective s t e))
  | inr e ↦ e
]
