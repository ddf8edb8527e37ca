-- ===== src/Manager/Name.antt =====
-- The name that CameraManager of src/types.rs gives to a camera.
use a9_v.Prelude.{
  ℕ, ◌/◌, ◌%◌, ◌<◌, ◌≡◌, ◌≢◌, ◌↔◌, refl, sym, ap, ◌∙◌, List, [], ◌∷◌, ◌++◌, append_assoc,
  append-nil, if_rule, drop, false, ltb, ◌==◌, All, arith, Bool-cases, inl, inr,
}
use a9_v.Wire.{Bytes, text}
use a9_v.Manager.{split, last_or, decimal, dot, device_name}

split-cons : (part s : Bytes) → (p : Bytes) × (ps : List Bytes) × (split part s ≡ p ∷ ps)
unfolding split
split-cons part [] = (part, [], refl)
split-cons part (c ∷ cs) = elim (Bool-cases (c == dot)) [
  | inl e ↦ (part, split [] cs, rw e)
  | inr e ↦ let (p, ps, q) = split-cons (part ++ c ∷ []) cs in (p, ps, rw e q)
]

last_or-cons :
    (d p : Bytes) (part s : Bytes) → last_or d (p ∷ split part s) ≡ last_or d (split part s)
last_or-cons d p part s = let (q, qs, e) = split-cons part s in rw e

-- What stands before a dot does not show in the last part.
last_or-split :
    (d part xs ys : Bytes) → last_or d (split part (xs ++ dot ∷ ys)) ≡ last_or d (split [] ys)
unfolding split
last_or-split d part [] ys = last_or-cons d part [] ys
last_or-split d part (x ∷ xs) ys = elim (Bool-cases (x == dot)) [
  | inl e ↦ rw e (last_or-cons d part [] (xs ++ dot ∷ ys) ∙ last_or-split d [] xs ys)
  | inr e ↦ rw e (last_or-split d (part ++ x ∷ []) xs ys)
]

split-plain : (part s : Bytes) → All (λ c. c ≢ dot) s → split part s ≡ (part ++ s) ∷ []
unfolding split
split-plain part [] h = rw append-nil
split-plain part (c ∷ cs) h =
    let other : (c == dot) ≡ false = ground (arith, h.0) in
    rw other
      (split-plain (part ++ c ∷ []) cs h.1 ∙ ap (λ t. t ∷ []) (append_assoc part (c ∷ []) cs))

abbrev Plain : Bytes → Type 0
Plain = All (λ c. c ≢ dot)

decimal-Plain : (n : ℕ) → Plain (decimal n)
decimal-Plain n =
    if_rule Plain (ltb n 10) (omega arith, tt)
      (if_rule Plain (ltb n 100) (omega arith, (omega arith, tt))
        (omega arith, (omega arith, (omega arith, tt))))

-- A camera's name is `cam` and the last number of its address in decimal.
pub device_name_lem : (ip : ℕ) → device_name ip ≡ text "cam" ++ decimal (ip % 256)
unfolding device_name
device_name_lem ip = ap (◌++◌ (text "cam")) (
    last_or-split (text "0") [] (decimal (ip / 16777216 % 256)) _
    ∙ last_or-split (text "0") [] (decimal (ip / 65536 % 256)) _
    ∙ last_or-split (text "0") [] (decimal (ip / 256 % 256)) _
    ∙ ap (last_or (text "0")) (split-plain [] (decimal (ip % 256)) (decimal-Plain (ip % 256))))

decimal-injective : (m n : ℕ) → m < 256 → n < 256 → decimal m ≡ decimal n → m ≡ n
decimal-injective m n h k e = ground arith

-- Two addresses get the same name exactly if their last numbers agree, whatever the other three.
pub device_name-eq_iff : (a b : ℕ) → (device_name a ≡ device_name b) ↔ (a % 256 ≡ b % 256)
device_name-eq_iff a b = (
  λ e.
      decimal-injective (a % 256) (b % 256) (omega arith) (omega arith)
        (ap (drop 3) (sym (device_name_lem a) ∙ e ∙ device_name_lem b)),
  λ e. device_name_lem a ∙ ap (λ n. text "cam" ++ decimal n) e ∙ sym (device_name_lem b),
)
