-- ===== src/Wire/Decimal.antt =====
-- Rust's `{}` and `to_string` of an unsigned integer of at most 64 bits, and a reader of decimals.
use a9_v.Prelude.{
  ℕ, zero, suc, ◌+◌, ◌-◌, ◌*◌, ◌/◌, ◌%◌, ◌<◌, ◌≡◌, ◌∙◌, [], ◌∷◌, ◌++◌, append_assoc, ◌&&◌, ltb, leb,
  if◌then◌else◌, arith, Bool-cases, inl, inr, lt→ltb, ltb→lt,
}
use a9_v.Wire.{Bytes}

-- At most `f` digits.
unfoldable pub digits : ℕ → ℕ → Bytes
digits zero n = []
digits (suc f) n =
    let rest = digits f (n / 10) in if ltb n 10 then (48 + n) ∷ [] else rest ++ (48 + n % 10) ∷ []

-- 2 ^ 64 has twenty digits.
abbrev pub to_decimal : ℕ → Bytes
to_decimal n = digits 20 n

abbrev pub pow10 : ℕ → ℕ
pow10 zero = 1
pow10 (suc f) = 10 * pow10 f

-- The number that the digits in front stand for, after `n`, and what follows them.
unfoldable pub read_digits : ℕ → Bytes → ℕ × Bytes
read_digits n [] = (n, [])
read_digits n (c ∷ cs) =
    let rest = read_digits (10 * n + (c - 48)) cs in
    if leb 48 c && leb c 57 then rest else (n, c ∷ cs)

read_digit :
    (n d m : ℕ) (r : Bytes)
    → d < 10
    → 10 * n + d ≡ m
    → read_digits n ((48 + d) ∷ r) ≡ read_digits m r
unfolding read_digits
read_digit n d m r h e = ground arith

-- What is printed is read back, where the digits are enough.
pub read_digits-digits :
    (f n : ℕ) (r : Bytes)
    → n < pow10 (suc f)
    → read_digits 0 (digits (suc f) n ++ r) ≡ read_digits n r
unfolding digits
read_digits-digits zero n r h =
    rw (lt→ltb n 10 (omega arith)) (read_digit 0 n n r (omega arith) (omega arith))
read_digits-digits (suc f) n r h = elim (Bool-cases (ltb n 10)) [
  | inl e ↦ rw e (read_digit 0 n n r (ltb→lt n 10 e) (omega arith))
  | inr e ↦
      rw (e, append_assoc (digits (suc f) (n / 10)) ((48 + n % 10) ∷ []) r)
        (read_digits-digits f (n / 10) ((48 + n % 10) ∷ r) (omega arith)
          ∙ read_digit (n / 10) (n % 10) n r (omega arith) (omega arith))
]
