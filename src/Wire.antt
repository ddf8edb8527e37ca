-- ===== src/Wire.antt =====
-- Bytes on the wire: little-endian words, and the `bytes` crate behind its documented behaviour.
pub mod Decimal
pub mod Text
use Prim.Native.Char.{code}
use a9_v.Prelude.{
  String, ℕ, zero, suc, ◌+◌, ◌*◌, ◌/◌, ◌%◌, ◌^◌, ◌<◌, ◌≤◌, ◌≡◌, refl, ap, List, [], ◌∷◌, ◌++◌,
  Option, some, length, take, drop, All, arith,
}

abbrev pub Bytes : Type 0
Bytes = List ℕ

-- The bytes of an ASCII text.
abbrev pub text : String → Bytes
text String.[] = []
text (String.◌∷◌ c s) = code c ∷ text s

-- Every element is a byte.
abbrev pub IsBytes : Bytes → Type 0
IsBytes = All (λ b. b < 256)

-- `to_le_bytes` of an unsigned integer of `w` bytes.
abbrev pub to_le : ℕ → ℕ → Bytes
to_le zero n = []
to_le (suc w) n = n % 256 ∷ to_le w (n / 256)

-- `from_le_bytes`.
abbrev pub from_le : Bytes → ℕ
from_le [] = 0
from_le (b ∷ bs) = b + 256 * from_le bs

pub length-to_le : (w n : ℕ) → length (to_le w n) ≡ w
length-to_le zero n = refl
length-to_le (suc w) n = ap suc (length-to_le w (n / 256))

pub to_le-IsBytes : (w n : ℕ) → IsBytes (to_le w n)
to_le-IsBytes zero n = tt
to_le-IsBytes (suc w) n = (omega arith, to_le-IsBytes w (n / 256))

pub from_le-to_le4 : (n : ℕ) → n < 2 ^ 32 → from_le (to_le 4 n) ≡ n
from_le-to_le4 n h = omega arith

pub from_le-to_le2 : (n : ℕ) → n < 2 ^ 16 → from_le (to_le 2 n) ≡ n
from_le-to_le2 n h = omega arith

pub to_le-from_le4 :
    (a b c d : ℕ)
    → IsBytes (a ∷ b ∷ c ∷ d ∷ [])
    → to_le 4 (from_le (a ∷ b ∷ c ∷ d ∷ [])) ≡ a ∷ b ∷ c ∷ d ∷ []
to_le-from_le4 a b c d h = ground arith

pub to_le-from_le2 : (a b : ℕ) → IsBytes (a ∷ b ∷ []) → to_le 2 (from_le (a ∷ b ∷ [])) ≡ a ∷ b ∷ []
to_le-from_le2 a b h = ground arith

pub from_le-lt4 :
    (a b c d : ℕ) → IsBytes (a ∷ b ∷ c ∷ d ∷ []) → from_le (a ∷ b ∷ c ∷ d ∷ []) < 2 ^ 32
from_le-lt4 a b c d h = omega arith

pub from_le-lt2 : (a b : ℕ) → IsBytes (a ∷ b ∷ []) → from_le (a ∷ b ∷ []) < 2 ^ 16
from_le-lt2 a b h = omega arith

-- What the code uses of the `bytes` crate. A read is `none` where the crate panics, that is where
-- fewer bytes remain than it takes; a write appends to the buffer.
pub record Buf : Type 0 where
  pub get_u8 : Bytes → Option (ℕ × Bytes)
  pub get_u16_le : Bytes → Option (ℕ × Bytes)
  pub get_u32_le : Bytes → Option (ℕ × Bytes)
  pub copy_to_slice : ℕ → Bytes → Option (Bytes × Bytes)
  pub put_u8 : Bytes → ℕ → Bytes
  pub put_u16_le : Bytes → ℕ → Bytes
  pub put_u32_le : Bytes → ℕ → Bytes
  pub put_slice : Bytes → Bytes → Bytes
  pub get_u8_lem : (a : ℕ) (r : Bytes) → get_u8 (a ∷ r) ≡ some (a, r)
  pub get_u16_le_lem :
      (a b : ℕ) (r : Bytes) → get_u16_le (a ∷ b ∷ r) ≡ some (from_le (a ∷ b ∷ []), r)
  pub get_u32_le_lem :
      (a b c d : ℕ) (r : Bytes)
      → get_u32_le (a ∷ b ∷ c ∷ d ∷ r) ≡ some (from_le (a ∷ b ∷ c ∷ d ∷ []), r)
  pub copy_to_slice_lem :
      (n : ℕ) (r : Bytes) → n ≤ length r → copy_to_slice n r ≡ some (take n r, drop n r)
  pub put_u8_lem : (s : Bytes) (n : ℕ) → put_u8 s n ≡ s ++ n ∷ []
  pub put_u16_le_lem : (s : Bytes) (n : ℕ) → put_u16_le s n ≡ s ++ to_le 2 n
  pub put_u32_le_lem : (s : Bytes) (n : ℕ) → put_u32_le s n ≡ s ++ to_le 4 n
  pub put_slice_lem : (s r : Bytes) → put_slice s r ≡ s ++ r
