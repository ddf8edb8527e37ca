-- ===== src/Wire/Text.antt =====
-- What the code uses of Rust's strings: `String::from_utf8` and `trim_start_matches`.
use a9_v.Prelude.{ℕ, zero, suc, [], ◌∷◌, Bool, true, false, ◌&&◌, ltb, leb, ◌==◌, if◌then◌else◌}
use a9_v.Wire.{Bytes}

-- What may come next: a number of continuation bytes, the first of them in a range.
pub record Expect : Type 0 where
  pub more : ℕ
  pub lo : ℕ
  pub hi : ℕ

-- After a first byte; `none_valid` is a range that no byte lies in.
abbrev first_byte : ℕ → Expect
first_byte b =
    if ltb b 0x80
    then record { more = 0; lo = 0x80; hi = 0xbf }
    else if ltb b 0xc2
    then record { more = 1; lo = 1; hi = 0 }
    else if ltb b 0xe0
    then record { more = 1; lo = 0x80; hi = 0xbf }
    else if b == 0xe0
    then record { more = 2; lo = 0xa0; hi = 0xbf }
    else if b == 0xed
    then record { more = 2; lo = 0x80; hi = 0x9f }
    else if ltb b 0xf0
    then record { more = 2; lo = 0x80; hi = 0xbf }
    else if b == 0xf0
    then record { more = 3; lo = 0x90; hi = 0xbf }
    else if ltb b 0xf4
    then record { more = 3; lo = 0x80; hi = 0xbf }
    else if b == 0xf4
    then record { more = 3; lo = 0x80; hi = 0x8f }
    else record { more = 1; lo = 1; hi = 0 }

abbrev accepts : Expect → ℕ → Bool
accepts e b = elim e.more [ zero ↦ true | suc n ↦ leb e.lo b && leb b e.hi ]

abbrev advance : Expect → ℕ → Expect
advance e b = elim e.more [
  | zero ↦ first_byte b
  | suc n ↦ record { more = n; lo = 0x80; hi = 0xbf }
]

utf8_from : Expect → Bytes → Bool
utf8_from e [] = e.more == 0
utf8_from e (b ∷ bs) = let rest = utf8_from (advance e b) bs in if accepts e b then rest else false

-- `String::from_utf8` succeeds.
unfoldable pub is_utf8 : Bytes → Bool
unfolding utf8_from
is_utf8 s = utf8_from (record { more = 0; lo = 0x80; hi = 0xbf }) s

-- `trim_start_matches('\0')`
unfoldable pub trim_nul : Bytes → Bytes
trim_nul [] = []
trim_nul (b ∷ bs) = let rest = trim_nul bs in if b == 0 then rest else b ∷ bs
