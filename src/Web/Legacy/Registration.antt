-- ===== src/Web/Legacy/Registration.antt =====
-- The id that `handle_bootstrap_registration` of src/web/server.rs gives a camera.
use a9_v.Prelude.{
  ℕ, zero, suc, ◌<◌, ◌≤◌, ◌≡◌, refl, [], ◌∷◌, ◌++◌, true, false, none, some, length, take, map, All,
  arith,
}
use a9_v.Wire.{Bytes, text}
use a9_v.Protocol.Messages.{succeeded}
use a9_v.Runtime.{Host, World, Locks, panicked}
use a9_v.Web.{Json, to_upper, envelope}
use a9_v.Web.Legacy.{
  Query, param_or, is_char_boundary, str_prefix, bootstrap_id, bootstrap_response,
  handle_bootstrap_registration,
}

abbrev IsAscii : Bytes → Type 0
IsAscii s = All (λ b. b < 128) s

char_boundary-ascii : (n : ℕ) (s : Bytes) → IsAscii s → n ≤ length s → is_char_boundary n s ≡ true
unfolding is_char_boundary
char_boundary-ascii zero [] a h = refl
char_boundary-ascii zero (b ∷ s) a h = ground (arith, a.0)
char_boundary-ascii (suc n) [] a h = elim h [ ]
char_boundary-ascii (suc n) (b ∷ s) a h = char_boundary-ascii n s a.1 (omega arith)

take-IsAscii : (n : ℕ) (s : Bytes) → IsAscii s → IsAscii (take n s)
take-IsAscii zero s a = tt
take-IsAscii (suc n) [] a = tt
take-IsAscii (suc n) (b ∷ s) a = (a.0, take-IsAscii n s a.1)

char_boundary-short : (n : ℕ) (s : Bytes) → length s < n → is_char_boundary n s ≡ false
unfolding is_char_boundary
char_boundary-short zero s h = elim h [ ]
char_boundary-short (suc n) [] h = refl
char_boundary-short (suc n) (b ∷ s) h = char_boundary-short n s (omega arith)

str_prefix-ascii : (n : ℕ) (s : Bytes) → IsAscii s → n ≤ length s → str_prefix n s ≡ some (take n s)
unfolding str_prefix
str_prefix-ascii n s a h = rw (char_boundary-ascii n s a h)

str_prefix-short : (n : ℕ) (s : Bytes) → length s < n → str_prefix n s ≡ none
unfolding str_prefix
str_prefix-short n s h = rw (char_boundary-short n s h)

module _ {Value : Type 0} (host : Host Value) (js : Json Value) where
  bootstrap_id-ascii :
      (s : Bytes)
      → IsAscii s
      → 4 ≤ length s
      → bootstrap_id host js s ≡ some (text "0800c001" ++ map to_upper (take 4 s))
  unfolding bootstrap_id
  bootstrap_id-ascii s a h = rw (
    bootstrap_id,
    str_prefix-ascii 4 s a h,
    js.to_uppercase_ascii (take 4 s) (take-IsAscii 4 s a),
  )

  bootstrap_id-short : (s : Bytes) → length s < 4 → bootstrap_id host js s ≡ none
  unfolding bootstrap_id
  bootstrap_id-short s h = rw (bootstrap_id, str_prefix-short 4 s h)

module _ {Value : Type 0} (host : Host Value) (js : Json Value) (params : Query) where
  abbrev random : Bytes
  random = param_or (text "DEFGHI") (text "random") params

  -- Where the random parameter, or `DEFGHI` where there is none, has at least four ASCII
  -- characters and no others, the response has the id of "0800c001" and its first four characters
  -- in upper case.
  pub bootstrap_registration-ascii :
      (l : Locks) (w : World)
      → All (λ b. b < 128) random
      → 4 ≤ length random
      → handle_bootstrap_registration host js params l w
        ≡ bootstrap_response host js
            (envelope host js 200 succeeded
              (host.string (text "0800c001" ++ map to_upper (take 4 random))))
            l
            w
  unfolding handle_bootstrap_registration
  bootstrap_registration-ascii l w a h = rw (bootstrap_id-ascii host js random a h)

  -- Where the random parameter is shorter than four bytes, the handler panics.
  pub bootstrap_registration-short :
      (l : Locks) (w : World)
      → length random < 4
      → handle_bootstrap_registration host js params l w ≡ panicked w
  unfolding handle_bootstrap_registration
  bootstrap_registration-short l w h = rw (bootstrap_id-short host js random h)
