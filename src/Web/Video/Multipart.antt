-- ===== src/Web/Video/Multipart.antt =====
-- The body of `get_mjpeg_stream` of src/web/camera_endpoints.rs, and a client that reads it.
use a9_v.Prelude.{
  ℕ, ◌<◌, ◌≡◌, ◌^◌, refl, [], ◌∷◌, ◌++◌, Option, none, some, length, take, drop, leb, arith, true,
  if◌then◌else◌, ◌==◌, take-append_length, drop-append_length, length-append,
}
use a9_v.Wire.{Bytes, text}
use a9_v.Wire.Decimal.{to_decimal, read_digits, read_digits-digits}
use a9_v.Web.Video.{crlf, mjpeg_data}

infixl 5 ◌>>=◌
abbrev ◌>>=◌ : {A B : Type 0} → Option A → (A → Option B) → Option B
some a >>= f = f a
none >>= f = none

-- What follows a prefix.
unfoldable strip_prefix : Bytes → Bytes → Option Bytes
strip_prefix [] s = some s
strip_prefix (p ∷ ps) [] = none
strip_prefix (p ∷ ps) (b ∷ bs) = let rest = strip_prefix ps bs in if p == b then rest else none

abbrev split_at : ℕ → Bytes → Option (Bytes × Bytes)
split_at n s = if leb n (length s) then some (take n s, drop n s) else none

-- A part: the boundary, the headers, an empty line, and as many bytes as the length says.
unfoldable pub read_part : Bytes → Option (Bytes × Bytes)
unfolding strip_prefix
read_part s = do
  s1 ← strip_prefix (text "--frame") s
  s2 ← strip_prefix crlf s1
  s3 ← strip_prefix (text "Content-Type: image/jpeg") s2
  s4 ← strip_prefix crlf s3
  s5 ← strip_prefix (text "Content-Length: ") s4
  s6 ← strip_prefix crlf (read_digits 0 s5).1
  s7 ← strip_prefix crlf s6
  split_at (read_digits 0 s5).0 s7

strip_prefix-append : (p s : Bytes) → strip_prefix p (p ++ s) ≡ some s
unfolding strip_prefix
strip_prefix-append [] s = refl
strip_prefix-append (b ∷ p) s = ground (arith, strip_prefix-append p s)

split_at-append : (s r : Bytes) → split_at (length s) (s ++ r) ≡ some (s, r)
split_at-append s r = rw (fits, take-append_length s r, drop-append_length s r)
  where
    fits : leb (length s) (length (s ++ r)) ≡ true
    fits = ground (arith, length-append s r)

number :
    (frame : Bytes)
    → length frame < 2 ^ 64
    → read_digits 0 (to_decimal (length frame) ++ (crlf ++ (crlf ++ (frame ++ crlf))))
      ≡ (length frame, crlf ++ (crlf ++ (frame ++ crlf)))
unfolding read_digits
number frame h =
    read_digits-digits 19 (length frame) (crlf ++ (crlf ++ (frame ++ crlf))) (omega arith)

-- A client that goes by the length reads the frame back from the body, whatever bytes it has, and a
-- line end is left, where the length fits into 64 bits.
pub read_part-mjpeg_data :
    (frame : Bytes) → length frame < 2 ^ 64 → read_part (mjpeg_data frame) ≡ some (frame, crlf)
unfolding read_part mjpeg_data strip_prefix
read_part-mjpeg_data frame h = simp (number frame h) (split_at-append frame crlf)
