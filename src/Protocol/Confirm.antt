-- ===== src/Protocol/Confirm.antt =====
-- RetransmissionConfirm of src/protocol/binary.rs: a list of packet ids, four bytes each.
use a9_v.Prelude.{
  ℕ, zero, suc, ◌*◌, ◌%◌, ◌^◌, ◌<◌, ◌≡◌, ◌≢◌, refl, sym, ap, ◌∙◌, List, [], ◌∷◌, ◌++◌, length, some,
  true, false, ◌⊎◌, All, append_assoc, append-nil, arith, leb, ◌==◌, if◌then◌else◌, Bool-cases, inl,
  inr,
}
use a9_v.Wire.{Bytes, IsBytes, Buf, to_le, from_le, to_le-from_le4, from_le-lt4, from_le-to_le4}
use a9_v.Protocol.Header.{Parsed, ok, err, panic, ◌>>=◌, or_panic}

pub record RetransmissionConfirm : Type 0 where
  pub received_packets : List ℕ

-- `while buf.remaining() >= 4 { received_packets.push(buf.get_u32_le()) }`. Each round takes four
-- bytes; a run out of fuel is shown as `panic`.
read_ids : Buf → ℕ → List ℕ → Bytes → Parsed (List ℕ)
read_ids buf zero acc d = panic
read_ids buf (suc fuel) acc d =
    let rest : Parsed (List ℕ) = (do
      (n, d') ← or_panic (buf.get_u32_le d)
      read_ids buf fuel (acc ++ n ∷ []) d') in
    if leb 4 (length d) then rest else ok acc

pub from_bytes : Buf → Bytes → Parsed RetransmissionConfirm
unfolding read_ids
from_bytes buf d =
    if length d % 4 == 0
    then (do ids ← read_ids buf (suc (length d)) [] d; ok (record { received_packets = ids }))
    else err

put_ids : Buf → Bytes → List ℕ → Bytes
put_ids buf s [] = s
put_ids buf s (n ∷ ns) = put_ids buf (buf.put_u32_le s n) ns

pub to_bytes : Buf → RetransmissionConfirm → Bytes
unfolding put_ids
to_bytes buf c = put_ids buf [] c.received_packets

-- `RetransmissionConfirm::empty`
unfoldable pub empty : RetransmissionConfirm
empty = record { received_packets = [] }

abbrev pub AreU32 : List ℕ → Type 0
AreU32 = All (λ n. n < 2 ^ 32)

-- The ids one after another, little-endian.
abbrev pub encode : List ℕ → Bytes
encode [] = []
encode (n ∷ ns) = to_le 4 n ++ encode ns

put_ids-encode : (buf : Buf) (s : Bytes) (ns : List ℕ) → put_ids buf s ns ≡ s ++ encode ns
unfolding put_ids
put_ids-encode buf s [] = sym (append-nil s)
put_ids-encode buf s (n ∷ ns) =
    put_ids-encode buf (buf.put_u32_le s n) ns
    ∙ rw (buf.put_u32_le_lem s n) (append_assoc s (to_le 4 n) (encode ns))

-- What is sent is the four little-endian bytes of each id, in the order of the list.
pub to_bytes-encode :
    (buf : Buf) (c : RetransmissionConfirm) → to_bytes buf c ≡ encode c.received_packets
unfolding to_bytes
to_bytes-encode buf c = put_ids-encode buf [] c.received_packets

pub length-encode : (ns : List ℕ) → length (encode ns) ≡ 4 * length ns
length-encode [] = refl
length-encode (n ∷ ns) = omega (arith, length-encode ns)

read_ids-encode :
    (buf : Buf) (fuel : ℕ) (acc ns : List ℕ)
    → length ns < fuel
    → AreU32 ns
    → read_ids buf fuel acc (encode ns) ≡ ok (acc ++ ns)
unfolding read_ids
read_ids-encode buf zero acc ns h v = absurd (omega arith)
read_ids-encode buf (suc fuel) acc [] h v = ap ok (sym (append-nil acc))
read_ids-encode buf (suc fuel) acc (n ∷ ns) h v =
    let four : leb 4 (length (encode (n ∷ ns))) ≡ true = ground arith in
    let read : buf.get_u32_le (encode (n ∷ ns)) ≡ some (n, encode ns) =
      buf.get_u32_le_lem _ _ _ _ (encode ns)
      ∙ ap (λ m. some (m, encode ns)) (from_le-to_le4 n v.0) in
    rw (four, read)
      (read_ids-encode buf fuel (acc ++ n ∷ []) ns (omega arith) v.1
        ∙ ap ok (append_assoc acc (n ∷ []) ns))

from_bytes-encode :
    (buf : Buf) (ns : List ℕ)
    → AreU32 ns
    → from_bytes buf (encode ns) ≡ ok (record { received_packets = ns })
unfolding from_bytes
from_bytes-encode buf ns v =
    let whole : (length (encode ns) % 4 == 0) ≡ true = ground (arith, length-encode ns) in
    rw (
      whole,
      read_ids-encode buf (suc (length (encode ns))) [] ns (omega (arith, length-encode ns)) v,
    )

-- A list of 32-bit packet ids parses back from its bytes.
pub from_bytes-to_bytes_ids :
    (buf : Buf) (c : RetransmissionConfirm)
    → AreU32 c.received_packets
    → from_bytes buf (to_bytes buf c) ≡ ok c
from_bytes-to_bytes_ids buf c v = rw to_bytes-encode (from_bytes-encode buf c.received_packets v)

-- Any sequence of bytes whose length is a multiple of four is such an encoding.
decode : (d : Bytes) → IsBytes d → length d % 4 ≡ 0 → (ns : List ℕ) × AreU32 ns × (encode ns ≡ d)
decode [] v h = ([], tt, refl)
decode (a ∷ b ∷ c ∷ e ∷ d) v h =
    let (ns, u, p) = decode d v.1.1.1.1 (omega arith) in
    let w : IsBytes (a ∷ b ∷ c ∷ e ∷ []) = (v.0, (v.1.0, (v.1.1.0, (v.1.1.1.0, tt)))) in
    (
      from_le (a ∷ b ∷ c ∷ e ∷ []) ∷ ns,
      (from_le-lt4 a b c e w, u),
      ap (λ t. t ++ encode ns) (to_le-from_le4 a b c e w) ∙ ap (λ t. a ∷ b ∷ c ∷ e ∷ t) p,
    )
decode _ v h = absurd (omega arith)

-- Bytes whose number is no multiple of four are an error. Any others are read to the end as a list
-- of 32-bit packet ids, which is written out as the same bytes.
pub from_bytes_cases :
    (buf : Buf) (d : Bytes)
    → IsBytes d
    → ((length d % 4 ≢ 0) × (from_bytes buf d ≡ err))
      ⊎ ((length d % 4 ≡ 0)
          × ((c : RetransmissionConfirm) × AreU32 c.received_packets
              × (from_bytes buf d ≡ ok c)
              × (to_bytes buf c ≡ d)))
from_bytes_cases buf d v = elim (Bool-cases (length d % 4 == 0)) [
  | inl whole ↦
      let (ns, u, p) = decode d v (ground arith) in
      inr (
        ground arith,
        (
          record { received_packets = ns },
          u,
          ap (from_bytes buf) (sym p) ∙ from_bytes-encode buf ns u,
          to_bytes-encode buf _ ∙ p,
        ),
      )
  | inr broken ↦ inl (ground arith, broken_length d broken)
]
  where
    broken_length : (d : Bytes) → (length d % 4 == 0) ≡ false → from_bytes buf d ≡ err
    broken_length d e = unfold from_bytes in rw e
