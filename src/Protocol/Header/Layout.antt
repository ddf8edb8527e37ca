-- ===== src/Protocol/Header/Layout.antt =====
-- The twenty bytes of a header of src/protocol/binary.rs.
use a9_v.Prelude.{
  ℕ, ◌+◌, ◌≤◌, ◌≡◌, refl, sym, ap, ◌∙◌, [], ◌∷◌, ◌++◌, length, take, drop, append_assoc,
  length-append, length-drop, length-take_le, take-append_length, drop-append_length,
  take-append-drop, arith, ltb, some, inl, inr, Bool-cases, tests, ◌/◌, ◌%◌,
}
use a9_v.Wire.{Bytes, Buf, to_le, from_le}
use a9_v.Protocol.Header.{ProtocolHeader, InRange, ok, from_bytes, to_bytes, read_fields}

-- The twenty bytes of a header, by field.
pub record Fields : Type 0 where
  pub l0 : ℕ
  pub l1 : ℕ
  pub l2 : ℕ
  pub l3 : ℕ
  pub c0 : ℕ
  pub c1 : ℕ
  pub flag : ℕ
  pub deal : ℕ
  pub fwd : Bytes
  pub p0 : ℕ
  pub p1 : ℕ
  pub p2 : ℕ
  pub p3 : ℕ

abbrev pub flat : Fields → Bytes → Bytes
flat x r =
    x.l0
    ∷ x.l1
    ∷ x.l2
    ∷ x.l3
    ∷ x.c0
    ∷ x.c1
    ∷ x.flag
    ∷ x.deal
    ∷ (x.fwd ++ x.p0 ∷ x.p1 ∷ x.p2 ∷ x.p3 ∷ r)

abbrev pub header_of : Fields → ProtocolHeader
header_of x = record {
  length = from_le (x.l0 ∷ x.l1 ∷ x.l2 ∷ x.l3 ∷ []);
  cmd = from_le (x.c0 ∷ x.c1 ∷ []);
  msg_flag = x.flag;
  deal_fl = x.deal;
  fwd_id = x.fwd;
  pkg_id = from_le (x.p0 ∷ x.p1 ∷ x.p2 ∷ x.p3 ∷ []);
}

-- The layout of a header on the wire.
layout :
    (buf : Buf) (h : ProtocolHeader)
    → to_bytes buf h
      ≡ to_le 4 h.length
        ++ (to_le 2 h.cmd ++ (h.msg_flag ∷ h.deal_fl ∷ (h.fwd_id ++ to_le 4 h.pkg_id)))
unfolding to_bytes
layout buf h =
    simp (buf.put_u32_le_lem, buf.put_u16_le_lem, buf.put_u8_lem, buf.put_slice_lem, append_assoc)

take8 : (f s : Bytes) → length f ≡ 8 → take 8 (f ++ s) ≡ f
take8 f s e = rw (sym e) (take-append_length f s)

drop8 : (f s : Bytes) → length f ≡ 8 → drop 8 (f ++ s) ≡ s
drop8 f s e = rw (sym e) (drop-append_length f s)

copy_fwd : (buf : Buf) (f s : Bytes) → length f ≡ 8 → buf.copy_to_slice 8 (f ++ s) ≡ some (f, s)
copy_fwd buf f s e =
    buf.copy_to_slice_lem 8 (f ++ s) (omega (arith, length-append f s, e))
    ∙ rw (take8 f s e, drop8 f s e)

read_fields-flat :
    (buf : Buf) (x : Fields) (r : Bytes)
    → length x.fwd ≡ 8
    → read_fields buf (flat x r) ≡ ok (header_of x, r)
unfolding read_fields
read_fields-flat buf x r e =
    let tail = x.p0 ∷ x.p1 ∷ x.p2 ∷ x.p3 ∷ r in
    rw (
      buf.get_u32_le_lem x.l0 x.l1 x.l2 x.l3,
      buf.get_u16_le_lem x.c0 x.c1,
      buf.get_u8_lem x.flag,
      buf.get_u8_lem x.deal,
      copy_fwd buf x.fwd tail e,
      buf.get_u32_le_lem x.p0 x.p1 x.p2 x.p3,
    )

split_tail :
    (f d : Bytes)
    → 4 ≤ length d
    → (p0 : ℕ) × (p1 : ℕ) × (p2 : ℕ) × (p3 : ℕ) × (r : Bytes) × (f ++ d
        ≡ f ++ p0 ∷ p1 ∷ p2 ∷ p3 ∷ r)
split_tail f (a ∷ b ∷ c ∷ e ∷ r) h = (a, b, c, e, r, refl)
split_tail f _ h = absurd (omega arith)

pub split_fields :
    (d : Bytes) → 20 ≤ length d → (x : Fields) × (r : Bytes) × (length x.fwd ≡ 8) × (d ≡ flat x r)
split_fields (l0 ∷ l1 ∷ l2 ∷ l3 ∷ c0 ∷ c1 ∷ m ∷ q ∷ d) h =
    let (p0, p1, p2, p3, r, e) =
      split_tail (take 8 d) (drop 8 d) (omega (arith, length-drop 8 d)) in
    (
      record {
        l0 = l0;
        l1 = l1;
        l2 = l2;
        l3 = l3;
        c0 = c0;
        c1 = c1;
        flag = m;
        deal = q;
        fwd = take 8 d;
        p0 = p0;
        p1 = p1;
        p2 = p2;
        p3 = p3;
      },
      r,
      length-take_le 8 d (omega arith),
      ap (λ t. l0 ∷ l1 ∷ l2 ∷ l3 ∷ c0 ∷ c1 ∷ m ∷ q ∷ t) (sym (take-append-drop 8 d) ∙ e),
    )
split_fields _ h = absurd (omega arith)

unfoldable pub fields_of : ProtocolHeader → Fields
fields_of h = record {
  l0 = h.length % 256;
  l1 = h.length / 256 % 256;
  l2 = h.length / 256 / 256 % 256;
  l3 = h.length / 256 / 256 / 256 % 256;
  c0 = h.cmd % 256;
  c1 = h.cmd / 256 % 256;
  flag = h.msg_flag;
  deal = h.deal_fl;
  fwd = h.fwd_id;
  p0 = h.pkg_id % 256;
  p1 = h.pkg_id / 256 % 256;
  p2 = h.pkg_id / 256 / 256 % 256;
  p3 = h.pkg_id / 256 / 256 / 256 % 256;
}

pub to_bytes-flat :
    (buf : Buf) (h : ProtocolHeader) (r : Bytes) → to_bytes buf h ++ r ≡ flat (fields_of h) r
unfolding fields_of
to_bytes-flat buf h r = rw layout (simp append_assoc)

pub header_of-fields_of : (h : ProtocolHeader) → InRange h → header_of (fields_of h) ≡ h
unfolding fields_of
header_of-fields_of h v = ground arith

pub length-flat : (x : Fields) (r : Bytes) → length x.fwd ≡ 8 → length (flat x r) ≡ length r + 20
length-flat x r e = omega (arith, length-append x.fwd (x.p0 ∷ x.p1 ∷ x.p2 ∷ x.p3 ∷ r), e)

pub from_bytes-flat :
    (buf : Buf) (x : Fields) (r : Bytes)
    → length x.fwd ≡ 8
    → from_bytes buf (flat x r) ≡ ok (header_of x, r)
unfolding from_bytes
from_bytes-flat buf x r e = elim (Bool-cases (ltb (length (flat x r)) 20)) [
  | inl short ↦ absurd (omega (tests, length-flat x r e))
  | inr enough ↦ rw enough (read_fields-flat buf x r e)
]
