-- ===== src/Protocol/Header/RoundTrip.antt =====
-- Writing and parsing headers of src/protocol/binary.rs.
use a9_v.Prelude.{
  ◌<◌, ◌≡◌, sym, ap, ◌∙◌, [], ◌∷◌, ◌++◌, length, arith, ltb, ◌⊎◌, inl, inr, Bool-cases, tests,
  All-append_inv, subst, ◌↔◌, ◌≢◌,
}
use a9_v.Wire.{Bytes, IsBytes, Buf, from_le-lt4, from_le-lt2}
use a9_v.Protocol.Header.{ProtocolHeader, InRange, Parsed, ok, err, panic, from_bytes, to_bytes}
use a9_v.Protocol.Header.Layout.{
  Fields, flat, header_of, split_fields, fields_of, to_bytes-flat, header_of-fields_of, length-flat,
  from_bytes-flat,
}

-- A header within the ranges of its fields parses back from its bytes, and what follows them is
-- left as the payload.
pub from_bytes-to_bytes :
    (buf : Buf) (h : ProtocolHeader) (r : Bytes)
    → InRange h
    → from_bytes buf (to_bytes buf h ++ r) ≡ ok (h, r)
unfolding fields_of
from_bytes-to_bytes buf h r v = rw to_bytes-flat (
    from_bytes-flat buf (fields_of h) r v.fwd_id_len
    ∙ ap (λ g. ok (g, r)) (header_of-fields_of h v))

unwrap : ProtocolHeader × Bytes → Parsed (ProtocolHeader × Bytes) → ProtocolHeader × Bytes
unwrap z (ok a) = a
unwrap z _ = z

ok-injective : {a b : ProtocolHeader × Bytes} → ok a ≡ ok b → a ≡ b
unfolding unwrap
ok-injective {a} p = ap (unwrap a) p

-- On fewer than 20 bytes the parser returns its error, and on 20 or more a header and the rest.
from_bytes-cases :
    (buf : Buf) (d : Bytes)
    → ((length d < 20) × (from_bytes buf d ≡ err))
      ⊎ ((x : Fields) × (r : Bytes) × (length x.fwd ≡ 8)
          × (d ≡ flat x r)
          × (from_bytes buf d ≡ ok (header_of x, r)))
unfolding from_bytes
from_bytes-cases buf d = elim (Bool-cases (ltb (length d) 20)) [
  | inl short ↦ inl (omega tests, rw short)
  | inr enough ↦
      let (x, r, e, p) = split_fields d (ground arith) in
      inr (x, r, e, p, ap (from_bytes buf) p ∙ from_bytes-flat buf x r e)
]

-- The parser fails exactly on fewer than 20 bytes, and it never panics.
pub from_bytes_total :
    (buf : Buf) (d : Bytes)
    → ((from_bytes buf d ≡ err) ↔ (length d < 20)) × (from_bytes buf d ≢ panic)
from_bytes_total buf d = elim (from_bytes-cases buf d) [
  | inl (short, e) ↦ ((λ _. short, λ _. e), rw e (λ p. cc))
  | inr (x, r, f, p, e) ↦
      ((λ q. cc, λ short. absurd (omega (arith, ap length p, length-flat x r f))), rw e (λ q. cc))
]

module _ (x : Fields) (r : Bytes) (v : IsBytes (flat x r)) where
  fwd-IsBytes : IsBytes x.fwd × IsBytes (x.p0 ∷ x.p1 ∷ x.p2 ∷ x.p3 ∷ r)
  fwd-IsBytes =
      All-append_inv (λ b. b < 256) x.fwd (x.p0 ∷ x.p1 ∷ x.p2 ∷ x.p3 ∷ r) v.1.1.1.1.1.1.1.1

  pkg-IsBytes : IsBytes (x.p0 ∷ x.p1 ∷ x.p2 ∷ x.p3 ∷ [])
  pkg-IsBytes = let w = fwd-IsBytes.1 in (w.0, (w.1.0, (w.1.1.0, (w.1.1.1.0, tt))))

  flat-InRange : length x.fwd ≡ 8 → InRange (header_of x)
  flat-InRange e = record {
    length_u32 = from_le-lt4 x.l0 x.l1 x.l2 x.l3 (v.0, (v.1.0, (v.1.1.0, (v.1.1.1.0, tt))));
    cmd_u16 = from_le-lt2 x.c0 x.c1 (v.1.1.1.1.0, (v.1.1.1.1.1.0, tt));
    msg_flag_u8 = v.1.1.1.1.1.1.0;
    deal_fl_u8 = v.1.1.1.1.1.1.1.0;
    fwd_id_len = e;
    fwd_id_u8 = fwd-IsBytes.0;
    pkg_id_u32 = from_le-lt4 x.p0 x.p1 x.p2 x.p3 pkg-IsBytes;
  }

  fields_of-header_of : fields_of (header_of x) ≡ x
  unfolding fields_of
  fields_of-header_of = ground (arith, pkg-IsBytes)

  to_bytes-header_of : (buf : Buf) → to_bytes buf (header_of x) ++ r ≡ flat x r
  to_bytes-header_of buf =
      to_bytes-flat buf (header_of x) r ∙ ap (λ y. flat y r) fields_of-header_of

-- When the parser accepts a sequence of bytes, the header that it returns is within the ranges of
-- its fields, and writing it out before the returned payload gives the same bytes again.
pub to_bytes-from_bytes :
    (buf : Buf) (d : Bytes) (h : ProtocolHeader) (r : Bytes)
    → IsBytes d
    → from_bytes buf d ≡ ok (h, r)
    → InRange h × (to_bytes buf h ++ r ≡ d)
to_bytes-from_bytes buf d h r v e = elim (from_bytes-cases buf d) [
  | inl (_, q) ↦ absurd (cc)
  | inr (x, s, f, p, q) ↦
      let w : IsBytes (flat x s) = subst IsBytes p v in
      let same : (header_of x, s) ≡ (h, r) = ok-injective (sym q ∙ e) in
      subst (λ t. InRange t.0 × (to_bytes buf t.0 ++ t.1 ≡ d)) same
        (flat-InRange x s w f, to_bytes-header_of x s w buf ∙ sym p)
]

pub parsed_cases :
    (buf : Buf) (d : Bytes)
    → ((length d < 20) × (from_bytes buf d ≡ err))
      ⊎ ((h : ProtocolHeader) × (p : Bytes) × (from_bytes buf d ≡ ok (h, p)))
parsed_cases buf d = elim (from_bytes-cases buf d) [
  | inl q ↦ inl q
  | inr (x, r, f, p, e) ↦ inr (header_of x, r, e)
]
