-- ===== src/Address/RoundTrip.antt =====
-- Addresses are read back, and an address with one wrong character is refused.
use noxipher.Prelude.{
  ℕ, ◌-◌, ◌≤◌, ◌≡◌, refl, sym, ap, ◌∙◌, arith, inl, inr, Bool, true, false, not, ◌&&◌, List, [],
  ◌∷◌, ◌++◌, some, length, length-append, take, take_front, All, All-append, IsByte, leb, leb→le,
  ◌==◌, list_eq, list_eq_refl, list_eq→eq, Bool-cases,
}
use noxipher.Core.Exceptions.{ok}
use noxipher.Core.Config.{Network, network_eq, network_eq→eq}
use noxipher.Address.Polymod.{bech32m_create_checksum}
use noxipher.Address.Bech32m.{bech32m_encode, bech32m_decode, printable, lower}
use noxipher.Address.Checksum.{
  IsValue5, bech32m_verify_checksum-create, checksum_values-IsValue5, length-checksum_values,
}
use noxipher.Address.BitsRoundTrip.{convertbits-IsPadded, convertbits_back}
use noxipher.Address.Text.{IsPlain, charset_chars-find_all, bech32m_decode_text}
use noxipher.Address.Codec.{
  HrpEntry, hrp_table, hrp_of, hrp_reverse, encode_address, decode_address, catch_address_error,
  validate_address_for_network,
}

pub create_checksum_shape :
    (hrp values : List ℕ)
    → All IsValue5 (bech32m_create_checksum hrp values)
      × (length (bech32m_create_checksum hrp values) ≡ 6)
unfolding bech32m_create_checksum
create_checksum_shape hrp values = (checksum_values-IsValue5 _, length-checksum_values _)

-- What `bech32m_encode` writes for values of five bits behind a plain prefix is read back.
pub bech32m_decode-encode :
    (hrp values : List ℕ)
    → All IsPlain hrp
    → 1 ≤ length hrp
    → All IsValue5 values
    → (text : List ℕ) × (bech32m_encode hrp values ≡ ok text)
      × (bech32m_decode text ≡ ok (hrp, values))
unfolding bech32m_encode
bech32m_decode-encode hrp values plain some_hrp hv =
    let check = bech32m_create_checksum hrp values in
    let (hc, six) = create_checksum_shape hrp values in
    let all5 = All-append IsValue5 values check hv hc in
    let (cs, e, _, _, _) = charset_chars-find_all (values ++ check) all5 in
    let total = length-append values check in
    let back : take (length (values ++ check) - 6) (values ++ check) ≡ values =
      take_front (length (values ++ check) - 6) values check (omega (arith, total, six)) in
    (
      hrp ++ (b'1' ∷ cs),
      rw e,
      bech32m_decode_text hrp (values ++ check) cs plain some_hrp all5 (omega (arith, total, six)) e
          ∙ rw (bech32m_verify_checksum-create hrp values, back),
    )

-- A test that every prefix of a table passes.
all_hrps : (List ℕ → Bool) → List HrpEntry → Bool
all_hrps p [] = true
all_hrps p ((t, n, h) ∷ es) = p h && all_hrps p es

hrp_of_passes :
    (p : List ℕ → Bool) (es : List HrpEntry) (t : List ℕ) (n : Network) (h : List ℕ)
    → all_hrps p es ≡ true
    → hrp_of es t n ≡ some h
    → p h ≡ true
unfolding all_hrps hrp_of
hrp_of_passes p [] t n h a e = cc
hrp_of_passes p ((t', n', h') ∷ es) t n h a e =
    elim (Bool-cases (list_eq t' t && network_eq n' n)) [
      | inl hit ↦ ground arith
      | inr miss ↦ ground (arith, hrp_of_passes p es t n h)
    ]

distinct_hrps : List HrpEntry → Bool
distinct_hrps [] = true
distinct_hrps ((t, n, h) ∷ es) = all_hrps (λ h'. not (list_eq h h')) es && distinct_hrps es

-- `HRP_REVERSE` undoes `HRP_TABLE`.
hrp_reverse-hrp_of :
    (es : List HrpEntry) (t : List ℕ) (n : Network) (h : List ℕ)
    → distinct_hrps es ≡ true
    → hrp_of es t n ≡ some h
    → hrp_reverse es h ≡ some (t, n)
unfolding distinct_hrps hrp_of hrp_reverse
hrp_reverse-hrp_of [] t n h d e = cc
hrp_reverse-hrp_of ((t', n', h') ∷ es) t n h d e =
    elim (Bool-cases (list_eq t' t && network_eq n' n)) [
      | inl hit ↦
          let same_h : h' ≡ h = ground arith in
          let same_t : t' ≡ t = list_eq→eq t' t (ground arith) in
          let same_n : n' ≡ n = network_eq→eq n' n (ground arith) in
          let found : list_eq h' h ≡ true = ap (list_eq h') (sym same_h) ∙ list_eq_refl h' in
          rw found (cc (same_t, same_n))
      | inr miss ↦
          let later : hrp_of es t n ≡ some h = ground arith in
          let other : not (list_eq h' h) ≡ true =
            hrp_of_passes (λ g. not (list_eq h' g)) es t n h (ground arith) later in
          let skipped : list_eq h' h ≡ false = ground arith in
          rw skipped (hrp_reverse-hrp_of es t n h (ground arith) later)
    ]

-- Every prefix of the table is plain and not empty.
plain_hrp : List ℕ → Bool
plain_hrp [] = true
plain_hrp (c ∷ cs) = printable c && (lower c == c) && plain_hrp cs

plain_hrp-IsPlain : (h : List ℕ) → plain_hrp h ≡ true → All IsPlain h
unfolding plain_hrp
plain_hrp-IsPlain [] e = tt
plain_hrp-IsPlain (c ∷ cs) e =
    let p : printable c ≡ true = ground arith in
    let l : lower c ≡ c = ground arith in ((p, l), plain_hrp-IsPlain cs (ground arith))

table_plain : all_hrps plain_hrp hrp_table ≡ true
unfolding all_hrps hrp_table plain_hrp printable lower
table_plain = refl

table_some : all_hrps (λ h. leb 1 (length h)) hrp_table ≡ true
unfolding all_hrps hrp_table
table_some = refl

table_distinct : distinct_hrps hrp_table ≡ true
unfolding distinct_hrps all_hrps hrp_table list_eq
table_distinct = refl

-- The prefix of a pair of the table.
pub hrp_shape :
    (t : List ℕ) (n : Network) (h : List ℕ)
    → hrp_of hrp_table t n ≡ some h
    → All IsPlain h × (1 ≤ length h)
hrp_shape t n h e = (
  plain_hrp-IsPlain h (hrp_of_passes plain_hrp hrp_table t n h table_plain e),
  leb→le 1 (length h) (hrp_of_passes (λ h. leb 1 (length h)) hrp_table t n h table_some e),
)

-- For each address type and network of the prefix table, every byte string has an address, and
-- the address decodes to that type, that network and those bytes.
pub decode_address-encode :
    (payload addr_type hrp : List ℕ) (network : Network)
    → All IsByte payload
    → hrp_of hrp_table addr_type network ≡ some hrp
    → (text : List ℕ) × (encode_address payload addr_type network ≡ ok text)
      × (decode_address text ≡ ok (addr_type, network, payload))
unfolding encode_address decode_address
decode_address-encode payload addr_type hrp network bytes e =
    let (plain, some_hrp) = hrp_shape addr_type network hrp e in
    let (pad, data5, e5, p) = convertbits-IsPadded payload 8 5 (omega arith) (omega arith) bytes in
    let (text, et, dt) = bech32m_decode-encode hrp data5 plain some_hrp p.digits in
    (
      text,
      rw (e, e5, et),
      rw (
        dt,
        hrp_reverse-hrp_of hrp_table addr_type network hrp table_distinct e,
        convertbits_back payload data5 8 5 pad (omega arith) (omega arith) bytes p,
      ),
    )

-- The address of a network is valid for that network, and for no other.
pub validate_address_for_network-encode :
    (payload addr_type hrp text : List ℕ) (network expected : Network)
    → All IsByte payload
    → hrp_of hrp_table addr_type network ≡ some hrp
    → encode_address payload addr_type network ≡ ok text
    → validate_address_for_network text expected ≡ ok (network_eq network expected)
unfolding validate_address_for_network catch_address_error
validate_address_for_network-encode payload addr_type hrp text network expected bytes e et =
    let (text', et', dt) = decode_address-encode payload addr_type hrp network bytes e in
    let same : text' ≡ text = cc (et, et') in rw (← same, dt)
