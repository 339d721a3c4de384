-- ===== src/Address/OneError.antt =====
-- An address with one wrong character is refused.
use noxipher.Prelude.{
  ℕ, ◌≤◌, ◌<◌, ◌≡◌, ◌≢◌, refl, sym, ap, subst, ◌∙◌, arith, true, false, List, [], ◌∷◌, ◌++◌, Option,
  none, some, length, length-append, All, All-append, All-append_left, All-append_right, IsByte,
  get_elem?,
}
use noxipher.Core.Exceptions.{Result, ok, err, address_error, index_error, ◌>>=◌}
use noxipher.Core.Config.{Network}
use noxipher.Address.Polymod.{bech32m_create_checksum, bech32m_verify_checksum}
use noxipher.Address.Bech32m.{charset, charset_chars, bech32m_encode, printable}
use noxipher.Address.Checksum.{
  IsValue5, IsCode, bech32m_verify_checksum-create, bech32m_verify_checksum_one_error,
}
use noxipher.Address.BitsRoundTrip.{convertbits-IsPadded}
use noxipher.Address.Text.{IsPlain, bech32m_decode_text}
use noxipher.Address.RoundTrip.{create_checksum_shape, hrp_shape}
use noxipher.Address.Codec.{hrp_table, hrp_of, encode_address, decode_address}

charset_chars-cons :
    (d c : ℕ) (ds cs : List ℕ)
    → charset_chars (d ∷ ds) ≡ ok (c ∷ cs)
    → (get_elem? charset d ≡ some c) × (charset_chars ds ≡ ok cs)
unfolding charset_chars
charset_chars-cons d c ds cs e = go (get_elem? charset d) (charset_chars ds) refl refl e
  where
    go :
        (o : Option ℕ) (r : Result (List ℕ))
        → get_elem? charset d ≡ o
        → charset_chars ds ≡ r
        → (elim o [ none ↦ err index_error | some x ↦ r >>= λ cs. ok (x ∷ cs) ]) ≡ ok (c ∷ cs)
        → (get_elem? charset d ≡ some c) × (charset_chars ds ≡ ok cs)
    go none r p q h = cc
    go (some x) (err f) p q h = cc
    go (some x) (ok xs) p q h = (cc (p, h), cc (q, h))

charset_chars_prepend :
    (d c : ℕ) (ds cs : List ℕ)
    → get_elem? charset d ≡ some c
    → charset_chars ds ≡ ok cs
    → charset_chars (d ∷ ds) ≡ ok (c ∷ cs)
unfolding charset_chars
charset_chars_prepend d c ds cs e f = rw (e, f)

not_empty : (d : ℕ) (ds : List ℕ) → charset_chars (d ∷ ds) ≢ ok []
unfolding charset_chars
not_empty d ds e = go (get_elem? charset d) (charset_chars ds) e
  where
    go :
        (o : Option ℕ) (r : Result (List ℕ))
        → (elim o [ none ↦ err index_error | some x ↦ r >>= λ cs. ok (x ∷ cs) ]) ≡ ok []
        → ⊥
    go none r h = cc
    go (some x) (err f) h = cc
    go (some x) (ok xs) h = cc

-- The values behind a text of two parts.
charset_chars_split :
    (ds front rest : List ℕ) (c : ℕ)
    → charset_chars ds ≡ ok (front ++ (c ∷ rest))
    → (df : List ℕ) × (a : ℕ) × (dr : List ℕ) × (ds ≡ df ++ (a ∷ dr))
      × (charset_chars df ≡ ok front)
      × (get_elem? charset a ≡ some c)
      × (charset_chars dr ≡ ok rest)
charset_chars_split [] [] rest c e = unfold charset_chars in cc e
charset_chars_split [] (x ∷ front) rest c e = unfold charset_chars in cc e
charset_chars_split (d ∷ ds) [] rest c e =
    let (h, t) = charset_chars-cons d c ds rest e in
    ([], d, ds, refl, unfold charset_chars in refl, h, t)
charset_chars_split (d ∷ ds) (x ∷ front) rest c e =
    let (h, t) = charset_chars-cons d x ds (front ++ (c ∷ rest)) e in
    let (df, a, dr, whole, ef, ea, er) = charset_chars_split ds front rest c t in
    (d ∷ df, a, dr, ap (◌∷◌ d) whole, charset_chars_prepend d x df front h ef, ea, er)

charset_chars_join :
    (df dr front rest : List ℕ) (b c : ℕ)
    → charset_chars df ≡ ok front
    → get_elem? charset b ≡ some c
    → charset_chars dr ≡ ok rest
    → charset_chars (df ++ (b ∷ dr)) ≡ ok (front ++ (c ∷ rest))
charset_chars_join [] dr [] rest b c ef eb er = charset_chars_prepend b c dr rest eb er
charset_chars_join [] dr (x ∷ front) rest b c ef eb er = absurd (unfold charset_chars in cc ef)
charset_chars_join (d ∷ df) dr [] rest b c ef eb er = absurd (not_empty d df ef)
charset_chars_join (d ∷ df) dr (x ∷ front) rest b c ef eb er =
    let (h, t) = charset_chars-cons d x df front ef in
    charset_chars_prepend d x (df ++ (b ∷ dr)) (front ++ (c ∷ rest)) h
      (charset_chars_join df dr front rest b c t eb er)

-- What `bech32m_encode` returns stands for the values and their checksum.
bech32m_encode_text :
    (hrp values text tail : List ℕ)
    → bech32m_encode hrp values ≡ ok text
    → text ≡ hrp ++ (b'1' ∷ tail)
    → charset_chars (values ++ bech32m_create_checksum hrp values) ≡ ok tail
unfolding bech32m_encode
bech32m_encode_text hrp values text tail e shape =
    go (charset_chars (values ++ bech32m_create_checksum hrp values)) refl e
  where
    same_tail : (h xs ys : List ℕ) → h ++ (b'1' ∷ xs) ≡ h ++ (b'1' ∷ ys) → xs ≡ ys
    same_tail [] xs ys p = cc p
    same_tail (x ∷ h) xs ys p = same_tail h xs ys (cc p)

    go :
        (r : Result (List ℕ))
        → charset_chars (values ++ bech32m_create_checksum hrp values) ≡ r
        → (r >>= λ cs. ok (hrp ++ (b'1' ∷ cs))) ≡ ok text
        → charset_chars (values ++ bech32m_create_checksum hrp values) ≡ ok tail
    go (err f) p q = cc
    go (ok cs) p q =
        let t : hrp ++ (b'1' ∷ cs) ≡ hrp ++ (b'1' ∷ tail) = cc (q, shape) in
        p ∙ ap ok (same_tail hrp cs tail t)

printable-IsCode : (c : ℕ) → printable c ≡ true → IsCode c
unfolding printable
printable-IsCode c h = ground arith

-- In the address of a byte string, replace one character behind the separator by another one of
-- the character set: `decode_address` raises AddressError.
pub decode_address_one_error :
    (payload addr_type hrp front rest : List ℕ) (network : Network) (c c' b : ℕ)
    → All IsByte payload
    → hrp_of hrp_table addr_type network ≡ some hrp
    → encode_address payload addr_type network ≡ ok (hrp ++ (b'1' ∷ (front ++ (c ∷ rest))))
    → get_elem? charset b ≡ some c'
    → b < 32
    → c ≢ c'
    → decode_address (hrp ++ (b'1' ∷ (front ++ (c' ∷ rest)))) ≡ err address_error
unfolding encode_address decode_address
decode_address_one_error payload addr_type hrp front rest network c c' b bytes e et eb small ne =
    let (plain, some_hrp) = hrp_shape addr_type network hrp e in
    let (pad, data5, e5, p) = convertbits-IsPadded payload 8 5 (omega arith) (omega arith) bytes in
    let check = bech32m_create_checksum hrp data5 in
    let (hc, six) = create_checksum_shape hrp data5 in
    let encoded : bech32m_encode hrp data5 ≡ ok (hrp ++ (b'1' ∷ (front ++ (c ∷ rest)))) =
      sym (rw (e, e5)) ∙ et in
    let (df, a, dr, whole, ef, ea, er) =
      charset_chars_split (data5 ++ check) front rest c
        (bech32m_encode_text hrp data5 _ (front ++ (c ∷ rest)) encoded refl) in
    let all5 : All IsValue5 (df ++ (a ∷ dr)) =
      subst (All IsValue5) whole (All-append IsValue5 data5 check p.digits hc) in
    let differ : a ≢ b = λ q. ne (cc (q, ea, eb)) in
    let valid : bech32m_verify_checksum hrp (df ++ (a ∷ dr)) ≡ true =
      ap (bech32m_verify_checksum hrp) (sym whole) ∙ bech32m_verify_checksum-create hrp data5 in
    let front5 = All-append_left IsValue5 df (a ∷ dr) all5 in
    let back5 = All-append_right IsValue5 df (a ∷ dr) all5 in
    let refused : bech32m_verify_checksum hrp (df ++ (b ∷ dr)) ≡ false =
      bech32m_verify_checksum_one_error hrp df dr a b (plain-IsCode hrp plain) front5 back5 small
        differ valid in
    let long : 6 ≤ length (df ++ (b ∷ dr)) = omega (
      arith,
      ap length whole,
      length-append data5 check,
      length-append df (a ∷ dr),
      length-append df (b ∷ dr),
      six,
    ) in
    let decoded =
      bech32m_decode_text hrp (df ++ (b ∷ dr)) (front ++ (c' ∷ rest)) plain some_hrp
        (All-append IsValue5 df (b ∷ dr) front5 (small, back5.1)) long
        (charset_chars_join df dr front rest b c' ef eb er) in
    rw (decoded, refused)
  where
    plain-IsCode : (h : List ℕ) → All IsPlain h → All IsCode h
    plain-IsCode [] q = tt
    plain-IsCode (x ∷ xs) q = (printable-IsCode x q.0.0, plain-IsCode xs q.1)
