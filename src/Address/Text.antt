-- ===== src/Address/Text.antt =====
-- `bech32m_decode` on a text that is laid out as `bech32m_encode` does it.
use noxipher.Prelude.{
  ℕ, suc, ◌+◌, ◌-◌, ◌≤◌, ◌≡◌, refl, ap, ap₂, subst, ◌∙◌, arith, Bool, true, false, not, ◌&&◌, List,
  [], ◌∷◌, ◌++◌, map, Option, none, some, length, length-append, take, drop, take_front, get_elem?,
  All, All-append, ltb, ◌==◌, list_eq_refl, if◌then◌else◌, holds_below, holds_below-test,
}
use noxipher.Core.Exceptions.{Result, ok, err, address_error, ◌>>◌, raise_if}
use noxipher.Address.Polymod.{bech32m_verify_checksum}
use noxipher.Address.Bech32m.{
  charset, charset_chars, lower, any, printable, rfind, index_of, charset_find, find_all,
  split_at_separator, bech32m_decode,
}
use noxipher.Address.Checksum.{IsValue5}

-- A character that passes the checks of the decoder unchanged.
abbrev pub IsPlain : ℕ → Type 0
IsPlain c = (printable c ≡ true) × (lower c ≡ c)

-- A character behind the separator.
abbrev pub IsDatum : ℕ → Type 0
IsDatum c = IsPlain c × ((c == b'1') ≡ false)

good_char : ℕ → ℕ → Bool
good_char d c =
    printable c
    && (lower c == c)
    && not (c == b'1')
    && (elim (charset_find c) [ none ↦ false | some i ↦ i == d ])

good_value : ℕ → Bool
good_value d = elim (get_elem? charset d) [ none ↦ false | some c ↦ good_char d c ]

charset_table : holds_below good_value 32 ≡ true
unfolding holds_below good_value good_char printable lower charset_find index_of
charset_table = refl

-- A value of five bits has a character, and the character has that value.
charset_char :
    (d : ℕ)
    → IsValue5 d
    → (c : ℕ) × (get_elem? charset d ≡ some c) × IsDatum c × (charset_find c ≡ some d)
unfolding good_value good_char
charset_char d h = go (get_elem? charset d) refl (holds_below-test good_value 32 d charset_table h)
  where
    found : (c : ℕ) (o : Option ℕ) → elim o [ none ↦ false | some i ↦ i == d ] ≡ true → o ≡ some d
    found c none e = cc
    found c (some i) e = ground arith

    go :
        (o : Option ℕ)
        → get_elem? charset d ≡ o
        → elim o [ none ↦ false | some c ↦ good_char d c ] ≡ true
        → (c : ℕ) × (get_elem? charset d ≡ some c) × IsDatum c × (charset_find c ≡ some d)
    go none e t = cc
    go (some c) e t =
        let p : printable c ≡ true = ground arith in
        let l : lower c ≡ c = ground arith in
        let s : (c == b'1') ≡ false = ground arith in
        (c, e, ((p, l), s), found c (charset_find c) (ground arith))

-- The text of values of five bits, read back.
pub charset_chars-find_all :
    (ds : List ℕ)
    → All IsValue5 ds
    → (cs : List ℕ) × (charset_chars ds ≡ ok cs)
      × (find_all cs ≡ ok ds)
      × (length cs ≡ length ds)
      × All IsDatum cs
unfolding charset_chars find_all
charset_chars-find_all [] h = ([], refl, refl, refl, tt)
charset_chars-find_all (d ∷ ds) h =
    let (c, e, datum, f) = charset_char d h.0 in
    let (cs, es, fs, l, data_) = charset_chars-find_all ds h.1 in
    (c ∷ cs, ground (arith, e, es), ground (arith, f, fs), ap suc l, (datum, data_))

any_unprintable : (cs : List ℕ) → All IsPlain cs → any (λ c. not (printable c)) cs ≡ false
unfolding any
any_unprintable [] h = refl
any_unprintable (c ∷ cs) h = rw (h.0.0, any_unprintable cs h.1)

map-lower : (cs : List ℕ) → All IsPlain cs → map lower cs ≡ cs
map-lower [] h = refl
map-lower (c ∷ cs) h = ap₂ ◌∷◌ h.0.1 (map-lower cs h.1)

data-IsPlain : (cs : List ℕ) → All IsDatum cs → All IsPlain cs
data-IsPlain [] h = tt
data-IsPlain (c ∷ cs) h = (h.0.0, data-IsPlain cs h.1)

-- The last separator is the one in front of the data.
rfind-none : (cs : List ℕ) → All IsDatum cs → rfind b'1' cs ≡ none
unfolding rfind
rfind-none [] h = refl
rfind-none (c ∷ cs) h = rw (rfind-none cs h.1, h.0.1)

rfind_separator :
    (hrp cs : List ℕ) → All IsDatum cs → rfind b'1' (hrp ++ (b'1' ∷ cs)) ≡ some (length hrp)
unfolding rfind
rfind_separator [] cs h = rw (rfind-none cs h)
rfind_separator (x ∷ hrp) cs h = rw (rfind_separator hrp cs h)

drop_separator : (hrp cs : List ℕ) → drop (suc (length hrp)) (hrp ++ (b'1' ∷ cs)) ≡ cs
drop_separator [] cs = refl
drop_separator (x ∷ hrp) cs = drop_separator hrp cs

split_text :
    (hrp cs : List ℕ)
    → 1 ≤ length hrp
    → 6 ≤ length cs
    → split_at_separator (hrp ++ (b'1' ∷ cs)) (some (length hrp)) ≡ ok (hrp, cs)
unfolding split_at_separator
split_text hrp cs h l =
    let total = length-append hrp (b'1' ∷ cs) in
    let next : length hrp + 1 ≡ suc (length hrp) = omega arith in
    let first : ltb (length hrp) 1 ≡ false = ground (arith, h) in
    let enough : ltb (length (hrp ++ (b'1' ∷ cs))) (length hrp + 7) ≡ false =
      ground (arith, total, l) in
    rw (first, enough)
      (ap₂ (λ a b. ok (a, b)) (take_front (length hrp) hrp (b'1' ∷ cs) refl)
        (ap (λ n. drop n (hrp ++ (b'1' ∷ cs))) next ∙ drop_separator hrp cs))

separator-IsPlain : IsPlain b'1'
unfolding printable lower
separator-IsPlain = (refl, refl)

-- The decoder on a text that stands for a prefix and values: only the checksum decides.
pub bech32m_decode_text :
    (hrp values cs : List ℕ)
    → All IsPlain hrp
    → 1 ≤ length hrp
    → All IsValue5 values
    → 6 ≤ length values
    → charset_chars values ≡ ok cs
    → bech32m_decode (hrp ++ (b'1' ∷ cs)) ≡ (
        if bech32m_verify_checksum hrp values
        then ok (hrp, take (length values - 6) values)
        else err address_error)
unfolding bech32m_decode
bech32m_decode_text hrp values cs plain some_hrp hv six e =
    let (cs', e', f, l, datum) = charset_chars-find_all values hv in
    let same : cs' ≡ cs = cc (e, e') in
    let text = hrp ++ (b'1' ∷ cs) in
    let data_ : All IsDatum cs = subst (All IsDatum) same datum in
    let all_plain : All IsPlain text =
      All-append IsPlain hrp (b'1' ∷ cs) plain (separator-IsPlain, data-IsPlain cs data_) in
    let low = map-lower text all_plain in
    let long : 6 ≤ length cs = omega (arith, ap length same, l, six) in
    rw
      (
        any_unprintable text all_plain,
        low,
        list_eq_refl text,
        rfind_separator hrp cs data_,
        split_text hrp cs some_hrp long,
        ← same,
        f,
      )
      (checked (bech32m_verify_checksum hrp values))
  where
    result : Result (List ℕ × List ℕ)
    result = ok (hrp, take (length values - 6) values)

    checked :
        (b : Bool)
        → (raise_if (not b) address_error >> result) ≡ (if b then result else err address_error)
    checked true = refl
    checked false = refl
