-- ===== src/Address/Bech32m.antt =====
-- `bech32m_encode` and `bech32m_decode`. A text is the list of its code points.
use noxipher.Prelude.{
  ℕ, suc, ◌+◌, ◌-◌, Bool, false, not, ◌&&◌, ◌||◌, List, [], ◌∷◌, ◌++◌, map, Option, none, some,
  codes, length, take, drop, get_elem?, leb, ltb, ◌==◌, list_eq, if◌then◌else◌,
}
use noxipher.Core.Exceptions.{Result, ok, err, address_error, index_error, ◌>>=◌, ◌>>◌, raise_if}
use noxipher.Address.Polymod.{bech32m_create_checksum, bech32m_verify_checksum}

abbrev pub charset : List ℕ
charset = codes "qpzry9x8gf2tvdw0s3jn54khce6mua7l"

-- `CHARSET[d]` for each value.
unfoldable pub charset_chars : List ℕ → Result (List ℕ)
charset_chars [] = ok []
charset_chars (d ∷ ds) = elim (get_elem? charset d) [
  | none ↦ err index_error
  | some c ↦ charset_chars ds >>= λ cs. ok (c ∷ cs)
]

unfoldable pub bech32m_encode : List ℕ → List ℕ → Result (List ℕ)
bech32m_encode hrp data5 = do
  cs ← charset_chars (data5 ++ bech32m_create_checksum hrp data5)
  ok (hrp ++ (b'1' ∷ cs))

-- `str.lower` and `str.upper` on one ASCII character: the code has checked the range before.
unfoldable pub lower : ℕ → ℕ
lower c = if leb b'A' c && leb c b'Z' then c + 32 else c

unfoldable pub upper : ℕ → ℕ
upper c = if leb b'a' c && leb c b'z' then c - 32 else c

unfoldable pub any : (ℕ → Bool) → List ℕ → Bool
any p [] = false
any p (x ∷ xs) = p x || any p xs

unfoldable pub printable : ℕ → Bool
printable c = leb 33 c && leb c 126

-- `str.rfind` of one character; `none` is Python's -1.
unfoldable pub rfind : ℕ → List ℕ → Option ℕ
rfind c [] = none
rfind c (x ∷ xs) = elim (rfind c xs) [
  | some i ↦ some (suc i)
  | none ↦ if x == c then some 0 else none
]

-- `CHARSET.find`, from a position on.
unfoldable pub index_of : ℕ → List ℕ → ℕ → Option ℕ
index_of c [] i = none
index_of c (x ∷ xs) i = if x == c then some i else index_of c xs (i + 1)

unfoldable pub charset_find : ℕ → Option ℕ
charset_find c = index_of c charset 0

-- `all(x in CHARSET for x in data_part)` and then `[CHARSET.find(x) for x in data_part]`.
unfoldable pub find_all : List ℕ → Result (List ℕ)
find_all [] = ok []
find_all (c ∷ cs) = elim (charset_find c) [
  | none ↦ err address_error
  | some d ↦ find_all cs >>= λ ds. ok (d ∷ ds)
]

-- From the check of the separator's place on.
unfoldable pub split_at_separator : List ℕ → Option ℕ → Result (List ℕ × List ℕ)
split_at_separator bech none = err address_error
split_at_separator bech (some pos) =
    if ltb pos 1 || ltb (length bech) (pos + 7)
    then err address_error
    else ok (take pos bech, drop (pos + 1) bech)

unfoldable pub bech32m_decode : List ℕ → Result (List ℕ × List ℕ)
bech32m_decode bech = do
  raise_if (any (λ c. not (printable c)) bech) address_error
  raise_if (not (list_eq (map lower bech) bech) && not (list_eq (map upper bech) bech))
      address_error
  let lowered = map lower bech
  (hrp, data_part) ← split_at_separator lowered (rfind b'1' lowered)
  values ← find_all data_part
  raise_if (not (bech32m_verify_checksum hrp values)) address_error
  ok (hrp, take (length values - 6) values)
