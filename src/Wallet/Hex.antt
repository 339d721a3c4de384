-- ===== src/Wallet/Hex.antt =====
-- Python's `bytes.hex` and `bytes.fromhex`, and the texts that are compared as hex.
use noxipher.Prelude.{
  ℕ, ◌+◌, ◌-◌, ◌*◌, ◌/◌, ◌%◌, Bool, ◌&&◌, ◌||◌, List, [], ◌∷◌, Option, none, some, leb, ltb, ◌==◌,
  replicate, if◌then◌else◌, false, ◌<◌, ◌≡◌, refl, arith, All, IsByte,
}
use noxipher.Core.Exceptions.{Result, ok, err, value_error}

unfoldable pub hex_digit : ℕ → ℕ
hex_digit d = if ltb d 10 then 48 + d else 87 + d

unfoldable pub hex : List ℕ → List ℕ
hex [] = []
hex (b ∷ bs) = hex_digit (b / 16) ∷ hex_digit (b % 16) ∷ hex bs

unfoldable pub digit_value : ℕ → Option ℕ
digit_value c =
    if leb 48 c && leb c 57
    then some (c - 48)
    else if leb 97 c && leb c 102
    then some (c - 87)
    else if leb 65 c && leb c 70
    then some (c - 55)
    else none

-- ASCII whitespace, which may stand between two bytes.
unfoldable pub is_space : ℕ → Bool
is_space c = c == 32 || leb 9 c && leb c 13

unfoldable pub push_byte : Option ℕ → Option ℕ → Result (List ℕ) → Result (List ℕ)
push_byte (some h) (some l) (ok bs) = ok ((16 * h + l) ∷ bs)
push_byte (some h) (some l) (err e) = err e
push_byte _ _ _ = err value_error

unfoldable pub fromhex : List ℕ → Result (List ℕ)
fromhex [] = ok []
fromhex (c ∷ []) = if is_space c then ok [] else err value_error
fromhex (c ∷ d ∷ cs) =
    let skipped = fromhex (d ∷ cs) in
    let rest = fromhex cs in
    if is_space c then skipped else push_byte (digit_value c) (digit_value d) rest

-- `text.replace("0x", "")`
unfoldable pub remove_0x : List ℕ → List ℕ
remove_0x [] = []
remove_0x (c ∷ []) = c ∷ []
remove_0x (c ∷ d ∷ cs) =
    let removed = remove_0x cs in
    let kept = c ∷ remove_0x (d ∷ cs) in if c == 48 && d == 120 then removed else kept

-- `"00" * 32`
abbrev pub zeros_hex : List ℕ
zeros_hex = replicate 64 48

digit_value-hex_digit :
    (d : ℕ) → d < 16 → (is_space (hex_digit d) ≡ false) × (digit_value (hex_digit d) ≡ some d)
unfolding is_space digit_value hex_digit
digit_value-hex_digit d h = ground arith

-- The bytes that are written are read back.
pub fromhex-hex : (bs : List ℕ) → All IsByte bs → fromhex (hex bs) ≡ ok bs
unfolding fromhex hex push_byte
fromhex-hex [] h = refl
fromhex-hex (b ∷ bs) h =
    let (solid, high) = digit_value-hex_digit (b / 16) (omega (arith, h.0)) in
    let (_, low) = digit_value-hex_digit (b % 16) (omega arith) in
    let whole : 16 * (b / 16) + b % 16 ≡ b = omega arith in
    rw (solid, high, low, fromhex-hex bs h.1, whole)
