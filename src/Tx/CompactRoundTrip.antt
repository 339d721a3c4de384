-- ===== src/Tx/CompactRoundTrip.antt =====
-- Readers for the base encodings of src/noxipher/tx/scale.py, which the source does not have, and
-- that they read back what was written.
use native.Mathlib.Nat.{pow-suc, pow-zero, one-le-pow}
use noxipher.Prelude.{
  ℕ, zero, suc, ◌+◌, ◌-◌, ◌*◌, ◌/◌, ◌%◌, ◌^◌, ◌≤◌, ◌<◌, ◌≡◌, refl, sym, ap, ◌∙◌, arith, true, false,
  inl, inr, List, [], ◌∷◌, ◌++◌, length, length-append, take, drop, take_front, drop_front, ltb,
  ◌==◌, Bool-cases, bit_or, if◌then◌else◌,
}
use noxipher.Prelude.Bits.{bit_or_shifted}
use noxipher.Prelude.Digits.{le_bytes, from_le_bytes, from_le_bytes-le_bytes, length-le_bytes}
use noxipher.Core.Exceptions.{Result, ok, err, ◌>>=◌, value_error}
use noxipher.Tx.Compact.{pack, byte, big_bytes, big_mode, encode_scale_int}

-- A reader takes a value off the front of a byte string and leaves what follows it.
abbrev pub Reader {ℓ} : Type ℓ → Type ℓ
Reader A = List ℕ → Result (A × List ℕ)

unfoldable pub unpack : ℕ → Reader ℕ
unpack n bs =
    if ltb (length bs) n then err value_error else ok (from_le_bytes (take n bs), drop n bs)

unfoldable pub take_exact : ℕ → Reader (List ℕ)
take_exact n bs = if ltb (length bs) n then err value_error else ok (take n bs, drop n bs)

unfoldable quarter : ℕ × List ℕ → Result (ℕ × List ℕ)
quarter (v, rest) = ok (v / 4, rest)

-- The two low bits of the first byte tell the mode of a compact integer.
unfoldable pub decode_scale_int : Reader ℕ
unfolding quarter
decode_scale_int [] = err value_error
decode_scale_int (b ∷ bs) =
    if b % 4 == 0
    then ok (b / 4, bs)
    else if b % 4 == 1
    then unpack 2 (b ∷ bs) >>= quarter
    else if b % 4 == 2
    then unpack 4 (b ∷ bs) >>= quarter
    else unpack (b / 4 + 4) bs

-- The writer succeeds on a value, and the reader finds the value in front of anything.
abbrev pub Reads {ℓ} : {A : Type ℓ} → (A → Result (List ℕ)) → Reader A → A → Type ℓ
Reads write read a =
    (bs : List ℕ) × (write a ≡ ok bs) × ((rest : List ℕ) → read (bs ++ rest) ≡ ok (a, rest))

pub Reads-back {ℓ} :
    {A : Type ℓ} (write : A → Result (List ℕ)) (read : Reader A) (a : A) (rest : List ℕ)
    → Reads write read a
    → (write a >>= (λ bs. read (bs ++ rest))) ≡ ok (a, rest)
Reads-back write read a rest (bs, e, r) = rw e (r rest)

pub take_exact-front :
    (n : ℕ) (bs rest : List ℕ) → length bs ≡ n → take_exact n (bs ++ rest) ≡ ok (bs, rest)
unfolding take_exact
take_exact-front n bs rest h =
    let long : ltb (length (bs ++ rest)) n ≡ false = ground (arith, length-append bs rest) in
    rw (long, take_front n bs rest h, drop_front n bs rest h)

unpack-front :
    (n : ℕ) (bs rest : List ℕ) → length bs ≡ n → unpack n (bs ++ rest) ≡ ok (from_le_bytes bs, rest)
unfolding unpack
unpack-front n bs rest h =
    let long : ltb (length (bs ++ rest)) n ≡ false = ground (arith, length-append bs rest) in
    rw (long, take_front n bs rest h, drop_front n bs rest h)

pack-eq : (n v : ℕ) → v < 256 ^ n → pack n v ≡ ok (le_bytes n v)
unfolding pack
pack-eq n v h = let fits : ltb v (256 ^ n) ≡ true = ground (arith, h) in rw fits

unpack-le_bytes :
    (n v : ℕ) (rest : List ℕ) → v < 256 ^ n → unpack n (le_bytes n v ++ rest) ≡ ok (v, rest)
unpack-le_bytes n v rest h =
    unpack-front n (le_bytes n v) rest (length-le_bytes n v)
    ∙ ap (λ t. ok (t, rest)) (from_le_bytes-le_bytes n v h)

pub pack-Reads : (n v : ℕ) → v < 256 ^ n → Reads (pack n) (unpack n) v
pack-Reads n v h = (le_bytes n v, pack-eq n v h, λ rest. unpack-le_bytes n v rest h)

pub byte-eq : (v : ℕ) → v < 256 → byte v ≡ ok (v ∷ [])
unfolding byte
byte-eq v h = let fits : ltb v 256 ≡ true = ground (arith, h) in rw fits

-- The bytes of the big mode: their number, and how many there are.
from_le_bytes-big_bytes : (fuel v : ℕ) → v ≤ fuel → from_le_bytes (big_bytes fuel v) ≡ v
unfolding big_bytes from_le_bytes
from_le_bytes-big_bytes zero v h = omega arith
from_le_bytes-big_bytes (suc fuel) v h = ground (arith, from_le_bytes-big_bytes fuel (v / 256))

length-big_bytes_le : (n fuel v : ℕ) → v < 256 ^ n → length (big_bytes fuel v) ≤ n
unfolding big_bytes
length-big_bytes_le n zero v h = omega arith
length-big_bytes_le zero (suc fuel) v h = ground (arith, pow-zero 256)
length-big_bytes_le (suc n) (suc fuel) v h =
    let smaller : v / 256 < 256 ^ n = omega (arith, pow-suc 256 n) in
    ground (arith, length-big_bytes_le n fuel (v / 256) smaller)

length-big_bytes_ge : (n fuel v : ℕ) → v ≤ fuel → 256 ^ n ≤ v → n < length (big_bytes fuel v)
unfolding big_bytes
length-big_bytes_ge zero zero v h g = absurd (omega (arith, pow-zero 256))
length-big_bytes_ge zero (suc fuel) v h g = ground (arith, pow-zero 256)
length-big_bytes_ge (suc n) zero v h g =
    absurd (omega (arith, one-le-pow (suc n) 256 (omega arith)))
length-big_bytes_ge (suc n) (suc fuel) v h g =
    let larger : 256 ^ n ≤ v / 256 = omega (arith, pow-suc 256 n) in
    let more : 0 < v = omega (arith, one-le-pow (suc n) 256 (omega arith)) in
    ground (arith, more, length-big_bytes_ge n fuel (v / 256) (omega arith) larger)

decode_one : (v : ℕ) (rest : List ℕ) → decode_scale_int (v * 4 ∷ rest) ≡ ok (v, rest)
unfolding decode_scale_int
decode_one v rest =
    let mode : v * 4 % 4 ≡ 0 = omega arith in
    let value : v * 4 / 4 ≡ v = omega arith in rw (mode, value) refl

-- The words of two and of four bytes, by the mode in their low bits.
le_bytes_head :
    (n v : ℕ) (rest : List ℕ) → (bs : List ℕ) × (le_bytes (suc n) v ++ rest ≡ v % 256 ∷ bs)
unfolding le_bytes
le_bytes_head n v rest = (le_bytes n (v / 256) ++ rest, refl)

decode_two :
    (v : ℕ) (rest : List ℕ)
    → v < 16_384
    → decode_scale_int (le_bytes 2 (v * 4 + 1) ++ rest) ≡ ok (v, rest)
unfolding decode_scale_int quarter
decode_two v rest h =
    let (bs, e) = le_bytes_head 1 (v * 4 + 1) rest in
    let read : unpack 2 ((v * 4 + 1) % 256 ∷ bs) ≡ ok (v * 4 + 1, rest) =
      ap (unpack 2) (sym e) ∙ unpack-le_bytes 2 (v * 4 + 1) rest (omega arith) in
    let mode : (v * 4 + 1) % 256 % 4 ≡ 1 = omega arith in
    let value : (v * 4 + 1) / 4 ≡ v = omega arith in rw (e, mode, read, value) refl

decode_four :
    (v : ℕ) (rest : List ℕ)
    → v < 1_073_741_824
    → decode_scale_int (le_bytes 4 (v * 4 + 2) ++ rest) ≡ ok (v, rest)
unfolding decode_scale_int quarter
decode_four v rest h =
    let (bs, e) = le_bytes_head 3 (v * 4 + 2) rest in
    let read : unpack 4 ((v * 4 + 2) % 256 ∷ bs) ≡ ok (v * 4 + 2, rest) =
      ap (unpack 4) (sym e) ∙ unpack-le_bytes 4 (v * 4 + 2) rest (omega arith) in
    let mode : (v * 4 + 2) % 256 % 4 ≡ 2 = omega arith in
    let value : (v * 4 + 2) / 4 ≡ v = omega arith in rw (e, mode, read, value) refl

decode_big :
    (out rest : List ℕ)
    → 4 ≤ length out
    → decode_scale_int (((length out - 4) * 4 + 3) ∷ out ++ rest) ≡ ok (from_le_bytes out, rest)
unfolding decode_scale_int
decode_big out rest h =
    let mode : ((length out - 4) * 4 + 3) % 4 ≡ 3 = omega arith in
    let size : ((length out - 4) * 4 + 3) / 4 + 4 ≡ length out = omega arith in
    rw (mode, size) (unpack-front (length out) out rest refl)

shifted : (v r : ℕ) → r < 4 → bit_or (v * 4) r ≡ v * 4 + r
shifted v r h = bit_or_shifted 2 v r h

one_byte-Reads : (v : ℕ) → v < 64 → Reads encode_scale_int decode_scale_int v
unfolding encode_scale_int
one_byte-Reads v h =
    let small : ltb v 64 ≡ true = ground (arith, h) in
    (v * 4 ∷ [], rw small (byte-eq (v * 4) (omega arith)), decode_one v)

two_bytes-Reads : (v : ℕ) → 64 ≤ v → v < 16_384 → Reads encode_scale_int decode_scale_int v
unfolding encode_scale_int
two_bytes-Reads v g h =
    let not_small : ltb v 64 ≡ false = ground (arith, g) in
    let small : ltb v 16_384 ≡ true = ground (arith, h) in
    (
      le_bytes 2 (v * 4 + 1),
      rw (not_small, small, shifted v 1 (omega arith)) (pack-eq 2 (v * 4 + 1) (omega arith)),
      λ rest. decode_two v rest h,
    )

four_bytes-Reads :
    (v : ℕ) → 16_384 ≤ v → v < 1_073_741_824 → Reads encode_scale_int decode_scale_int v
unfolding encode_scale_int
four_bytes-Reads v g h =
    let not_one : ltb v 64 ≡ false = ground (arith, g) in
    let not_two : ltb v 16_384 ≡ false = ground (arith, g) in
    let small : ltb v 1_073_741_824 ≡ true = ground (arith, h) in
    (
      le_bytes 4 (v * 4 + 2),
      rw (not_one, not_two, small, shifted v 2 (omega arith)) (pack-eq 4 (v * 4 + 2) (omega arith)),
      λ rest. decode_four v rest h,
    )

big-Reads : (v : ℕ) → 1_073_741_824 ≤ v → v < 256 ^ 67 → Reads encode_scale_int decode_scale_int v
unfolding encode_scale_int big_mode
big-Reads v g h =
    let out = big_bytes v v in
    let not_one : ltb v 64 ≡ false = ground (arith, g) in
    let not_two : ltb v 16_384 ≡ false = ground (arith, g) in
    let not_four : ltb v 1_073_741_824 ≡ false = ground (arith, g) in
    let le : length out ≤ 67 = length-big_bytes_le 67 v v h in
    let ge : 3 < length out = length-big_bytes_ge 3 v v (omega arith) (omega arith) in
    let mode : byte (bit_or ((length out - 4) * 4) 3) ≡ ok (((length out - 4) * 4 + 3) ∷ []) =
      rw (shifted (length out - 4) 3 (omega arith)) (byte-eq _ (omega arith)) in
    (
      ((length out - 4) * 4 + 3) ∷ out,
      rw (not_one, not_two, not_four, mode) refl,
      λ rest.
          decode_big out rest (omega arith)
          ∙ ap (λ t. ok (t, rest)) (from_le_bytes-big_bytes v v (omega arith)),
    )

pub encode_scale_int-Reads : (v : ℕ) → v < 256 ^ 67 → Reads encode_scale_int decode_scale_int v
encode_scale_int-Reads v h = elim (Bool-cases (ltb v 64)) [
  | inl a ↦ one_byte-Reads v (ground (arith, a))
  | inr a ↦ elim (Bool-cases (ltb v 16_384)) [
    | inl b ↦ two_bytes-Reads v (ground (arith, a)) (ground (arith, b))
    | inr b ↦ elim (Bool-cases (ltb v 1_073_741_824)) [
      | inl c ↦ four_bytes-Reads v (ground (arith, b)) (ground (arith, c))
      | inr c ↦ big-Reads v (ground (arith, c)) h
    ]
  ]
]

-- A number below 256 ^ 67 is encoded, and a reader of the SCALE format finds it in front
-- of any bytes and leaves them.
pub decode_scale_int-encode :
    (v : ℕ) (rest : List ℕ)
    → v < 256 ^ 67
    → (encode_scale_int v >>= (λ bs. decode_scale_int (bs ++ rest))) ≡ ok (v, rest)
decode_scale_int-encode v rest h =
    Reads-back encode_scale_int decode_scale_int v rest (encode_scale_int-Reads v h)
