-- ===== src/Crypto/Fields.antt =====
-- src/noxipher/crypto/fields.py. An element of a class with the modulus `m` is its `value`, which
-- the constructor reduces; an `int` operand is a number that is not negative.
use native.Mathlib.Nat.{
  mod-lt, mod-mod, mod-eq_of_lt, div-add-mod, add-mul-mod_self_left, mul_assoc, mul-one, one-mul,
  pow-zero, pow-suc, pow-succ',
}
use noxipher.Prelude.{
  ℕ, zero, suc, ◌+◌, ◌-◌, ◌*◌, ◌/◌, ◌%◌, ◌^◌, ◌≤◌, ◌<◌, ◌≡◌, sym, ap, ◌∙◌, arith, Bool, inl, inr,
  List, ◌==◌, if◌then◌else◌, Bool-cases, ==_iff,
}
use noxipher.Prelude.Digits.{le_bytes, from_le_bytes, from_le_bytes-le_bytes}

-- `Fr`: the scalar field of BLS12-381.
abbrev pub fr_modulus : ℕ
fr_modulus = 0x73EDA753299D7D483339D80809A1D80553BDA402FFFE5BFEFFFFFFFF00000001

-- `EmbeddedFr`: the scalar field of JubJub.
abbrev pub embedded_fr_modulus : ℕ
embedded_fr_modulus = 0x0E7DB4EA6533AFA906673B0101343B00A6682093CCC81082D0970E5ED6F72CB7

-- Python's own `pow(base, exponent, m)`, by square and multiply, so that it can be evaluated: it is
-- `base ^ exponent % m` (pow_mod_lem).
unfoldable pub pow_loop : ℕ → ℕ → ℕ → ℕ → ℕ → ℕ
pow_loop m zero base e acc = acc
pow_loop m (suc fuel) base e acc =
    let rest =
      pow_loop m fuel (base * base % m) (e / 2) (if e % 2 == 1 then acc * base % m else acc) in
    if e == 0 then acc else rest

-- Exponents here are 5 and `m - 2`, of less than 256 bits.
unfoldable pub pow_mod : ℕ → ℕ → ℕ → ℕ
pow_mod m base e = pow_loop m 256 (base % m) e (1 % m)

module _ (m : ℕ) where
  -- `__init__` on an int.
  unfoldable pub of_int : ℕ → ℕ
  of_int v = v % m

  -- `__init__` on bytes, `from_le_bytes` and `from_uniform_bytes`.
  unfoldable pub of_bytes : List ℕ → ℕ
  of_bytes bs = from_le_bytes bs % m

  unfoldable pub add : ℕ → ℕ → ℕ
  add a b = (a + b) % m

  -- Python's `%` of a negative difference is not negative.
  unfoldable pub sub : ℕ → ℕ → ℕ
  sub a b = (a + (m - b % m)) % m

  unfoldable pub mul : ℕ → ℕ → ℕ
  mul a b = a * b % m

  unfoldable pub pow : ℕ → ℕ → ℕ
  pow a e = pow_mod m a e % m

  -- `__truediv__`: by the power `m - 2`.
  unfoldable pub div : ℕ → ℕ → ℕ
  div a b = a * pow_mod m b (m - 2) % m

  unfoldable pub neg : ℕ → ℕ
  neg a = (m - a % m) % m

  -- `__eq__` with another element or an int.
  unfoldable pub equal : ℕ → ℕ → Bool
  equal a b = a % m == b % m

-- `to_bytes` with its default length. An element of either field has 32 bytes.
unfoldable pub to_bytes : ℕ → List ℕ
to_bytes a = le_bytes 32 a

-- For a modulus of at most 256 bits, a reduced element that was written as bytes is read back.
pub of_bytes-to_bytes : (m a : ℕ) → a < m → m ≤ 2 ^ 256 → of_bytes m (to_bytes a) ≡ a
unfolding of_bytes to_bytes
of_bytes-to_bytes m a h fits =
    ap (λ t. t % m) (from_le_bytes-le_bytes 32 a (omega arith)) ∙ mod-eq_of_lt h

-- Any value that the constructor makes is reduced.
pub of_bytes-lt : (m : ℕ) (bs : List ℕ) → 0 < m → of_bytes m bs < m
unfolding of_bytes
of_bytes-lt m bs h = mod-lt (from_le_bytes bs) h

pub of_int-lt : (m v : ℕ) → 0 < m → of_int m v < m
unfolding of_int
of_int-lt m v h = mod-lt v h

pub add-lt : (m a b : ℕ) → 0 < m → add m a b < m
unfolding add
add-lt m a b h = mod-lt (a + b) h

mul_mod : (a b m : ℕ) → a % m * (b % m) % m ≡ a * b % m
mul_mod a b m =
    let ea : m * (a / m) + a % m ≡ a = div-add-mod a m in
    let eb : m * (b / m) + b % m ≡ b = div-add-mod b m in
    let x = a % m in
    let y = b % m in
    let k = a / m * b + x * (b / m) in
    let written : a * b ≡ x * y + m * k =
      omega (arith, ap (λ (t : ℕ). t * b) ea, ap (λ (t : ℕ). x * t) eb) in
    sym (ap (λ t. t % m) written ∙ add-mul-mod_self_left (x * y) m k)

mul_mod_left : (a b m : ℕ) → a % m * b % m ≡ a * b % m
mul_mod_left a b m =
    sym (mul_mod (a % m) b m) ∙ ap (λ t. t * (b % m) % m) (mod-mod a m) ∙ mul_mod a b m

mul_mod_right : (a b m : ℕ) → a * (b % m) % m ≡ a * b % m
mul_mod_right a b m =
    sym (mul_mod a (b % m) m) ∙ ap (λ t. a % m * t % m) (mod-mod b m) ∙ mul_mod a b m

pow_mod_base : (a k m : ℕ) → (a % m) ^ k % m ≡ a ^ k % m
pow_mod_base a zero m = ap (λ t. t % m) (pow-zero (a % m) ∙ sym (pow-zero a))
pow_mod_base a (suc k) m =
    ap (λ t. t % m) (pow-succ' (a % m) k)
    ∙ sym (mul_mod_right (a % m) ((a % m) ^ k) m)
    ∙ ap (λ t. a % m * t % m) (pow_mod_base a k m)
    ∙ mul_mod a (a ^ k) m
    ∙ ap (λ t. t % m) (sym (pow-succ' a k))

pow_square : (a k : ℕ) → (a * a) ^ k ≡ a ^ (k + k)
pow_square a zero = pow-zero (a * a) ∙ sym (pow-zero a)
pow_square a (suc k) =
    let e : suc k + suc k ≡ suc (suc (k + k)) = omega arith in
    pow-succ' (a * a) k
    ∙ ap (λ t. a * a * t) (pow_square a k)
    ∙ mul_assoc a a (a ^ (k + k))
    ∙ ap (λ t. a * t) (sym (pow-succ' a (k + k)))
    ∙ sym (pow-succ' a (suc (k + k)))
    ∙ ap (λ t. a ^ t) (sym e)

-- The power of half the exponent, by the parity of the exponent.
pow_even : (a e : ℕ) → e % 2 ≡ 0 → (a * a) ^ (e / 2) ≡ a ^ e
pow_even a e h = let d : e / 2 + e / 2 ≡ e = omega arith in pow_square a (e / 2) ∙ ap (λ t. a ^ t) d

pow_odd : (a e : ℕ) → e % 2 ≡ 1 → a * (a * a) ^ (e / 2) ≡ a ^ e
pow_odd a e h =
    let d : suc (e / 2 + e / 2) ≡ e = omega arith in
    ap (λ t. a * t) (pow_square a (e / 2)) ∙ sym (pow-succ' a (e / 2 + e / 2)) ∙ ap (λ t. a ^ t) d

-- The square is reduced; the power does not see it.
reduced_square : (m base k acc : ℕ) → acc * (base * base % m) ^ k % m ≡ acc * (base * base) ^ k % m
reduced_square m base k acc =
    sym (mul_mod_right acc ((base * base % m) ^ k) m)
    ∙ ap (λ t. acc * t % m) (pow_mod_base (base * base) k m)
    ∙ mul_mod_right acc ((base * base) ^ k) m

pow_loop_done : (m base e acc : ℕ) → e ≡ 0 → acc < m → acc ≡ acc * base ^ e % m
pow_loop_done m base e acc h ha = sym (
    ap (λ t. acc * base ^ t % m) h
    ∙ ap (λ t. acc * t % m) (pow-zero base)
    ∙ ap (λ t. t % m) (mul-one acc)
    ∙ mod-eq_of_lt ha)

-- The loop multiplies `acc` by the power that is left.
pow_loop_lem :
    (m fuel base e acc : ℕ)
    → 0 < m
    → e < 2 ^ fuel
    → acc < m
    → pow_loop m fuel base e acc ≡ acc * base ^ e % m
unfolding pow_loop
pow_loop_lem m zero base e acc hm h ha = pow_loop_done m base e acc (omega arith) ha
pow_loop_lem m (suc fuel) base e acc hm h ha =
    let half : e / 2 < 2 ^ fuel = omega (arith, pow-suc 2 fuel) in
    elim (Bool-cases (e == 0)) [
      | inl done ↦ rw done (pow_loop_done m base e acc ((==_iff e 0).0 done) ha)
      | inr more ↦ elim (Bool-cases (e % 2 == 1)) [
        | inl odd ↦
            rw (more, odd)
              (pow_loop_lem m fuel (base * base % m) (e / 2) (acc * base % m) hm half
                  (mod-lt (acc * base) hm)
                ∙ reduced_square m base (e / 2) (acc * base % m)
                ∙ mul_mod_left (acc * base) ((base * base) ^ (e / 2)) m
                ∙ ap (λ t. t % m) (mul_assoc acc base ((base * base) ^ (e / 2)))
                ∙ ap (λ t. acc * t % m) (pow_odd base e ((==_iff (e % 2) 1).0 odd)))
        | inr even ↦
            rw (more, even)
              (pow_loop_lem m fuel (base * base % m) (e / 2) acc hm half ha
                ∙ reduced_square m base (e / 2) acc
                ∙ ap (λ t. acc * t % m) (pow_even base e (ground arith)))
      ]
    ]

-- For a modulus above 1 and an exponent of at most 256 bits, the loop of `pow` ends with the
-- power's remainder.
pub pow_mod_lem : (m base e : ℕ) → 1 < m → e < 2 ^ 256 → pow_mod m base e ≡ base ^ e % m
unfolding pow_mod
pow_mod_lem m base e hm he =
    let one : 1 % m ≡ 1 = mod-eq_of_lt hm in
    pow_loop_lem m 256 (base % m) e (1 % m) (omega arith) he (mod-lt 1 (omega arith))
    ∙ ap (λ t. t * (base % m) ^ e % m) one
    ∙ ap (λ t. t % m) (one-mul ((base % m) ^ e))
    ∙ pow_mod_base base e m
