-- ===== src/Prelude/Radix.antt =====
-- Powers, and numbers written in a base, highest digit first.
use native.Mathlib.Nat.{
  pow-zero, pow-succ', one-le-pow, mul_assoc, div-add-mod, mod-lt, mod-eq_of_lt,
}
use native.Mathlib.Nat.{add-mul-mod_self_left, add-mul-div_left, div-eq_of_lt}
use noxipher.Prelude.{
  ℕ, zero, suc, ◌+◌, ◌-◌, ◌*◌, ◌/◌, ◌%◌, ◌^◌, ◌≤◌, ◌<◌, ◌≡◌, refl, sym, ap, ap₂, ◌∙◌, arith, List,
  [], ◌∷◌, ◌++◌, length, All,
}

pub pow_add : (b m n : ℕ) → b ^ (m + n) ≡ b ^ m * b ^ n
pow_add b zero n =
    let e : 0 + n ≡ n = omega arith in
    ap (λ t. b ^ t) e ∙ omega (arith, ap (λ (t : ℕ). t * b ^ n) (pow-zero b))
pow_add b (suc m) n =
    let e : suc m + n ≡ suc (m + n) = omega arith in
    ap (λ t. b ^ t) e
    ∙ omega (
      arith,
      pow-succ' b (m + n),
      ap (λ (t : ℕ). b * t) (pow_add b m n),
      ap (λ (t : ℕ). t * b ^ n) (pow-succ' b m),
      mul_assoc b (b ^ m) (b ^ n),
    )

pub two_pow_pos : (n : ℕ) → 1 ≤ 2 ^ n
two_pow_pos n = one-le-pow n 2 (omega arith)

-- Quotient and remainder from a division that is written out.
pub mod_of_parts : (m q r : ℕ) → r < m → (m * q + r) % m ≡ r
mod_of_parts m q r h =
    let e : m * q + r ≡ r + m * q = omega arith in
    ap (λ t. t % m) e ∙ add-mul-mod_self_left r m q ∙ mod-eq_of_lt h

pub div_of_parts : (m q r : ℕ) → r < m → (m * q + r) / m ≡ q
div_of_parts m q r h =
    let e : m * q + r ≡ r + m * q = omega arith in
    ap (λ t. t / m) e ∙ add-mul-div_left r q (omega arith) ∙ omega (arith, div-eq_of_lt h)

-- The remainder by a product, from the remainders by its factors.
pub mod_mul : (x p q : ℕ) → 0 < p → 0 < q → x % (p * q) ≡ p * (x / p % q) + x % p
mod_mul x p q hp hq =
    let d = x / p % q in
    let k = x / p / q in
    let r = p * d + x % p in
    let outer : p * (x / p) + x % p ≡ x = div-add-mod x p in
    let inner : q * k + d ≡ x / p = div-add-mod (x / p) q in
    let written : x ≡ p * q * k + r = omega (arith, outer, ap (λ (t : ℕ). p * t) inner) in
    let small : r < p * q = grind (arith, mod-lt x hp, mod-lt (x / p) hq) in
    ap (λ t. t % (p * q)) written ∙ mod_of_parts (p * q) k r small

pub mod_two_pow_add : (x a b : ℕ) → x % 2 ^ (a + b) ≡ 2 ^ a * (x / 2 ^ a % 2 ^ b) + x % 2 ^ a
mod_two_pow_add x a b =
    ap (λ t. x % t) (pow_add 2 a b) ∙ mod_mul x (2 ^ a) (2 ^ b) (two_pow_pos a) (two_pow_pos b)

-- A remainder of more bits has the same low bits.
pub low_bits_of_mod : (x k m : ℕ) → k ≤ m → x % 2 ^ m % 2 ^ k ≡ x % 2 ^ k
low_bits_of_mod x k m h =
    let e : m ≡ k + (m - k) = omega arith in
    ap (λ t. x % 2 ^ t % 2 ^ k) e
    ∙ ap (λ t. t % 2 ^ k) (mod_two_pow_add x k (m - k))
    ∙ mod_of_parts (2 ^ k) _ (x % 2 ^ k) (mod-lt x (two_pow_pos k))

-- The number that the digits write behind `w`.
abbrev pub radix_value : ℕ → ℕ → List ℕ → ℕ
radix_value b w [] = w
radix_value b w (d ∷ ds) = radix_value b (w * b + d) ds

pub radix_value-snoc :
    (b w d : ℕ) (ds : List ℕ) → radix_value b w (ds ++ (d ∷ [])) ≡ radix_value b w ds * b + d
radix_value-snoc b w d [] = refl
radix_value-snoc b w d (c ∷ ds) = radix_value-snoc b (w * b + c) d ds

-- A quotient and a remainder below the base are determined by the number.
pub split_digit : (b q r q' r' : ℕ) → r < b → r' < b → q * b + r ≡ q' * b + r' → (q ≡ q') × (r ≡ r')
split_digit b q r q' r' h h' e =
    let e' : b * q + r ≡ b * q' + r' = omega (arith, e) in
    (
      sym (div_of_parts b q r h) ∙ ap (λ t. t / b) e' ∙ div_of_parts b q' r' h',
      sym (mod_of_parts b q r h) ∙ ap (λ t. t % b) e' ∙ mod_of_parts b q' r' h',
    )

-- As many digits that write the same number are the same digits.
pub radix_value_injective :
    (b w w' : ℕ) (xs ys : List ℕ)
    → All (λ d. d < b) xs
    → All (λ d. d < b) ys
    → length xs ≡ length ys
    → radix_value b w xs ≡ radix_value b w' ys
    → (w ≡ w') × (xs ≡ ys)
radix_value_injective b w w' [] [] hx hy l e = (e, refl)
radix_value_injective b w w' [] (y ∷ ys) hx hy l e = absurd (omega (arith, l))
radix_value_injective b w w' (x ∷ xs) [] hx hy l e = absurd (omega (arith, l))
radix_value_injective b w w' (x ∷ xs) (y ∷ ys) hx hy l e =
    let (heads, tails) =
      radix_value_injective b (w * b + x) (w' * b + y) xs ys hx.1 hy.1 (omega (arith, l)) e in
    let (whole, digit) = split_digit b w x w' y hx.0 hy.0 heads in (whole, ap₂ ◌∷◌ digit tails)
