-- ===== src/Prelude/Bits.antt =====
-- Laws of `bit_xor` at variables, from the digit recursion that the native operation stands for.
use Prim.Native.Nat.{digits, differ, max, bit_xor-bitwise, bit_or-bitwise}
use native.Mathlib.Nat.{le_refl, pow-suc}
use noxipher.Prelude.{
  ℕ, zero, suc, ◌+◌, ◌*◌, ◌/◌, ◌%◌, ◌^◌, ◌≤◌, ◌<◌, ◌≡◌, refl, sym, ap, ap₂, ◌∙◌, arith, bit_xor,
  bit_or,
}

-- With fuel for the first number, the digits do not depend on the fuel.
module _ (rest : ℕ → ℕ) (op : ℕ → ℕ → ℕ) where
  digits_enough :
      (x y fuel more : ℕ) → x ≤ fuel → x ≤ more → digits rest op fuel x y ≡ digits rest op more x y
  digits_enough zero y zero zero h g = refl
  digits_enough zero y (suc fuel) zero h g = refl
  digits_enough zero y zero (suc more) h g = refl
  digits_enough zero y (suc fuel) (suc more) h g = refl
  digits_enough (suc x) y zero more h g = absurd (omega (arith, h))
  digits_enough (suc x) y (suc fuel) zero h g = absurd (omega (arith, g))
  digits_enough (suc x) y (suc fuel) (suc more) h g =
      let half =
        digits_enough (suc x / 2) (y / 2) fuel more (omega (arith, h)) (omega (arith, g)) in
      rw half

differ_bits : (a b : ℕ) → a < 2 → b < 2 → differ a b ≡ (a + b) % 2
differ_bits zero zero p q = refl
differ_bits zero (suc zero) p q = refl
differ_bits zero (suc (suc b)) p q = absurd (omega arith)
differ_bits (suc zero) zero p q = refl
differ_bits (suc zero) (suc zero) p q = refl
differ_bits (suc zero) (suc (suc b)) p q = absurd (omega arith)
differ_bits (suc (suc a)) b p q = absurd (omega arith)

-- The lowest digit and the rest.
pub bit_xor_step : (a b : ℕ) → bit_xor a b ≡ bit_xor (a / 2) (b / 2) * 2 + (a + b) % 2
bit_xor_step zero b = simp bit_xor-bitwise (omega arith)
bit_xor_step (suc a) b = omega (
  arith,
  bit_xor-bitwise (suc a) b,
  bit_xor-bitwise (suc a / 2) (b / 2),
  digits_enough (λ y. y) differ (suc a / 2) (b / 2) a (suc a / 2) (omega arith) (le_refl _),
  differ_bits (suc a % 2) (b % 2) (omega arith) (omega arith),
)

-- The laws below go from the halves to the numbers: each has a bound that the halves stay under.
xor_comm_below : (n a b : ℕ) → a ≤ n → b ≤ n → bit_xor a b ≡ bit_xor b a
xor_comm_below zero a b p q = rw (zero_of p, zero_of q)
  where
    zero_of : {m : ℕ} → m ≤ 0 → m ≡ 0
    zero_of h = omega arith
xor_comm_below (suc n) a b p q = omega (
  arith,
  bit_xor_step a b,
  bit_xor_step b a,
  xor_comm_below n (a / 2) (b / 2) (omega arith) (omega arith),
)

pub bit_xor_comm : (a b : ℕ) → bit_xor a b ≡ bit_xor b a
bit_xor_comm a b = xor_comm_below (a + b) a b (omega arith) (omega arith)

pub zero-bit_xor : (b : ℕ) → bit_xor 0 b ≡ b
zero-bit_xor b = bit_xor-bitwise 0 b

pub bit_xor-zero : (a : ℕ) → bit_xor a 0 ≡ a
bit_xor-zero a = bit_xor_comm a 0 ∙ zero-bit_xor a

xor_self_below : (n a : ℕ) → a ≤ n → bit_xor a a ≡ 0
xor_self_below zero zero p = zero-bit_xor 0
xor_self_below zero (suc a) p = absurd (omega arith)
xor_self_below (suc n) a p = omega (arith, bit_xor_step a a, xor_self_below n (a / 2) (omega arith))

pub bit_xor_self : (a : ℕ) → bit_xor a a ≡ 0
bit_xor_self a = xor_self_below a a (le_refl a)

-- Halves of a combination.
pub half-bit_xor : (a b : ℕ) → bit_xor a b / 2 ≡ bit_xor (a / 2) (b / 2)
half-bit_xor a b = omega (arith, bit_xor_step a b)

pub parity-bit_xor : (a b : ℕ) → bit_xor a b % 2 ≡ (a + b) % 2
parity-bit_xor a b = omega (arith, bit_xor_step a b)

xor_assoc_below :
    (n a b c : ℕ) → a ≤ n → b ≤ n → c ≤ n → bit_xor (bit_xor a b) c ≡ bit_xor a (bit_xor b c)
xor_assoc_below zero zero b c p q r =
    ap (λ t. bit_xor t c) (zero-bit_xor b) ∙ sym (zero-bit_xor (bit_xor b c))
xor_assoc_below zero (suc a) b c p q r = absurd (omega arith)
xor_assoc_below (suc n) a b c p q r = omega (
  arith,
  bit_xor_step (bit_xor a b) c,
  bit_xor_step a (bit_xor b c),
  parity-bit_xor a b,
  parity-bit_xor b c,
  ap (λ t. bit_xor t (c / 2)) (half-bit_xor a b),
  ap (λ t. bit_xor (a / 2) t) (half-bit_xor b c),
  xor_assoc_below n (a / 2) (b / 2) (c / 2) (omega arith) (omega arith) (omega arith),
)

pub bit_xor_assoc : (a b c : ℕ) → bit_xor (bit_xor a b) c ≡ bit_xor a (bit_xor b c)
bit_xor_assoc a b c = xor_assoc_below (a + b + c) a b c (omega arith) (omega arith) (omega arith)

-- Combining a number twice brings the first one back.
pub bit_xor_cancel : (a b : ℕ) → bit_xor (bit_xor a b) b ≡ a
bit_xor_cancel a b = bit_xor_assoc a b b ∙ ap (bit_xor a) (bit_xor_self b) ∙ bit_xor-zero a

-- The last number can be taken off.
pub bit_xor_inj : (a b c : ℕ) → bit_xor a c ≡ bit_xor b c → a ≡ b
bit_xor_inj a b c h = sym (bit_xor_cancel a c) ∙ ap (λ t. bit_xor t c) h ∙ bit_xor_cancel b c

mul_two_pow : (q k : ℕ) → q * 2 ^ suc k ≡ 2 * (q * 2 ^ k)
mul_two_pow q k = omega (arith, ap (λ (t : ℕ). q * t) (pow-suc 2 k))

-- Numbers in two fields, the lower of `k` bits, are combined field by field.
pub bit_xor_fields :
    (k a b c d : ℕ)
    → c < 2 ^ k
    → d < 2 ^ k
    → (bit_xor (a * 2 ^ k + c) (b * 2 ^ k + d) ≡ bit_xor a b * 2 ^ k + bit_xor c d)
      × (bit_xor c d < 2 ^ k)
bit_xor_fields zero a b c d p q =
    let ec : c ≡ 0 = omega arith in
    let ed : d ≡ 0 = omega arith in
    let ea : a * 2 ^ 0 + c ≡ a = omega arith in
    let eb : b * 2 ^ 0 + d ≡ b = omega arith in
    let e : bit_xor c d ≡ 0 = ap₂ bit_xor ec ed ∙ zero-bit_xor 0 in
    (ap₂ bit_xor ea eb ∙ omega (arith, e), omega (arith, e))
bit_xor_fields (suc k) a b c d p q =
    let (sum, small) =
      bit_xor_fields k a b (c / 2) (d / 2) (omega (arith, pow-suc 2 k))
        (omega (arith, pow-suc 2 k)) in
    let ha : (a * 2 ^ suc k + c) / 2 ≡ a * 2 ^ k + c / 2 = omega (arith, mul_two_pow a k) in
    let hb : (b * 2 ^ suc k + d) / 2 ≡ b * 2 ^ k + d / 2 = omega (arith, mul_two_pow b k) in
    let whole : bit_xor ((a * 2 ^ suc k + c) / 2) ((b * 2 ^ suc k + d) / 2)
        ≡ bit_xor a b * 2 ^ k + bit_xor (c / 2) (d / 2) =
      ap₂ bit_xor ha hb ∙ sum in
    (
      omega (
        arith,
        bit_xor_step (a * 2 ^ suc k + c) (b * 2 ^ suc k + d),
        bit_xor_step c d,
        whole,
        mul_two_pow a k,
        mul_two_pow b k,
        mul_two_pow (bit_xor a b) k,
      ),
      omega (arith, bit_xor_step c d, small, pow-suc 2 k),
    )

-- Numbers of `k` bits give a number of `k` bits.
pub bit_xor-lt : (k c d : ℕ) → c < 2 ^ k → d < 2 ^ k → bit_xor c d < 2 ^ k
bit_xor-lt k c d p q = (bit_xor_fields k 0 0 c d p q).1

-- The lowest digit of `bit_or`, and fields that do not overlap.
bit_or_step : (x y : ℕ) → bit_or x y ≡ max (x % 2) (y % 2) + 2 * bit_or (x / 2) (y / 2)
bit_or_step zero y = simp bit_or-bitwise (omega arith)
bit_or_step (suc x) y = omega (
  arith,
  digits_enough (λ z. z) max (suc x / 2) (y / 2) x (suc x / 2) (omega arith) (le_refl _),
  bit_or-bitwise (suc x) y,
  bit_or-bitwise (suc x / 2) (y / 2),
)

or_zero_below : (n a : ℕ) → a ≤ n → bit_or a 0 ≡ a
or_zero_below zero zero p = bit_or-bitwise 0 0
or_zero_below zero (suc a) p = absurd (omega arith)
or_zero_below (suc n) a p = omega (arith, bit_or_step a 0, or_zero_below n (a / 2) (omega arith))

-- `(q << k) | r` is a sum where `r` has `k` bits.
pub bit_or_shifted : (k q r : ℕ) → r < 2 ^ k → bit_or (q * 2 ^ k) r ≡ q * 2 ^ k + r
bit_or_shifted zero q r h =
    let er : r ≡ 0 = omega arith in
    ap (bit_or (q * 2 ^ 0)) er ∙ or_zero_below _ (q * 2 ^ 0) (le_refl _) ∙ omega (arith, er)
bit_or_shifted (suc k) q r h =
    let half : q * 2 ^ suc k / 2 ≡ q * 2 ^ k = omega (arith, mul_two_pow q k) in
    omega (
      arith,
      bit_or_step (q * 2 ^ suc k) r,
      ap (λ t. bit_or t (r / 2)) half,
      bit_or_shifted k q (r / 2) (omega (arith, pow-suc 2 k)),
      mul_two_pow q k,
    )

-- Numbers in two fields, the lower of `k` bits, are joined field by field.
pub bit_or_fields :
    (k a b c d : ℕ)
    → c < 2 ^ k
    → d < 2 ^ k
    → bit_or (a * 2 ^ k + c) (b * 2 ^ k + d) ≡ bit_or a b * 2 ^ k + bit_or c d
bit_or_fields zero a b c d p q =
    let ec : c ≡ 0 = omega arith in
    let ed : d ≡ 0 = omega arith in
    let ea : a * 2 ^ 0 + c ≡ a = omega arith in
    let eb : b * 2 ^ 0 + d ≡ b = omega arith in
    let e : bit_or c d ≡ 0 = ap₂ bit_or ec ed ∙ or_zero_below 0 0 (le_refl 0) in
    ap₂ bit_or ea eb ∙ omega (arith, e)
bit_or_fields (suc k) a b c d p q =
    let halves : bit_or (a * 2 ^ k + c / 2) (b * 2 ^ k + d / 2)
        ≡ bit_or a b * 2 ^ k + bit_or (c / 2) (d / 2) =
      bit_or_fields k a b (c / 2) (d / 2) (omega (arith, pow-suc 2 k))
        (omega (arith, pow-suc 2 k)) in
    let ha : (a * 2 ^ suc k + c) / 2 ≡ a * 2 ^ k + c / 2 = omega (arith, mul_two_pow a k) in
    let hb : (b * 2 ^ suc k + d) / 2 ≡ b * 2 ^ k + d / 2 = omega (arith, mul_two_pow b k) in
    let la : (a * 2 ^ suc k + c) % 2 ≡ c % 2 = omega (arith, mul_two_pow a k) in
    let lb : (b * 2 ^ suc k + d) % 2 ≡ d % 2 = omega (arith, mul_two_pow b k) in
    omega (
      arith,
      bit_or_step (a * 2 ^ suc k + c) (b * 2 ^ suc k + d),
      bit_or_step c d,
      ap₂ max la lb,
      ap₂ bit_or ha hb ∙ halves,
      mul_two_pow (bit_or a b) k,
    )

-- `x | 0x80000000` sets one bit and leaves the others.
pub bit_or_top : (x : ℕ) → bit_or x (2 ^ 31) ≡ x / 2 ^ 32 * 2 ^ 32 + 2 ^ 31 + x % 2 ^ 31
bit_or_top x =
    let q = x / 2 ^ 31 in
    let r = x % 2 ^ 31 in
    let parts : q * 2 ^ 31 + r ≡ x = omega arith in
    let joined : bit_or (q * 2 ^ 31 + r) (1 * 2 ^ 31 + 0) ≡ bit_or q 1 * 2 ^ 31 + bit_or r 0 =
      bit_or_fields 31 q 1 r 0 (omega arith) (omega arith) in
    let whole : bit_or x (2 ^ 31) ≡ bit_or q 1 * 2 ^ 31 + bit_or r 0 =
      ap (λ t. bit_or t (2 ^ 31)) (sym parts) ∙ joined in
    let high : bit_or q 1 ≡ 1 + 2 * (q / 2) =
      omega (arith, bit_or_step q 1, or_zero_below (q / 2) (q / 2) (le_refl _)) in
    omega (arith, whole, high, or_zero_below r r (le_refl _))

-- The highest bit of a byte, set in a byte.
pub bit_or_high : (x : ℕ) → x < 256 → bit_or x 0x80 < 256
bit_or_high x h =
    let parts : x / 128 * 2 ^ 7 + x % 128 ≡ x = omega arith in
    let joined : bit_or (x / 128 * 2 ^ 7 + x % 128) (1 * 2 ^ 7 + 0)
        ≡ bit_or (x / 128) 1 * 2 ^ 7 + bit_or (x % 128) 0 =
      bit_or_fields 7 (x / 128) 1 (x % 128) 0 (omega arith) (omega arith) in
    omega (
      arith,
      ap (λ t. bit_or t 0x80) (sym parts) ∙ joined,
      bit_or_step (x / 128) 1,
      or_zero_below (x / 128 / 2) (x / 128 / 2) (le_refl _),
      or_zero_below (x % 128) (x % 128) (le_refl _),
    )
