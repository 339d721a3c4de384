-- ===== src/Address/Linear.antt =====
-- The checksum's loop is linear over exclusive or.
use native.Mathlib.Nat.{pow-succ', one-le-pow}
use noxipher.Prelude.{
  ℕ, suc, ◌+◌, ◌*◌, ◌/◌, ◌%◌, ◌^◌, ◌<◌, ◌≤◌, ◌≡◌, refl, sym, ap, ap₂, ◌∙◌, arith, List, [], ◌∷◌,
  All, bit_xor, length, replicate, ◌==◌, if◌then◌else◌,
}
use noxipher.Prelude.Bits.{
  bit_xor_comm, bit_xor_assoc, zero-bit_xor, bit_xor-zero, bit_xor_fields, bit_xor-lt,
}
use noxipher.Address.Polymod.{generator, mix_generators, polymod_step, polymod_from}

xor_right_comm : (a b c : ℕ) → bit_xor (bit_xor a b) c ≡ bit_xor (bit_xor a c) b
xor_right_comm a b c =
    bit_xor_assoc a b c ∙ ap (bit_xor a) (bit_xor_comm b c) ∙ sym (bit_xor_assoc a c b)

pub mix_generators_xor :
    (gs : List ℕ) (i top a b : ℕ)
    → mix_generators gs i top (bit_xor a b) ≡ bit_xor (mix_generators gs i top a) b
unfolding mix_generators
mix_generators_xor [] i top a b = refl
mix_generators_xor (g ∷ gs) i top a b =
    let e : ℕ = if top / 2 ^ i % 2 == 1 then g else 0 in
    ap (mix_generators gs (i + 1) top) (xor_right_comm a b e)
    ∙ mix_generators_xor gs (i + 1) top (bit_xor a e) b

-- A round adds its value to the round with the value 0.
pub polymod_step_value : (s v : ℕ) → polymod_step s v ≡ bit_xor (polymod_step s 0) v
unfolding polymod_step
polymod_step_value s v =
    mix_generators_xor generator 0 (s / 2 ^ 25) (s % 2 ^ 25 * 2 ^ 5) v
    ∙ ap (λ t. bit_xor (mix_generators generator 0 (s / 2 ^ 25) t) v)
        (sym (bit_xor-zero (s % 2 ^ 25 * 2 ^ 5)))

-- What is below bit 25 moves up by five places and meets no generator.
shift_xor : (c w : ℕ) → bit_xor c w * 32 ≡ bit_xor (c * 32) (w * 32)
shift_xor c w =
    let (e, _) = bit_xor_fields 5 c w 0 0 (omega arith) (omega arith) in
    let l : c * 2 ^ 5 + 0 ≡ c * 32 = omega arith in
    let r : w * 2 ^ 5 + 0 ≡ w * 32 = omega arith in
    sym (ap₂ bit_xor (sym l) (sym r) ∙ e ∙ omega (arith, zero-bit_xor 0))

pub join_low : (w c : ℕ) → c < 32 → bit_xor (w * 32) c ≡ w * 32 + c
join_low w c h =
    let (e, _) = bit_xor_fields 5 w 0 0 c (omega arith) h in
    let l : w * 32 ≡ w * 2 ^ 5 + 0 = omega arith in
    let r : c ≡ 0 * 2 ^ 5 + c = omega arith in
    ap₂ bit_xor l r ∙ e ∙ omega (arith, zero-bit_xor c, bit_xor-zero w)

pub polymod_step_low :
    (s w : ℕ) → w < 2 ^ 25 → polymod_step (bit_xor s w) 0 ≡ bit_xor (polymod_step s 0) (w * 32)
unfolding polymod_step
polymod_step_low s w h =
    let (e, small) = bit_xor_fields 25 (s / 2 ^ 25) 0 (s % 2 ^ 25) w (omega arith) h in
    let whole : bit_xor s w ≡ s / 2 ^ 25 * 2 ^ 25 + bit_xor (s % 2 ^ 25) w =
      ap₂ bit_xor (omega arith) (omega arith)
      ∙ e
      ∙ ap (λ t. t * 2 ^ 25 + bit_xor (s % 2 ^ 25) w) (bit_xor-zero (s / 2 ^ 25)) in
    let top : bit_xor s w / 2 ^ 25 ≡ s / 2 ^ 25 = omega (arith, whole, small) in
    let low : bit_xor s w % 2 ^ 25 ≡ bit_xor (s % 2 ^ 25) w = omega (arith, whole, small) in
    ap₂ (mix_generators generator 0) top (
      bit_xor-zero _
      ∙ ap (λ t. t * 2 ^ 5) low
      ∙ shift_xor (s % 2 ^ 25) w
      ∙ ap (λ t. bit_xor t (w * 32)) (sym (bit_xor-zero (s % 2 ^ 25 * 2 ^ 5))))
    ∙ mix_generators_xor generator 0 (s / 2 ^ 25) _ (w * 32)

-- The number that values of five bits write behind `w`, highest first.
abbrev pub value32 : ℕ → List ℕ → ℕ
value32 w [] = w
value32 w (c ∷ cs) = value32 (w * 32 + c) cs

-- Values that come in after `s` change the result by the number that they write, as long as that
-- has 30 bits.
pub polymod_from_values :
    (cs : List ℕ) (s w : ℕ)
    → All (λ c. c < 32) cs
    → suc w * 32 ^ length cs ≤ 2 ^ 30
    → polymod_from (bit_xor s w) cs
      ≡ bit_xor (polymod_from s (replicate (length cs) 0)) (value32 w cs)
unfolding polymod_from
polymod_from_values [] s w h small = refl
polymod_from_values (c ∷ cs) s w h small =
    let n = 32 ^ length cs in
    let bound : suc w * 32 * n ≤ 2 ^ 30 =
      omega (arith, small, ap (λ (t : ℕ). suc w * t) (pow-succ' 32 (length cs))) in
    let next : suc (w * 32 + c) * n ≤ 2 ^ 30 = grind (arith, bound, h.0) in
    let fits : w < 2 ^ 25 = grind (arith, bound, one-le-pow (length cs) 32) in
    ap (λ t. polymod_from t cs)
      (polymod_step_value (bit_xor s w) c
        ∙ ap (λ t. bit_xor t c) (polymod_step_low s w fits)
        ∙ bit_xor_assoc (polymod_step s 0) (w * 32) c
        ∙ ap (bit_xor (polymod_step s 0)) (join_low w c h.0))
    ∙ polymod_from_values cs (polymod_step s 0) (w * 32 + c) h.1 next

-- A round ends below 2 ^ 30.
mix_generators-lt :
    (gs : List ℕ) (i top chk : ℕ)
    → All (λ g. g < 2 ^ 30) gs
    → chk < 2 ^ 30
    → mix_generators gs i top chk < 2 ^ 30
unfolding mix_generators
mix_generators-lt [] i top chk h p = p
mix_generators-lt (g ∷ gs) i top chk h p =
    mix_generators-lt gs (i + 1) top _ h.1 (bit_xor-lt 30 chk _ p (ground arith))

pub polymod_step-lt : (s v : ℕ) → v < 2 ^ 30 → polymod_step s v < 2 ^ 30
unfolding polymod_step
polymod_step-lt s v h =
    mix_generators-lt generator 0 (s / 2 ^ 25) _ (omega arith)
      (bit_xor-lt 30 (s % 2 ^ 25 * 2 ^ 5) v (omega arith) h)

pub polymod_from-lt :
    (values : List ℕ) (s : ℕ)
    → All (λ v. v < 2 ^ 30) values
    → s < 2 ^ 30
    → polymod_from s values < 2 ^ 30
unfolding polymod_from
polymod_from-lt [] s h p = p
polymod_from-lt (v ∷ values) s h p = polymod_from-lt values _ h.1 (polymod_step-lt s v h.0)
