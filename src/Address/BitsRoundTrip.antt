-- ===== src/Address/BitsRoundTrip.antt =====
-- `_convertbits` from wide to narrow values with padding, and back without.
use native.Mathlib.Nat.{mod-lt}
use noxipher.Prelude.{
  ℕ, zero, suc, ◌+◌, ◌-◌, ◌*◌, ◌/◌, ◌%◌, ◌^◌, ◌≤◌, ◌<◌, ◌≡◌, refl, ap, ap₂, subst, ◌∙◌, arith, true,
  false, List, [], ◌∷◌, ◌++◌, length, length-append, All, All-append, leb, ◌==◌,
}
use noxipher.Prelude.Radix.{
  pow_add, two_pow_pos, div_of_parts, mod_of_parts, mod_two_pow_add, radix_value, radix_value-snoc,
  radix_value_injective, split_digit,
}
use noxipher.Core.Exceptions.{ok, ◌>>=◌}
use noxipher.Address.ConvertBits.{finish_bits, convertbits}
use noxipher.Address.Regroup.{IsGrouped, regroup-IsGrouped}

-- What `_convertbits` with padding returns: the values write the input's number, moved up by less
-- than a value's bits.
pub record IsPadded (tobits taken value pad : ℕ) (ret : List ℕ) : Type 0 where
  pub short : pad < tobits
  pub count : length ret * tobits ≡ taken + pad
  pub written : radix_value (2 ^ tobits) 0 ret ≡ value * 2 ^ pad
  pub digits : All (λ d. d < 2 ^ tobits) ret

-- The bits that are left over, moved to the top of a value.
top_of_value :
    (tobits acc bits : ℕ)
    → bits ≤ tobits
    → acc * 2 ^ (tobits - bits) % 2 ^ tobits ≡ acc % 2 ^ bits * 2 ^ (tobits - bits)
top_of_value tobits acc bits h =
    let k = tobits - bits in
    let p = 2 ^ k in
    let e : tobits ≡ k + bits = omega arith in
    let x : acc * p ≡ p * acc + 0 = omega arith in
    let high : acc * p / p ≡ acc = ap (λ t. t / p) x ∙ div_of_parts p acc 0 (two_pow_pos k) in
    let low : acc * p % p ≡ 0 = ap (λ t. t % p) x ∙ mod_of_parts p acc 0 (two_pow_pos k) in
    ap (λ t. acc * p % 2 ^ t) e
    ∙ mod_two_pow_add (acc * p) k bits
    ∙ ap₂ (λ s t. p * (s % 2 ^ bits) + t) high low
    ∙ omega arith

module _ (tobits taken value acc : ℕ) where
  finish_bits-IsPadded :
      (frombits bits : ℕ) (ret : List ℕ)
      → bits < tobits
      → IsGrouped tobits taken value acc bits ret
      → (pad : ℕ) × (out : List ℕ) × (finish_bits frombits tobits true (acc, bits, ret) ≡ ok out)
        × IsPadded tobits taken value pad out
  unfolding finish_bits
  finish_bits-IsPadded frombits zero ret room g =
      let none_left : acc % 2 ^ 0 ≡ 0 = omega arith in
      (
        0,
        ret,
        refl,
        record {
          short = room;
          count = omega (arith, g.count);
          written = omega (arith, g.written);
          digits = g.digits;
        },
      )
  finish_bits-IsPadded frombits (suc b) ret room g =
      let bits = suc b in
      let k = tobits - bits in
      let d = acc * 2 ^ k % 2 ^ tobits in
      let v = radix_value (2 ^ tobits) 0 ret in
      let e : tobits ≡ bits + k = omega arith in
      let some_left : (suc b == 0) ≡ false = ground arith in
      (
        k,
        ret ++ (d ∷ []),
        rw some_left,
        record {
          short = omega arith;
          count = ap (λ (t : ℕ). t * tobits) (length-append ret (d ∷ [])) ∙ omega (arith, g.count);
          written =
              radix_value-snoc (2 ^ tobits) 0 d ret
              ∙ ap (λ t. v * 2 ^ t + d) e
              ∙ omega (
                arith,
                ap (λ (t : ℕ). v * t) (pow_add 2 bits k),
                top_of_value tobits acc bits (omega arith),
                ap (λ (t : ℕ). t * 2 ^ k) g.written,
              );
          digits =
              All-append (λ d. d < 2 ^ tobits) ret (d ∷ []) g.digits
                (mod-lt (acc * 2 ^ k) (two_pow_pos tobits), tt);
        },
      )

-- With padding every list of values of `frombits` bits is converted.
pub convertbits-IsPadded :
    (values : List ℕ) (frombits tobits : ℕ)
    → 0 < frombits
    → 0 < tobits
    → All (λ v. v < 2 ^ frombits) values
    → (pad : ℕ) × (out : List ℕ) × (convertbits values frombits tobits true ≡ ok out)
      × IsPadded tobits (length values * frombits) (radix_value (2 ^ frombits) 0 values) pad out
unfolding convertbits
convertbits-IsPadded values frombits tobits pf pt h =
    let start : IsGrouped tobits 0 0 0 0 [] = record {
      count = omega arith;
      written = omega arith;
      digits = tt;
    } in
    let (acc, bits, ret, e, room, g) =
      regroup-IsGrouped frombits tobits pf pt values 0 0 0 0 [] h pt start in
    let (pad, out, e', p) =
      finish_bits-IsPadded tobits (0 + length values * frombits)
        (radix_value (2 ^ frombits) 0 values) acc frombits bits ret room g in
    (
      pad,
      out,
      rw e e',
      record {
        short = p.short;
        count = omega (arith, p.count);
        written = p.written;
        digits = p.digits;
      },
    )

-- What was converted with padding to narrower values is converted back.
pub convertbits_back :
    (values out : List ℕ) (frombits tobits pad : ℕ)
    → 0 < tobits
    → tobits ≤ frombits
    → All (λ v. v < 2 ^ frombits) values
    → IsPadded tobits (length values * frombits) (radix_value (2 ^ frombits) 0 values) pad out
    → convertbits out tobits frombits false ≡ ok values
unfolding convertbits
convertbits_back values out frombits tobits pad pt wide h p =
    let start : IsGrouped frombits 0 0 0 0 [] = record {
      count = omega arith;
      written = omega arith;
      digits = tt;
    } in
    let (acc, bits, ret, e, room, g) =
      regroup-IsGrouped tobits frombits pt (omega arith) out 0 0 0 0 [] p.digits (omega arith)
        start in
    let v = radix_value (2 ^ frombits) 0 values in
    let (counts, rest) =
      split_digit frombits (length ret) bits (length values) pad room (omega (arith, p.short))
        (omega (arith, g.count, p.count)) in
    let written : radix_value (2 ^ frombits) 0 ret * 2 ^ pad + acc % 2 ^ pad ≡ v * 2 ^ pad + 0 =
      subst (λ b. radix_value (2 ^ frombits) 0 ret * 2 ^ b + acc % 2 ^ b ≡ v * 2 ^ pad + 0) rest
        (omega (arith, g.written, p.written)) in
    let (same, none_set) =
      split_digit (2 ^ pad) _ (acc % 2 ^ pad) v 0 (mod-lt acc (two_pow_pos pad)) (two_pow_pos pad)
        written in
    let clean : acc * 2 ^ (frombits - bits) % 2 ^ frombits ≡ 0 =
      top_of_value frombits acc bits (omega arith)
      ∙ ap (λ b. acc % 2 ^ b * 2 ^ (frombits - bits)) rest
      ∙ ap (λ (t : ℕ). t * 2 ^ (frombits - bits)) none_set
      ∙ omega arith in
    let few : leb tobits bits ≡ false = ground (arith, rest, p.short) in
    rw e (
      unfold finish_bits in
      rw (few, clean)
        (ap ok (radix_value_injective (2 ^ frombits) 0 0 ret values g.digits h counts same).1))

-- A list of values that is regrouped, with padding, to values of no more bits comes back when it
-- is regrouped without padding; neither call raises.
pub convertbits-round_trip :
    (values : List ℕ) (frombits tobits : ℕ)
    → 0 < tobits
    → tobits ≤ frombits
    → All (λ v. v < 2 ^ frombits) values
    → (convertbits values frombits tobits true >>= (λ out. convertbits out tobits frombits false))
      ≡ ok values
convertbits-round_trip values frombits tobits pt wide h =
    let (pad, out, e, p) = convertbits-IsPadded values frombits tobits (omega arith) pt h in
    rw e (convertbits_back values out frombits tobits pad pt wide h p)
