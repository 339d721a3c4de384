-- ===== src/Address/Regroup.antt =====
-- The loop of `_convertbits` keeps the number that the values write.
use native.Mathlib.Nat.{le_refl, mod-lt, div-eq_of_lt}
use noxipher.Prelude.{
  ℕ, zero, suc, ◌+◌, ◌-◌, ◌*◌, ◌/◌, ◌%◌, ◌^◌, ◌≤◌, ◌<◌, ◌≡◌, refl, ap, ap₂, subst, ◌∙◌, arith, inl,
  inr, true, List, [], ◌∷◌, ◌++◌, length, length-append, All, All-append, bit_or, leb, ◌==◌,
  Bool-cases, ==_iff,
}
use noxipher.Prelude.Bits.{bit_or_shifted}
use noxipher.Prelude.Radix.{
  pow_add, two_pow_pos, div_of_parts, mod_of_parts, mod_two_pow_add, low_bits_of_mod, radix_value,
  radix_value-snoc,
}
use noxipher.Core.Exceptions.{ok}
use noxipher.Address.ConvertBits.{emit, regroup}

-- After `taken` bits that write `value`: the values in `ret` and the `bits` low bits of `acc`.
pub record IsGrouped (tobits taken value acc bits : ℕ) (ret : List ℕ) : Type 0 where
  pub count : length ret * tobits + bits ≡ taken
  pub written : radix_value (2 ^ tobits) 0 ret * 2 ^ bits + acc % 2 ^ bits ≡ value
  pub digits : All (λ d. d < 2 ^ tobits) ret

module _ (tobits taken value acc : ℕ) (some_bits : 0 < tobits) where
  -- One round of the inner loop.
  emit_round :
      (bits : ℕ) (ret : List ℕ)
      → IsGrouped tobits taken value acc (bits + tobits) ret
      → IsGrouped tobits taken value acc bits (ret ++ (acc / 2 ^ bits % 2 ^ tobits ∷ []))
  emit_round bits ret g =
      let d = acc / 2 ^ bits % 2 ^ tobits in
      let v = radix_value (2 ^ tobits) 0 ret in
      let p = 2 ^ bits in
      let q = 2 ^ tobits in
      record {
        count =
            ap (λ (t : ℕ). t * tobits + bits) (length-append ret (d ∷ [])) ∙ omega (arith, g.count);
        written =
            ap (λ t. t * p + acc % p) (radix_value-snoc q 0 d ret)
            ∙ omega (
              arith,
              g.written,
              ap (λ (t : ℕ). v * t) (pow_add 2 bits tobits),
              mod_two_pow_add acc bits tobits,
            );
        digits =
            All-append (λ d. d < q) ret (d ∷ []) g.digits
              (mod-lt (acc / p) (two_pow_pos tobits), tt);
      }

  -- The inner loop ends with less than a value's bits left.
  pub emit-IsGrouped :
      (fuel bits : ℕ) (ret : List ℕ)
      → bits ≤ fuel
      → IsGrouped tobits taken value acc bits ret
      → let (bits', ret') = emit tobits fuel acc bits ret in
        IsGrouped tobits taken value acc bits' ret' × (bits' < tobits)
  unfolding emit
  emit-IsGrouped zero bits ret enough g = (g, omega arith)
  emit-IsGrouped (suc fuel) bits ret enough g = elim (Bool-cases (leb tobits bits)) [
    | inl more ↦
        let e : bits ≡ bits - tobits + tobits = ground arith in
        rw more (
          emit-IsGrouped fuel (bits - tobits) _ (ground arith) (
            emit_round (bits - tobits) ret
              (subst (λ b. IsGrouped tobits taken value acc b ret) e g)))
    | inr done ↦ rw done (g, ground arith)
  ]

module _ (frombits tobits : ℕ) (some_from : 0 < frombits) (some_to : 0 < tobits) where
  -- Taking in one value.
  take_value :
      (taken value acc bits v : ℕ) (ret : List ℕ)
      → v < 2 ^ frombits
      → bits < tobits
      → IsGrouped tobits taken value acc bits ret
      → let acc' = bit_or (acc * 2 ^ frombits) v % 2 ^ (frombits + tobits - 1) in
        IsGrouped tobits (taken + frombits) (value * 2 ^ frombits + v) acc' (bits + frombits) ret
  take_value taken value acc bits v ret small room g =
      let f = 2 ^ frombits in
      let x = acc * f + v in
      let r = radix_value (2 ^ tobits) 0 ret in
      let joined : bit_or (acc * f) v ≡ x = bit_or_shifted frombits acc v small in
      let e : x ≡ f * acc + v = omega arith in
      let high : x / f ≡ acc = ap (λ t. t / f) e ∙ div_of_parts f acc v small in
      let low : x % f ≡ v = ap (λ t. t % f) e ∙ mod_of_parts f acc v small in
      let swap : bits + frombits ≡ frombits + bits = omega arith in
      let kept : bit_or (acc * f) v % 2 ^ (frombits + tobits - 1) % 2 ^ (bits + frombits)
          ≡ f * (acc % 2 ^ bits) + v =
        ap (λ t. t % 2 ^ (frombits + tobits - 1) % 2 ^ (bits + frombits)) joined
        ∙ low_bits_of_mod x (bits + frombits) (frombits + tobits - 1) (omega arith)
        ∙ ap (λ t. x % 2 ^ t) swap
        ∙ mod_two_pow_add x frombits bits
        ∙ ap₂ (λ s t. f * (s % 2 ^ bits) + t) high low in
      record {
        count = omega (arith, g.count);
        written =
            ap (λ (t : ℕ). r * 2 ^ (bits + frombits) + t) kept
            ∙ omega (
              arith,
              ap (λ (t : ℕ). r * t) (pow_add 2 bits frombits),
              ap (λ (t : ℕ). t * f) g.written,
            );
        digits = g.digits;
      }

  -- The whole loop: it raises nothing on values of `frombits` bits.
  pub regroup-IsGrouped :
      (values : List ℕ) (taken value acc bits : ℕ) (ret : List ℕ)
      → All (λ v. v < 2 ^ frombits) values
      → bits < tobits
      → IsGrouped tobits taken value acc bits ret
      → (acc' : ℕ) × (bits' : ℕ) × (ret' : List ℕ) × (regroup frombits tobits values acc bits ret
          ≡ ok (acc', bits', ret'))
        × (bits' < tobits)
        × IsGrouped tobits
            (taken + length values * frombits)
            (radix_value (2 ^ frombits) value values)
            acc'
            bits'
            ret'
  unfolding regroup
  regroup-IsGrouped [] taken value acc bits ret h room g =
      let e : taken ≡ taken + 0 * frombits = omega arith in
      (acc, bits, ret, refl, room, subst (λ t. IsGrouped tobits t value acc bits ret) e g)
  regroup-IsGrouped (v ∷ values) taken value acc bits ret h room g =
      let acc' = bit_or (acc * 2 ^ frombits) v % 2 ^ (frombits + tobits - 1) in
      let value' = value * 2 ^ frombits + v in
      let out = emit tobits (bits + frombits) acc' (bits + frombits) ret in
      let (g', room') =
        emit-IsGrouped tobits (taken + frombits) value' acc' some_to (bits + frombits)
          (bits + frombits) ret (le_refl _) (take_value taken value acc bits v ret h.0 room g) in
      let (a, b, r, e, room'', g'') =
        regroup-IsGrouped values (taken + frombits) value' acc' out.0 out.1 h.1 room' g' in
      let total : taken + frombits + length values * frombits
          ≡ taken + length (v ∷ values) * frombits =
        grind arith in
      let fits : (v / 2 ^ frombits == 0) ≡ true = (==_iff _ _).1 (div-eq_of_lt h.0) in
      (
        a,
        b,
        r,
        rw fits e,
        room'',
        subst (λ t. IsGrouped tobits t (radix_value (2 ^ frombits) value' values) a b r) total g'',
      )
