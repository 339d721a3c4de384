-- ===== src/Address/Checksum.antt =====
-- What the checksum promises: a created one is accepted, and one wrong value is always noticed.
use noxipher.Prelude.{
  ℕ, ◌+◌, ◌*◌, ◌/◌, ◌%◌, ◌^◌, ◌<◌, ◌≡◌, ◌≢◌, refl, sym, ap, ap₂, ◌∙◌, arith, Bool, true, false, not,
  ◌||◌, List, [], ◌∷◌, ◌++◌, map, All, All-append, bit_xor, length, ◌==◌, ==_iff, append_assoc,
  holds_below, holds_below-test, Bool-cases, inl, inr,
}
use noxipher.Prelude.Bits.{
  bit_xor_comm, bit_xor_assoc, zero-bit_xor, bit_xor-zero, bit_xor_self, bit_xor_inj,
  bit_xor_fields, bit_xor-lt,
}
use noxipher.Address.Polymod.{
  bech32m_const, generator, mix_generators, polymod_step, polymod_from, bech32_polymod,
  bech32_hrp_expand, checksum_values, bech32m_create_checksum, bech32m_verify_checksum,
}
use noxipher.Address.Linear.{
  mix_generators_xor, polymod_step_value, value32, polymod_from_values, polymod_step-lt,
}

abbrev pub IsValue5 : ℕ → Type 0
IsValue5 v = v < 32

-- The code points of a prefix; Python's go up to 0x10FFFF.
abbrev pub IsCode : ℕ → Type 0
IsCode c = c < 2 ^ 30

pub polymod_from-append :
    (xs ys : List ℕ) (s : ℕ) → polymod_from s (xs ++ ys) ≡ polymod_from (polymod_from s xs) ys
unfolding polymod_from
polymod_from-append [] ys s = refl
polymod_from-append (x ∷ xs) ys s = polymod_from-append xs ys (polymod_step s x)

pub length-checksum_values : (p : ℕ) → length (checksum_values p) ≡ 6
unfolding checksum_values
length-checksum_values p = refl

pub checksum_values-IsValue5 : (p : ℕ) → All IsValue5 (checksum_values p)
unfolding checksum_values
checksum_values-IsValue5 p = omega arith

checksum_values_written : (p : ℕ) → p < 2 ^ 30 → value32 0 (checksum_values p) ≡ p
unfolding checksum_values
checksum_values_written p h = omega arith

zeros_end-lt : (s : ℕ) → polymod_from s (0 ∷ 0 ∷ 0 ∷ 0 ∷ 0 ∷ 0 ∷ []) < 2 ^ 30
unfolding polymod_from
zeros_end-lt s = polymod_step-lt _ 0 (omega arith)

-- The six values that are computed from a run on six zeros turn its result into the constant.
close_checksum :
    (s : ℕ)
    → let zeros : List ℕ = 0 ∷ 0 ∷ 0 ∷ 0 ∷ 0 ∷ 0 ∷ [] in
      polymod_from s (checksum_values (bit_xor (polymod_from s zeros) bech32m_const))
      ≡ bech32m_const
close_checksum s =
    let zeros : List ℕ = 0 ∷ 0 ∷ 0 ∷ 0 ∷ 0 ∷ 0 ∷ [] in
    let r = polymod_from s zeros in
    let p = bit_xor r bech32m_const in
    let small : p < 2 ^ 30 = bit_xor-lt 30 r bech32m_const (zeros_end-lt s) (omega arith) in
    ap (λ t. polymod_from t (checksum_values p)) (sym (bit_xor-zero s))
    ∙ polymod_from_values (checksum_values p) s 0 (checksum_values-IsValue5 p)
        (unfold checksum_values in omega arith)
    ∙ unfold checksum_values in
      ap (bit_xor r) (checksum_values_written p small)
      ∙ sym (bit_xor_assoc r r bech32m_const)
      ∙ ap (λ t. bit_xor t bech32m_const) (bit_xor_self r)
      ∙ zero-bit_xor bech32m_const

-- The checksum that is created for a prefix and values is accepted behind them.
pub bech32m_verify_checksum-create :
    (hrp values : List ℕ)
    → bech32m_verify_checksum hrp (values ++ bech32m_create_checksum hrp values) ≡ true
unfolding bech32m_verify_checksum bech32m_create_checksum bech32_polymod
bech32m_verify_checksum-create hrp values =
    let front = bech32_hrp_expand hrp ++ values in
    let s = polymod_from 1 front in
    let zeros : List ℕ = 0 ∷ 0 ∷ 0 ∷ 0 ∷ 0 ∷ 0 ∷ [] in
    (==_iff _ _).1 (
      ap (polymod_from 1) (sym (append_assoc (bech32_hrp_expand hrp) values _))
      ∙ ap (λ t. polymod_from 1 (front ++ checksum_values (bit_xor t bech32m_const)))
          (polymod_from-append front zeros 1)
      ∙ polymod_from-append front _ 1
      ∙ close_checksum s)

-- The part of a round that the five highest bits decide.
abbrev feedback : ℕ → ℕ
feedback top = mix_generators generator 0 top 0

-- Whether two feedbacks that agree on their lowest five bits come from the same five bits.
agree_alike : ℕ → ℕ → Bool
agree_alike a b = not (feedback a % 32 == feedback b % 32) || (a == b)

feedback_table : holds_below (λ n. agree_alike (n / 32) (n % 32)) 1024 ≡ true
unfolding holds_below mix_generators agree_alike
feedback_table = refl

feedback_injective : (a b : ℕ) → a < 32 → b < 32 → feedback a % 32 ≡ feedback b % 32 → a ≡ b
unfolding agree_alike
feedback_injective a b p q e =
    let n = a * 32 + b in
    let checked : agree_alike (n / 32) (n % 32) ≡ true =
      holds_below-test (λ n. agree_alike (n / 32) (n % 32)) 1024 n feedback_table (omega arith) in
    let high : n / 32 ≡ a = omega arith in
    let low : n % 32 ≡ b = omega arith in
    let alike : agree_alike a b ≡ true = sym (ap₂ agree_alike high low) ∙ checked in
    ground (arith, alike)

-- A round with the value 0: the lower 25 bits move up, and the feedback is added.
step_parts :
    (s : ℕ)
    → polymod_step s 0
      ≡ bit_xor (s % 2 ^ 25) (feedback (s / 2 ^ 25) / 32) * 32 + feedback (s / 2 ^ 25) % 32
unfolding polymod_step
step_parts s =
    let f = feedback (s / 2 ^ 25) in
    let low = s % 2 ^ 25 * 2 ^ 5 in
    let (e, _) = bit_xor_fields 5 (f / 32) (s % 2 ^ 25) (f % 32) 0 (omega arith) (omega arith) in
    let l : f ≡ f / 32 * 2 ^ 5 + f % 32 = omega arith in
    let r : low ≡ s % 2 ^ 25 * 2 ^ 5 + 0 = omega arith in
    ap (mix_generators generator 0 (s / 2 ^ 25)) (bit_xor-zero low ∙ sym (zero-bit_xor low))
    ∙ mix_generators_xor generator 0 (s / 2 ^ 25) 0 low
    ∙ ap₂ bit_xor l r
    ∙ e
    ∙ omega (arith, bit_xor_comm (f / 32) (s % 2 ^ 25), bit_xor-zero (f % 32))

-- A round keeps different states of 30 bits different.
step_injective : (s t : ℕ) → s < 2 ^ 30 → t < 2 ^ 30 → polymod_step s 0 ≡ polymod_step t 0 → s ≡ t
step_injective s t hs ht e =
    let fs = feedback (s / 2 ^ 25) in
    let ft = feedback (t / 2 ^ 25) in
    let tops : s / 2 ^ 25 ≡ t / 2 ^ 25 =
      feedback_injective (s / 2 ^ 25) (t / 2 ^ 25) (omega arith) (omega arith)
        (omega (arith, step_parts s, step_parts t, e)) in
    let same : ft ≡ fs = ap feedback (sym tops) in
    let lows : bit_xor (s % 2 ^ 25) (fs / 32) ≡ bit_xor (t % 2 ^ 25) (fs / 32) =
      omega (arith, step_parts s, step_parts t, e, same)
      ∙ ap (λ u. bit_xor (t % 2 ^ 25) (u / 32)) same in
    omega (arith, tops, bit_xor_inj (s % 2 ^ 25) (t % 2 ^ 25) (fs / 32) lows)

polymod_step_injective :
    (s t v : ℕ) → s < 2 ^ 30 → t < 2 ^ 30 → polymod_step s v ≡ polymod_step t v → s ≡ t
polymod_step_injective s t v hs ht e =
    step_injective s t hs ht
      (bit_xor_inj _ _ v (sym (polymod_step_value s v) ∙ e ∙ polymod_step_value t v))

polymod_from_injective :
    (values : List ℕ) (s t : ℕ)
    → All IsValue5 values
    → s < 2 ^ 30
    → t < 2 ^ 30
    → polymod_from s values ≡ polymod_from t values
    → s ≡ t
unfolding polymod_from
polymod_from_injective [] s t h p q e = e
polymod_from_injective (v ∷ values) s t h p q e =
    let small : v < 2 ^ 30 = omega (arith, h.0) in
    polymod_step_injective s t v p q (
      polymod_from_injective values _ _ h.1 (polymod_step-lt s v small) (polymod_step-lt t v small)
        e)

-- Two runs that differ in one value end differently.
polymod_one_value :
    (s a b : ℕ) (front rest : List ℕ)
    → s < 2 ^ 30
    → All IsCode front
    → All IsValue5 rest
    → a < 32
    → b < 32
    → polymod_from s (front ++ (a ∷ rest)) ≡ polymod_from s (front ++ (b ∷ rest))
    → a ≡ b
polymod_one_value s a b front rest hs hf hr ha hb e =
    let m = polymod_from s front in
    let at : (v : ℕ) → polymod_from s (front ++ (v ∷ rest)) ≡ polymod_from (polymod_step m v) rest =
      λ v. polymod_from-append front (v ∷ rest) s ∙ unfold polymod_from in refl in
    let same : polymod_step m a ≡ polymod_step m b =
      polymod_from_injective rest _ _ hr (polymod_step-lt m a (omega arith))
        (polymod_step-lt m b (omega arith)) (sym (at a) ∙ e ∙ at b) in
    bit_xor_inj a b (polymod_step m 0) (
      bit_xor_comm a _
      ∙ sym (polymod_step_value m a)
      ∙ same
      ∙ polymod_step_value m b
      ∙ bit_xor_comm _ b)

hrp_expand-IsCode : (hrp : List ℕ) → All IsCode hrp → All IsCode (bech32_hrp_expand hrp)
unfolding bech32_hrp_expand
hrp_expand-IsCode hrp h =
    All-append IsCode (map (λ c. c / 2 ^ 5) hrp) _ (heads hrp h) (omega arith, tails hrp h)
  where
    heads : (cs : List ℕ) → All IsCode cs → All IsCode (map (λ c. c / 2 ^ 5) cs)
    heads [] p = tt
    heads (c ∷ cs) p = (omega (arith, p.0), heads cs p.1)

    tails : (cs : List ℕ) → All IsCode cs → All IsCode (map (λ c. c % 32) cs)
    tails [] p = tt
    tails (c ∷ cs) p = (omega arith, tails cs p.1)

-- Behind one prefix, a sequence of values that is accepted is refused once any one of its values,
-- also one of the checksum, is replaced by another.
pub bech32m_verify_checksum_one_error :
    (hrp front rest : List ℕ) (a b : ℕ)
    → All IsCode hrp
    → All IsValue5 front
    → All IsValue5 (a ∷ rest)
    → b < 32
    → a ≢ b
    → bech32m_verify_checksum hrp (front ++ (a ∷ rest)) ≡ true
    → bech32m_verify_checksum hrp (front ++ (b ∷ rest)) ≡ false
unfolding bech32m_verify_checksum bech32_polymod
bech32m_verify_checksum_one_error hrp front rest a b hh hf hr hb ne valid =
    elim (Bool-cases (bech32m_verify_checksum hrp (front ++ (b ∷ rest)))) [
      | inl again ↦
          let es = bech32_hrp_expand hrp in
          absurd (
            ne (
              polymod_one_value 1 a b (es ++ front) rest (omega arith)
                (All-append IsCode es front (hrp_expand-IsCode hrp hh) (weaken front hf)) hr.1 hr.0
                hb
                (ap (polymod_from 1) (append_assoc es front (a ∷ rest))
                  ∙ (==_iff _ _).0 valid
                  ∙ sym ((==_iff _ _).0 again)
                  ∙ ap (polymod_from 1) (sym (append_assoc es front (b ∷ rest))))))
      | inr refused ↦ refused
    ]
  where
    weaken : (vs : List ℕ) → All IsValue5 vs → All IsCode vs
    weaken [] p = tt
    weaken (v ∷ vs) p = (omega (arith, p.0), weaken vs p.1)
