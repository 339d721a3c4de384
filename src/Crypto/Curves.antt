-- ===== src/Crypto/Curves.antt =====
-- src/noxipher/crypto/curves.py, and `compute_binding_commitment` of jubjub.py.
use noxipher.Prelude.{
  ℕ, zero, suc, ◌+◌, ◌-◌, ◌/◌, ◌%◌, ◌^◌, ◌<◌, ◌≡◌, refl, ap, ◌∙◌, arith, Bool, true, List, [], ◌∷◌,
  get_or, take, ◌++◌, ◌==◌, if◌then◌else◌, bit_or,
}
use native.Mathlib.Nat.{pow-suc}
use noxipher.Crypto.Fields.{
  fr_modulus, embedded_fr_modulus, of_int, of_bytes, add, sub, mul, div, to_bytes,
}

-- A point has the coordinates `u` and `v`, elements of `Fr`.
pub record JubJubPoint : Type 0 where
  pub u : ℕ
  pub v : ℕ

-- `D`. The other constant, `A`, is not used.
abbrev pub curve_d : ℕ
curve_d = 0x2A9318E74BFA2B48F5FD9207E6BD7FD4292D7F6D37579D2601065FD6D6343EB1

unfoldable pub identity : JubJubPoint
identity = record { u = of_int fr_modulus 0; v = of_int fr_modulus 1 }

unfoldable pub generator : JubJubPoint
generator = record {
  u = of_int fr_modulus 0x62EDCBB8BF3787C88B0F03DDD60A8187CAF55D1B29BF81AFE4B3D35DF1A7ADFE;
  v = of_int fr_modulus 11;
}

-- `__add__`
unfoldable pub add_points : JubJubPoint → JubJubPoint → JubJubPoint
add_points p q =
    let m = fr_modulus in
    let common = mul m (mul m (mul m (mul m (of_int m curve_d) p.u) q.u) p.v) q.v in
    let one = of_int m 1 in
    record {
      u = div m (add m (mul m p.u q.v) (mul m p.v q.u)) (add m one common);
      v = div m (add m (mul m p.v q.v) (mul m p.u q.u)) (sub m one common);
    }

-- The loop of `__mul__`, on fuel: double and add.
unfoldable pub mul_loop : ℕ → ℕ → JubJubPoint → JubJubPoint → JubJubPoint
mul_loop zero n temp res = res
mul_loop (suc fuel) n temp res =
    let rest =
      mul_loop fuel (n / 2) (add_points temp temp)
        (if n % 2 == 1 then add_points res temp else res) in
    if n == 0 then res else rest

-- A scalar has less than 256 bits.
unfoldable pub mul_point : JubJubPoint → ℕ → JubJubPoint
mul_point p scalar = mul_loop 256 scalar p identity

-- `to_bytes`: `v`, with the parity of `u` in the highest bit of the last byte.
unfoldable pub point_bytes : JubJubPoint → List ℕ
point_bytes p =
    let v_bytes = to_bytes p.v in
    let last = get_or v_bytes 31 0 in
    if get_or (to_bytes p.u) 0 0 % 2 == 1
    then take 31 v_bytes ++ (bit_or last 0x80 ∷ [])
    else v_bytes

-- The value by its sign and its absolute value.
unfoldable pub compute_binding_commitment : List ℕ → Bool → ℕ → List ℕ
compute_binding_commitment randomness negative value =
    let q = embedded_fr_modulus in
    let g = generator in
    let commitment = mul_point g (of_bytes q randomness) in
    let h = add_points g g in
    if value == 0
    then point_bytes commitment
    else if negative
    then point_bytes (add_points commitment (mul_point h (of_int q (q - value % q))))
    else point_bytes (add_points commitment (mul_point h (of_int q value)))

mul_loop_done : (fuel n : ℕ) (temp res : JubJubPoint) → n ≡ 0 → mul_loop fuel n temp res ≡ res
unfolding mul_loop
mul_loop_done zero n temp res h = refl
mul_loop_done (suc fuel) n temp res h =
    let done : (n == 0) ≡ true = ground (arith, h) in rw done refl

-- The loop ends: from as many rounds as the scalar has bits, more rounds change nothing.
mul_loop_enough :
    (fuel more n : ℕ) (temp res : JubJubPoint)
    → n < 2 ^ fuel
    → mul_loop (fuel + more) n temp res ≡ mul_loop fuel n temp res
unfolding mul_loop
mul_loop_enough zero more n temp res h = mul_loop_done (0 + more) n temp res (omega (arith, h))
mul_loop_enough (suc fuel) more n temp res h =
    let half : n / 2 < 2 ^ fuel = omega (arith, pow-suc 2 fuel) in
    let shift : suc fuel + more ≡ suc (fuel + more) = omega arith in
    ap (λ f. mul_loop f n temp res) shift
    ∙ ap (λ r. if n == 0 then res else r)
        (mul_loop_enough fuel more (n / 2) (add_points temp temp)
          (if n % 2 == 1 then add_points res temp else res) half)

-- Scalar multiplication ends for every scalar below the order of the subgroup, whose bits the
-- rounds given go through: any further rounds give the same point.
pub mul_point_terminates :
    (p : JubJubPoint) (scalar more : ℕ)
    → scalar < embedded_fr_modulus
    → mul_loop (256 + more) scalar p identity ≡ mul_point p scalar
unfolding mul_point
mul_point_terminates p scalar more h = mul_loop_enough 256 more scalar p identity (omega arith)
