-- ===== src/Address/ConvertBits.antt =====
-- `_convertbits` of bech32m.py: a list of numbers of `frombits` bits as one of `tobits` bits.
use noxipher.Prelude.{
  ℕ, zero, suc, ◌+◌, ◌-◌, ◌*◌, ◌/◌, ◌%◌, ◌^◌, Bool, true, false, not, ◌||◌, List, [], ◌∷◌, ◌++◌,
  bit_or, leb, ◌==◌, if◌then◌else◌,
}
use noxipher.Core.Exceptions.{Result, ok, err, address_error, ◌>>=◌}

-- `while bits >= tobits`. Each round takes `tobits` off `bits`, so a fuel of `bits` is enough.
unfoldable pub emit : ℕ → ℕ → ℕ → ℕ → List ℕ → ℕ × List ℕ
emit tobits zero acc bits ret = (bits, ret)
emit tobits (suc fuel) acc bits ret =
    let bits' = bits - tobits in
    let more = emit tobits fuel acc bits' (ret ++ (acc / 2 ^ bits' % 2 ^ tobits ∷ [])) in
    if leb tobits bits then more else (bits, ret)

-- `for value in data`, on the variables `acc`, `bits` and `ret`. Values are not negative here.
unfoldable pub regroup : ℕ → ℕ → List ℕ → ℕ → ℕ → List ℕ → Result (ℕ × ℕ × List ℕ)
regroup frombits tobits [] acc bits ret = ok (acc, bits, ret)
regroup frombits tobits (value ∷ rest) acc bits ret =
    let acc' = bit_or (acc * 2 ^ frombits) value % 2 ^ (frombits + tobits - 1) in
    let (bits', ret') = emit tobits (bits + frombits) acc' (bits + frombits) ret in
    let more = regroup frombits tobits rest acc' bits' ret' in
    if not (value / 2 ^ frombits == 0) then err address_error else more

-- What stands after the loop.
unfoldable pub finish_bits : ℕ → ℕ → Bool → ℕ × ℕ × List ℕ → Result (List ℕ)
finish_bits frombits tobits true (acc, bits, ret) =
    ok (if bits == 0 then ret else ret ++ (acc * 2 ^ (tobits - bits) % 2 ^ tobits ∷ []))
finish_bits frombits tobits false (acc, bits, ret) =
    if leb frombits bits || not (acc * 2 ^ (tobits - bits) % 2 ^ tobits == 0)
    then err address_error
    else ok ret

unfoldable pub convertbits : List ℕ → ℕ → ℕ → Bool → Result (List ℕ)
convertbits values frombits tobits pad = do
  state ← regroup frombits tobits values 0 0 []
  finish_bits frombits tobits pad state
