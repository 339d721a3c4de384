-- ===== src/Tx/ShieldedConservation.antt =====
-- A shielded transfer of src/noxipher/tx/builder.py spends coins of the value that it pays out.
use noxipher.Prelude.{
  ℕ, ◌+◌, ◌≤◌, ◌<◌, ◌≡◌, refl, sym, ap, ◌∙◌, subst, arith, inl, inr, List, [], ◌∷◌, ◌++◌, map, take,
  list_eq, true, ltb, leb, Bool-cases,
}
use noxipher.Prelude.Digits.{from_le_bytes}
use noxipher.Core.Exceptions.{ok, err, >>=-eq-ok, raise_if, raise_if-eq-ok, transaction_error}
use noxipher.Address.Codec.{decode_address}
use noxipher.Zswap.Notes.{ShieldedCoinNote, compute_nullifier}
use noxipher.Zswap.MerkleTree.{MerkleTree, proof, root}
use noxipher.Zswap.State.{ZswapState}
use noxipher.Zswap.Balances.{total_of}
use noxipher.Wallet.Hex.{hex}
use noxipher.Wallet.Wallets.{ShieldedWallet}
use noxipher.Tx.Shielded.{
  Circuit, zswap_spend, zswap_output, eligible_coins, insert_coin, sort_coins, select_coins,
  spend_circuit, spend_circuits, output_circuit, change_circuits, build_shielded_transfer,
}

-- The value that the circuits take in, and the value that they pay out.
abbrev pub value_in : List Circuit → ℕ
value_in [] = 0
value_in (zswap_spend c k p n r ∷ cs) = c.value + value_in cs
value_in (zswap_output v t n c ∷ cs) = value_in cs

abbrev pub value_out : List Circuit → ℕ
value_out [] = 0
value_out (zswap_spend c k p n r ∷ cs) = value_out cs
value_out (zswap_output v t n c ∷ cs) = v + value_out cs

abbrev pub coins_value : List ShieldedCoinNote → ℕ
coins_value [] = 0
coins_value (c ∷ cs) = c.value + coins_value cs

value_in-append : (cs ds : List Circuit) → value_in (cs ++ ds) ≡ value_in cs + value_in ds
value_in-append [] ds = omega arith
value_in-append (zswap_spend c k p n r ∷ cs) ds = omega (arith, value_in-append cs ds)
value_in-append (zswap_output v t n c ∷ cs) ds = value_in-append cs ds

value_out-append : (cs ds : List Circuit) → value_out (cs ++ ds) ≡ value_out cs + value_out ds
value_out-append [] ds = omega arith
value_out-append (zswap_spend c k p n r ∷ cs) ds = value_out-append cs ds
value_out-append (zswap_output v t n c ∷ cs) ds = omega (arith, value_out-append cs ds)

select_coins-total :
    (amount acc : ℕ) (cs : List ShieldedCoinNote)
    → (select_coins amount acc cs).1 ≡ acc + coins_value (select_coins amount acc cs).0
unfolding select_coins
select_coins-total amount acc [] = omega arith
select_coins-total amount acc (c ∷ cs) = elim (Bool-cases (leb amount (acc + c.value))) [
  | inl e ↦ rw e (omega arith)
  | inr e ↦ rw e (omega (arith, select_coins-total amount (acc + c.value) cs))
]

spend_circuit-values :
    (tree : MerkleTree) (sk : List ℕ) (coin : ShieldedCoinNote) (circuit : Circuit)
    (rest : List Circuit)
    → spend_circuit tree sk coin ≡ ok circuit
    → (value_in (circuit ∷ rest) ≡ coin.value + value_in rest)
      × (value_out (circuit ∷ rest) ≡ value_out rest)
unfolding spend_circuit
spend_circuit-values tree sk coin circuit rest h =
    let (path, e, h1) = >>=-eq-ok (proof tree coin.merkle_tree_index) _ h in
    let (r, f, h2) = >>=-eq-ok (root tree) _ h1 in
    let same : zswap_spend coin (hex sk) (map hex path)
          (hex (compute_nullifier coin (from_le_bytes sk))) (hex r)
        ≡ circuit =
      cc h2 in
    subst
      (λ (c : Circuit).
        (value_in (c ∷ rest) ≡ coin.value + value_in rest)
        × (value_out (c ∷ rest) ≡ value_out rest))
      same (refl, refl)

spend_circuits-values :
    (tree : MerkleTree) (sk : List ℕ) (coins : List ShieldedCoinNote) (circuits : List Circuit)
    → spend_circuits tree sk coins ≡ ok circuits
    → (value_in circuits ≡ coins_value coins) × (value_out circuits ≡ 0)
unfolding spend_circuits
spend_circuits-values tree sk [] circuits h =
    let same : [] ≡ circuits = cc h in (ap value_in (sym same), ap value_out (sym same))
spend_circuits-values tree sk (coin ∷ coins) circuits h =
    let (c, e, h1) = >>=-eq-ok (spend_circuit tree sk coin) _ h in
    let (cs, f, h2) = >>=-eq-ok (spend_circuits tree sk coins) _ h1 in
    let same : c ∷ cs ≡ circuits = cc h2 in
    let (vin, vout) = spend_circuit-values tree sk coin c cs e in
    let (rin, rout) = spend_circuits-values tree sk coins cs f in
    (
      ap value_in (sym same) ∙ omega (arith, vin, rin),
      ap value_out (sym same) ∙ omega (arith, vout, rout),
    )

change-values :
    (wallet : ShieldedWallet) (token : List ℕ) (amount total : ℕ) (nonce : List ℕ)
    → amount ≤ total
    → (value_in (change_circuits wallet token amount total nonce) ≡ 0)
      × (amount + value_out (change_circuits wallet token amount total nonce) ≡ total)
unfolding change_circuits output_circuit
change-values wallet token amount total nonce h = elim (Bool-cases (ltb amount total)) [
  | inl e ↦ rw e (refl, omega arith)
  | inr e ↦ rw e (refl, ground (arith, e))
]

-- A shielded transfer that is built spends coins of exactly the value that its outputs, the
-- recipient's and the change, are worth.
pub build_shielded_transfer_conserves :
    (wallet : ShieldedWallet) (state : ZswapState) (to : List ℕ) (amount : ℕ)
    (token_type out_nonce change_nonce : List ℕ) (circuits : List Circuit)
    → build_shielded_transfer wallet state to amount token_type out_nonce change_nonce ≡ ok circuits
    → (value_in circuits ≡ value_out circuits) × (amount ≤ value_out circuits)
unfolding build_shielded_transfer
build_shielded_transfer_conserves wallet state to amount token_type out_nonce change_nonce circuits
      h =
    let chosen = sort_coins (eligible_coins token_type state.unspent_coins) in
    let coins = (select_coins amount 0 chosen).0 in
    let total = (select_coins amount 0 chosen).1 in
    let (u, e1, h1) = >>=-eq-ok (raise_if (ltb total amount) transaction_error) _ h in
    let (spends, e2, h2) =
      >>=-eq-ok (spend_circuits state.merkle_tree wallet.coin_secret_key coins) _ h1 in
    let ((ty, n, payload), e3, h3) = >>=-eq-ok (decode_address to) _ h2 in
    let output = output_circuit token_type amount to (take 32 payload) out_nonce in
    let change = change_circuits wallet token_type amount total change_nonce in
    let same : spends ++ (output ∷ []) ++ change ≡ circuits = cc h3 in
    let enough : amount ≤ total = ground (arith, raise_if-eq-ok _ transaction_error e1) in
    let (sin, sout) =
      spend_circuits-values state.merkle_tree wallet.coin_secret_key coins spends e2 in
    let (cin, cout) = change-values wallet token_type amount total change_nonce enough in
    let all_in : value_in (spends ++ (output ∷ []) ++ change) ≡ total =
      value_in-append (spends ++ (output ∷ [])) change
      ∙ unfold output_circuit in
        omega (
          arith,
          value_in-append spends (output ∷ []),
          sin,
          cin,
          select_coins-total amount 0 chosen,
        ) in
    let all_out : value_out (spends ++ (output ∷ []) ++ change) ≡ total =
      value_out-append (spends ++ (output ∷ [])) change
      ∙ unfold output_circuit in omega (arith, value_out-append spends (output ∷ []), sout, cout) in
    subst (λ (c : List Circuit). (value_in c ≡ value_out c) × (amount ≤ value_out c)) same
      (all_in ∙ sym all_out, omega (arith, all_out, enough))

select_coins-le :
    (amount acc : ℕ) (cs : List ShieldedCoinNote)
    → (select_coins amount acc cs).1 ≤ acc + coins_value cs
unfolding select_coins
select_coins-le amount acc [] = omega arith
select_coins-le amount acc (c ∷ cs) = elim (Bool-cases (leb amount (acc + c.value))) [
  | inl e ↦ rw e (omega arith)
  | inr e ↦ rw e (omega (arith, select_coins-le amount (acc + c.value) cs))
]

insert_coin-value :
    (c : ShieldedCoinNote) (cs : List ShieldedCoinNote)
    → coins_value (insert_coin c cs) ≡ c.value + coins_value cs
unfolding insert_coin
insert_coin-value c [] = refl
insert_coin-value c (t ∷ cs) = ground (arith, insert_coin-value c cs)

pub sort_coins-value : (cs : List ShieldedCoinNote) → coins_value (sort_coins cs) ≡ coins_value cs
unfolding sort_coins
sort_coins-value [] = refl
sort_coins-value (c ∷ cs) = omega (arith, insert_coin-value c (sort_coins cs), sort_coins-value cs)

pub eligible_coins-value :
    (token : List ℕ) (cs : List ShieldedCoinNote)
    → coins_value (eligible_coins token cs) ≡ total_of token cs
unfolding eligible_coins
eligible_coins-value token [] = refl
eligible_coins-value token (c ∷ cs) = elim (Bool-cases (list_eq c.token_type token)) [
  | inl e ↦ rw e (omega (arith, eligible_coins-value token cs))
  | inr e ↦ rw e (omega (arith, eligible_coins-value token cs))
]

-- When the unspent coins of the token are worth less than the amount, TransactionError is raised,
-- whatever the recipient's address is.
pub build_shielded_transfer_insufficient :
    (wallet : ShieldedWallet) (state : ZswapState) (to : List ℕ) (amount : ℕ)
    (token_type out_nonce change_nonce : List ℕ)
    → total_of token_type state.unspent_coins < amount
    → build_shielded_transfer wallet state to amount token_type out_nonce change_nonce
      ≡ err transaction_error
unfolding build_shielded_transfer
build_shielded_transfer_insufficient wallet state to amount token_type out_nonce change_nonce h =
    let coins = eligible_coins token_type state.unspent_coins in
    let less : (select_coins amount 0 (sort_coins coins)).1 < amount = omega (
      arith,
      select_coins-le amount 0 (sort_coins coins),
      sort_coins-value coins,
      eligible_coins-value token_type state.unspent_coins,
    ) in
    let short : ltb (select_coins amount 0 (sort_coins coins)).1 amount ≡ true =
      ground (arith, less) in
    rw short refl
