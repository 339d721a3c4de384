-- ===== src/Wallet/Sync.antt =====
-- The sessions of src/noxipher/wallet/shielded.py and `WalletSyncer` of sync.py. The indexer is a
-- parameter; the calls that open a session, read its stream and close it are kept in the order in
-- which they are made.
use noxipher.Prelude.{
  ℕ, ◌≡◌, sym, ap, ◌∙◌, inl, inr, ◌⊎◌, List, [], ◌∷◌, ◌++◌, length, append-nil, append_assoc,
  Option, none, some,
}
use noxipher.Core.Exceptions.{Exception, Result, ok, err, ◌>>=◌, Result-cases}
use noxipher.Wallet.Wallets.{ShieldedWallet, MidnightWallet}
use noxipher.Wallet.Opening.{viewing_key}
use noxipher.Wallet.Utxo.{Utxo}
use noxipher.Wallet.UnshieldedBalance.{Balances, get_unshielded_balance}

-- An event of the stream, by its `__typename`. A coin is whatever the indexer sends.
pub data ShieldedEvent (Coin : Type 0) : Type 0 where
  transaction_found : (relevant_coins : Option (List Coin)) → ShieldedEvent Coin
  transaction_progress other_event : ShieldedEvent Coin

-- The stream's events up to its end, or up to what it raised.
pub record Stream (Coin : Type 0) : Type 0 where
  pub events : List (ShieldedEvent Coin)
  pub ending : Result (Unit {0})

pub data SessionCall : Type 0 where
  connect_call subscribe_call disconnect_call : List ℕ → SessionCall

abbrev pub coins_of : {C : Type 0} → Option (List C) → List C
coins_of none = []
coins_of (some coins) = coins

unfoldable pub collect_coins : {C : Type 0} → List C → List (ShieldedEvent C) → List C
collect_coins coins [] = coins
collect_coins coins (transaction_found relevant_coins ∷ events) =
    collect_coins (coins ++ coins_of relevant_coins) events
collect_coins coins (transaction_progress ∷ events) = collect_coins coins events
collect_coins coins (other_event ∷ events) = collect_coins coins events

unfoldable pub sync_coins : {C : Type 0} → Stream C → Result (List C)
sync_coins stream = stream.ending >>= λ _. ok (collect_coins [] stream.events)

-- The coins that one event adds, in the order of the events.
pub found_coins : {C : Type 0} → List (ShieldedEvent C) → List C
found_coins [] = []
found_coins (transaction_found relevant_coins ∷ events) =
    coins_of relevant_coins ++ found_coins events
found_coins (transaction_progress ∷ events) = found_coins events
found_coins (other_event ∷ events) = found_coins events

collect_coins_lem :
    {C : Type 0} (coins : List C) (events : List (ShieldedEvent C))
    → collect_coins coins events ≡ coins ++ found_coins events
unfolding collect_coins found_coins
collect_coins_lem coins [] = sym (append-nil coins)
collect_coins_lem coins (transaction_found relevant_coins ∷ events) =
    collect_coins_lem (coins ++ coins_of relevant_coins) events
    ∙ append_assoc coins (coins_of relevant_coins) (found_coins events)
collect_coins_lem coins (transaction_progress ∷ events) = collect_coins_lem coins events
collect_coins_lem coins (other_event ∷ events) = collect_coins_lem coins events

-- A result with the calls to the indexer that led to it, in their order.
abbrev pub Traced : Type 0 → Type 0
Traced A = List SessionCall × Result A

-- What follows runs where there was no raise.
unfoldable pub and_then : {A B : Type 0} → Traced A → (A → Traced B) → Traced B
and_then (calls, ok a) next = (calls ++ (next a).0, (next a).1)
and_then (calls, err e) next = (calls, err e)

-- `try: body finally: close`: closing follows the body, also when it raised, and what closing
-- raises replaces the result.
unfoldable pub try_finally : {A : Type 0} → Traced A → Traced (Unit {0}) → Traced A
try_finally (calls, body) (closing, ok u) = (calls ++ closing, body)
try_finally (calls, body) (closing, err e) = (calls ++ closing, err e)

module _ {C : Type 0} (connect_session : List ℕ → Result (List ℕ)) (subscribe : List ℕ → Stream C)
    (disconnect_session : List ℕ → Result (Unit {0})) where
  unfoldable pub open_session : ShieldedWallet → Traced (List ℕ)
  open_session wallet =
      (connect_call (viewing_key wallet) ∷ [], connect_session (viewing_key wallet))

  unfoldable pub sync_stream : List ℕ → Traced (List C)
  sync_stream session_id = (subscribe_call session_id ∷ [], sync_coins (subscribe session_id))

  unfoldable pub close_session : List ℕ → Traced (Unit {0})
  close_session session_id = (disconnect_call session_id ∷ [], disconnect_session session_id)

  unfoldable pub sync_shielded : ShieldedWallet → Traced (List C)
  sync_shielded wallet =
      and_then (open_session wallet)
        (λ session_id. try_finally (sync_stream session_id) (close_session session_id))

  -- The balances and the number of coins; the network is the wallet's.
  unfoldable pub sync_all : (List ℕ → Result (List Utxo)) → MidnightWallet → Traced (Balances × ℕ)
  sync_all get_utxos wallet = elim (get_unshielded_balance get_utxos wallet.unshielded) [
    | err e ↦ ([], err e)
    | ok balances ↦ (
      (sync_shielded wallet.shielded).0,
      (sync_shielded wallet.shielded).1 >>= λ coins. ok (balances, length coins),
    )
  ]

  -- A synchronisation that cannot open a session makes no other call and raises what opening
  -- raised. Otherwise the stream of the session that was opened is read, and then the session is
  -- closed, once and last, also when the stream raised; and the result is an exception, or the stream and the closing ended well and it holds
  -- the coins of every event of the stream in their order.
  pub sync_shielded_closes :
      (wallet : ShieldedWallet)
      → ((e : Exception) × (connect_session (viewing_key wallet) ≡ err e)
          × ((sync_shielded wallet).0 ≡ connect_call (viewing_key wallet) ∷ [])
          × ((sync_shielded wallet).1 ≡ err e))
        ⊎ ((session : List ℕ) × (connect_session (viewing_key wallet) ≡ ok session)
            × ((sync_shielded wallet).0
                ≡ connect_call (viewing_key wallet)
                  ∷ subscribe_call session
                  ∷ disconnect_call session
                  ∷ [])
            × (((e : Exception) × ((sync_shielded wallet).1 ≡ err e))
                ⊎ (((subscribe session).ending ≡ ok tt)
                    × (disconnect_session session ≡ ok tt)
                    × ((sync_shielded wallet).1 ≡ ok (found_coins (subscribe session).events)))))
  unfolding sync_shielded and_then try_finally open_session sync_stream close_session sync_coins
  sync_shielded_closes wallet = elim (Result-cases (connect_session (viewing_key wallet))) [
    | inr (e, failed) ↦ inl (e, failed, rw failed, rw failed)
    | inl (session, opened) ↦ inr (
      session,
      opened,
      elim (Result-cases (disconnect_session session)) [
        | inr (e, failed) ↦ rw (opened, failed)
        | inl (tt, closed) ↦ rw (opened, closed)
      ],
      elim (Result-cases (disconnect_session session)) [
        | inr (e, failed) ↦ inl (e, rw (opened, failed))
        | inl (tt, closed) ↦ elim (Result-cases (subscribe session).ending) [
          | inr (e, broken) ↦ inl (e, rw (opened, closed, broken))
          | inl (tt, ended) ↦ inr (
            ended,
            closed,
            rw (opened, closed, ended) (ap ok (collect_coins_lem [] (subscribe session).events)),
          )
        ]
      ],
    )
  ]
