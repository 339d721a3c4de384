-- ===== src/Indexer/Retries.antt =====
-- What the retried queries of src/noxipher/indexer/client.py end with.
use noxipher.Prelude.{
  ℕ, zero, suc, ◌+◌, ◌<◌, ◌≡◌, refl, sym, ap, ◌∙◌, not, false, arith, ◌⊎◌, inl, inr, true, List,
}
use noxipher.Core.Exceptions.{
  Result, ok, err, ◌>>=◌, Result-cases, >>=-eq-ok, retry_error, raise_if, raise_if-eq-ok,
  assertion_error,
}
use noxipher.Indexer.Client.{
  Query, utxos_query, IndexerClient, wrap_indexer_error, retry, attempt_query, get_utxos,
}

abbrev pub Fails {ℓ} : {A : Type ℓ} → Result A → Type 0
Fails (ok a) = ⊥
Fails (err e) = Unit {0}

-- The attempts from `k` up to `n` fail.
abbrev pub AllFail {ℓ} : {A : Type ℓ} → (ℕ → Result A) → ℕ → ℕ → Type 0
AllFail attempt k zero = Unit {0}
AllFail attempt k (suc n) = Fails (attempt k) × AllFail attempt (suc k) n

-- The first attempt that succeeds among `n` from `k` on decides, and RetryError where none does.
abbrev pub Retried {ℓ} : {A : Type ℓ} → (ℕ → Result A) → ℕ → ℕ → Result A → Type ℓ
Retried {A = A} attempt k n r =
    ((m : ℕ) × (a : A) × (m < n) × AllFail attempt k m × (attempt (k + m) ≡ ok a) × (r ≡ ok a))
    ⊎ (AllFail attempt k n × (r ≡ err retry_error))

pub retry-Retried {ℓ} :
    {A : Type ℓ} (n : ℕ) (attempt : ℕ → Result A) (k : ℕ) → Retried attempt k n (retry n attempt k)
unfolding retry
retry-Retried zero attempt k = inr (tt, refl)
retry-Retried (suc n) attempt k = elim (Result-cases (attempt k)) [
  | inl (a, e) ↦
      let here : k + 0 ≡ k = omega arith in
      inl (0, a, omega arith, tt, ap attempt here ∙ e, rw (retry, e))
  | inr (raised, e) ↦
      let failed : Fails (attempt k) = rw e tt in
      elim (retry-Retried n attempt (suc k)) [
        | inl (m, a, less, before, found, same) ↦
            let there : k + suc m ≡ suc k + m = omega arith in
            inl (
              suc m,
              a,
              omega arith,
              (failed, before),
              ap attempt there ∙ found,
              rw (retry, e) same,
            )
        | inr (all, same) ↦ inr ((failed, all), rw (retry, e) same)
      ]
]

wrap-eq-ok {ℓ} : {A : Type ℓ} (r : Result A) {a : A} → wrap_indexer_error r ≡ ok a → r ≡ ok a
unfolding wrap_indexer_error
wrap-eq-ok (ok b) h = h
wrap-eq-ok (err e) h = cc h

module _ {ℓ κ} {Answer : Type ℓ} {A : Type κ} (execute : ℕ → Query → Result Answer)
    (read : Answer → Result A) where
  -- An attempt that succeeds executed the query on an open client and could read its answer.
  pub attempt_query-eq-ok :
      (client : IndexerClient) (query : Query) (k : ℕ) (a : A)
      → attempt_query execute read client query k ≡ ok a
      → (answer : Answer) × (client.opened ≡ true)
        × (execute k query ≡ ok answer)
        × (read answer ≡ ok a)
  unfolding attempt_query
  attempt_query-eq-ok client query k a h =
      let (u, open_, h1) =
        >>=-eq-ok (raise_if (not client.opened) assertion_error)
          (λ _. wrap_indexer_error (execute k query >>= read)) h in
      let (answer, executed, was_read) =
        >>=-eq-ok (execute k query) read (wrap-eq-ok (execute k query >>= read) h1) in
      let shut : not client.opened ≡ false = raise_if-eq-ok _ assertion_error open_ in
      (answer, ground (arith, shut), executed, was_read)

  -- The UTXOs of an address are those of the first of three attempts that executes the query and
  -- can read its answer, on an open client; where none does, and on a client that is not open,
  -- RetryError is raised, never the IndexerError of an attempt.
  pub get_utxos_cases :
      (client : IndexerClient) (address : List ℕ)
      → ((k : ℕ) × (answer : Answer) × (utxos : A) × (k < 3)
          × AllFail (attempt_query execute read client (utxos_query address)) 0 k
          × (client.opened ≡ true)
          × (execute k (utxos_query address) ≡ ok answer)
          × (read answer ≡ ok utxos)
          × (get_utxos execute read client address ≡ ok utxos))
        ⊎ (AllFail (attempt_query execute read client (utxos_query address)) 0 3
            × (get_utxos execute read client address ≡ err retry_error))
  unfolding get_utxos
  get_utxos_cases client address =
      elim (retry-Retried 3 (attempt_query execute read client (utxos_query address)) 0) [
        | inr (all, same) ↦ inr (all, same)
        | inl (k, utxos, less, before, found, same) ↦
            let at_k : 0 + k ≡ k = omega arith in
            let found' : attempt_query execute read client (utxos_query address) k ≡ ok utxos =
              ap (attempt_query execute read client (utxos_query address)) (sym at_k) ∙ found in
            let (answer, open_, executed, was_read) =
              attempt_query-eq-ok client (utxos_query address) k utxos found' in
            inl (k, answer, utxos, less, before, open_, executed, was_read, same)
      ]
