-- ===== src/Tx/SegmentOrder.antt =====
-- The segments of a transaction are written in the order of their keys, whatever the order in
-- which the dicts of src/noxipher/tx/scale.py hold them.
use noxipher.Prelude.{
  ℕ, suc, ◌≤◌, ◌≡◌, ◌≢◌, refl, sym, ap, ap₂, subst, ◌∙◌, arith, true, false, inl, inr, [], ◌∷◌, All,
  leb, Bool-cases, length,
}
use mathlib.Core.List.{Permᴰ}
use noxipher.Tx.Structures.{Intent, ZswapOffer}
use noxipher.Tx.Transaction.{
  Segments, insert_segment, sort_segments, StandardTransaction, serialize_standard_transaction,
}

module _ {ℓ} {A : Type ℓ} where
  insert_smaller :
      (s t : ℕ × A) (ts : Segments A) → leb s.0 t.0 ≡ true → insert_segment s (t ∷ ts) ≡ s ∷ t ∷ ts
  unfolding insert_segment
  insert_smaller s t ts h = rw h refl

  insert_larger :
      (s t : ℕ × A) (ts : Segments A)
      → leb s.0 t.0 ≡ false
      → insert_segment s (t ∷ ts) ≡ t ∷ insert_segment s ts
  unfolding insert_segment
  insert_larger s t ts h = rw h refl

  insert_insert_lt :
      (s t : ℕ × A) (ss : Segments A)
      → leb s.0 t.0 ≡ true
      → leb t.0 s.0 ≡ false
      → insert_segment s (insert_segment t ss) ≡ insert_segment t (insert_segment s ss)
  unfolding insert_segment
  insert_insert_lt s t [] h g = rw (h, g) refl
  insert_insert_lt s t (u ∷ ss) h g = elim (Bool-cases (leb t.0 u.0)) [
    | inl tu ↦ let su : leb s.0 u.0 ≡ true = ground (arith, h, tu) in rw (tu, su, h, g, tu) refl
    | inr tu ↦ elim (Bool-cases (leb s.0 u.0)) [
      | inl su ↦ rw (tu, su, g, tu) refl
      | inr su ↦ rw (tu, su, tu) (ap (◌∷◌ u) (insert_insert_lt s t ss h g))
    ]
  ]

  insert_insert :
      (s t : ℕ × A) (ss : Segments A)
      → s.0 ≢ t.0
      → insert_segment s (insert_segment t ss) ≡ insert_segment t (insert_segment s ss)
  insert_insert s t ss d = elim (Bool-cases (leb s.0 t.0)) [
    | inl h ↦ insert_insert_lt s t ss h (ground (arith, h, d))
    | inr h ↦ sym (insert_insert_lt t s ss (ground (arith, h)) h)
  ]

  abbrev DiffersFrom : ℕ × A → Segments A → Type 0
  DiffersFrom s = All (λ (t : ℕ × A). s.0 ≢ t.0)

  -- No two segments have the same key.
  abbrev pub HasDistinctKeys : Segments A → Type 0
  HasDistinctKeys [] = Unit
  HasDistinctKeys (s ∷ ss) = DiffersFrom s ss × HasDistinctKeys ss

  Permᴰ-All : (P : ℕ × A → Type 0) (ss ts : Segments A) → Permᴰ ss ts → All P ss → All P ts
  Permᴰ-All P _ _ Permᴰ.nil hs = tt
  Permᴰ-All P _ _ (Permᴰ.cons e p) (h, hs) = (subst P e h, Permᴰ-All P _ _ p hs)
  Permᴰ-All P _ _ (Permᴰ.swap e f) (h, (g, hs)) = (subst P f g, (subst P e h, hs))
  Permᴰ-All P _ _ (Permᴰ.trans p q) hs = Permᴰ-All P _ _ q (Permᴰ-All P _ _ p hs)

  Permᴰ-HasDistinctKeys :
      (ss ts : Segments A) → Permᴰ ss ts → HasDistinctKeys ss → HasDistinctKeys ts
  Permᴰ-HasDistinctKeys _ _ Permᴰ.nil d = tt
  Permᴰ-HasDistinctKeys _ _ (Permᴰ.cons {l₂ = ts} e p) (d, ds) =
      (subst (λ s. DiffersFrom s ts) e (Permᴰ-All _ _ _ p d), Permᴰ-HasDistinctKeys _ _ p ds)
  Permᴰ-HasDistinctKeys _ _ (Permᴰ.swap {l = ts} e f) ((d, ds), (es, fs)) = (
    (
      λ q. d (ap (λ (s : ℕ × A). s.0) e ∙ sym q ∙ sym (ap (λ (s : ℕ × A). s.0) f)),
      subst (λ s. DiffersFrom s ts) f es,
    ),
    (subst (λ s. DiffersFrom s ts) e ds, fs),
  )
  Permᴰ-HasDistinctKeys _ _ (Permᴰ.trans p q) d =
      Permᴰ-HasDistinctKeys _ _ q (Permᴰ-HasDistinctKeys _ _ p d)

  sort_segments-Permᴰ :
      (ss ts : Segments A) → Permᴰ ss ts → HasDistinctKeys ss → sort_segments ss ≡ sort_segments ts
  unfolding sort_segments
  sort_segments-Permᴰ _ _ Permᴰ.nil d = refl
  sort_segments-Permᴰ _ _ (Permᴰ.cons e p) (d, ds) =
      ap₂ insert_segment e (sort_segments-Permᴰ _ _ p ds)
  sort_segments-Permᴰ _ _ (Permᴰ.swap {l = ts} e f) ((d, ds), (es, fs)) =
      insert_insert _ _ _ d
      ∙ ap₂ (λ s t. insert_segment s (insert_segment t (sort_segments ts))) f e
  sort_segments-Permᴰ _ _ (Permᴰ.trans p q) d =
      sort_segments-Permᴰ _ _ p d ∙ sort_segments-Permᴰ _ _ q (Permᴰ-HasDistinctKeys _ _ p d)

  -- Each key is at most the next.
  abbrev pub Ascending : ℕ → Segments A → Type 0
  Ascending k [] = Unit
  Ascending k (s ∷ ss) = (k ≤ s.0) × Ascending s.0 ss

  insert-Ascending :
      (k : ℕ) (s : ℕ × A) (ss : Segments A)
      → k ≤ s.0
      → Ascending k ss
      → Ascending k (insert_segment s ss)
  unfolding insert_segment
  insert-Ascending k s [] h a = (h, tt)
  insert-Ascending k s (t ∷ ss) h (kt, a) = elim (Bool-cases (leb s.0 t.0)) [
    | inl st ↦ rw st (h, (ground (arith, st), a))
    | inr st ↦ rw st (kt, insert-Ascending t.0 s ss (ground (arith, st)) a)
  ]

  -- Sorting leaves the segments with ascending keys.
  pub sort_segments-Ascending : (ss : Segments A) → Ascending 0 (sort_segments ss)
  unfolding sort_segments
  sort_segments-Ascending [] = tt
  sort_segments-Ascending (s ∷ ss) =
      insert-Ascending 0 s (sort_segments ss) (omega arith) (sort_segments-Ascending ss)

  insert_length : (s : ℕ × A) (ss : Segments A) → length (insert_segment s ss) ≡ suc (length ss)
  unfolding insert_segment
  insert_length s [] = refl
  insert_length s (t ∷ ss) = elim (Bool-cases (leb s.0 t.0)) [
    | inl st ↦ rw st refl
    | inr st ↦ rw st (ap suc (insert_length s ss))
  ]

  pub length-sort_segments : (ss : Segments A) → length (sort_segments ss) ≡ length ss
  unfolding sort_segments
  length-sort_segments [] = refl
  length-sort_segments (s ∷ ss) =
      insert_length s (sort_segments ss) ∙ ap suc (length-sort_segments ss)

-- A transaction is written as the same bytes, or raises the same exception, whatever the order in
-- which the dicts of its intents and of its fallible coins hold their segments, where the keys of a
-- dict write different numbers.
pub serialize_standard_transaction_reordered :
    (stx : StandardTransaction) (intents : Segments Intent) (coins : Segments ZswapOffer)
    → Permᴰ stx.intents intents
    → Permᴰ stx.fallible_coins coins
    → HasDistinctKeys stx.intents
    → HasDistinctKeys stx.fallible_coins
    → serialize_standard_transaction (record stx { intents = intents; fallible_coins = coins })
      ≡ serialize_standard_transaction stx
unfolding serialize_standard_transaction
serialize_standard_transaction_reordered stx intents coins p q d e =
    let same = sort_segments-Permᴰ stx.intents intents p d in
    let same' = sort_segments-Permᴰ stx.fallible_coins coins q e in rw (← same, ← same') refl
