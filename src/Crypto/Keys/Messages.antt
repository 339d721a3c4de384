-- ===== src/Crypto/Keys/Messages.antt =====
-- The messages of the child derivations in src/noxipher/crypto/keys.py tell their parts apart.
use noxipher.Prelude.{
  ℕ, ◌+◌, ◌/◌, ◌%◌, ◌^◌, ◌≤◌, ◌<◌, ◌≡◌, ◌≢◌, sym, ap, ◌∙◌, arith, List, [], ◌∷◌, ◌++◌, length,
  length-append, take, take_front, drop, drop_front, bit_or,
}
use noxipher.Prelude.Bits.{bit_or_top}
use noxipher.Core.Exceptions.{ok, err, >>=-eq-ok, struct_error}
use noxipher.Crypto.Keys.{hardened, pack_u32, hardened_message, normal_message}

pub pack_u32_lem : (n : ℕ) {text : List ℕ} → pack_u32 n ≡ ok text → (length text ≡ 4) × (n < 2 ^ 32)
unfolding pack_u32
pack_u32_lem n h = ground arith

pub pack_u32_small : (n : ℕ) → n < 2 ^ 32 → (text : List ℕ) × (pack_u32 n ≡ ok text)
unfolding pack_u32
pack_u32_small n h =
    ((n / 2 ^ 24) ∷ (n / 2 ^ 16 % 256) ∷ (n / 2 ^ 8 % 256) ∷ (n % 256) ∷ [], ground arith)

pub pack_u32_large : (n : ℕ) → 2 ^ 32 ≤ n → pack_u32 n ≡ err struct_error
unfolding pack_u32
pack_u32_large n h = ground arith

pack_u32_injective : (m n : ℕ) (text : List ℕ) → pack_u32 m ≡ ok text → pack_u32 n ≡ ok text → m ≡ n
unfolding pack_u32
pack_u32_injective m n text h k = ground arith

-- A child number and its bit for hardened children.
pub harden-lt : (i : ℕ) → i < 2 ^ 32 → bit_or i hardened < 2 ^ 32
harden-lt i h = omega (arith, bit_or_top i)

pub harden-large : (i : ℕ) → 2 ^ 32 ≤ i → 2 ^ 32 ≤ bit_or i hardened
harden-large i h = omega (arith, bit_or_top i)

pub harden_twice : (i : ℕ) → i < 2 ^ 31 → bit_or (i + 2 ^ 31) hardened ≡ bit_or i hardened
harden_twice i h = omega (arith, bit_or_top i, bit_or_top (i + 2 ^ 31))

-- Equal texts of parts with equal lengths have equal parts.
split_at {ℓ} :
    {A : Type ℓ} (n : ℕ) (a b c d : List A)
    → length a ≡ n
    → length b ≡ n
    → a ++ c ≡ b ++ d
    → (a ≡ b) × (c ≡ d)
split_at n a b c d ha hb e = (
  sym (take_front n a c ha) ∙ ap (take n) e ∙ take_front n b d hb,
  sym (drop_front n a c ha) ∙ ap (drop n) e ∙ drop_front n b d hb,
)

-- What a message is made of.
hardened_parts :
    (key : List ℕ) (i : ℕ) (m : List ℕ)
    → hardened_message key i ≡ ok m
    → (suffix : List ℕ) × (pack_u32 (bit_or i hardened) ≡ ok suffix)
      × (m ≡ ((0 ∷ []) ++ key) ++ suffix)
unfolding hardened_message
hardened_parts key i m h =
    let (suffix, packed, e) =
      >>=-eq-ok (pack_u32 (bit_or i hardened)) (λ suffix. ok ((0 ∷ []) ++ key ++ suffix)) h in
    (suffix, packed, cc)

normal_parts :
    (pub_bytes : List ℕ) (i : ℕ) (m : List ℕ)
    → normal_message pub_bytes i ≡ ok m
    → (suffix : List ℕ) × (pack_u32 i ≡ ok suffix) × (m ≡ pub_bytes ++ suffix)
unfolding normal_message
normal_parts pub_bytes i m h =
    let (suffix, packed, e) = >>=-eq-ok (pack_u32 i) (λ suffix. ok (pub_bytes ++ suffix)) h in
    (suffix, packed, cc)

-- Two hardened children below the offset get the same message only if they have the same parent
-- key and the same number.
pub hardened_message-injective :
    (key key' : List ℕ) (i j : ℕ) (m : List ℕ)
    → length key ≡ 32
    → length key' ≡ 32
    → i < 2 ^ 31
    → j < 2 ^ 31
    → hardened_message key i ≡ ok m
    → hardened_message key' j ≡ ok m
    → (key ≡ key') × (i ≡ j)
hardened_message-injective key key' i j m hk hk' hi hj e e' =
    let (s, packed, parts) = hardened_parts key i m e in
    let (s', packed', parts') = hardened_parts key' j m e' in
    let (front, back) =
      split_at 33 (0 ∷ key) (0 ∷ key') s s' (omega arith) (omega arith) (sym parts ∙ parts') in
    let joined : bit_or i hardened ≡ bit_or j hardened =
      pack_u32_injective _ _ s packed (packed' ∙ ap ok (sym back)) in
    (ap (drop 1) front, omega (arith, joined, bit_or_top i, bit_or_top j))

-- The same for normal children, of any number that is packed, and a hardened child never shares
-- its message with a normal one.
pub normal_message-injective :
    (pk pk' : List ℕ) (i j : ℕ) (m : List ℕ)
    → length pk ≡ 32
    → length pk' ≡ 32
    → normal_message pk i ≡ ok m
    → normal_message pk' j ≡ ok m
    → (pk ≡ pk') × (i ≡ j)
normal_message-injective pk pk' i j m hk hk' e e' =
    let (s, packed, parts) = normal_parts pk i m e in
    let (s', packed', parts') = normal_parts pk' j m e' in
    let (front, back) = split_at 32 pk pk' s s' hk hk' (sym parts ∙ parts') in
    (front, pack_u32_injective i j s packed (packed' ∙ ap ok (sym back)))

pub messages_differ :
    (key pk : List ℕ) (i j : ℕ) (m m' : List ℕ)
    → length key ≡ 32
    → length pk ≡ 32
    → hardened_message key i ≡ ok m
    → normal_message pk j ≡ ok m'
    → m ≢ m'
messages_differ key pk i j m m' hk hp e e' same =
    let (s, packed, parts) = hardened_parts key i m e in
    let (s', packed', parts') = normal_parts pk j m' e' in
    let long : length m ≡ 37 = omega (
      arith,
      ap length parts,
      length-append (0 ∷ key) s,
      (pack_u32_lem (bit_or i hardened) packed).0,
    ) in
    let short : length m' ≡ 36 =
      omega (arith, ap length parts', length-append pk s', (pack_u32_lem j packed').0) in
    omega (arith, long, short, ap length same)
