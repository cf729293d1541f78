-- ===== src/Kv/Key/Laws.antt =====
-- The bytes of a key determine it, and their order is the order of the keys.
use native.Mathlib.Nat.{pow-suc}
use native.Mathlib.Bridge.{le_prop}
use mathlib.Core.List.{append_assoc, append-nil}
use native.Mathlib.Decide.{dec_lt}
use mathlib.Core.HLevel.{Σ_prop_path}
use sidle.Base.{
  ℕ, zero, suc, ◌/◌, ◌%◌, ◌^◌, ◌<◌, ◌≡◌, ◌⊎◌, inl, inr, ◌↔◌, refl, sym, ap, ◌∙◌, true, List, [],
  ◌∷◌, ◌++◌, length, length-append, arith, u64,
}
use sidle.Kv.Format.Bytes.{is_before}
use sidle.Kv.Key.{Key, bytes, of_bytes, reversed, to_str_key, little_endian, in_memory, read_key}

of_bytes-bytes : (size n : ℕ) → n < 256 ^ size → of_bytes (bytes size n) ≡ n
unfolding bytes of_bytes
of_bytes-bytes zero n h = omega arith
of_bytes-bytes (suc size) n h =
    let small : n / 256 < 256 ^ size = omega (arith, pow-suc 256 size) in
    omega (arith, of_bytes-bytes size (n / 256) small)

reversed-append : (a b : List ℕ) → reversed (a ++ b) ≡ reversed b ++ reversed a
unfolding reversed
reversed-append [] b = sym (append-nil (reversed b))
reversed-append (x ∷ a) b =
    ap (λ (l : List ℕ). l ++ (x ∷ [])) (reversed-append a b)
    ∙ append_assoc (reversed b) (reversed a) (x ∷ [])

reversed-reversed : (a : List ℕ) → reversed (reversed a) ≡ a
unfolding reversed
reversed-reversed [] = refl
reversed-reversed (x ∷ a) = reversed-append (reversed a) (x ∷ []) ∙ ap (◌∷◌ x) (reversed-reversed a)

length-reversed : (a : List ℕ) → length (reversed a) ≡ length a
unfolding reversed
length-reversed [] = refl
length-reversed (x ∷ a) = omega (arith, length-append (reversed a) (x ∷ []), length-reversed a)

length-bytes : (size n : ℕ) → length (bytes size n) ≡ size
unfolding bytes
length-bytes zero n = refl
length-bytes (suc size) n = ap suc (length-bytes size (n / 256))

bytes_injective :
    (size a b : ℕ)
    → a < 256 ^ size
    → b < 256 ^ size
    → reversed (bytes size a) ≡ reversed (bytes size b)
    → a ≡ b
bytes_injective size a b ha hb e =
    let same : bytes size a ≡ bytes size b =
      sym (reversed-reversed (bytes size a)) ∙ ap reversed e ∙ reversed-reversed (bytes size b) in
    sym (of_bytes-bytes size a ha) ∙ ap of_bytes same ∙ of_bytes-bytes size b hb

is_before-append :
    (a b : List ℕ) (x y : ℕ)
    → length a ≡ length b
    → (is_before (a ++ (x ∷ [])) (b ++ (y ∷ [])) ≡ true)
      ↔ ((is_before a b ≡ true) ⊎ ((a ≡ b) × (x < y)))
is_before-append [] [] x y h = ground arith
is_before-append [] (z ∷ b) x y h = absurd (omega arith)
is_before-append (z ∷ a) [] x y h = absurd (omega arith)
is_before-append (z ∷ a) (w ∷ b) x y h =
    let ih = is_before-append a b x y (omega arith) in ground (arith, ih)

bytes-order :
    (size a b : ℕ)
    → a < 256 ^ size
    → b < 256 ^ size
    → (is_before (reversed (bytes size a)) (reversed (bytes size b)) ≡ true) ↔ (a < b)
unfolding bytes reversed
bytes-order zero a b ha hb = (λ h. cc, λ h. absurd (omega arith))
bytes-order (suc size) a b ha hb =
    let low : a / 256 < 256 ^ size = omega (arith, pow-suc 256 size) in
    let high : b / 256 < 256 ^ size = omega (arith, pow-suc 256 size) in
    let (down, up) = bytes-order size (a / 256) (b / 256) low high in
    let same : length (reversed (bytes size (a / 256))) ≡ length (reversed (bytes size (b / 256))) =
      length-reversed (bytes size (a / 256))
      ∙ length-bytes size (a / 256)
      ∙ sym (length-bytes size (b / 256))
      ∙ sym (length-reversed (bytes size (b / 256))) in
    let (split, join) =
      is_before-append (reversed (bytes size (a / 256))) (reversed (bytes size (b / 256))) (a % 256)
        (b % 256) same in
    (
      λ h. elim (split h) [
        | inl p ↦ let q = down p in omega arith
        | inr (e, lt) ↦ let q = bytes_injective size (a / 256) (b / 256) low high e in omega arith
      ],
      λ h. elim (dec_lt (a / 256) (b / 256)) [
        | yes lt ↦ join (inl (up lt))
        | no ge ↦
            let e : a / 256 ≡ b / 256 = omega arith in
            join (inr (ap (λ t. reversed (bytes size t)) e, omega arith))
      ],
    )

of_pair : (n : ℕ) × n < 2 ^ 64 → Key
of_pair (n, h) = record { key = n; bounded = h }

key_path : (a b : Key) → a.key ≡ b.key → a ≡ b
unfolding of_pair
key_path a b e =
    let pairs : ◌≡◌ {A = (n : ℕ) × n < 2 ^ 64} (a.key, a.bounded) (b.key, b.bounded) =
      Σ_prop_path (λ n. le_prop) e in
    ap of_pair pairs

key_read : (bs : List ℕ) → (read_key bs).key ≡ u64 (of_bytes bs)
unfolding read_key
key_read bs = refl

pub little : little_endian (bytes 4) ≡ true
unfolding little_endian bytes
little = refl

-- On a machine that stores an `int` with its lowest byte first, the eight bytes that a key gives to a
-- tree are read back as the same key, and one key's bytes stand before another's exactly where the
-- key is smaller.
pub to_str_key_lem :
    (a b : Key)
    → let big = little_endian (bytes 4) in
      (read_key (to_str_key big (to_str_key big (in_memory a))) ≡ a)
      × (length (to_str_key big (in_memory a)) ≡ 8)
      × ((is_before (to_str_key big (in_memory a)) (to_str_key big (in_memory b)) ≡ true)
          ↔ (a.key < b.key))
unfolding to_str_key in_memory
to_str_key_lem a b =
    let value : of_bytes (bytes 8 a.key) ≡ a.key = of_bytes-bytes 8 a.key a.bounded in
    let small : u64 a.key ≡ a.key = let h = a.bounded in omega arith in
    rw (little, reversed-reversed (bytes 8 a.key))
      (
        key_path _ a (key_read (bytes 8 a.key) ∙ ap u64 value ∙ small),
        length-reversed (bytes 8 a.key) ∙ length-bytes 8 a.key,
        bytes-order 8 a.key b.key a.bounded b.bounded,
      )
