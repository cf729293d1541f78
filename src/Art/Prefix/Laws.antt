-- ===== src/Art/Prefix/Laws.antt =====
-- What a comparison with a prefix finds, and how a prefix is split.
use sidle.Base.{
  ℕ, zero, suc, ◌+◌, ◌-◌, ◌<◌, ◌≤◌, ◌≡◌, ◌≢◌, ◌⊎◌, inl, inr, List, ◌==◌, ==_iff, ltb, arith, refl,
  sym, ap, ◌∙◌, Bool-cases, get_or, set, length, length-set, get_or-set_self, get_or-set_ne, true,
}
use sidle.Art.Version.{
  get_prefix_len, set_prefix_len, get_offset, set_offset, set_expand, is_expanding,
}
use sidle.Art.Node.{Node}
use sidle.Art.Prefix.{compare_loop, prefix_compare, shift_prefix, truncate_prefix}

-- From `i` to `r` the bytes of the prefix are those of the key from `off` on, and there the prefix of
-- `n` bytes ends, or the key, or the bytes differ.
pub record Differs (n i : ℕ) (prefix key : List ℕ) (len off r : ℕ) : Type 0 where
  pub low : i ≤ r
  pub high : r ≤ i + n
  pub equal : (j : ℕ) → i ≤ j → j < r → get_or prefix j 0 ≡ get_or key (off + (j - i)) 0
  pub ends :
      (r ≡ i + n) ⊎ (len ≤ off + (r - i)) ⊎ (get_or prefix r 0 ≢ get_or key (off + (r - i)) 0)

Differs-stop :
    (n i : ℕ) (prefix key : List ℕ) (len off : ℕ)
    → (n ≡ 0) ⊎ (len ≤ off) ⊎ (get_or prefix i 0 ≢ get_or key off 0)
    → Differs n i prefix key len off i
Differs-stop n i prefix key len off stop =
    let here : off + (i - i) ≡ off = omega arith in
    record {
      low = omega arith;
      high = omega arith;
      equal = λ j h k. absurd (omega arith);
      ends = elim stop [
        | inl e ↦ inl (omega arith)
        | inr (inl e) ↦ inr (inl (omega arith))
        | inr (inr e) ↦ inr (inr (λ q. e (q ∙ ap (λ o. get_or key o 0) here)))
      ];
    }

Differs-next :
    (n i : ℕ) (prefix key : List ℕ) (len off r : ℕ)
    → get_or prefix i 0 ≡ get_or key off 0
    → Differs n (i + 1) prefix key len (off + 1) r
    → Differs (suc n) i prefix key len off r
Differs-next n i prefix key len off r e v =
    let moved : (j : ℕ) → i + 1 ≤ j → off + 1 + (j - (i + 1)) ≡ off + (j - i) =
      λ j h. omega arith in
    record {
      low = omega (arith, v.low);
      high = omega (arith, v.high);
      equal = λ j h k. elim (Bool-cases (i == j)) [
        | inl same ↦
            let at_i : i ≡ j = (==_iff i j).0 same in
            let first : off ≡ off + (j - i) = omega arith in
            ap (λ a. get_or prefix a 0) (sym at_i) ∙ e ∙ ap (λ o. get_or key o 0) first
        | inr other ↦
            let later : i + 1 ≤ j = ground arith in
            v.equal j later k ∙ ap (λ o. get_or key o 0) (moved j later)
      ];
      ends = elim v.ends [
        | inl a ↦ inl (omega arith)
        | inr (inl a) ↦ inr (inl (omega (arith, v.low)))
        | inr (inr a) ↦ inr (inr (λ q. a (q ∙ ap (λ o. get_or key o 0) (sym (moved r v.low)))))
      ];
    }

compare_loop-Differs :
    (n i : ℕ) (prefix key : List ℕ) (len off : ℕ)
    → Differs n i prefix key len off (compare_loop n i prefix key len off)
unfolding compare_loop
compare_loop-Differs zero i prefix key len off = Differs-stop 0 i prefix key len off (inl refl)
compare_loop-Differs (suc n) i prefix key len off = elim (Bool-cases (ltb off len)) [
  | inl more ↦ elim (Bool-cases (get_or prefix i 0 == get_or key off 0)) [
    | inl same ↦
        rw (more, same)
          (Differs-next n i prefix key len off _ ((==_iff _ _).0 same)
            (compare_loop-Differs n (i + 1) prefix key len (off + 1)))
    | inr other ↦
        rw (more, other) (Differs-stop (suc n) i prefix key len off (inr (inr (ground arith))))
  ]
  | inr over ↦ rw over (Differs-stop (suc n) i prefix key len off (inr (inl (ground arith))))
]

-- `art_node_prefix_compare` returns how far the key agrees with the prefix: up to there the bytes are
-- equal, and there the prefix ends, or the key, or the bytes differ.
pub prefix_compare-Differs :
    (an : Node) (version : ℕ) (key : List ℕ) (len off : ℕ)
    → Differs
        (get_prefix_len version)
        0
        an.prefix
        key
        len
        off
        (prefix_compare an version key len off)
unfolding prefix_compare
prefix_compare-Differs an version key len off =
    compare_loop-Differs (get_prefix_len version) 0 an.prefix key len off

shift_prefix_below :
    (n i j m : ℕ) (prefix : List ℕ)
    → m < i
    → get_or (shift_prefix n i j prefix) m 0 ≡ get_or prefix m 0
unfolding shift_prefix
shift_prefix_below zero i j m prefix h = refl
shift_prefix_below (suc n) i j m prefix h =
    shift_prefix_below n (i + 1) (j + 1) m (set prefix i (get_or prefix j 0)) (omega arith)
    ∙ get_or-set_ne prefix i m (get_or prefix j 0) 0 (λ q. absurd (omega arith))

shift_prefix_lem :
    (n i d m : ℕ) (prefix : List ℕ)
    → 0 < d
    → i + n ≤ length prefix
    → i ≤ m
    → m < i + n
    → get_or (shift_prefix n i (i + d) prefix) m 0 ≡ get_or prefix (m + d) 0
unfolding shift_prefix
shift_prefix_lem zero i d m prefix far room low high = absurd (omega arith)
shift_prefix_lem (suc n) i d m prefix far room low high =
    let b = get_or prefix (i + d) 0 in
    let again : i + d + 1 ≡ i + 1 + d = omega arith in
    elim (Bool-cases (i == m)) [
      | inl same ↦
          let at_i : i ≡ m = (==_iff i m).0 same in
          shift_prefix_below n (i + 1) (i + d + 1) m (set prefix i b) (omega arith)
          ∙ ap (λ a. get_or (set prefix i b) a 0) (sym at_i)
          ∙ get_or-set_self prefix i b 0 (omega arith)
          ∙ ap (λ a. get_or prefix (a + d) 0) at_i
      | inr other ↦
          let later : i + 1 ≤ m = ground arith in
          ap (λ a. get_or (shift_prefix n (i + 1) a (set prefix i b)) m 0) again
          ∙ shift_prefix_lem n (i + 1) d m (set prefix i b) far
              (omega (arith, length-set prefix i b)) later (omega arith)
          ∙ get_or-set_ne prefix i (m + d) b 0 (λ q. absurd (omega arith))
    ]

pub get_prefix_len-set_prefix_len : (v x : ℕ) → x < 256 → get_prefix_len (set_prefix_len v x) ≡ x
unfolding get_prefix_len set_prefix_len
get_prefix_len-set_prefix_len v x h = omega arith

get_prefix_len-set_offset : (v x : ℕ) → get_prefix_len (set_offset v x) ≡ get_prefix_len v
unfolding get_prefix_len set_offset
get_prefix_len-set_offset v x = omega arith

get_prefix_len-set_expand : (v : ℕ) → get_prefix_len (set_expand v) ≡ get_prefix_len v
unfolding get_prefix_len set_expand
get_prefix_len-set_expand v = omega arith

pub is_expanding-set_offset : (v x : ℕ) → is_expanding (set_offset v x) ≡ is_expanding v
unfolding is_expanding set_offset
is_expanding-set_offset v x = ap (λ a. a == 1) (omega arith)

pub is_expanding-set_prefix_len : (v x : ℕ) → is_expanding (set_prefix_len v x) ≡ is_expanding v
unfolding is_expanding set_prefix_len
is_expanding-set_prefix_len v x = ap (λ a. a == 1) (omega arith)

pub is_expanding-set_expand : (v : ℕ) → is_expanding (set_expand v) ≡ true
unfolding is_expanding set_expand
is_expanding-set_expand v = ground arith

-- `art_node_truncate_prefix` at a position inside a prefix of at most 8 bytes splits the prefix: it
-- returns the byte there, and the node keeps the bytes behind it, in their order, and is marked as
-- expanding, so that `art_node_unlock` counts the change.
pub truncate_prefix_lem :
    (an : Node) (off m : ℕ)
    → length an.prefix ≡ 8
    → get_prefix_len an.version ≤ 8
    → off < get_prefix_len an.version
    → m < get_prefix_len an.version - off - 1
    → let (byte, an') = truncate_prefix an off in
      (byte ≡ get_or an.prefix off 0)
      × (get_prefix_len an'.version + off + 1 ≡ get_prefix_len an.version)
      × (get_or an'.prefix m 0 ≡ get_or an.prefix (off + 1 + m) 0)
      × (is_expanding an'.version ≡ true)
unfolding truncate_prefix
truncate_prefix_lem an off m size short inside below =
    let v = set_expand an.version in
    let n = get_prefix_len v in
    let same : n ≡ get_prefix_len an.version = get_prefix_len-set_expand an.version in
    let shorter = set_prefix_len v (n - off - 1) in
    let there = off + get_offset shorter + 1 in
    let left : get_prefix_len (set_offset shorter there) ≡ n - off - 1 =
      get_prefix_len-set_offset shorter there
      ∙ get_prefix_len-set_prefix_len v (n - off - 1) (omega arith) in
    let from_zero : off + 1 ≡ 0 + (off + 1) = omega arith in
    (
      refl,
      omega arith,
      ap (λ a. get_or (shift_prefix (n - (off + 1)) 0 a an.prefix) m 0) from_zero
          ∙ shift_prefix_lem (n - (off + 1)) 0 (off + 1) m an.prefix (omega arith) (omega arith)
              (omega arith) (omega arith)
          ∙ ap (λ a. get_or an.prefix a 0) (omega arith),
      is_expanding-set_offset shorter there
          ∙ is_expanding-set_prefix_len v (n - off - 1)
          ∙ is_expanding-set_expand an.version,
    )
