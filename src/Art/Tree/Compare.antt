-- ===== src/Art/Tree/Compare.antt =====
-- Where keys agree, and which of them follow the way to a child.
use sidle.Base.{
  ℕ, zero, suc, ◌+◌, ◌-◌, ◌<◌, ◌≤◌, ◌≡◌, ◌≢◌, ◌⊎◌, inl, inr, refl, sym, ap, subst, ◌∙◌, List, true,
  false, ltb, ◌==◌, ==_iff, get_or, Bool-cases, arith,
}
use sidle.Art.Version.{get_offset, get_prefix_len}
use sidle.Art.Node.{Node}
use sidle.Art.Prefix.{prefix_compare}
use sidle.Art.Prefix.Laws.{prefix_compare-Differs}
use sidle.Art.Leaf.{LeafNode, get_leaf_len}
use sidle.Art.Tree.{match_loop, same_key}
use sidle.Art.Tree.Invariant.{Route, Follows, through, below_offset}

-- Two keys with the same bytes, of one length
abbrev pub SameBytes : List ℕ → List ℕ → ℕ → Type 0
SameBytes k1 k2 len = (j : ℕ) → j < len → get_or k1 j 0 ≡ get_or k2 j 0

later :
    (i r : ℕ) (k1 k2 : List ℕ)
    → get_or k1 i 0 ≡ get_or k2 i 0
    → ((j : ℕ) → i + 1 ≤ j → j < r → get_or k1 j 0 ≡ get_or k2 j 0)
    → (j : ℕ) → i ≤ j
    → j < r
    → get_or k1 j 0 ≡ get_or k2 j 0
later i r k1 k2 first equal j low high = elim (Bool-cases (i == j)) [
  | inl q ↦ subst (λ m. get_or k1 m 0 ≡ get_or k2 m 0) ((==_iff i j).0 q) first
  | inr q ↦ equal j (ground arith) high
]

-- The loop ends behind the last byte that is compared, or where the keys differ.
pub match_loop_lem :
    (n i : ℕ) (k1 k2 : List ℕ) (len : ℕ)
    → i + n ≡ len
    → ((match_loop n i k1 k2 len ≡ len)
        × ((j : ℕ) → i ≤ j → j < len → get_or k1 j 0 ≡ get_or k2 j 0))
      ⊎ ((r : ℕ) × (match_loop n i k1 k2 len ≡ r)
          × (i ≤ r)
          × (r < len)
          × (get_or k1 r 0 ≢ get_or k2 r 0)
          × ((j : ℕ) → i ≤ j → j < r → get_or k1 j 0 ≡ get_or k2 j 0))
unfolding match_loop
match_loop_lem zero i k1 k2 len e = inl (omega arith, λ j low high. absurd (omega arith))
match_loop_lem (suc n) i k1 k2 len e =
    let more : ltb i len ≡ true = ground arith in
    elim (Bool-cases (get_or k1 i 0 == get_or k2 i 0)) [
      | inl same ↦ elim (match_loop_lem n (i + 1) k1 k2 len (omega arith)) [
        | inl (ends, equal) ↦
            inl (rw (more, same) ends, later i len k1 k2 ((==_iff _ _).0 same) equal)
        | inr (r, ends, low, high, differ, equal) ↦ inr (
          r,
          rw (more, same) ends,
          omega arith,
          high,
          differ,
          later i r k1 k2 ((==_iff _ _).0 same) equal,
        )
      ]
      | inr other ↦ inr (
        i,
        rw (more, other) refl,
        omega arith,
        omega arith,
        ground arith,
        λ j low high. absurd (omega arith),
      )
    ]

pub same_key_lem :
    (leaf : LeafNode) (key : List ℕ) (len off : ℕ)
    → get_leaf_len leaf ≡ len
    → off ≤ len
    → ((same_key leaf key len off ≡ true)
        × ((j : ℕ) → off ≤ j → j < len → get_or leaf.key j 0 ≡ get_or key j 0))
      ⊎ ((same_key leaf key len off ≡ false)
          × ((r : ℕ) × (off ≤ r) × (r < len) × (get_or leaf.key r 0 ≢ get_or key r 0)))
unfolding same_key
same_key_lem leaf key len off size inside =
    elim (match_loop_lem (len - off) off leaf.key key len (omega arith)) [
      | inl (ends, equal) ↦ inl (rw (size, ends) (ground arith), equal)
      | inr (r, ends, low, high, differ, equal) ↦
          inr (rw (size, ends) (ground arith), (r, low, high, differ))
    ]

-- A key follows a node's way to a child where it follows the way to the node, has the prefix and
-- then the byte.
Follows-through :
    (key : List ℕ) (route : Route) (n : Node) (len : ℕ)
    → let o = get_offset n.version in
      let p = get_prefix_len n.version in
      Follows key route o
      → prefix_compare n n.version key len o ≡ p
      → Follows key (through route n (get_or key (o + p) 0)) (below_offset n)
Follows-through key route n len before whole j high =
    let o = get_offset n.version in
    let p = get_prefix_len n.version in
    let d = prefix_compare-Differs n n.version key len o in
    elim (Bool-cases (ltb j o)) [
      | inl a ↦ rw a (before j (ground arith))
      | inr a ↦ elim (Bool-cases (ltb j (o + p))) [
        | inl b ↦
            let back : o + (j - o - 0) ≡ j = ground arith in
            rw (a, b)
              (sym (ap (λ m. get_or key m 0) back)
                ∙ sym (d.equal (j - o) (omega arith) (ground arith)))
        | inr b ↦ rw (a, b) (ap (λ m. get_or key m 0) (ground arith))
      ]
    ]

Follows-back :
    (key : List ℕ) (route : Route) (n : Node) (len byte : ℕ)
    → let o = get_offset n.version in
      let p = get_prefix_len n.version in
      o + p < len
      → Follows key (through route n byte) (below_offset n)
      → Follows key route o
        × (prefix_compare n n.version key len o ≡ p)
        × (get_or key (o + p) 0 ≡ byte)
Follows-back key route n len byte inside follows =
    let o = get_offset n.version in
    let p = get_prefix_len n.version in
    let r = prefix_compare n n.version key len o in
    let d = prefix_compare-Differs n n.version key len o in
    (
      λ j high. let t : ltb j o ≡ true = ground arith in follows j (omega arith) ∙ rw t refl,
      elim d.ends [
        | inl e ↦ omega arith
        | inr (inl e) ↦ absurd (omega (arith, d.high))
        | inr (inr e) ↦ elim (Bool-cases (ltb r p)) [
          | inl less ↦
              let a : ltb (o + r) o ≡ false = ground arith in
              let b : ltb (o + r) (o + p) ≡ true = ground arith in
              let back : o + r - o ≡ r = omega arith in
              let at_r : get_or key (o + r) 0 ≡ get_or n.prefix r 0 =
                follows (o + r) (ground arith) ∙ rw (a, b) (ap (λ m. get_or n.prefix m 0) back) in
              absurd (e (sym (ap (λ m. get_or key m 0) (omega arith) ∙ at_r)))
          | inr more ↦ ground (arith, d.high)
        ]
      ],
      let t : ltb (o + p) o ≡ false = ground arith in
          let u : ltb (o + p) (o + p) ≡ false = ground arith in
          follows (o + p) (omega arith) ∙ rw (t, u) refl,
    )

-- The same at the offset that a place has.
pub Follows-child :
    (key : List ℕ) (route : Route) (n : Node) (len off : ℕ)
    → get_offset n.version ≡ off
    → let p = get_prefix_len n.version in
      Follows key route off
      → prefix_compare n n.version key len off ≡ p
      → Follows key (through route n (get_or key (off + p) 0)) (below_offset n)
Follows-child key route n len off offset =
    let p = get_prefix_len n.version in
    subst
      (λ o.
        Follows key route o
        → prefix_compare n n.version key len o ≡ p
        → Follows key (through route n (get_or key (o + p) 0)) (below_offset n))
      offset (Follows-through key route n len)

pub Follows-parent :
    (key : List ℕ) (route : Route) (n : Node) (len byte off : ℕ)
    → get_offset n.version ≡ off
    → let p = get_prefix_len n.version in
      off + p < len
      → Follows key (through route n byte) (below_offset n)
      → Follows key route off
        × (prefix_compare n n.version key len off ≡ p)
        × (get_or key (off + p) 0 ≡ byte)
Follows-parent key route n len byte off offset =
    let p = get_prefix_len n.version in
    subst
      (λ o.
        o + p < len
        → Follows key (through route n byte) (below_offset n)
        → Follows key route o
          × (prefix_compare n n.version key len o ≡ p)
          × (get_or key (o + p) 0 ≡ byte))
      offset (Follows-back key route n len byte)
