-- ===== src/Art/Prefix/Copy.antt =====
-- A prefix that is set from a key agrees with that key.
use sidle.Base.{
  ℕ, zero, suc, ◌+◌, ◌-◌, ◌<◌, ◌≤◌, ◌≡◌, inl, inr, List, ◌==◌, ==_iff, arith, refl, sym, ap, ◌∙◌,
  Bool-cases, get_or, set, length, length-set, get_or-set_self, get_or-set_ne,
}
use sidle.Art.Node.{Node}
use sidle.Art.Prefix.{copy_bytes, set_prefix, prefix_compare}
use sidle.Art.Prefix.Laws.{prefix_compare-Differs, get_prefix_len-set_prefix_len}

copy_bytes_below :
    (n i m : ℕ) (dst src : List ℕ) (off : ℕ)
    → m < i
    → get_or (copy_bytes n i dst src off) m 0 ≡ get_or dst m 0
unfolding copy_bytes
copy_bytes_below zero i m dst src off h = refl
copy_bytes_below (suc n) i m dst src off h =
    copy_bytes_below n (i + 1) m (set dst i (get_or src (off + i) 0)) src off (omega arith)
    ∙ get_or-set_ne dst i m (get_or src (off + i) 0) 0 (λ q. absurd (omega arith))

pub copy_bytes_lem :
    (n i m : ℕ) (dst src : List ℕ) (off : ℕ)
    → i + n ≤ length dst
    → i ≤ m
    → m < i + n
    → get_or (copy_bytes n i dst src off) m 0 ≡ get_or src (off + m) 0
unfolding copy_bytes
copy_bytes_lem zero i m dst src off room low high = absurd (omega arith)
copy_bytes_lem (suc n) i m dst src off room low high =
    let b = get_or src (off + i) 0 in
    elim (Bool-cases (i == m)) [
      | inl same ↦
          let at_i : i ≡ m = (==_iff i m).0 same in
          copy_bytes_below n (i + 1) m (set dst i b) src off (omega arith)
          ∙ ap (λ a. get_or (set dst i b) a 0) (sym at_i)
          ∙ get_or-set_self dst i b 0 (omega arith)
          ∙ ap (λ a. get_or src (off + a) 0) at_i
      | inr other ↦
          copy_bytes_lem n (i + 1) m (set dst i b) src off (omega (arith, length-set dst i b))
            (ground arith) (omega arith)
    ]

pub length-copy_bytes :
    (n i : ℕ) (dst src : List ℕ) (off : ℕ) → length (copy_bytes n i dst src off) ≡ length dst
unfolding copy_bytes
length-copy_bytes zero i dst src off = refl
length-copy_bytes (suc n) i dst src off =
    length-copy_bytes n (i + 1) (set dst i (get_or src (off + i) 0)) src off
    ∙ length-set dst i (get_or src (off + i) 0)

-- After `art_node_set_prefix` with at most 8 bytes that lie inside a key, `art_node_prefix_compare` with the same
-- key at the same place finds that all of them agree.
prefix_compare-set_prefix :
    (an : Node) (key : List ℕ) (len off prefix_len : ℕ)
    → length an.prefix ≡ 8
    → prefix_len ≤ 8
    → off + prefix_len ≤ len
    → let an' = set_prefix an key off prefix_len in
      prefix_compare an' an'.version key len off ≡ prefix_len
unfolding set_prefix
prefix_compare-set_prefix an key len off prefix_len size short fits =
    let an' = set_prefix an key off prefix_len in
    let r = prefix_compare an' an'.version key len off in
    let v = prefix_compare-Differs an' an'.version key len off in
    let count = get_prefix_len-set_prefix_len an.version prefix_len (omega arith) in
    let most : r ≤ prefix_len = omega (arith, v.high) in
    let here : off + r ≡ off + (r - 0) = omega arith in
    elim v.ends [
      | inl e ↦ omega arith
      | inr (inl e) ↦ omega arith
      | inr (inr differ) ↦ elim (Bool-cases (r == prefix_len)) [
        | inl done ↦ (==_iff r prefix_len).0 done
        | inr less ↦ absurd (
            differ (
              copy_bytes_lem prefix_len 0 r an.prefix key off (omega arith) (omega arith)
                (ground arith)
              ∙ ap (λ a. get_or key a 0) here))
      ]
    ]
