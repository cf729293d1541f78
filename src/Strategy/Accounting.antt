-- ===== src/Strategy/Accounting.antt =====
-- `cur_local_memory_usage_` against the nodes that are in local memory.
use sidle.Base.{
  ℕ, ◌+◌, ◌-◌, ◌^◌, ◌<◌, ◌≡◌, ◌⊎◌, inl, inr, Bool, true, false, List, [], ◌∷◌, ◌++◌, Option, some,
  arith, refl, sym, u64, ◌∙◌, ◌||◌, Bool-cases, if◌then◌else◌,
}
use sidle.Base.Int.{ℤ, pos, ◌+ℤ◌, ◌-ℤ◌, ltb_ℤ}
use sidle.Meta.{
  NodeMemType, MemUsageStatus, local, remote, unknown, debug, is_local, NodeMetadata, node_metadata,
}
use sidle.Flags.{Flags}
use sidle.Threshold.{Floats, leaf_depth}
use sidle.Strategy.{
  Strategy, charge, charged, react, check_memory_usage, update_local_memory_usage, signed,
  new_node_type, child_depth, sidle_alloc, sidle_free,
}

-- The bytes in local memory of the nodes of a tree, each with its place and size.
abbrev pub local_bytes : List (NodeMemType × ℕ) → ℕ
local_bytes [] = 0
local_bytes ((local, size) ∷ nodes) = size + local_bytes nodes
local_bytes ((remote, size) ∷ nodes) = local_bytes nodes
local_bytes ((unknown, size) ∷ nodes) = local_bytes nodes
local_bytes ((debug, size) ∷ nodes) = local_bytes nodes

abbrev pub Tracks : Strategy → List (NodeMemType × ℕ) → Type 0
Tracks s nodes = s.cur_local_memory_usage ≡ pos (local_bytes nodes)

local_bytes-append :
    (xs ys : List (NodeMemType × ℕ)) → local_bytes (xs ++ ys) ≡ local_bytes xs + local_bytes ys
local_bytes-append [] ys = omega arith
local_bytes-append ((local, size) ∷ xs) ys = omega (arith, local_bytes-append xs ys)
local_bytes-append ((remote, size) ∷ xs) ys = local_bytes-append xs ys
local_bytes-append ((unknown, size) ∷ xs) ys = local_bytes-append xs ys
local_bytes-append ((debug, size) ∷ xs) ys = local_bytes-append xs ys

usage-react :
    (status : MemUsageStatus) (s : Strategy) (f : Flags)
    → (react status s f).0.cur_local_memory_usage ≡ s.cur_local_memory_usage
unfolding react
usage-react status s f = ground arith

signed-small : (n : ℕ) → n < 2 ^ 63 → signed (u64 (n + 2 ^ 64 - 0)) ≡ pos n
unfolding signed
signed-small n h = ground arith

not_negative : (i : ℤ) (n : ℕ) → i ≡ pos n → ltb_ℤ i (pos 0) ≡ false
not_negative i n e = rw e (ground arith)

charge_free :
    (type : NodeMemType) (size usage : ℤ) (migration : Bool)
    → is_local type || migration ≡ false
    → charge type size migration usage ≡ usage
unfolding charge
charge_free local size usage migration h = cc
charge_free remote size usage migration h = rw h
charge_free unknown size usage migration h = refl
charge_free debug size usage migration h = refl

charge_new :
    (type : NodeMemType) (size : ℕ) (nodes : List (NodeMemType × ℕ)) (s : Strategy)
    → Tracks s nodes
    → charge type (pos size) false s.cur_local_memory_usage
      ≡ pos (local_bytes ((type, size) ∷ nodes))
unfolding charge ◌+ℤ◌
charge_new local size nodes s t = rw t (ground arith)
charge_new remote size nodes s t = t
charge_new unknown size nodes s t = t
charge_new debug size nodes s t = t

new_node_type_given :
    (s : Strategy) (parent : Option NodeMetadata) (target : NodeMemType)
    → (target ≡ remote) ⊎ (target ≡ local)
    → new_node_type s parent target ≡ target
unfolding new_node_type
new_node_type_given s parent target known = ground arith

module _ (size : ℕ) (s : Strategy) (pre post : List (NodeMemType × ℕ)) where
  charge_demoted :
      Tracks s (pre ++ ((local, size) ∷ post))
      → charge remote (pos size) true s.cur_local_memory_usage
        ≡ pos (local_bytes (pre ++ ((remote, size) ∷ post)))
  unfolding charge ◌-ℤ◌
  charge_demoted t = rw t (
      ground (
        arith,
        local_bytes-append pre ((local, size) ∷ post),
        local_bytes-append pre ((remote, size) ∷ post),
      ))

  charge_promoted :
      Tracks s (pre ++ ((remote, size) ∷ post))
      → charge local (pos size) true s.cur_local_memory_usage
        ≡ pos (local_bytes (pre ++ ((local, size) ∷ post)))
  unfolding charge ◌+ℤ◌
  charge_promoted t = rw t (
      ground (
        arith,
        local_bytes-append pre ((local, size) ∷ post),
        local_bytes-append pre ((remote, size) ∷ post),
      ))

module _ (floats : Floats) where
  -- An update that leaves the usage non-negative succeeds, and the usage is then as charged.
  Updates : Strategy → Flags → NodeMemType → ℕ → ℕ → Bool → Bool → ℕ → Type 0
  Updates s f type depth size migration leaf n =
      (s' : Strategy) × (f' : Flags) × (update_local_memory_usage floats type depth (pos size)
          migration leaf s f
        ≡ some (s', f'))
      × (s'.cur_local_memory_usage ≡ pos n)

  update-charge :
      (type : NodeMemType) (depth size : ℕ) (migration leaf : Bool) (s : Strategy) (f : Flags)
      (n : ℕ)
      → charge type (pos size) migration s.cur_local_memory_usage ≡ pos n
      → Updates s f type depth size migration leaf n
  unfolding update_local_memory_usage charged Updates
  update-charge type depth size migration leaf s f n e =
      let s' = charged type depth (pos size) migration leaf s in
      let r = react (check_memory_usage floats s') s' f in
      (r.0, r.1, rw (not_negative _ n e), usage-react _ s' f ∙ e)

  -- What an allocation does to the usage, whatever the branch.
  alloc-charge :
      (size : ℕ) (parent : Option NodeMetadata) (target : NodeMemType) (migration leaf : Bool)
      (s : Strategy) (f : Flags) (n : ℕ)
      → size < 2 ^ 63
      → charge (new_node_type s parent target) (pos size) migration s.cur_local_memory_usage ≡ pos n
      → (s' : Strategy) × (f' : Flags) × (sidle_alloc floats size parent target migration leaf 0 s f
          ≡ some (node_metadata (new_node_type s parent target) (child_depth parent), s', f'))
        × (s'.cur_local_memory_usage ≡ pos n)
  unfolding sidle_alloc Updates
  alloc-charge size parent target migration leaf s f n small e =
      let type = new_node_type s parent target in
      let depth = child_depth parent in
      elim (Bool-cases (is_local type || migration)) [
        | inl counted ↦
            let (s', f', found, usage) =
              update-charge type (if leaf then depth else leaf_depth) size migration leaf s f n e in
            (s', f', rw (counted, signed-small size small, found), usage)
        | inr free ↦ (s, f, rw free, sym (charge_free type (pos size) _ migration free) ∙ e)
      ]

-- A new node, which is no migration, is counted where it is local. From a usage that tracks the
-- nodes the allocation succeeds, and the usage tracks the nodes with the new one.
pub sidle_alloc-Tracks :
    (floats : Floats) (size : ℕ) (parent : Option NodeMetadata) (target : NodeMemType) (leaf : Bool)
    (s : Strategy) (f : Flags) (nodes : List (NodeMemType × ℕ))
    → size < 2 ^ 63
    → Tracks s nodes
    → let type = new_node_type s parent target in
      (s' : Strategy) × (f' : Flags) × (sidle_alloc floats size parent target false leaf 0 s f
        ≡ some (node_metadata type (child_depth parent), s', f'))
      × Tracks s' ((type, size) ∷ nodes)
sidle_alloc-Tracks floats size parent target leaf s f nodes small t =
    alloc-charge floats size parent target false leaf s f _ small
      (charge_new (new_node_type s parent target) size nodes s t)

migrate :
    (floats : Floats) (size : ℕ) (parent : Option NodeMetadata) (target : NodeMemType) (leaf : Bool)
    (s : Strategy) (f : Flags) (n : ℕ)
    → size < 2 ^ 63
    → (target ≡ remote) ⊎ (target ≡ local)
    → charge target (pos size) true s.cur_local_memory_usage ≡ pos n
    → (s' : Strategy) × (f' : Flags) × (sidle_alloc floats size parent target true leaf 0 s f
        ≡ some (node_metadata target (child_depth parent), s', f'))
      × (s'.cur_local_memory_usage ≡ pos n)
migrate floats size parent target leaf s f n small known e =
    let given : new_node_type s parent target ≡ target =
      new_node_type_given s parent target known in
    let all = alloc-charge floats size parent target true leaf s f n small (rw given e) in
    rw given at all

-- A migration of a node, from local memory to the device or back, succeeds from a usage that tracks
-- the nodes, and the usage then tracks the nodes with that one in its new place.
pub sidle_alloc_migrates :
    (floats : Floats) (size : ℕ) (parent : Option NodeMetadata) (leaf : Bool) (s : Strategy)
    (f : Flags) (pre post : List (NodeMemType × ℕ)) (source target : NodeMemType)
    → size < 2 ^ 63
    → ((source ≡ local) × (target ≡ remote)) ⊎ ((source ≡ remote) × (target ≡ local))
    → Tracks s (pre ++ ((source, size) ∷ post))
    → (s' : Strategy) × (f' : Flags) × (sidle_alloc floats size parent target true leaf 0 s f
        ≡ some (node_metadata target (child_depth parent), s', f'))
      × Tracks s' (pre ++ ((target, size) ∷ post))
sidle_alloc_migrates floats size parent leaf s f pre post source target small (inl (e, g)) t =
    let go = migrate floats size parent remote leaf s f _ small (inl refl) in
    rw g (go (charge_demoted size s pre post (rw e at t)))
sidle_alloc_migrates floats size parent leaf s f pre post source target small (inr (e, g)) t =
    let go = migrate floats size parent local leaf s f _ small (inr refl) in
    rw g (go (charge_promoted size s pre post (rw e at t)))

signed-pos : (n : ℕ) → n < 2 ^ 63 → signed n ≡ pos n
unfolding signed
signed-pos n h = ground arith

-- `sidle_free` does not undo `sidle_alloc`. From a usage that tracks the nodes, a new node is
-- allocated and then freed: both calls succeed, the heap is that after one `free_with_cxl` of the
-- node, and the usage tracks the nodes with the freed one counted twice, so that it ends up by two
-- sizes too high for a local node, and right for another one.
pub sidle_free-sidle_alloc {ℓ} :
    {St : Type ℓ} (floats : Floats) (free_with_cxl : ℕ → St → St) (an size : ℕ)
    (parent : Option NodeMetadata) (target : NodeMemType) (leaf : Bool) (s : Strategy) (f : Flags)
    (st : St) (nodes : List (NodeMemType × ℕ))
    → size < 2 ^ 63
    → Tracks s nodes
    → let type = new_node_type s parent target in
      (meta : NodeMetadata) × (s' : Strategy) × (f' : Flags) × (sidle_alloc floats size parent
          target false leaf 0 s f
        ≡ some (meta, s', f'))
      × (meta.type ≡ type)
      × ((s'' : Strategy) × (f'' : Flags) × (sidle_free floats free_with_cxl an meta size s' f' st
            ≡ some (s'', f'', free_with_cxl an st))
          × Tracks s'' ((type, size) ∷ (type, size) ∷ nodes))
unfolding sidle_free Updates node_metadata
sidle_free-sidle_alloc floats free_with_cxl an size parent target leaf s f st nodes small t =
    let type = new_node_type s parent target in
    let meta = node_metadata type (child_depth parent) in
    let (s', f', came, t') = sidle_alloc-Tracks floats size parent target leaf s f nodes small t in
    let (s'', f'', went, t'') =
      update-charge floats type meta.depth size false false s' f' _
        (charge_new type size ((type, size) ∷ nodes) s' t') in
    (meta, s', f', came, refl, (s'', f'', rw (signed-pos size small, went) refl, t''))
