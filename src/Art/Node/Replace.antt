-- ===== src/Art/Node/Replace.antt =====
-- What a node maps its bytes to, after a child is replaced.
use sidle.Base.{
  ℕ, ◌<◌, ◌≡◌, ◌≢◌, inl, inr, refl, sym, ap, ◌∙◌, none, some, ◌==◌, ==_iff, if◌then◌else◌, get_or,
  set, length, List, get_or-set_self, get_or-set_ne, Bool-cases, arith,
}
use sidle.Art.Version.{NodeType, node4, node16, node48, node256, get_node_type, get_count}
use sidle.Art.Node.{Node, find_slot, find_child}
use sidle.Art.Node.Search.{find_key_16-find_key}
use sidle.Art.Node.Insert.{IsShape, find_key_range}

find_slot_bound :
    (t : NodeType) (n : Node) (byte slot : ℕ)
    → IsShape t n
    → byte < 256
    → find_slot t n n.version byte ≡ some slot
    → slot < length n.child
unfolding find_slot
find_slot_bound node4 n byte slot (keys, children, few) range h =
    omega (arith, find_key_range n.key 0 (get_count n.version) byte slot h)
find_slot_bound node16 n byte slot (keys, children, few) range h = omega (
  arith,
  find_key_range n.key 0 (get_count n.version) byte slot
      (sym (find_key_16-find_key (get_count n.version) n.key byte few) ∙ h),
)
find_slot_bound node48 n byte slot (indices, children, few, inside) range h =
    ground (arith, inside byte)
find_slot_bound node256 n byte slot children range h = ground arith

direct_used :
    (child : List ℕ) (byte slot : ℕ)
    → (if get_or child byte 0 == 0 then none else some byte) ≡ some slot
    → (byte ≡ slot) × (get_or child byte 0 ≢ 0)
direct_used child byte slot h = (ground arith, λ q. absurd (ground arith))

both_used :
    (x y b : ℕ)
    → x ≢ 0
    → y ≢ 0
    → (if x == 0 then none else some b) ≡ (if y == 0 then none else some b)
both_used x y b p q = ground arith

find_slot-set :
    (t : NodeType) (n : Node) (byte slot a b : ℕ)
    → IsShape t n
    → byte < 256
    → find_slot t n n.version byte ≡ some slot
    → a ≢ 0
    → find_slot t (record n { child = set n.child slot a }) n.version b ≡ find_slot t n n.version b
unfolding find_slot
find_slot-set node4 n byte slot a b shape range h not_null = refl
find_slot-set node16 n byte slot a b shape range h not_null = refl
find_slot-set node48 n byte slot a b shape range h not_null = refl
find_slot-set node256 n byte slot a b shape range h not_null =
    let (at_byte, used) = direct_used n.child byte slot h in
    let here : get_or (set n.child slot a) slot 0 ≡ a =
      get_or-set_self n.child slot a 0 (omega arith) in
    elim (Bool-cases (slot == b)) [
      | inl same ↦
          let at : slot ≡ b = (==_iff slot b).0 same in
          both_used (get_or (set n.child slot a) b 0) (get_or n.child b 0) b
            (λ q. not_null (sym here ∙ ap (λ m. get_or (set n.child slot a) m 0) at ∙ q))
            (λ q. used (ap (λ m. get_or n.child m 0) (at_byte ∙ at) ∙ q))
      | inr other ↦
          ap (λ c. if c == 0 then none else some b)
            (get_or-set_ne n.child slot b a 0 (λ q. absurd (ground arith)))
    ]

-- A node with another child at a slot that a byte leads to finds every slot as before.
pub find_child-set :
    (n : Node) (byte slot a b : ℕ)
    → IsShape (get_node_type n.version) n
    → byte < 256
    → find_child n n.version byte ≡ some slot
    → a ≢ 0
    → (find_child (record n { child = set n.child slot a }) n.version b ≡ find_child n n.version b)
      × (slot < length n.child)
unfolding find_child
find_child-set n byte slot a b shape range h not_null =
    let t = get_node_type n.version in
    (
      find_slot-set t n byte slot a b shape range h not_null,
      find_slot_bound t n byte slot shape range h,
    )
