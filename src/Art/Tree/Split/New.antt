-- ===== src/Art/Tree/Split/New.antt =====
-- The node above two leaves, as a leaf that is split makes it.
use sidle.Base.{
  ℕ, ◌+◌, ◌-◌, ◌*◌, ◌/◌, ◌%◌, ◌^◌, ◌<◌, ◌≤◌, ◌≡◌, ◌≢◌, ◌⊎◌, ==_iff, inl, inr, refl, sym, ap, ◌∙◌,
  List, [], ◌∷◌, true, false, none, some, ltb, ◌==◌, get_or, set, length, Bool-cases, arith,
}
use sidle.Art.Version.{
  node4, type_of_code, get_node_type, set_type, get_count, incr_count, get_offset, set_offset,
  get_prefix_len, set_prefix_len, set_lock, is_locked, is_old, is_expanding, swap, try_lock, unlock,
  unset_lock,
}
use sidle.Art.Node.{
  Node, find_key, find_child, find_slot, is_full, is_full_as, insert_child, insert_as,
}
use sidle.Art.Prefix.{copy_bytes, set_prefix}
use sidle.Art.Leaf.{LeafNode, get_leaf_len}
use sidle.Art.Grow.{new_art_node}
use sidle.Art.Grow.Add.{add_child_free}
use sidle.Art.Tree.Split.{Memory, add_new, locked_node, split_leaf}

-- The version words on the way
abbrev locked_word : ℕ → ℕ
locked_word off = off * 2 ^ 54 + 2 ^ 18

abbrev word : ℕ → ℕ → ℕ → ℕ
word off p count = off * 2 ^ 54 + p * 2 ^ 32 + count * 2 ^ 40 + 2 ^ 18

set_lock-word :
    (off : ℕ) → off < 256 → set_lock (set_offset (set_type 0 node4) off) ≡ locked_word off
unfolding set_lock set_offset set_type
set_lock-word off h = omega arith

set_offset_start : (off : ℕ) → set_offset (set_type 0 node4) off ≡ off * 2 ^ 54
unfolding set_offset set_type
set_offset_start off = omega arith

set_prefix_len-word :
    (off p : ℕ) → off < 256 → p < 256 → set_prefix_len (locked_word off) p ≡ word off p 0
unfolding set_prefix_len
set_prefix_len-word off p h k = omega arith

incr_count-word :
    (off p count : ℕ)
    → off < 256
    → p < 256
    → count < 4
    → incr_count (word off p count) ≡ word off p (count + 1)
unfolding incr_count
incr_count-word off p count h k l = omega arith

word_lem :
    (off p count : ℕ)
    → off < 256
    → p < 256
    → count < 4
    → (get_count (word off p count) ≡ count) × (get_node_type (word off p count) ≡ node4)
unfolding get_count get_node_type
word_lem off p count h k l =
    let code : word off p count / 2 ^ 20 % 4 ≡ 0 = omega arith in
    (omega arith, ap type_of_code code)

-- The word of the new node at the end
abbrev pub free_word : ℕ → ℕ → ℕ
free_word off p = off * 2 ^ 54 + p * 2 ^ 32 + 2 * 2 ^ 40

unlock-word : (off p : ℕ) → off < 256 → p < 256 → unlock (word off p 2) ≡ free_word off p
unfolding unlock is_expanding unset_lock
unlock-word off p h k =
    let still : (word off p 2 / 2 ^ 16 % 2 == 1) ≡ false = ground arith in rw still (omega arith)

-- A child is added to the new node, behind those that it has.
add_new-word :
    (n : Node) (off p count byte child : ℕ)
    → n.version ≡ word off p count
    → off < 256
    → p < 256
    → count < 4
    → find_key 0 count n.key byte ≡ none
    → add_new n byte child
      ≡ some (record n {
        child = set n.child count child;
        key = set n.key count byte;
        version = word off p (count + 1);
      })
unfolding add_new find_child find_slot is_full is_full_as insert_child insert_as
add_new-word n off p count byte child e h k l absent =
    let (counted, type) = word_lem off p count h k l in
    let type' : get_node_type n.version ≡ node4 = ap get_node_type e ∙ type in
    let count' : get_count n.version ≡ count = ap get_count e ∙ counted in
    let incr : incr_count n.version ≡ word off p (count + 1) =
      ap incr_count e ∙ incr_count-word off p count h k l in
    let gone : find_child n n.version byte ≡ none = rw (type', count') absent in
    let free : is_full n ≡ false = rw (type', count') (ground arith) in
    rw (add_child_free n n byte child 0 gone free, add_new) (rw (type', count', incr) refl)

try_lock_start :
    (off : ℕ) → off < 256 → try_lock (set_offset (set_type 0 node4) off) ≡ swap (locked_word off)
unfolding try_lock is_locked is_old
try_lock_start off h =
    let v = set_offset (set_type 0 node4) off in
    let high : v ≡ off * 2 ^ 54 = set_offset_start off in
    let free : is_locked v ≡ false = rw high (ground arith) in
    let new_ : is_old v ≡ false = rw high (ground arith) in
    rw (free, new_, try_lock) (ap swap (set_lock-word off h))

locked_node_lem :
    (mem : Memory) (parent off : ℕ)
    → off < 256
    → locked_node mem parent off
      ≡ some (record mem.raw { version = locked_word off; new_ = 0; parent = parent })
unfolding locked_node new_art_node
locked_node_lem mem parent off h = rw (try_lock_start off h, locked_node) refl

find_key-set :
    (keys : List ℕ) (first byte : ℕ) → first ≢ byte → find_key 0 1 (set keys 0 first) byte ≡ none
unfolding find_key
find_key-set [] first byte h = refl
find_key-set (k ∷ keys) first byte h = let e : first == byte ≡ false = ground arith in rw e refl

-- What `art_node_replace_leaf_child` returns where the keys differ at `i`, at most 8 bytes on: a free
-- node with the bytes up to there as its prefix, which leads the next byte of each key to its leaf.
pub split_leaf_lem :
    (mem : Memory) (parent an : ℕ) (leaf : LeafNode) (key : List ℕ) (len off i : ℕ)
    → off ≤ i
    → i - off ≤ 8
    → off < 256
    → i < len
    → get_leaf_len leaf ≡ len
    → get_or leaf.key i 0 ≢ get_or key i 0
    → split_leaf mem parent an leaf key len off i
      ≡ some (record mem.raw {
        version = free_word off (i - off);
        prefix = copy_bytes (i - off) 0 mem.raw.prefix leaf.key off;
        new_ = 0;
        parent = parent;
        key = set (set mem.raw.key 0 (get_or leaf.key i 0)) 1 (get_or key i 0);
        child = set (set mem.raw.child 0 an) 1 mem.leaf_at;
      })
unfolding split_leaf set_prefix find_key
split_leaf_lem mem parent an leaf key len off i low short bound inside size differ =
    let p = i - off in
    let b1 = get_or leaf.key i 0 in
    let b2 = get_or key i 0 in
    let n = record mem.raw {
      version = word off p 0;
      prefix = copy_bytes p 0 mem.raw.prefix leaf.key off;
      new_ = 0;
      parent = parent;
    } in
    let m = record n { child = set n.child 0 an; key = set n.key 0 b1; version = word off p 1 } in
    let fits : ltb 8 p ≡ false = ground arith in
    let in_leaf : i == get_leaf_len leaf ≡ false = ground arith in
    let in_key : i == len ≡ false = ground arith in
    rw
      (
        fits,
        locked_node_lem mem parent off bound,
        set_prefix_len-word off p bound (omega arith),
        in_leaf,
        add_new-word n off p 0 b1 an refl bound (omega arith) (omega arith) refl,
        in_key,
        add_new-word m off p 1 b2 mem.leaf_at refl bound (omega arith) (omega arith)
            (find_key-set mem.raw.key b1 b2 differ),
        unlock-word off p bound (omega arith),
      )
      refl

pub free_word_lem :
    (off p : ℕ)
    → off < 256
    → p < 256
    → (get_offset (free_word off p) ≡ off)
      × (get_prefix_len (free_word off p) ≡ p)
      × (get_count (free_word off p) ≡ 2)
      × (get_node_type (free_word off p) ≡ node4)
      × (is_old (free_word off p) ≡ false)
      × (is_expanding (free_word off p) ≡ false)
unfolding get_offset get_prefix_len get_count get_node_type is_old is_expanding
free_word_lem off p h k =
    let code : free_word off p / 2 ^ 20 % 4 ≡ 0 = omega arith in
    (omega arith, omega arith, omega arith, ap type_of_code code, ground arith, ground arith)

-- The two bytes of the new node
find_two :
    (keys : List ℕ) (b1 b2 byte slot : ℕ)
    → length keys ≡ 4
    → find_key 0 2 (set (set keys 0 b1) 1 b2) byte ≡ some slot
    → ((0 ≡ slot) × (b1 ≡ byte)) ⊎ ((1 ≡ slot) × (b2 ≡ byte))
unfolding find_key
find_two [] b1 b2 byte slot size h = absurd (omega arith)
find_two (k ∷ []) b1 b2 byte slot size h = absurd (omega arith)
find_two (k ∷ l ∷ keys) b1 b2 byte slot size h = elim (Bool-cases (b1 == byte)) [
  | inl e ↦ inl (ground arith, (==_iff b1 byte).0 e)
  | inr e ↦ elim (Bool-cases (b2 == byte)) [
    | inl f ↦ inr (ground arith, (==_iff b2 byte).0 f)
    | inr f ↦ absurd (ground arith)
  ]
]

pub children_two :
    (child : List ℕ) (a b : ℕ)
    → length child ≡ 4
    → (get_or (set (set child 0 a) 1 b) 0 0 ≡ a) × (get_or (set (set child 0 a) 1 b) 1 0 ≡ b)
children_two [] a b h = absurd (omega arith)
children_two (c ∷ []) a b h = absurd (omega arith)
children_two (c ∷ d ∷ child) a b h = (refl, refl)

find_child_two :
    (n : Node) (keys : List ℕ) (off p byte : ℕ)
    → n.version ≡ free_word off p
    → n.key ≡ keys
    → off < 256
    → p < 256
    → find_child n n.version byte ≡ find_key 0 2 keys byte
unfolding find_child find_slot
find_child_two n keys off p byte e k h l =
    let (o, q, counted, type, old, expanding) = free_word_lem off p h l in
    let type' : get_node_type n.version ≡ node4 = ap get_node_type e ∙ type in
    let count' : get_count n.version ≡ 2 = ap get_count e ∙ counted in
    ap (λ t. find_slot t n n.version byte) type'
    ∙ ap (λ m. find_key 0 m n.key byte) count'
    ∙ ap (λ ks. find_key 0 2 ks byte) k

pub find_child-free_word :
    (n : Node) (keys : List ℕ) (b1 b2 off p byte slot : ℕ)
    → n.version ≡ free_word off p
    → n.key ≡ set (set keys 0 b1) 1 b2
    → length keys ≡ 4
    → off < 256
    → p < 256
    → find_child n n.version byte ≡ some slot
    → ((0 ≡ slot) × (b1 ≡ byte)) ⊎ ((1 ≡ slot) × (b2 ≡ byte))
find_child-free_word n keys b1 b2 off p byte slot e k size h l found =
    find_two keys b1 b2 byte slot size
      (sym (find_child_two n (set (set keys 0 b1) 1 b2) off p byte e k h l) ∙ found)

find_first :
    (keys : List ℕ) (b1 b2 : ℕ)
    → length keys ≡ 4
    → find_key 0 2 (set (set keys 0 b1) 1 b2) b1 ≡ some 0
unfolding find_key
find_first [] b1 b2 size = absurd (omega arith)
find_first (k ∷ keys) b1 b2 size = let e : b1 == b1 ≡ true = (==_iff b1 b1).1 refl in rw e refl

find_second :
    (keys : List ℕ) (b1 b2 : ℕ)
    → length keys ≡ 4
    → b1 ≢ b2
    → find_key 0 2 (set (set keys 0 b1) 1 b2) b2 ≡ some 1
unfolding find_key
find_second [] b1 b2 size differ = absurd (omega arith)
find_second (k ∷ []) b1 b2 size differ = absurd (omega arith)
find_second (k ∷ l ∷ keys) b1 b2 size differ =
    let e : b1 == b2 ≡ false = ground arith in
    let f : b2 == b2 ≡ true = (==_iff b2 b2).1 refl in rw (e, f) refl

-- Each byte of the new node leads to its slot.
pub find_child_both :
    (n : Node) (keys : List ℕ) (b1 b2 off p : ℕ)
    → n.version ≡ free_word off p
    → n.key ≡ set (set keys 0 b1) 1 b2
    → length keys ≡ 4
    → off < 256
    → p < 256
    → b1 ≢ b2
    → (find_child n n.version b1 ≡ some 0) × (find_child n n.version b2 ≡ some 1)
find_child_both n keys b1 b2 off p e k size h l differ =
    let two = find_child_two n (set (set keys 0 b1) 1 b2) off p in
    (
      two b1 e k h l ∙ find_first keys b1 b2 size,
      two b2 e k h l ∙ find_second keys b1 b2 size differ,
    )
