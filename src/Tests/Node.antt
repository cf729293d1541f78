-- ===== src/Tests/Node.antt =====
-- The theorems on the nodes of the radix tree at concrete inputs.
use sidle.Base.{ℕ, ◌+◌, ◌*◌, ◌^◌, ◌≡◌, List, [], ◌∷◌, refl, arith, replicate}
use sidle.Meta.{local, node_metadata}
use sidle.Art.Version.{get_count, get_node_type}
use sidle.Art.Node.{Node, find_key, find_key_16, find_child, child_of}
use sidle.Art.Node.Search.{find_key_16-find_key}
use sidle.Art.Grow.{add_child}
use sidle.Art.Grow.Add.{IsAdded, add_child-IsAdded}

abbrev key_bytes : List ℕ
key_bytes = 10 ∷ 20 ∷ 30 ∷ replicate 13 0

find_key_16-find_key_example : find_key_16 3 key_bytes 30 ≡ find_key 0 3 key_bytes 30
find_key_16-find_key_example = find_key_16-find_key 3 key_bytes 30 (omega arith)

-- A locked `node4` with two children and a prefix of three bytes.
abbrev small : Node
small = record {
  version = 2 ^ 18 + 3 * 2 ^ 32 + 2 * 2 ^ 40;
  prefix = 1 ∷ 2 ∷ 3 ∷ replicate 5 0;
  new_ = 0;
  parent = 0;
  sidle_meta = node_metadata local 2;
  key = 10 ∷ 20 ∷ 0 ∷ 0 ∷ [];
  index = [];
  child = 4096 ∷ 8192 ∷ 0 ∷ 0 ∷ [];
}

abbrev full : Node
full = record small {
  version = 2 ^ 18 + 3 * 2 ^ 32 + 4 * 2 ^ 40;
  key = 10 ∷ 20 ∷ 30 ∷ 40 ∷ [];
  child = 4096 ∷ 8192 ∷ 12288 ∷ 16384 ∷ [];
}

abbrev memory : Node
memory = record small { key = replicate 16 7; child = replicate 16 7 }

add_child-IsAdded_example : IsAdded full 50 20480 65536 50 (add_child full 50 20480 memory 65536)
unfolding get_count get_node_type child_of find_child find_key
add_child-IsAdded_example =
    add_child-IsAdded full memory 50 20480 65536 50 (omega arith, (refl, refl, omega arith)) tt
      (refl, refl) (omega arith) (omega arith) (omega arith) (λ e. absurd (ground arith))
