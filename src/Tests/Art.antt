-- ===== src/Tests/Art.antt =====
-- The theorems on the version word at concrete inputs.
use sidle.Base.{List, get_or, ℕ, ◌+◌, ◌*◌, ◌^◌, ◌≡◌, true, false, [], ◌∷◌, refl, arith}
use sidle.Art.Version.{
  get_prefix_len, set_lock, set_expand, is_locked, is_old, version_compare_expand, is_expanding,
  try_lock, unlock,
}
use sidle.Art.Node.{Node}
use sidle.Meta.{local, node_metadata}
use sidle.Art.Prefix.{truncate_prefix, prefix_compare}
use sidle.Art.Prefix.Laws.{Differs, prefix_compare-Differs, truncate_prefix_lem}
use sidle.Art.Prefix.Expand.{version_compare_expand-truncate_prefix}
use sidle.Art.Version.Lock.{
  System, Reach, here, next, read, win, move, idle, seen, holding, locks_exclude,
}

-- A `node4` with three children and a prefix of two bytes.
abbrev version : ℕ
version = 3 * 2 ^ 40 + 2 * 2 ^ 32 + 255

abbrev quiet : System
quiet = record { version = version; pc = λ i. idle }

abbrev chosen : System
chosen = record { version = version; pc = move quiet.pc 4 (seen version) }

abbrev locked : System
locked = record { version = set_lock version; pc = move chosen.pc 4 holding }

locked-Reach : Reach quiet locked
unfolding try_lock is_locked is_old
locked-Reach = next (next here (read 4 (set_lock version) refl refl)) (win 4 version refl refl)

locks_exclude_example : (◌≡◌ {A = ℕ} 4 4) × (is_locked (set_lock version) ≡ true)
locks_exclude_example = locks_exclude 4 4 (λ k. refl) locked-Reach refl refl

abbrev held_node : Node
held_node = record {
  new_ = 0;
  parent = 0;
  sidle_meta = node_metadata local 1;
  key = [];
  index = [];
  child = [];
  version = set_lock version;
  prefix = 5 ∷ 6 ∷ 0 ∷ 0 ∷ 0 ∷ 0 ∷ 0 ∷ 0 ∷ [];
}

version_compare_expand-truncate_prefix_example :
    (version_compare_expand version (set_expand (set_lock version)) ≡ true)
    × (version_compare_expand version ((truncate_prefix held_node 0).1).version ≡ true)
    × (version_compare_expand version (unlock ((truncate_prefix held_node 0).1).version) ≡ true)
    × (version_compare_expand version (unlock (set_lock version)) ≡ false)
unfolding is_expanding is_locked set_lock
version_compare_expand-truncate_prefix_example =
    version_compare_expand-truncate_prefix held_node 0 version refl refl refl

-- A prefix of four bytes, which shares two with the key.
abbrev four_bytes : Node
four_bytes = record held_node { version = 4 * 2 ^ 32; prefix = 5 ∷ 6 ∷ 7 ∷ 8 ∷ 0 ∷ 0 ∷ 0 ∷ 0 ∷ [] }

truncate_prefix_lem_example :
    let (byte, an') = truncate_prefix four_bytes 2 in
    (byte ≡ 7)
    × (get_prefix_len an'.version + 2 + 1 ≡ get_prefix_len (4 * 2 ^ 32))
    × (get_or an'.prefix 0 0 ≡ 8)
    × (is_expanding an'.version ≡ true)
unfolding get_prefix_len
truncate_prefix_lem_example =
    truncate_prefix_lem four_bytes 2 0 refl (omega arith) (omega arith) (omega arith)

prefix_compare-Differs_example :
    let key : List ℕ = 9 ∷ 5 ∷ 6 ∷ 3 ∷ [] in
    Differs
      (get_prefix_len (4 * 2 ^ 32))
      0
      four_bytes.prefix
      key
      4
      1
      (prefix_compare four_bytes (4 * 2 ^ 32) key 4 1)
prefix_compare-Differs_example =
    prefix_compare-Differs four_bytes (4 * 2 ^ 32) (9 ∷ 5 ∷ 6 ∷ 3 ∷ []) 4 1
