-- ===== src/Tests/Strategy.antt =====
-- The theorems on `sidle_strategy` and the node allocation at concrete inputs.
use sidle.Base.{ℕ, ◌≡◌, inl, List, [], ◌∷◌, some, true, false, refl, arith}
use sidle.Base.Int.{pos}
use sidle.Meta.{NodeMemType, local, remote, unknown, NodeMetadata, node_metadata}
use sidle.Flags
use sidle.Flags.{Flags}
use sidle.Strategy.{Strategy, new_node_type, child_depth, sidle_alloc, sidle_free}
use sidle.Strategy.Accounting.{
  Tracks, sidle_alloc-Tracks, sidle_alloc_migrates, sidle_free-sidle_alloc,
}
use sidle.Tests.Threshold.{five_layers, hundredths}

abbrev nodes : List (NodeMemType × ℕ)
nodes = (local, 80) ∷ (remote, 656) ∷ []

abbrev pub loaded : Strategy
loaded = record {
  threshold_manager = five_layers;
  max_local_memory_usage = 1048576;
  cur_local_memory_usage = pos 80;
  slow_down_in_load = false;
}

abbrev parent : NodeMetadata
parent = record { type = local; depth = 3 }

sidle_alloc-Tracks_example :
    let type = new_node_type loaded (some parent) unknown in
    (s' : Strategy) × (f' : Flags) × (sidle_alloc hundredths 208
        (some parent)
        unknown
        false
        false
        0
        loaded
        Flags.initial
      ≡ some (node_metadata type (child_depth (some parent)), s', f'))
    × Tracks s' ((type, 208) ∷ nodes)
sidle_alloc-Tracks_example =
    sidle_alloc-Tracks hundredths 208 (some parent) unknown false loaded Flags.initial nodes
      (omega arith) refl

sidle_alloc_migrates_example :
    (s' : Strategy) × (f' : Flags) × (sidle_alloc hundredths 80
        (some parent)
        remote
        true
        true
        0
        loaded
        Flags.initial
      ≡ some (node_metadata remote (child_depth (some parent)), s', f'))
    × Tracks s' ((remote, 80) ∷ (remote, 656) ∷ [])
sidle_alloc_migrates_example =
    sidle_alloc_migrates hundredths 80 (some parent) true loaded Flags.initial []
      ((remote, 656) ∷ []) local remote (omega arith) (inl (refl, refl)) refl

sidle_free-sidle_alloc_example :
    let type = new_node_type loaded (some parent) unknown in
    (meta : NodeMetadata) × (s' : Strategy) × (f' : Flags) × (sidle_alloc hundredths 208
        (some parent)
        unknown
        false
        false
        0
        loaded
        Flags.initial
      ≡ some (meta, s', f'))
    × (meta.type ≡ type)
    × ((s'' : Strategy) × (f'' : Flags) × (sidle_free hundredths
            (λ an st. an ∷ st)
            4096
            meta
            208
            s'
            f'
            (512 ∷ [])
          ≡ some (s'', f'', 4096 ∷ 512 ∷ []))
        × Tracks s'' ((type, 208) ∷ (type, 208) ∷ nodes))
sidle_free-sidle_alloc_example =
    sidle_free-sidle_alloc hundredths (λ an st. an ∷ st) 4096 208 (some parent) unknown false loaded
      Flags.initial (512 ∷ []) nodes (omega arith) refl
