-- ===== src/Tests/Kv.antt =====
-- The theorems on the key-value wrappers at concrete inputs.
use sidle.Base.{
  ℕ, suc, ◌+◌, ◌*◌, ◌^◌, ◌≤◌, ◌<◌, ◌≡◌, ◌↔◌, refl, Bool, true, false, none, some, List, [], ◌∷◌,
  ◌++◌, length, take, map, Each, arith,
}
use sidle.Base.Int.{pos}
use sidle.Flags
use sidle.Flags.{Flags}
use sidle.Helper.Cores.{bound_to}
use sidle.Kv.Format.{ValueFormat}
use sidle.Kv.Format.Bytes.{is_before}
use sidle.Kv.Trees.{Entries, IsOrdered, from}
use sidle.Kv.Key.{Key, to_str_key, in_memory, read_key, little_endian, bytes}
use sidle.Kv.Key.Laws.{to_str_key_lem}
use sidle.Kv.Key.Instance.{key_format}
use sidle.Kv.Background.{
  Phase, testing, in_round, finished, Turn, Run, Step, no_background, Worker, Job, cooler,
  stop_background,
}
use sidle.Kv.Background.Laws.{stop-returns}
use sidle.Kv.Lifecycle.{IsSettling, IsSpread, art_workers_lem}
use sidle.Kv.Hotness.{masstree_hotness, art_hotness}
use sidle.Kv.Hotness.Laws.{IsDescending, IsPage, totals, hotness-IsDescending}
use sidle.Kv.Masstree
use sidle.Kv.Masstree.{MasstreeKv, new_masstree_kv, returned, scan}
use sidle.Kv.Masstree.Laws as MapLaws
use sidle.Kv.Masstree.Laws.{new_masstree_kv-spec_run}
use sidle.Kv.Masstree.Scan.{decode, scan-get}
use sidle.Kv.Art
use sidle.Kv.Art.{ArtKv, new_art_kv}
use sidle.Tests.Tables.{list_table, list_table-IsMap, key_list}
use sidle.Strategy.{Widths}
use sidle.Tests.Strategy.{loaded}
use sidle.Tests.Threshold.{hundredths}

abbrev key_3 : Key
key_3 = record { key = 3; bounded = omega arith }

abbrev key_700 : Key
key_700 = record { key = 700; bounded = omega arith }

to_str_key_lem_example :
    let big = little_endian (bytes 4) in
    (read_key (to_str_key big (to_str_key big (in_memory key_3))) ≡ key_3)
    × (length (to_str_key big (in_memory key_3)) ≡ 8)
    × ((is_before (to_str_key big (in_memory key_3)) (to_str_key big (in_memory key_700)) ≡ true)
        ↔ (3 < 700))
to_str_key_lem_example = to_str_key_lem key_3 key_700

-- Values of one byte.
abbrev head : List ℕ → ℕ
head [] = 0
head (b ∷ bs) = b

abbrev byte_format : ValueFormat ℕ
byte_format = record { write = λ v. v ∷ []; read = head; read-write = λ v. refl }

abbrev mass_kv : MasstreeKv list_table
mass_kv = record {
  mass_tree = list_table.initialize (pos 50);
  background = no_background;
  strategy_manager = loaded;
}

abbrev node_widths : Widths
node_widths = record { leaf_width = 15; leaf_size = 320; internode_size = 320 }

abbrev mass_commands : List (MapLaws.Command Key ℕ)
mass_commands =
    MapLaws.Command.insert_cmd key_3 5
    ∷ MapLaws.Command.get_cmd key_3 9
    ∷ MapLaws.Command.remove_cmd key_3
    ∷ MapLaws.Command.get_cmd key_3 9
    ∷ []

new_masstree_kv-spec_run_example :
    MapLaws.run key_format byte_format list_table
      (new_masstree_kv list_table hundredths node_widths (pos 50) 110)
      mass_commands
    ≡ MapLaws.spec_run key_format byte_format (λ k. none) mass_commands
new_masstree_kv-spec_run_example =
    new_masstree_kv-spec_run key_format byte_format list_table list_table-IsMap hundredths
      node_widths (pos 50) 110 mass_commands

-- A table with two entries, under the keys 3 and 700.
abbrev filled : MasstreeKv list_table
filled = record mass_kv {
  mass_tree =
      (list_table.run_replace
        (list_table.run_replace mass_kv.mass_tree (key_format.to_str_key key_700) (8 ∷ [])).1
        (key_format.to_str_key key_3) (5 ∷ [])).1;
}

scan-get_example :
    (es : Entries) × (es ≡ take 1 (from (key_format.to_str_key key_3) filled.mass_tree.list))
    × (scan list_table key_format byte_format filled key_3 1 ((key_700, 1) ∷ [])
        ≡ returned (
          1 + length es,
          ((key_700, 1) ∷ []) ++ map (decode key_format byte_format list_table) es,
        ))
    × (length es ≤ 1)
    × IsOrdered es
    × Each
        (λ (j, v).
          (is_before j (key_format.to_str_key key_3) ≡ false)
          × ((k : Key)
              → key_format.to_str_key k ≡ j
              → (decode key_format byte_format list_table (j, v) ≡ (k, head v))
                × ((d : ℕ)
                    → Masstree.get list_table key_format byte_format filled k d ≡ (true, head v))))
        es
scan-get_example =
    scan-get key_format byte_format list_table list_table-IsMap filled key_3 1 ((key_700, 1) ∷ [])

abbrev art_kv : ArtKv key_list
art_kv = record { tree = []; background = no_background; strategy_manager = loaded; pool = none }

-- Threads that take their turns one after the other, each to its end.
abbrev all_finished : List Phase → List Phase
all_finished [] = []
all_finished (p ∷ ps) = finished ∷ all_finished ps

abbrev in_order : Bool → List Phase → List Phase
in_order true ps = ps
in_order false ps = all_finished ps

behind :
    {n : ℕ} {ps qs : List Phase} (p : Phase) → Run false n ps qs → Run false n (p ∷ ps) (p ∷ qs)
behind p Run.done = Run.done
behind p (Run.next s r) = Run.next (Step.there s) (behind p r)

runs_out : (ps : List Phase) → (n : ℕ) × Run false n ps (all_finished ps)
runs_out [] = (0, Run.done)
runs_out (testing ∷ ps) =
    let (n, r) = runs_out ps in (suc n, Run.next (Step.here Turn.leave) (behind finished r))
runs_out (in_round ∷ ps) =
    let (n, r) = runs_out ps in
    (
      suc (suc n),
      Run.next (Step.here Turn.end_round) (Run.next (Step.here Turn.leave) (behind finished r)),
    )
runs_out (finished ∷ ps) = let (n, r) = runs_out ps in (n, behind finished r)

no-Turn : {p q : Phase} → Turn false p q → p ≡ finished → ⊥
no-Turn Turn.leave e = cc
no-Turn Turn.end_round e = cc

stand_still : {ps qs : List Phase} (rs : List Phase) → ps ≡ all_finished rs → ¬ Step false ps qs
stand_still [] e (Step.here t) = cc
stand_still [] e (Step.there s) = cc
stand_still (r ∷ rs) e (Step.here t) = no-Turn t (ground arith)
stand_still (r ∷ rs) e (Step.there s) = stand_still rs (ground arith) s

in_order-IsSettling : IsSettling in_order
in_order-IsSettling ps = (runs_out ps, λ qs s. stand_still ps refl s)

art_workers_lem_example :
    let (kv', f') = Art.init_migration_worker key_list art_kv (pos 43) 100 500 1000 Flags.initial in
    (f'.is_running ≡ true)
    × IsSpread kv'.background.jobs
    × ((f'' : Flags) × (Art.stop_kv key_list in_order kv' f'
          ≡ some (record kv' { background = no_background }, f''))
        × (f''.is_running ≡ false))
    × (kv'.pool ≡ some (record { threads = 4; start_tid = pos 48 }))
art_workers_lem_example =
    art_workers_lem in_order key_list art_kv 43 100 500 1000 Flags.initial in_order-IsSettling refl
      (omega arith)

abbrev one_worker : Worker
one_worker = record { role = cooler; interval = 500 }

abbrev one_job : List Job
one_job = record { worker = 0; core = bound_to 4; phase = in_round } ∷ []

stop-returns_example :
    (2 ≤ 2 * 1)
    × ((f' : Flags) × (stop_background in_order
            (record { workers = some one_worker ∷ []; jobs = one_job })
            Flags.initial
          ≡ some (no_background, f'))
        × (f'.is_running ≡ false))
stop-returns_example =
    stop-returns in_order one_worker [] one_job Flags.initial 2
      (Run.next (Step.here Turn.end_round) (Run.next (Step.here Turn.leave) Run.done))
      (in_order-IsSettling (in_round ∷ [])).1

abbrev visited : List (ℕ × ℕ)
visited = (4096, 7) ∷ (8200, 40) ∷ (4160, 30) ∷ []

hotness-IsDescending_example :
    (77 < 2 ^ 16
      → IsDescending (masstree_hotness visited)
        × (totals (masstree_hotness visited) ≡ 77)
        × Each (IsPage visited) (masstree_hotness visited))
    × (77 < 2 ^ 32
        → IsDescending (art_hotness visited)
          × (totals (art_hotness visited) ≡ 77)
          × Each (IsPage visited) (art_hotness visited))
hotness-IsDescending_example = hotness-IsDescending visited
