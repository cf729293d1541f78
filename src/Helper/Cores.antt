-- ===== src/Helper/Cores.antt =====
-- `bind_to_physical_cores` and `bind_to_physical_cores_reverse` of src/helper.cpp. `INVARIANT` and
-- `COUT_N_EXIT` abort the program, whatever the build.
pub mod Laws
use sidle.Base.{ℕ, List, [], ◌∷◌, get_or, ltb, if◌then◌else◌}
use sidle.Base.Int.{ℤ, pos, negsuc, ltb_ℤ}

-- What a call does to its thread: it ends the program, it reads in front of the table, which is
-- undefined behaviour, or it leaves the thread on one core and returns 0.
pub data Binding : Type 0 where
  aborted undefined : Binding
  bound_to : ℕ → Binding

abbrev pub physical_core_n : ℕ
physical_core_n = 48

abbrev pub mapping : List ℕ
mapping =
    0 ∷ 2 ∷ 4 ∷ 6 ∷ 8 ∷ 10 ∷ 12 ∷ 14 ∷ 16 ∷ 18 ∷ 20 ∷ 22 ∷ 1 ∷ 3 ∷ 5 ∷ 7 ∷ 9 ∷ 11 ∷ 13 ∷ 15 ∷ 17
    ∷ 19 ∷ 21 ∷ 23 ∷ 24 ∷ 26 ∷ 28 ∷ 30 ∷ 32 ∷ 34 ∷ 36 ∷ 38 ∷ 40 ∷ 42 ∷ 44 ∷ 46 ∷ 25 ∷ 27 ∷ 29 ∷ 31
    ∷ 33 ∷ 35 ∷ 37 ∷ 39 ∷ 41 ∷ 43 ∷ 45 ∷ 47 ∷ []

unfoldable pub bind_to_physical_cores : ℤ → Binding
bind_to_physical_cores (pos t_id) =
    if ltb t_id physical_core_n then bound_to (get_or mapping t_id 0) else aborted
bind_to_physical_cores (negsuc n) = undefined

-- Both branches end the program: the call behind `COUT_N_EXIT` is never made.
unfoldable pub bind_to_physical_cores_reverse : ℤ → Binding
bind_to_physical_cores_reverse t_id = if ltb_ℤ t_id (pos 64) then aborted else aborted
