-- ===== src/Workers/Laws.antt =====
-- What a round of the threshold adjuster keeps, whatever the other workers do while it waits.
use sidle.Base.{ℕ, zero, suc, ◌≡◌, true, false, refl}
use sidle.Meta.{MemUsageStatus, tight, sufficient, normal}
use sidle.Threshold.{
  Threshold, adjust_local_allocation_threshold, adjust_demotion_depth_threshold,
  adjust_hotness_watermark,
}
use sidle.Threshold.Depth.{apply, layer, depth, hotness, IsRooted, apply-IsRooted}
use sidle.Workers.{
  Adjuster, go_on, attempt, attempts, handle_local_mem_shortage, handle_local_mem_sufficient,
  handle, adjust_round,
}

layer-IsRooted :
    (b : _) (t : Threshold) → IsRooted t → IsRooted (adjust_local_allocation_threshold b t)
unfolding apply
layer-IsRooted b t = apply-IsRooted (layer b) t tt

depth-IsRooted :
    (b : _) (t : Threshold) → IsRooted t → IsRooted (adjust_demotion_depth_threshold b t)
unfolding apply
depth-IsRooted b t = apply-IsRooted (depth b) t tt

hotness-IsRooted :
    (b c : _) (t : Threshold) → IsRooted t → IsRooted (adjust_hotness_watermark b c t)
unfolding apply
hotness-IsRooted b c t = apply-IsRooted (hotness b c) t tt

go_on-IsRooted :
    (status : MemUsageStatus) (rest s : Adjuster)
    → IsRooted rest.threshold
    → IsRooted s.threshold
    → IsRooted (go_on status rest s).threshold
go_on-IsRooted tight rest s r q = r
go_on-IsRooted sufficient rest s r q = q
go_on-IsRooted normal rest s r q = q

module _ (check_memory_usage : Adjuster → MemUsageStatus) (await : Adjuster → Adjuster)
    (kept : (s : Adjuster) → IsRooted s.threshold → IsRooted (await s).threshold) where
  attempt-IsRooted :
      (s : Adjuster)
      → IsRooted s.threshold
      → IsRooted (attempt check_memory_usage await s).threshold
  unfolding attempt
  attempt-IsRooted s r = kept _ (kept _ (hotness-IsRooted false false s.threshold r))

  attempts-IsRooted :
      (n : ℕ) (s : Adjuster)
      → IsRooted s.threshold
      → IsRooted (attempts check_memory_usage await n s).threshold
  unfolding attempts
  attempts-IsRooted zero s r = r
  attempts-IsRooted (suc n) s r =
      let s' = attempt check_memory_usage await s in
      let done = attempt-IsRooted s r in
      go_on-IsRooted (check_memory_usage s') _ s' (attempts-IsRooted n s' done) done

  handle-IsRooted :
      (status : MemUsageStatus) (s : Adjuster)
      → IsRooted s.threshold
      → IsRooted (handle check_memory_usage await status s).threshold
  unfolding handle handle_local_mem_shortage handle_local_mem_sufficient
  handle-IsRooted tight s r = hotness-IsRooted false false _ (
      depth-IsRooted false _ (
        layer-IsRooted false _
          (attempts-IsRooted 3 _ (depth-IsRooted true _ (layer-IsRooted true s.threshold r)))))
  handle-IsRooted sufficient s r =
      hotness-IsRooted false true _ (depth-IsRooted false _ (layer-IsRooted false s.threshold r))
  handle-IsRooted normal s r = hotness-IsRooted false false s.threshold r

  promotes-handle :
      (status : MemUsageStatus) (s : Adjuster)
      → s.flags.can_promote ≡ true
      → (handle check_memory_usage await status s).flags.can_promote ≡ true
  unfolding handle handle_local_mem_shortage handle_local_mem_sufficient
  promotes-handle tight s h = refl
  promotes-handle sufficient s h = h
  promotes-handle normal s h = h

  -- Whatever the memory status and whatever the other workers do while the adjuster waits, as long as
  -- they keep the number of local layers from 1 to `max_local_depth`: a round of the adjuster keeps
  -- it there too, and ends with promotions allowed, as they were before, and no adjustment asked for.
  pub adjust_round-IsRooted :
      (s : Adjuster)
      → IsRooted s.threshold
      → s.flags.can_promote ≡ true
      → let s' = adjust_round check_memory_usage await s in
        IsRooted s'.threshold
        × (s'.flags.can_promote ≡ true)
        × (s'.flags.need_adjust_threshold ≡ false)
  unfolding adjust_round
  adjust_round-IsRooted s r h =
      let woken = record s { flags = record s.flags { need_adjust_threshold = true } } in
      (
        handle-IsRooted (check_memory_usage woken) woken r,
        promotes-handle (check_memory_usage woken) woken h,
        refl,
      )
