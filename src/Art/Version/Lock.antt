-- ===== src/Art/Version/Lock.antt =====
-- The lock of a node: the threads that run `art_node_lock` and `art_node_unlock` on one version
-- word, interleaved in any order. The compare-exchange is weak: it may fail on an equal version.
use sidle.Base.{
  ℕ, ◌==◌, ==_iff, ◌≡◌, ◌≢◌, ◌⊎◌, true, false, arith, refl, if◌then◌else◌, ap, ◌∙◌, Bool-cases, inl,
  inr, ◌%◌,
}
use sidle.Art.Version.{
  is_locked, is_old, set_lock, unset_lock, unset_expand, incr_vexpand, is_expanding, refuse, swap,
  try_lock, unlock, get_count, get_node_type, type_of_code,
}

-- A thread is out of `art_node_lock`, or has read a version that is free, or has the lock.
pub data Pc : Type 0 where
  idle : Pc
  seen : ℕ → Pc
  holding : Pc

pub record System : Type 0 where
  pub version : ℕ
  pub pc : ℕ → Pc

abbrev pub move : (ℕ → Pc) → ℕ → Pc → ℕ → Pc
move pc i p j = if i == j then p else pc j

-- A holder may write any version that stays locked, as the node operations do.
pub data Step (s : System) : System → Type 0 where
  read :
      (i w : ℕ)
      → s.pc i ≡ idle
      → try_lock s.version ≡ swap w
      → Step s (record s { pc = move s.pc i (seen s.version) })
  win :
      (i v : ℕ)
      → s.pc i ≡ seen v
      → s.version ≡ v
      → Step s (record { version = set_lock v; pc = move s.pc i holding })
  lose : (i v : ℕ) → s.pc i ≡ seen v → Step s (record s { pc = move s.pc i idle })
  write : (i w : ℕ) → s.pc i ≡ holding → is_locked w ≡ true → Step s (record s { version = w })
  release :
      (i : ℕ)
      → s.pc i ≡ holding
      → Step s (record { version = unlock s.version; pc = move s.pc i idle })

pub data Reach (s : System) : System → Type 0 where
  here : Reach s s
  next : {t u : System} → Reach s t → Step t u → Reach s u

pub record Inv (s : System) : Type 0 where
  pub held : (i : ℕ) → s.pc i ≡ holding → is_locked s.version ≡ true
  pub one : (i j : ℕ) → s.pc i ≡ holding → s.pc j ≡ holding → i ≡ j
  pub free : (i v : ℕ) → s.pc i ≡ seen v → (is_locked v ≡ false) × (is_old v ≡ false)

pub is_locked-set_lock : (v : ℕ) → is_locked (set_lock v) ≡ true
unfolding is_locked set_lock
is_locked-set_lock v = ground arith

try_lock-swap : (v w : ℕ) → try_lock v ≡ swap w → (is_locked v ≡ false) × (is_old v ≡ false)
unfolding try_lock
try_lock-swap v w h = ground arith

move-hits :
    (pc : ℕ → Pc) (i j : ℕ) {p q : Pc}
    → move pc i p j ≡ q
    → ((i ≡ j) × (p ≡ q)) ⊎ ((i ≢ j) × (pc j ≡ q))
move-hits pc i j e = grind (arith, ==_iff)

Step-Inv : {s t : System} → Step s t → Inv s → Inv t
Step-Inv {s} (read i w e h) v = record {
  held = λ j q. ground (arith, move-hits s.pc i j q, v.held j);
  one = λ j k q r. ground (arith, move-hits s.pc i j q, move-hits s.pc i k r, v.one j k);
  free = λ j u q. ground (arith, move-hits s.pc i j q, v.free j u, try_lock-swap s.version w h);
}
Step-Inv {s} (win i k e h) v = record {
  held = λ j q. is_locked-set_lock k;
  one = λ j l q r.
      ground
        (arith, move-hits s.pc i j q, move-hits s.pc i l r, v.held j, v.held l, v.free i k e, h);
  free = λ j u q. ground (arith, move-hits s.pc i j q, v.free j u);
}
Step-Inv {s} (lose i k e) v = record {
  held = λ j q. ground (arith, move-hits s.pc i j q, v.held j);
  one = λ j k q r. ground (arith, move-hits s.pc i j q, move-hits s.pc i k r, v.one j k);
  free = λ j u q. ground (arith, move-hits s.pc i j q, v.free j u);
}
Step-Inv {s} (write i w e h) v = record { held = λ j q. h; one = v.one; free = v.free }
Step-Inv {s} (release i e) v = record {
  held = λ j q. ground (arith, move-hits s.pc i j q, v.one i j e);
  one = λ j k q r. ground (arith, move-hits s.pc i j q, move-hits s.pc i k r, v.one j k);
  free = λ j u q. ground (arith, move-hits s.pc i j q, v.free j u);
}

Reach-Inv : {s t : System} → Reach s t → Inv s → Inv t
Reach-Inv here v = v
Reach-Inv (next r step) v = Step-Inv step (Reach-Inv r v)

out-Inv : {s : System} → ((i : ℕ) → s.pc i ≡ idle) → Inv s
out-Inv {s} out = record {
  held = λ i e. ground (arith, out i);
  one = λ i j e f. ground (arith, out i);
  free = λ i k e. ground (arith, out i);
}

-- Whatever the version, if no thread is in `art_node_lock` at the start, then after any interleaving
-- of reads, compare-exchanges, failures, writes of a holder and releases, two threads that have the
-- lock are the same, and the version is locked as long as one has it.
pub locks_exclude :
    {s t : System} (i j : ℕ)
    → ((k : ℕ) → s.pc k ≡ idle)
    → Reach s t
    → t.pc i ≡ holding
    → t.pc j ≡ holding
    → (i ≡ j) × (is_locked t.version ≡ true)
locks_exclude i j out r e f = let v = Reach-Inv r (out-Inv out) in (v.one i j e f, v.held i e)

is_locked-unset_lock : (v : ℕ) → is_locked (unset_lock v) ≡ false
unfolding is_locked unset_lock
is_locked-unset_lock v = ground arith

is_old-unset_lock : (v : ℕ) → is_old (unset_lock v) ≡ is_old v
unfolding is_old unset_lock
is_old-unset_lock v = ground arith

is_old-unset_expand : (v : ℕ) → is_old (unset_expand v) ≡ is_old v
unfolding is_old unset_expand
is_old-unset_expand v = ground arith

is_old-incr_vexpand : (v : ℕ) → is_old (incr_vexpand v) ≡ is_old v
unfolding is_old incr_vexpand
is_old-incr_vexpand v = ap (λ a. a % 2 == 1) (omega arith)

is_old-unlock : (v : ℕ) → is_old (unlock v) ≡ is_old v
unfolding unlock
is_old-unlock v = elim (Bool-cases (is_expanding v)) [
  | inl e ↦ rw e (is_old-unset_lock _ ∙ is_old-unset_expand _ ∙ is_old-incr_vexpand v)
  | inr e ↦ rw e (is_old-unset_lock v)
]

get_count-unset_lock : (v : ℕ) → get_count (unset_lock v) ≡ get_count v
unfolding get_count unset_lock
get_count-unset_lock v = omega arith

get_count-unset_expand : (v : ℕ) → get_count (unset_expand v) ≡ get_count v
unfolding get_count unset_expand
get_count-unset_expand v = omega arith

get_count-incr_vexpand : (v : ℕ) → get_count (incr_vexpand v) ≡ get_count v
unfolding get_count incr_vexpand
get_count-incr_vexpand v = omega arith

pub get_count-unlock : (v : ℕ) → get_count (unlock v) ≡ get_count v
unfolding unlock
get_count-unlock v = elim (Bool-cases (is_expanding v)) [
  | inl e ↦ rw e (get_count-unset_lock _ ∙ get_count-unset_expand _ ∙ get_count-incr_vexpand v)
  | inr e ↦ rw e (get_count-unset_lock v)
]

get_node_type-unset_lock : (v : ℕ) → get_node_type (unset_lock v) ≡ get_node_type v
unfolding get_node_type unset_lock
get_node_type-unset_lock v = ap type_of_code (omega arith)

get_node_type-unset_expand : (v : ℕ) → get_node_type (unset_expand v) ≡ get_node_type v
unfolding get_node_type unset_expand
get_node_type-unset_expand v = ap type_of_code (omega arith)

get_node_type-incr_vexpand : (v : ℕ) → get_node_type (incr_vexpand v) ≡ get_node_type v
unfolding get_node_type incr_vexpand
get_node_type-incr_vexpand v = ap type_of_code (omega arith)

pub get_node_type-unlock : (v : ℕ) → get_node_type (unlock v) ≡ get_node_type v
unfolding unlock
get_node_type-unlock v = elim (Bool-cases (is_expanding v)) [
  | inl e ↦
      rw e
        (get_node_type-unset_lock _ ∙ get_node_type-unset_expand _ ∙ get_node_type-incr_vexpand v)
  | inr e ↦ rw e (get_node_type-unset_lock v)
]

pub is_locked-unlock : (v : ℕ) → is_locked (unlock v) ≡ false
unfolding unlock
is_locked-unlock v = is_locked-unset_lock _

-- A lock that is taken and given back leaves the word as it was.
pub unlock-set_lock :
    (v : ℕ) → is_locked v ≡ false → is_expanding v ≡ false → unlock (set_lock v) ≡ v
unfolding unlock is_locked is_expanding set_lock unset_lock
unlock-set_lock v free stable = ground arith

pub try_lock-free :
    (v : ℕ) → is_locked v ≡ false → is_old v ≡ false → try_lock v ≡ swap (set_lock v)
unfolding try_lock
try_lock-free v free current = rw (free, current) refl

-- A node that is not old is free again once it is unlocked: the next round of `art_node_lock` on the
-- version that `art_node_unlock` stores swaps in the locked version, and a round on an old node fails.
pub try_lock-unlock :
    (v : ℕ) → try_lock (unlock v) ≡ (if is_old v then refuse else swap (set_lock (unlock v)))
unfolding try_lock
try_lock-unlock v = rw (is_locked-unlock v, is_old-unlock v)
