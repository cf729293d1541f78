-- ===== src/Kv/Key.antt =====
-- `Key` of benchmark/synthetic/micro_base.h on a little-endian machine, and `little_endian` of
-- src/helper.h.
pub mod Laws
pub mod Instance
use sidle.Base.{
  ℕ, zero, suc, ◌+◌, ◌*◌, ◌/◌, ◌%◌, ◌^◌, ◌<◌, Bool, List, [], ◌∷◌, ◌++◌, get_or, ◌==◌, u64, arith,
  if◌then◌else◌,
}

-- A `uint64_t`.
pub record Key : Type 0 where
  pub key : ℕ
  pub bounded : key < 2 ^ 64

-- The bytes of a number in memory, the lowest first.
unfoldable pub bytes : ℕ → ℕ → List ℕ
bytes zero n = []
bytes (suc size) n = n % 256 ∷ bytes size (n / 256)

unfoldable pub of_bytes : List ℕ → ℕ
of_bytes [] = 0
of_bytes (b ∷ bs) = b + 256 * of_bytes bs

-- The lowest byte of the `int` 1.
unfoldable pub little_endian : (ℕ → List ℕ) → Bool
little_endian in_memory = get_or (in_memory 1) 0 0 == 1

-- The loop of `to_str_key`, which writes the bytes from the last to the first.
unfoldable pub reversed : List ℕ → List ℕ
reversed [] = []
reversed (b ∷ bs) = reversed bs ++ (b ∷ [])

-- `to_str_key`, and `to_normal_key`, which is the same, on the bytes in memory.
unfoldable pub to_str_key : Bool → List ℕ → List ℕ
to_str_key little buf = if little then reversed buf else buf

pub below_64 : (n : ℕ) → u64 n < 2 ^ 64
below_64 n = omega arith

-- A key in memory, and a pointer to bytes read as a key.
unfoldable pub in_memory : Key → List ℕ
in_memory k = bytes 8 k.key

unfoldable pub read_key : List ℕ → Key
read_key buf = record { key = u64 (of_bytes buf); bounded = below_64 (of_bytes buf) }
