-- ===== src/Kv/Format.antt =====
-- What the wrappers ask of their type parameters `K` and `V`: the bytes that go to a tree, and how
-- they are read back. Each law is about a value that was written.
pub mod Bytes
use sidle.Base.{ℕ, ◌≡◌, Bool, true, false, ◌&&◌, List, [], ◌∷◌, length, ◌==◌}

-- `to_str_key` gives the bytes of the key in the order in which a tree compares them.
pub record KeyFormat {ℓ} (K : Type ℓ) : Type ℓ where
  pub key_size : ℕ
  pub to_str_key : K → List ℕ
  pub to_normal_key : List ℕ → K
  pub length-to_str_key : (k : K) → length (to_str_key k) ≡ key_size
  pub to_normal_key-to_str_key : (k : K) → to_normal_key (to_str_key k) ≡ k

-- The casts between a value and its bytes.
pub record ValueFormat {ℓ} (V : Type ℓ) : Type ℓ where
  pub write : V → List ℕ
  pub read : List ℕ → V
  pub read-write : (v : V) → read (write v) ≡ v
