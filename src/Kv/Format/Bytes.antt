-- ===== src/Kv/Format/Bytes.antt =====
-- Byte strings: their equality, and their order, in which they stand in a dictionary.
use sidle.Base.{
  ltb, if◌then◌else◌, ℕ, ◌≡◌, refl, Bool, true, false, ◌&&◌, List, [], ◌∷◌, ◌==◌, arith,
}

abbrev pub same_bytes : List ℕ → List ℕ → Bool
same_bytes [] [] = true
same_bytes (x ∷ a) (y ∷ b) = x == y && same_bytes a b
same_bytes _ _ = false

pub same_bytes_refl : (a : List ℕ) → same_bytes a a ≡ true
same_bytes_refl [] = refl
same_bytes_refl (x ∷ a) = let ih = same_bytes_refl a in ground arith

pub same_bytes→eq : (a b : List ℕ) → same_bytes a b ≡ true → a ≡ b
same_bytes→eq [] [] h = refl
same_bytes→eq [] (y ∷ b) h = absurd (ground arith)
same_bytes→eq (x ∷ a) [] h = absurd (ground arith)
same_bytes→eq (x ∷ a) (y ∷ b) h = let ih = same_bytes→eq a b in ground (arith, ih)

-- Whether the first stands before the second.
abbrev pub is_before : List ℕ → List ℕ → Bool
is_before a [] = false
is_before [] (y ∷ b) = true
is_before (x ∷ a) (y ∷ b) = let rest = is_before a b in if x == y then rest else ltb x y
