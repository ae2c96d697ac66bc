-- ===== src/Prelude/I64.antt =====
-- The machine integers `i64`: a number below 2 ^ 64 that stands for its residue, in two's complement.
-- The operations wrap around, as those of a release build do.
use eecs_k8s.Prelude.{ℕ, ◌+◌, ◌-◌, ◌*◌, ◌%◌, Bool, leb, if◌then◌else◌}

-- 2 ^ 64 and 2 ^ 63
abbrev pub modulus : ℕ
modulus = 18_446_744_073_709_551_616

abbrev pub half : ℕ
half = 9_223_372_036_854_775_808

unfoldable pub add : ℕ → ℕ → ℕ
add a b = (a + b) % modulus

unfoldable pub sub : ℕ → ℕ → ℕ
sub a b = (a + (modulus - b % modulus)) % modulus

unfoldable pub mul : ℕ → ℕ → ℕ
mul a b = (a * b) % modulus

unfoldable pub neg : ℕ → ℕ
neg a = (modulus - a) % modulus

-- The order of the signed values, shifted to start at 0.
abbrev pub signed : ℕ → ℕ
signed a = (a + half) % modulus

unfoldable pub le : ℕ → ℕ → Bool
le a b = leb (signed a) (signed b)

unfoldable pub min : ℕ → ℕ → ℕ
unfolding le
min a b = if le a b then a else b
