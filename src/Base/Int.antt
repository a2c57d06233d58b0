-- ===== src/Base/Int.antt =====
-- Signed numbers, as far as the time left of a wait needs them.
use Prim.Native.Nat.{ℕ, ◌-◌}
use p2000t_cartridge_studio.Base.Tests.{leb, if◌then◌else◌}

-- `negsuc n` is -(n + 1).
pub data ℤ : Type 0 where
  pos : ℕ → ℤ
  negsuc : ℕ → ℤ

-- a - b, as an integer.
abbrev pub sub_ℕ : ℕ → ℕ → ℤ
sub_ℕ a b = if leb b a then pos (a - b) else negsuc (b - a - 1)

-- `qMin(a, b)` for a `b` that is not negative.
abbrev pub min_ℕ : ℤ → ℕ → ℤ
min_ℕ (pos a) b = if leb a b then pos a else pos b
min_ℕ (negsuc a) b = negsuc a
