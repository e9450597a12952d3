-- ===== src/Common/Modulo.antt =====
-- Remainders by an unknown.
use Prim.Native.Nat.{ℕ, ◌+◌, ◌%◌, ◌<◌}
use mathlib.Core.Path.{◌≡◌, sym, ◌∙◌}
use native.Mathlib.Nat.{mod-eq_of_lt, mod-add-mod}

-- A step that stays below the modulus does not wrap.
pub add-mod_of_lt : (a i n : ℕ) → a % n + i < n → (a + i) % n ≡ a % n + i
add-mod_of_lt a i n h = sym (mod-add-mod a n i) ∙ mod-eq_of_lt h
