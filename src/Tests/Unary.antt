-- ===== src/Tests/Unary.antt =====
-- Texts that write numbers in unary.
use Prim.Native.Char.{nul}
use Prim.Native.String.compare.{cons-nil}
use text.Mathlib.Text.{is_eq}
use Prim.Native.String.{String, [], ◌∷◌}
use supply_chain_tracker.Prelude.{ℕ, zero, suc, ◌≡◌, refl, ap, Option, none, some, false, str_eq}

abbrev pub tally : ℕ → String
tally zero = []
tally (suc n) = nul ∷ tally n

abbrev pub depth : String → ℕ
depth [] = zero
depth (c ∷ s) = suc (depth s)

abbrev pub show : ℕ → String
show n = nul ∷ tally n

abbrev pub parse : String → Option ℕ
parse [] = none
parse (c ∷ s) = some (depth s)

pub depth-tally : (n : ℕ) → depth (tally n) ≡ n
depth-tally zero = refl
depth-tally (suc n) = ap suc (depth-tally n)

pub show_nonempty : (n : ℕ) → str_eq (show n) [] ≡ false
show_nonempty n = λ i. is_eq (cons-nil nul (tally n) i)
