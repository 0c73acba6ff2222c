-- ===== src/Function/Registers.antt =====
-- The hook of runtime/Function.cpp that reserves registers by name, and its table from names to numbers.
-- `upper` stands for `to_upper` on a string, `names` for the names of the target's registers, and
-- `bits` for what the hooked method returns: one bit for each register.
pub mod Reserved
pub mod Thread
use Prim.Native.String.{String}
use text.Mathlib.Text.{◌==◌ as str_eq}
use easy_just_in_time.Prelude.{
  ℕ, suc, Bool, true, List, [], ◌∷◌, Option, none, some, Result, ok, err, ◌>>=◌, ◌>>◌, guard,
  length, set, ltb,
}
use easy_just_in_time.UnorderedMap.{find}

-- `g_regNameToIdx`, newest entry first, so that an assignment hides what was there.
abbrev pub RegNameToIdx : Type 0
RegNameToIdx = List (String × ℕ)

-- A write past the bit vector's end.
pub data BitFault : Type 0 where
  bit_out_of_range : BitFault

module _ (upper : String → String) where
  -- The loop that fills the table, from the register `i` on.
  unfoldable pub index_names : ℕ → List String → RegNameToIdx → RegNameToIdx
  index_names i [] table = table
  index_names i (name ∷ names) table = index_names (suc i) names ((upper name, i) ∷ table)

  unfoldable pub fill : List String → RegNameToIdx → RegNameToIdx
  unfolding index_names
  fill names [] = index_names 0 names []
  fill names table = table

  -- `g_regNameToIdx[reg]`, which inserts 0 for a new name.
  unfoldable pub index_of : String → RegNameToIdx → ℕ × RegNameToIdx
  index_of reg table = elim (find str_eq reg table) [
    | none ↦ (0, (reg, 0) ∷ table)
    | some idx ↦ (idx, table)
  ]

  -- The loop over the reserved registers.
  unfoldable pub reserve :
      List String → RegNameToIdx → List Bool → Result BitFault (List Bool × RegNameToIdx)
  unfolding index_of
  reserve [] table bits = ok (bits, table)
  reserve (reg ∷ regs) table bits = do
    let found = index_of (upper reg) table
    guard (ltb found.0 (length bits)) bit_out_of_range
    reserve regs found.1 (set bits found.0 true)

  -- `Hooked_getReservedRegsType`
  unfoldable pub hooked_get_reserved_regs :
      List String
      → List String
      → RegNameToIdx
      → List Bool
      → Result BitFault (List Bool × RegNameToIdx)
  unfolding fill reserve
  hooked_get_reserved_regs names reserved_regs table bits =
      reserve reserved_regs (fill names table) bits
