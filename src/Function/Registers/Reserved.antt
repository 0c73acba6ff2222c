-- ===== src/Function/Registers/Reserved.antt =====
-- Which registers the hook reserves.
use Prim.Native.String.{String}
use text.Mathlib.Text.{◌==◌ as str_eq}
use text.Mathlib.TextEquality.{eq_iff}
use easy_just_in_time.Prelude.{
  ℕ, suc, ◌+◌, ◌<◌, ◌≤◌, ◌⊎◌, ◌≡◌, refl, ap, ◌∙◌, Bool, true, false, ◌||◌, List, [], ◌∷◌, none,
  some, ok, length, get_elem?, set, lt→ltb, ◌==◌, if◌then◌else◌, arith, Option-cases, inl, inr,
  length-set, get_elem?-set_self, get_elem?-set_ne,
}
use easy_just_in_time.UnorderedMap.{find}
use easy_just_in_time.Function.Registers.{
  RegNameToIdx, index_names, fill, index_of, reserve, hooked_get_reserved_regs,
}

-- The number that a table has for a name, 0 if none.
abbrev pub value_of : String → RegNameToIdx → ℕ
value_of reg table = elim (find str_eq reg table) [ none ↦ 0 | some idx ↦ idx ]

module _ (upper : String → String) where
  -- The last register whose name in capitals is `reg`, the registers counted from `i` on; `d` if none.
  abbrev pub last_index : String → ℕ → List String → ℕ → ℕ
  last_index reg i [] d = d
  last_index reg i (name ∷ names) d =
      last_index reg (suc i) names (if str_eq (upper name) reg then i else d)

  -- The register that a reserved name stands for: the last of that name, and register 0 for no name.
  abbrev pub register_index : List String → String → ℕ
  register_index names reg = last_index (upper reg) 0 names 0

  value_of-index_names :
      (reg : String) (i : ℕ) (names : List String) (table : RegNameToIdx)
      → value_of reg (index_names upper i names table) ≡ last_index reg i names (value_of reg table)
  unfolding index_names find
  value_of-index_names reg i [] table = refl
  value_of-index_names reg i (name ∷ names) table =
      value_of-index_names reg (suc i) names ((upper name, i) ∷ table)
      ∙ ap (last_index reg (suc i) names) (ground arith)

  last_index-lt :
      (reg : String) (i : ℕ) (names : List String) (d n : ℕ)
      → d < n
      → i + length names ≤ n
      → last_index reg i names d < n
  last_index-lt reg i [] d n lt le = lt
  last_index-lt reg i (name ∷ names) d n lt le =
      last_index-lt reg (suc i) names (if str_eq (upper name) reg then i else d) n (ground arith)
        (omega arith)

  -- A table that has been filled, and perhaps looked into.
  abbrev pub IsTable : List String → RegNameToIdx → Type 0
  IsTable names table = (reg : String) → value_of reg table ≡ last_index reg 0 names 0

  value_of-index_of :
      (reg other : String) (table : RegNameToIdx)
      → ((index_of upper reg table).0 ≡ value_of reg table)
        × (value_of other (index_of upper reg table).1 ≡ value_of other table)
  unfolding index_of find
  value_of-index_of reg other table = elim (Option-cases (find str_eq reg table)) [
    | inl new ↦ ground (arith, new, eq_iff reg other)
    | inr (idx, old) ↦ ground (arith, old)
  ]

  -- Whether a bit is one of the reserved registers.
  abbrev pub is_reserved : List String → List String → ℕ → Bool
  is_reserved names [] i = false
  is_reserved names (reg ∷ regs) i = register_index names reg == i || is_reserved names regs i

  -- The bits afterwards.
  abbrev pub Reserves : List String → List String → List Bool → List Bool → Type 0
  Reserves names regs bits bits' =
      (length bits' ≡ length bits)
      × ((i : ℕ)
          → get_elem? bits' i ≡ (if is_reserved names regs i then some true else get_elem? bits i))

  fill-IsTable :
      (names : List String) (table : RegNameToIdx)
      → (table ≡ []) ⊎ IsTable names table
      → IsTable names (fill upper names table)
  unfolding fill find
  fill-IsTable names [] ready reg = value_of-index_names reg 0 names []
  fill-IsTable names (x ∷ table) (inl e) reg = cc
  fill-IsTable names (x ∷ table) (inr is) reg = is reg

  Reserves-step :
      (names : List String) (reg : String) (regs : List String) (bits bits' : List Bool)
      → register_index names reg < length bits
      → Reserves names regs (set bits (register_index names reg) true) bits'
      → Reserves names (reg ∷ regs) bits bits'
  Reserves-step names reg regs bits bits' room (len, each) =
      let idx = register_index names reg in
      let same : length (set bits idx true) ≡ length bits = length-set bits idx true in
      (
        len ∙ same,
        λ i.
            each i
            ∙ ground (arith, get_elem?-set_self bits idx true, get_elem?-set_ne bits idx i true),
      )

  reserve_step :
      (reg : String) (regs : List String) (table : RegNameToIdx) (bits : List Bool) (idx : ℕ)
      → (index_of upper (upper reg) table).0 ≡ idx
      → idx < length bits
      → reserve upper (reg ∷ regs) table bits
        ≡ reserve upper regs (index_of upper (upper reg) table).1 (set bits idx true)
  unfolding reserve
  reserve_step reg regs table bits idx known room = rw (known, lt→ltb idx (length bits) room) refl

  reserve-Reserves :
      (names regs : List String) (table : RegNameToIdx) (bits : List Bool)
      → IsTable names table
      → 0 < length names
      → length names ≤ length bits
      → (bits' : List Bool) × (table' : RegNameToIdx) × (reserve upper regs table bits
          ≡ ok (bits', table'))
        × Reserves names regs bits bits'
        × IsTable names table'
  unfolding reserve
  reserve-Reserves names [] table bits is pos le = (bits, table, refl, (refl, λ i. refl), is)
  reserve-Reserves names (reg ∷ regs) table bits is pos le =
      let idx = register_index names reg in
      let known : (index_of upper (upper reg) table).0 ≡ idx =
        (value_of-index_of (upper reg) (upper reg) table).0 ∙ is (upper reg) in
      let room : idx < length bits =
        last_index-lt (upper reg) 0 names 0 (length bits) (omega arith) (omega arith) in
      let is' : IsTable names (index_of upper (upper reg) table).1 =
        λ other. (value_of-index_of (upper reg) other table).1 ∙ is other in
      let (bits', table', ran, reserved, is'') =
        reserve-Reserves names regs (index_of upper (upper reg) table).1 (set bits idx true) is' pos
          (omega (arith, length-set bits idx true)) in
      (
        bits',
        table',
        reserve_step reg regs table bits idx known room ∙ ran,
        Reserves-step names reg regs bits bits' room reserved,
        is'',
      )

  -- Take a target with at least one register and a bit for each, and a table that is empty or was left by
  -- an earlier call. Then the hook writes in range; afterwards the bits of the registers that the
  -- reserved names stand for are set, and no other bit has changed; a name that no register has stands
  -- for register 0; and the table is as good for a later call.
  pub hooked_get_reserved_regs-Reserves :
      (names regs : List String) (table : RegNameToIdx) (bits : List Bool)
      → (table ≡ []) ⊎ IsTable names table
      → 0 < length names
      → length names ≤ length bits
      → (bits' : List Bool) × (table' : RegNameToIdx) × (hooked_get_reserved_regs upper names regs
            table bits
          ≡ ok (bits', table'))
        × Reserves names regs bits bits'
        × IsTable names table'
  unfolding hooked_get_reserved_regs
  hooked_get_reserved_regs-Reserves names regs table bits ready pos le =
      reserve-Reserves names regs (fill upper names table) bits (fill-IsTable names table ready) pos
        le
