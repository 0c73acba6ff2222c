-- ===== src/EmitCodes.antt =====
-- runtime/pass/EmitCodes.cpp: the pass that writes the raw bytes of the context into the inline assembly
-- of the target. The instructions of a function are those that the runtime tells apart; the type, the
-- constraints, the alignment and the dialect of inline assembly are one number, which is passed on.
pub mod Laws
use Prim.Native.String.{String, ◌++◌ as str_append}
use text.Mathlib.Text.{◌==◌ as str_eq}
use easy_just_in_time.Prelude.{ℕ, Bool, true, false, ◌||◌, not, List, [], ◌∷◌, if◌then◌else◌}
use easy_just_in_time.Context.{Context}

pub record InlineAsm : Type 0 where
  pub asm_string : String
  pub side_effects : Bool
  pub rest : ℕ

-- A direct call has the function's name, which may be empty.
pub data Instruction : Type 0 where
  asm_call : InlineAsm → Instruction
  direct_call : String → Instruction
  indirect_call : Instruction
  no_call : Instruction

-- The loop of `BuildEmitString`; `to_string` is `std::to_string`.
unfoldable pub emit_bytes : (ℕ → String) → List ℕ → String
emit_bytes to_string [] = ""
emit_bytes to_string (b ∷ bytes) =
    str_append ".byte " (str_append (to_string b) (str_append ";" (emit_bytes to_string bytes)))

unfoldable pub build_emit_string : (ℕ → String) → List ℕ → String
unfolding emit_bytes
build_emit_string to_string [] = ""
build_emit_string to_string src = emit_bytes to_string src

abbrev pub marker : String
marker = ".byte 0x90\n\t"

-- One round: the inline assembly with the new string, if it is the marker.
unfoldable pub emit_instruction : String → Instruction → Instruction
emit_instruction s (asm_call ia) =
    if str_eq ia.asm_string marker
    then asm_call (record ia {
      asm_string = s;
      side_effects = (if str_eq s "" then false else ia.side_effects);
    })
    else asm_call ia
emit_instruction s i = i

abbrev pub is_asm : Instruction → Bool
is_asm (asm_call ia) = true
is_asm i = false

-- The loop, and whether it saw inline assembly.
unfoldable pub emit_instructions : String → List Instruction → List Instruction × Bool
unfolding emit_instruction
emit_instructions s [] = ([], false)
emit_instructions s (i ∷ code) =
    let rest = emit_instructions s code in (emit_instruction s i ∷ rest.0, is_asm i || rest.1)

-- `EmitCodes::runOnFunction`
unfoldable pub run_on_function :
    {D : Type 0}
    → (ℕ → String)
    → String
    → Context D
    → String
    → List Instruction
    → List Instruction × Bool
unfolding build_emit_string emit_instructions
run_on_function to_string target c name code =
    if not (str_eq name target)
    then (code, false)
    else emit_instructions (build_emit_string to_string c.raw_bytes.bytes) code
