-- ===== src/EmitCodes/Laws.antt =====
-- What is left of the inline assembly after the pass.
use Prim.Native.String.{String, ◌++◌ as str_append}
use text.Mathlib.Text.{◌==◌ as str_eq}
use text.Mathlib.TextLemmas.{append_assoc}
use easy_just_in_time.Prelude.{
  ℕ, ◌≡◌, refl, ap, ◌∙◌, true, false, List, [], ◌∷◌, map, if◌then◌else◌, Bool, not, Bool-cases, inl,
  inr,
}
use easy_just_in_time.Context.{Context}
use easy_just_in_time.Function.{called_names}
use easy_just_in_time.EmitCodes.{
  InlineAsm, Instruction, asm_call, direct_call, indirect_call, no_call, marker, emit_bytes,
  emit_instruction, emit_instructions, build_emit_string, run_on_function,
}

-- The strings of the inline assembly of a function, in order.
abbrev pub asm_strings : List Instruction → List String
asm_strings [] = []
asm_strings (asm_call ia ∷ code) = ia.asm_string ∷ asm_strings code
asm_strings (i ∷ code) = asm_strings code

-- One directive for each byte.
abbrev pub directive : (ℕ → String) → ℕ → String
directive to_string b = str_append ".byte " (str_append (to_string b) ";")

abbrev pub joined : List String → String
joined [] = ""
joined (s ∷ ss) = str_append s (joined ss)

abbrev pub is_empty : List String → Bool
is_empty [] = true
is_empty (s ∷ ss) = false

build_emit_string-joined :
    (to_string : ℕ → String) (bytes : List ℕ)
    → build_emit_string to_string bytes ≡ joined (map (directive to_string) bytes)
unfolding build_emit_string emit_bytes
build_emit_string-joined to_string [] = refl
build_emit_string-joined to_string (b ∷ bytes) = emit_bytes-joined (b ∷ bytes)
  where
    emit_bytes-joined :
        (bs : List ℕ) → emit_bytes to_string bs ≡ joined (map (directive to_string) bs)
    emit_bytes-joined [] = refl
    emit_bytes-joined (c ∷ bs) =
        rw
          (
            append_assoc ".byte " (str_append (to_string c) ";")
                (joined (map (directive to_string) bs)),
            append_assoc (to_string c) ";" (joined (map (directive to_string) bs)),
            emit_bytes-joined bs,
          )
          refl

-- A marked string is replaced, and no other.
abbrev pub unmarked : String → String → String
unmarked s t = if str_eq t marker then s else t

-- The strings are the replaced ones, the calls by name are the same, and inline assembly was seen where
-- there is some.
abbrev EmitsInto : String → List Instruction → List Instruction × Bool → Type 0
EmitsInto s code r =
    (asm_strings r.0 ≡ map (unmarked s) (asm_strings code))
    × (called_names r.0 ≡ called_names code)
    × (r.1 ≡ not (is_empty (asm_strings code)))

emit_asm_strings :
    (s : String) (ia : InlineAsm) (code : List Instruction)
    → asm_strings (emit_instruction s (asm_call ia) ∷ code)
      ≡ unmarked s ia.asm_string ∷ asm_strings code
unfolding emit_instruction
emit_asm_strings s ia code = elim (Bool-cases (str_eq ia.asm_string marker)) [
  | inl e ↦ rw e refl
  | inr e ↦ rw e refl
]

emit_called_names :
    (s : String) (ia : InlineAsm) (code : List Instruction)
    → called_names (emit_instruction s (asm_call ia) ∷ code) ≡ called_names code
unfolding emit_instruction called_names
emit_called_names s ia code = elim (Bool-cases (str_eq ia.asm_string marker)) [
  | inl e ↦ rw e refl
  | inr e ↦ rw e refl
]

emit_instructions-EmitsInto :
    (s : String) (code : List Instruction) → EmitsInto s code (emit_instructions s code)
unfolding emit_instructions called_names
emit_instructions-EmitsInto s [] = (refl, refl, refl)
emit_instructions-EmitsInto s (asm_call ia ∷ code) =
    let (strings, names, seen) = emit_instructions-EmitsInto s code in
    let rest = (emit_instructions s code).0 in
    (
      emit_asm_strings s ia rest ∙ ap (λ ss. unmarked s ia.asm_string ∷ ss) strings,
      emit_called_names s ia rest ∙ names,
      refl,
    )
emit_instructions-EmitsInto s (direct_call name ∷ code) =
    let (strings, names, seen) = emit_instructions-EmitsInto s code in
    (strings, rw names refl, seen)
emit_instructions-EmitsInto s (indirect_call ∷ code) = emit_instructions-EmitsInto s code
emit_instructions-EmitsInto s (no_call ∷ code) = emit_instructions-EmitsInto s code

-- In the target, the pass puts in place of every string of inline assembly that is the marker one directive for
-- each of the context's raw bytes, in their order, each with the byte and a semicolon; it leaves the other
-- strings and the names of the called functions as they are, and reports a change exactly when there is
-- inline assembly, marked or not. In any other function it changes nothing, and reports none.
pub run_on_function_lem :
    {D : Type 0} (to_string : ℕ → String) (target : String) (c : Context D) (name : String)
    (code : List Instruction)
    → (str_eq name target ≡ true
        → (asm_strings (run_on_function to_string target c name code).0
            ≡ map
                (unmarked (joined (map (directive to_string) c.raw_bytes.bytes)))
                (asm_strings code))
          × (called_names (run_on_function to_string target c name code).0 ≡ called_names code)
          × ((run_on_function to_string target c name code).1 ≡ not (is_empty (asm_strings code))))
      × (str_eq name target ≡ false → run_on_function to_string target c name code ≡ (code, false))
unfolding run_on_function
run_on_function_lem to_string target c name code = (
  (λ same.
      let text = build_emit_string to_string c.raw_bytes.bytes in
      let (strings, names, seen) = emit_instructions-EmitsInto text code in
      rw same (
        strings
            ∙ ap (λ s. map (unmarked s) (asm_strings code))
                (build_emit_string-joined to_string c.raw_bytes.bytes),
        names,
        seen,
      )),
  λ other. rw other refl,
)
