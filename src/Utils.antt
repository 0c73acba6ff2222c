-- ===== src/Utils.antt =====
-- runtime/Utils.cpp: the metadata by which a module remembers its entry function, and a copy of a module
-- into another LLVM context.
pub mod Entry
use Prim.Native.String.{String}
use text.Mathlib.Text.{◌==◌ as str_eq}
use easy_just_in_time.Prelude.{
  Bool, List, [], ◌∷◌, ◌++◌, Option, none, some, Result, ok, err, if◌then◌else◌,
}
use easy_just_in_time.Llvm.{IrModule, Bitcode}

pub data EntryFault : Type 0 where
  no_metadata no_entry_function : EntryFault

abbrev pub entry_tag : String
entry_tag = "entry"

-- The loop over the metadata's operands.
unfoldable pub find_entry : List (List (Option String)) → Result EntryFault String
find_entry [] = err no_entry_function
find_entry ((some entry ∷ some name ∷ []) ∷ nodes) =
    if str_eq entry entry_tag then ok name else find_entry nodes
find_entry (_ ∷ nodes) = find_entry nodes

-- It goes through the metadata without asking whether there is any.
unfoldable pub get_entry_function_name : IrModule → Result EntryFault String
unfolding find_entry
get_entry_function_name m = elim m.nodes [ none ↦ err no_metadata | some nodes ↦ find_entry nodes ]

-- `getOrInsertNamedMetadata`
abbrev pub nodes_of : IrModule → List (List (Option String))
nodes_of m = elim m.nodes [ none ↦ [] | some nodes ↦ nodes ]

unfoldable pub mark_as_entry : String → IrModule → IrModule
mark_as_entry name m = record m {
  nodes = some (nodes_of m ++ (some entry_tag ∷ some name ∷ []) ∷ []);
}

unfoldable pub unmark_entry : IrModule → IrModule
unmark_entry m = record m { nodes = none }

unfoldable pub clone_module_with_context : Bitcode → IrModule → Option IrModule
clone_module_with_context bc m = bc.parse_bitcode_file (bc.write_bitcode m)
