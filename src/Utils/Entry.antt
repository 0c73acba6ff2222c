-- ===== src/Utils/Entry.antt =====
-- Which function a module says is its entry.
use Prim.Native.String.{String}
use easy_just_in_time.Prelude.{
  ◌≡◌, refl, List, [], ◌∷◌, ◌++◌, Option, none, some, Result, ok, err, arith,
}
use easy_just_in_time.Llvm.{IrModule}
use easy_just_in_time.Utils.{
  EntryFault, no_metadata, entry_tag, find_entry, get_entry_function_name, mark_as_entry,
  unmark_entry,
}

abbrev pub or_name : Result EntryFault String → String → Result EntryFault String
or_name (ok entry) name = ok entry
or_name (err e) name = ok name

find_entry-concat :
    (nodes : List (List (Option String))) (name : String)
    → find_entry (nodes ++ (some entry_tag ∷ some name ∷ []) ∷ []) ≡ or_name (find_entry nodes) name
unfolding find_entry
find_entry-concat [] name = refl
find_entry-concat ((some entry ∷ some other ∷ []) ∷ nodes) name =
    ground (arith, find_entry-concat nodes name)
find_entry-concat (node ∷ nodes) name = find_entry-concat nodes name

-- Marking a function makes it the entry, unless the module had one: the first stays. Without the mark,
-- after `UnmarkEntry`, no entry is found, and marking again decides it.
pub get_entry_function_name-mark_as_entry :
    (m : IrModule) (name : String)
    → (get_entry_function_name (mark_as_entry name m) ≡ or_name (get_entry_function_name m) name)
      × (get_entry_function_name (unmark_entry m) ≡ err no_metadata)
      × (get_entry_function_name (mark_as_entry name (unmark_entry m)) ≡ ok name)
unfolding get_entry_function_name mark_as_entry unmark_entry find_entry
get_entry_function_name-mark_as_entry m name = (with_nodes m.nodes, refl, refl)
  where
    with_nodes :
        (o : Option (List (List (Option String))))
        → find_entry
            ((elim o [ none ↦ [] | some nodes ↦ nodes ]) ++ (some entry_tag ∷ some name ∷ []) ∷ [])
          ≡ or_name (elim o [ none ↦ err no_metadata | some nodes ↦ find_entry nodes ]) name
    with_nodes none = refl
    with_nodes (some nodes) = find_entry-concat nodes name
