-- ===== src/Tests/Whole.antt =====
-- The theorems on the whole pass and its names at the module of Tests.Plugin and at two variables without a name.
use Prim.Native.String.{String, ◌++◌ as str_append, count as count_text}
use text.Mathlib.TextLemmas.{length-append}
use easy_just_in_time.Prelude.{◌<◌, ◌≢◌, sym, ap, inl, inr, List, [], ◌∷◌, arith}
use easy_just_in_time.Search.{◌∈◌}
use easy_just_in_time.Search.Worklist.{Distinct}
use easy_just_in_time.Plugin.{Global}
use easy_just_in_time.Plugin.Register.{PluginLibrary, names, collect_local_globals, name_globals}
use easy_just_in_time.Plugin.Register.Names.{given_names, MakesFresh, name_globals_lem}
use easy_just_in_time.Tests.Plugin.{counter, sample_library}

-- A name that is longer than all that are in use.
abbrev long_name : List String → String → String
long_name [] name = "_"
long_name (u ∷ used) name = str_append u (long_name used name)

long_name-pos : (used : List String) (name : String) → 0 < count_text (long_name used name)
long_name-pos [] name = omega arith
long_name-pos (u ∷ used) name =
    omega (arith, length-append u (long_name used name), long_name-pos used name)

count-long_name :
    (used : List String) (name x : String)
    → x ∈ used
    → count_text x < count_text (long_name used name)
count-long_name [] name x m = elim m [ ]
count-long_name (u ∷ used) name x (inl e) =
    rw (sym e) (omega (arith, length-append u (long_name used name), long_name-pos used name))
count-long_name (u ∷ used) name x (inr i) =
    omega (arith, length-append u (long_name used name), count-long_name used name x i)

long_name-MakesFresh : MakesFresh long_name
long_name-MakesFresh used name = (
  (λ m. omega (arith, count-long_name used name (long_name used name) m)),
  λ e. omega (arith, long_name-pos used name, ap count_text e),
)

abbrev two_unnamed : List Global
two_unnamed = record counter { name = "" } ∷ record counter { value = 8; name = "" } ∷ counter ∷ []

name_globals_lem_example :
    Distinct (given_names (name_globals long_name (names two_unnamed) two_unnamed))
    × ((g : Global)
        → g ∈ collect_local_globals (name_globals long_name (names two_unnamed) two_unnamed)
        → g.name ≢ "")
name_globals_lem_example =
    name_globals_lem long_name two_unnamed long_name-MakesFresh ((λ z. elim z [ ]), tt)

abbrev fresh_library : PluginLibrary
fresh_library = record sample_library { unique_name = long_name }
