-- ===== src/Plugin/Export/Kept.antt =====
-- `collectObjectsToJIT` changes nothing of a module but the sections of its globals.
use Prim.Native.String.{String}
use text.Mathlib.Text.{◌==◌ as str_eq}
use easy_just_in_time.Prelude.{ℕ, ◌≡◌, refl, sym, ap, ◌∙◌, Bool, ◌&&◌, some, List, map}
use easy_just_in_time.Search.{◌∈◌}
use easy_just_in_time.Search.Members.{in_map}
use easy_just_in_time.Plugin.{Global, SourceModule, is_object, jit_section}
use easy_just_in_time.Plugin.Export.{
  set_section, is_constant, mark_if, regex_functions_to_jit, collect_marked, collect_objects_to_jit,
}
use easy_just_in_time.Plugin.Export.Marks.{deduce_objects_to_jit-Marks}
use easy_just_in_time.Plugin.Export.Marked.{
  unmark, regex_if_any, collect_marked_lem, regex_functions_to_jit-map, set_section-if,
  set_section-regex_if_any,
}

-- The same but for the section.
abbrev pub Same : Global → Global → Type 0
Same g h = set_section "" g ≡ set_section "" h

pub collect_objects_to_jit-globals :
    (strip : ℕ → ℕ) (regex : String) (matches : String → Bool) (m n : SourceModule)
    (objs : List Global)
    → collect_objects_to_jit strip regex matches m ≡ some (n, objs)
    → ((h : Global) → h ∈ n.globals → (g : Global) × (g ∈ m.globals) × Same g h)
      × ((g : Global) → g ∈ m.globals → (h : Global) × (h ∈ n.globals) × Same g h)
unfolding collect_objects_to_jit
collect_objects_to_jit-globals strip regex matches m n objs eq = (
  λ h i.
      let (h', j, e) = (in_map unmark (map r (map k m.globals)) h).0 (rw all at i) in
      let (h'', j', e') = (in_map r (map k m.globals) h').0 j in
      let (g, j'', e'') = (in_map k m.globals h'').0 j' in
      (
        g,
        j'',
        sym (same g)
            ∙ (ap (λ x. set_section "" (unmark (r x))) e''
                ∙ (ap (λ x. set_section "" (unmark x)) e' ∙ ap (set_section "") e)),
      ),
  λ g i. (
    unmark (r (k g)),
    rw all (
        (in_map unmark (map r (map k m.globals)) (unmark (r (k g)))).1 (
          r (k g),
          (in_map r (map k m.globals) (r (k g))).1
              (k g, (in_map k m.globals (k g)).1 (g, i, refl), refl),
          refl,
        )),
    sym (same g),
  ),
)
  where
    counted : ℕ → Bool
    counted = (deduce_objects_to_jit-Marks strip m.values m.globals).0

    k : Global → Global
    k = mark_if counted

    r : Global → Global
    r = regex_if_any regex matches

    gs : List Global
    gs = regex_functions_to_jit regex matches (map k m.globals)

    same : (g : Global) → set_section "" (unmark (r (k g))) ≡ set_section "" g
    same g =
        set_section-if "" (is_object (r (k g)) && str_eq (r (k g)).section jit_section) (r (k g))
        ∙ (set_section-regex_if_any regex matches (k g)
            ∙ set_section-if jit_section (is_object g && (is_constant g && counted g.value)) g)

    ends :
        collect_objects_to_jit strip regex matches m
        ≡ some (record m { globals = (collect_marked gs).0 }, (collect_marked gs).1)
    ends =
        rw ((deduce_objects_to_jit-Marks strip m.values m.globals).1, collect_objects_to_jit) refl

    all : n.globals ≡ map unmark (map r (map k m.globals))
    all =
        let is_n : record m { globals = (collect_marked gs).0 } ≡ n = cc (sym ends ∙ eq) in
        ap (λ x. x.globals) (sym is_n)
        ∙ ((collect_marked_lem gs).0
            ∙ ap (map unmark) (regex_functions_to_jit-map regex matches (map k m.globals)))
