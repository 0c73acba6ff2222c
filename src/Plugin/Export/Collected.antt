-- ===== src/Plugin/Export/Collected.antt =====
-- What `collectObjectsToJIT` collects.
use Prim.Native.String.{String}
use easy_just_in_time.Prelude.{
  ℕ, ◌≡◌, ◌≢◌, ◌↔◌, refl, sym, ap, ◌∙◌, Bool, true, false, ◌&&◌, some, List, map,
}
use easy_just_in_time.Search.{◌∈◌}
use easy_just_in_time.Search.Members.{keep, in_keep, in_map}
use easy_just_in_time.Plugin.{Global, SourceModule, is_object, jit_section}
use easy_just_in_time.Plugin.Export.{
  set_section, is_constant, mark_if, regex_functions_to_jit, collect_marked, collect_objects_to_jit,
}
use easy_just_in_time.Plugin.Export.Marks.{Deduced, deduce_objects_to_jit-Marks}
use easy_just_in_time.Plugin.Export.Marked.{
  Exported, collect_marked_lem, marked, marked_iff, regex_functions_to_jit-map, regex_if_any,
  set_section-if, set_section-regex_if_any, unmark, unmark-section,
}

-- The marks of one global, and what the last loop then makes of it.
in_collected :
    (strip : ℕ → ℕ) (regex : String) (matches : String → Bool) (m : SourceModule)
    (counted : ℕ → Bool)
    → ((v : ℕ) → (counted v ≡ true) ↔ Deduced strip m.values m.globals v)
    → (x : Global)
    → (x
        ∈ map
            (set_section "")
            (keep marked (map (regex_if_any regex matches) (map (mark_if counted) m.globals))))
      ↔ ((g : Global) × (g ∈ m.globals)
          × ((is_object g ≡ true) × (g.declaration ≡ false) × Exported strip regex matches m g)
          × (set_section "" g ≡ x))
in_collected strip regex matches m counted iff x = (forward, backward)
  where
    k : Global → Global
    k = mark_if counted

    r : Global → Global
    r = regex_if_any regex matches

    same : (g : Global) → set_section "" (r (k g)) ≡ set_section "" g
    same g =
        set_section-regex_if_any regex matches (k g)
        ∙ set_section-if jit_section (is_object g && (is_constant g && counted g.value)) g

    forward :
        x ∈ map (set_section "") (keep marked (map r (map k m.globals)))
        → ((g : Global) × (g ∈ m.globals)
            × ((is_object g ≡ true) × (g.declaration ≡ false) × Exported strip regex matches m g)
            × (set_section "" g ≡ x))
    forward i =
        let (h, kept, e) =
          (in_map (set_section "") (keep marked (map r (map k m.globals))) x).0 i in
        let (j, holds) = (in_keep marked (map r (map k m.globals)) h).0 kept in
        let (h', j', e') = (in_map r (map k m.globals) h).0 j in
        let (g, j'', e'') = (in_map k m.globals h').0 j' in
        (
          g,
          j'',
          (marked_iff strip regex matches m counted iff g).0 (cc (holds, e', e'')),
          sym (same g) ∙ (ap (λ t. set_section "" (r t)) e'' ∙ (ap (set_section "") e' ∙ e)),
        )

    backward :
        ((g : Global) × (g ∈ m.globals)
          × ((is_object g ≡ true) × (g.declaration ≡ false) × Exported strip regex matches m g)
          × (set_section "" g ≡ x))
        → x ∈ map (set_section "") (keep marked (map r (map k m.globals)))
    backward (g, i, exported, e) =
        (in_map (set_section "") (keep marked (map r (map k m.globals))) x).1 (
          r (k g),
          (in_keep marked (map r (map k m.globals)) (r (k g))).1 (
            (in_map r (map k m.globals) (r (k g))).1
                (k g, (in_map k m.globals (k g)).1 (g, i, refl), refl),
            (marked_iff strip regex matches m counted iff g).1 exported,
          ),
          same g ∙ e,
        )

-- The collection returns. The collected objects are the exported ones that are no declarations, with the
-- section dropped, and in the module no object is left in the section.
pub collect_objects_to_jit_returns :
    (strip : ℕ → ℕ) (regex : String) (matches : String → Bool) (m : SourceModule)
    → (n : SourceModule) × (objs : List Global) × (collect_objects_to_jit strip regex matches m
        ≡ some (n, objs))
      × ((x : Global)
          → (x ∈ objs) ↔ (
              (g : Global) × (g ∈ m.globals)
              × ((is_object g ≡ true) × (g.declaration ≡ false) × Exported strip regex matches m g)
              × (set_section "" g ≡ x)))
      × ((x : Global) → x ∈ n.globals → is_object x ≡ true → x.section ≢ jit_section)
unfolding collect_objects_to_jit
collect_objects_to_jit_returns strip regex matches m =
    let (counted, ends, iff) = deduce_objects_to_jit-Marks strip m.values m.globals in
    let gs = regex_functions_to_jit regex matches (map (mark_if counted) m.globals) in
    let (globals, objs) = collect_marked_lem gs in
    (
      record m { globals = (collect_marked gs).0 },
      (collect_marked gs).1,
      rw (ends, collect_objects_to_jit) refl,
      rw (objs, regex_functions_to_jit-map regex matches (map (mark_if counted) m.globals))
          (in_collected strip regex matches m counted iff),
      λ x i o jit.
          let (g, j, e) = (in_map unmark gs x).0 (rw globals at i) in
          unmark-section g (rw (sym e) at o) (rw (sym e) at jit),
    )
