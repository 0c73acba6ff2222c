-- ===== src/Meta/Rounds.antt =====
-- One round of the computation of meta.h after the other, for one placeholder.
use mathlib.Core.Bool.{decide}
use easy_just_in_time.Prelude.{
  leb→le, ltb→lt, Result, ℕ, zero, suc, ◌-◌, ◌≤◌, ◌<◌, ◌≡◌, refl, sym, ap, ◌∙◌, Bool, true, false,
  not, ◌||◌, List, [], ◌∷◌, ◌++◌, Option, none, some, ok, ◌>>◌, guard, guard-eq-ok, Bool-cases,
  length, get_elem?, replicate, ltb, leb, ◌==◌, ==_iff, if◌then◌else◌, arith, inl, inr, length-set,
  get_elem?-set_self, get_elem?-set_ne, get_elem?-replicate,
}
use easy_just_in_time.Meta.{
  CppType, void_type, CppType-discrete, ArgType, placeholder, option_type, value_type,
  ArgType-discrete, at, has_trait, map_done, new_result, new_seen, parse_placeholder, result_idx,
  map_helper, StaticError, seen_size, result_size, void_in_result, more_parameters_than_arguments,
  outside_maximum,
}

abbrev pub is_this : ℕ → ArgType → Bool
is_this k (placeholder j) = j == k
is_this k _ = false

-- The type of the parameter at the first argument that is the placeholder of index `k`, the
-- parameters counted from `i` on.
abbrev pub first_at : ℕ → List CppType → ℕ → List ArgType → Option CppType
first_at k pl i [] = none
first_at k pl i (head ∷ tail) =
    if is_this k head then some (at i pl) else first_at k pl (suc i) tail

abbrev seen_has : ℕ → List ArgType → Bool
seen_has k seen = has_trait ArgType-discrete (placeholder k) seen

decide-placeholder :
    (k : ℕ) (a : ArgType) → decide (ArgType-discrete (placeholder k) a) ≡ is_this k a
unfolding decide
decide-placeholder k (placeholder j) =
    elim (ArgType-discrete (placeholder k) (placeholder j)) as (λ d. decide d ≡ (j == k)) [
      | yes e ↦ sym ((==_iff j k).1 (cc e))
      | no d ↦ elim (Bool-cases (j == k)) [
        | inl same ↦ absurd (d (ap placeholder (sym ((==_iff j k).0 same))))
        | inr other ↦ sym other
      ]
    ]
decide-placeholder k (option_type j) =
    elim (ArgType-discrete (placeholder k) (option_type j)) as (λ d. decide d ≡ false) [
      | yes e ↦ cc e
      | no d ↦ refl
    ]
decide-placeholder k (value_type j) =
    elim (ArgType-discrete (placeholder k) (value_type j)) as (λ d. decide d ≡ false) [
      | yes e ↦ cc e
      | no d ↦ refl
    ]

seen_has-concat :
    (k : ℕ) (seen : List ArgType) (a : ArgType)
    → seen_has k (seen ++ a ∷ []) ≡ (seen_has k seen || is_this k a)
unfolding has_trait
seen_has-concat k [] a = rw (decide-placeholder k a) (ground arith)
seen_has-concat k (x ∷ seen) a = ground (arith, seen_has-concat k seen a)

has_trait-get_elem? :
    (t : CppType) (ts : List CppType) (k : ℕ)
    → get_elem? ts k ≡ some t
    → has_trait CppType-discrete t ts ≡ true
unfolding has_trait decide
has_trait-get_elem? t [] k h = cc
has_trait-get_elem? t (x ∷ ts) zero h =
    elim (CppType-discrete t x) as (λ d. (decide d || has_trait CppType-discrete t ts) ≡ true) [
      | yes e ↦ refl
      | no d ↦ absurd (d (cc h))
    ]
has_trait-get_elem? t (x ∷ ts) (suc k) h = rw (has_trait-get_elem? t ts k h) (ground arith)

-- What one round does at a placeholder that is new, and at any other argument.
round_new :
    (j : ℕ) (seen : List ArgType)
    → seen_has j seen ≡ false
    → parse_placeholder (placeholder j) seen ≡ true
round_new j seen h = rw h (ground arith)

round_old :
    (head : ArgType) (seen : List ArgType)
    → ((j : ℕ) → is_this j head ≡ true → seen_has j seen ≡ true)
    → parse_placeholder head seen ≡ false
round_old (placeholder j) seen h = rw (h j ((==_iff j j).1 refl)) (ground arith)
round_old (option_type j) seen h = refl
round_old (value_type j) seen h = refl

-- What the helper will find at index `k`, from any of its states.
abbrev look : ℕ → List CppType → List ArgType → List CppType → List ArgType → Option CppType
look k pl al result seen =
    if seen_has k seen then get_elem? result k else first_at k pl (length pl - length al) al

module _ (k : ℕ) (pl : List CppType) (al : List ArgType) (result : List CppType)
    (seen : List ArgType) where
  -- Indices that no placeholder has been seen for still hold `void`.
  abbrev IsFresh : List CppType → List ArgType → Type 0
  IsFresh rs ss = seen_has k ss ≡ false → get_elem? rs k ≡ some void_type

  abbrev KeepsLook : ArgType → Type 0
  KeepsLook head =
      let t = at (length pl - length (head ∷ al)) pl in
      (look k pl al (new_result head seen t result) (new_seen head seen)
        ≡ look k pl (head ∷ al) result seen)
      × IsFresh (new_result head seen t result) (new_seen head seen)

  round_skip :
      (head : ArgType)
      → length (head ∷ al) ≤ length pl
      → IsFresh result seen
      → parse_placeholder head seen ≡ false
      → (is_this k head ≡ true → seen_has k seen ≡ true)
      → KeepsLook head
  round_skip head fits fresh skip old =
      let e : suc (length pl - suc (length al)) ≡ length pl - length al = omega arith in
      rw (skip, e) (ground arith)

  round_place :
      (j : ℕ)
      → length (placeholder j ∷ al) ≤ length pl
      → j < length result
      → IsFresh result seen
      → seen_has j seen ≡ false
      → KeepsLook (placeholder j)
  round_place j fits room fresh new =
      let e : suc (length pl - suc (length al)) ≡ length pl - length al = omega arith in
      let t = at (length pl - suc (length al)) pl in
      let i : suc j - 1 ≡ j = omega arith in
      rw (round_new j seen new, e, i, seen_has-concat k seen (placeholder j))
        (ground (arith, get_elem?-set_self result j t, get_elem?-set_ne result j k t))

  round_keeps :
      (head : ArgType)
      → length (head ∷ al) ≤ length pl
      → result_idx head seen < length result
      → IsFresh result seen
      → KeepsLook head
  round_keeps (placeholder j) fits room fresh = elim (Bool-cases (seen_has j seen)) [
    | inl old ↦
        round_skip (placeholder j) fits fresh (rw old (ground arith))
          (λ e. rw (← (==_iff j k).0 e) old)
    | inr new ↦
        let i : result_idx (placeholder j) seen ≡ j = rw (round_new j seen new) (omega arith) in
        round_place j fits (rw i at room) fresh new
  ]
  round_keeps (option_type j) fits room fresh =
      round_skip (option_type j) fits fresh refl (λ e. cc e)
  round_keeps (value_type j) fits room fresh = round_skip (value_type j) fits fresh refl (λ e. cc e)

length-new_result :
    (head : ArgType) (seen : List ArgType) (t : CppType) (result : List CppType)
    → length (new_result head seen t result) ≡ length result
length-new_result head seen t result = elim (Bool-cases (parse_placeholder head seen)) [
  | inl new ↦ rw (new, length-set)
  | inr old ↦ rw old
]

map_done-look :
    (k n : ℕ) (pl : List CppType) (al : List ArgType) (result : List CppType) (seen : List ArgType)
    {r : List CppType}
    → IsFresh k pl al result seen result seen
    → map_done result seen n ≡ ok r
    → (length r ≡ n) × (get_elem? r k ≡ look k pl al result seen)
unfolding map_done
map_done-look k n pl al result seen {r} fresh h =
    let (_, h1) = guard-eq-ok (length seen == n) seen_size (checked (length result == n)) h in
    let (len, h2) = guard-eq-ok (length result == n) result_size clean h1 in
    let (no_void, h3) =
      guard-eq-ok (not (has_trait CppType-discrete void_type result)) void_in_result (ok result)
        h2 in
    let e : result ≡ r = cc h3 in
    rw (← e) (
      (==_iff (length result) n).0 len,
      elim (Bool-cases (seen_has k seen)) [
        | inl yes' ↦ rw yes'
        | inr no' ↦
            absurd (true_not_false (has_trait-get_elem? void_type result k (fresh no')) no_void)
      ],
    )
  where
    clean : Result StaticError (List CppType)
    clean = guard (not (has_trait CppType-discrete void_type result)) void_in_result >> ok result

    checked : Bool → Result StaticError (List CppType)
    checked b = guard b result_size >> clean

    true_not_false : {b : Bool} → b ≡ true → not b ≡ true → ⊥
    true_not_false p q = cc (ap not p ∙ refl)

map_helper-look :
    (k n : ℕ) (pl : List CppType) (al : List ArgType) (result : List CppType) (seen : List ArgType)
    (b : Bool) {r : List CppType}
    → IsFresh k pl al result seen result seen
    → map_helper pl al result seen n b ≡ ok r
    → (length r ≡ n) × (get_elem? r k ≡ look k pl al result seen)
unfolding map_helper
map_helper-look k n pl al result seen true fresh h = map_done-look k n pl al result seen fresh h
map_helper-look k n pl [] result seen false fresh h = cc
map_helper-look k n pl (head ∷ tail) result seen false fresh h =
    let fits : Bool = leb (suc (length tail)) (length pl) in
    let room : Bool = ltb (result_idx head seen) (length result) in
    let t = at (length pl - length (head ∷ tail)) pl in
    let result' = new_result head seen t result in
    let seen' = new_seen head seen in
    let rest = map_helper pl tail result' seen' n (length seen' == n) in
    let (fits_ok, h1) =
      guard-eq-ok fits more_parameters_than_arguments (guard room outside_maximum >> rest) h in
    let (room_ok, h2) = guard-eq-ok room outside_maximum rest h1 in
    let (same, fresh') =
      round_keeps k pl tail result seen head (leb→le _ _ fits_ok) (ltb→lt _ _ room_ok) fresh in
    let (len, found) = map_helper-look k n pl tail result' seen' (length seen' == n) fresh' h2 in
    (len, found ∙ same)

-- From the state in which nothing was seen.
pub map_helper-first_at :
    (n : ℕ) (pl : List CppType) (al : List ArgType) {r : List CppType}
    → map_helper pl al (replicate n void_type) [] n (n == 0) ≡ ok r
    → (length r ≡ n) × ((k : ℕ) → k < n → get_elem? r k ≡ first_at k pl (length pl - length al) al)
unfolding map_helper map_done has_trait
map_helper-first_at zero pl al {r} h =
    let e : [] ≡ r = cc h in (rw (← e) refl, λ k lt. absurd (omega arith))
map_helper-first_at (suc n) pl al {r} h = ((looked 0 (omega arith)).0, λ k lt. (looked k lt).1)
  where
    looked :
        (k : ℕ)
        → k < suc n
        → (length r ≡ suc n) × (get_elem? r k ≡ look k pl al (replicate (suc n) void_type) [])
    looked k lt =
        map_helper-look k (suc n) pl al (replicate (suc n) void_type) [] (suc n == 0)
          (λ _. get_elem?-replicate (suc n) k void_type lt) h
