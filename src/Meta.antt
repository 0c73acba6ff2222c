-- ===== src/Meta.antt =====
-- include/easy/meta.h: the compile-time computation of the specialised function's parameter list.
-- A C++ type list is a list, a template alias is a function, and a failed `static_assert` is an
-- error value.
pub mod Rounds
pub mod Mapping
use mathlib.Core.Bool.{decide}
use easy_just_in_time.Prelude.{
  ℕ, zero, suc, ◌-◌, ◌≡◌, Bool, true, false, not, ◌&&◌, ◌||◌, List, [], ◌∷◌, ◌++◌, Result, ok, err,
  ◌>>=◌, ◌>>◌, guard, length, set, replicate, ltb, leb, ◌==◌, if◌then◌else◌, ℕ_discrete,
}

-- The types that a parameter list holds, by what param.h asks of them: the width and signedness of
-- an integral type, the width of a floating one; other types go by name.
pub data CppType : Type 0 where
  void_type : CppType
  boolean : CppType
  integral : ℕ → Bool → CppType
  floating : ℕ → CppType
  pointer : ℕ → CppType
  reference : ℕ → CppType
  class_type : ℕ → CppType

-- The types of the arguments of `easy::jit`. `placeholder k` is the type of
-- `std::placeholders::_(k + 1)`: the placeholders are constant objects of the standard library, so
-- all uses of one have one type.
pub data ArgType : Type 0 where
  placeholder : ℕ → ArgType
  option_type : ℕ → ArgType
  value_type : ℕ → ArgType

unfoldable pub CppType-discrete : Discrete CppType
CppType-discrete = hlevel ℕ_discrete

unfoldable pub ArgType-discrete : Discrete ArgType
ArgType-discrete = hlevel ℕ_discrete

-- `std::is_placeholder<T>::value`
abbrev pub is_placeholder : ArgType → ℕ
is_placeholder (placeholder k) = suc k
is_placeholder _ = 0

abbrev pub is_option : ArgType → Bool
is_option (option_type n) = true
is_option _ = false

-- `type_list::at`, `void` out of range
unfoldable pub at : ℕ → List CppType → CppType
at i [] = void_type
at zero (head ∷ tail) = head
at (suc i) (head ∷ tail) = at i tail

-- `type_list::has_trait`
unfoldable pub has_trait {ℓ} : {A : Type ℓ} → Discrete A → A → List A → Bool
has_trait same t [] = false
has_trait same t (head ∷ tail) = decide (same t head) || has_trait same t tail

-- `discard_options`
unfoldable pub discard_options : List ArgType → List ArgType
discard_options [] = []
discard_options (head ∷ tail) =
    let recursive = discard_options tail in if is_option head then recursive else head ∷ recursive

-- `max_placeholder::helper`, from the maximum so far
unfoldable pub max_placeholder_from : ℕ → List ArgType → ℕ
max_placeholder_from max [] = max
max_placeholder_from max (head ∷ tail) =
    max_placeholder_from (if ltb max (is_placeholder head) then is_placeholder head else max) tail

abbrev pub max_placeholder : List ArgType → ℕ
max_placeholder = max_placeholder_from 0

-- The static assertions.
pub data StaticError : Type 0 where
  seen_size result_size void_in_result : StaticError
  more_parameters_than_arguments outside_maximum invalid_bind : StaticError

-- The primary template of `map_placeholder_to_type::helper`, where `Done` is true.
unfoldable pub map_done : List CppType → List ArgType → ℕ → Result StaticError (List CppType)
unfolding has_trait
map_done result seen n = do
  guard (length seen == n) seen_size
  guard (length result == n) result_size
  guard (not (has_trait CppType-discrete void_type result)) void_in_result
  ok result

-- `parse_placeholder`, `result_idx`, `new_result` and `new_seen` of one round.
abbrev pub parse_placeholder : ArgType → List ArgType → Bool
parse_placeholder head seen =
    not (is_placeholder head == 0) && not (has_trait ArgType-discrete head seen)

abbrev pub result_idx : ArgType → List ArgType → ℕ
result_idx head seen = if parse_placeholder head seen then is_placeholder head - 1 else 0

abbrev pub new_result : ArgType → List ArgType → CppType → List CppType → List CppType
new_result head seen t result =
    if parse_placeholder head seen then set result (result_idx head seen) t else result

abbrev pub new_seen : ArgType → List ArgType → List ArgType
new_seen head seen = if parse_placeholder head seen then seen ++ head ∷ [] else seen

-- `map_placeholder_to_type::helper`: the parameters, the arguments left, the result and the
-- placeholders so far, their number, and whether all were seen.
unfoldable pub map_helper :
    List CppType
    → List ArgType
    → List CppType
    → List ArgType
    → ℕ
    → Bool
    → Result StaticError (List CppType)
unfolding map_done
map_helper pl al result seen n true = map_done result seen n
map_helper pl [] result seen n false = err invalid_bind
map_helper pl (head ∷ tail) result seen n false = do
  guard (leb (length (head ∷ tail)) (length pl)) more_parameters_than_arguments
  guard (ltb (result_idx head seen) (length result)) outside_maximum
  let pl_at_idx = at (length pl - length (head ∷ tail)) pl
  let result' = new_result head seen pl_at_idx result
  let seen' = new_seen head seen
  map_helper pl tail result' seen' n (length seen' == n)

unfoldable pub map_placeholder_to_type :
    List CppType → List ArgType → Result StaticError (List CppType)
map_placeholder_to_type pl al =
    let n = max_placeholder al in map_helper pl al (replicate n void_type) [] n (n == 0)

-- `new_function_traits::parameter_list`
unfoldable pub parameter_list : List CppType → List ArgType → Result StaticError (List CppType)
parameter_list params args = map_placeholder_to_type params (discard_options args)
