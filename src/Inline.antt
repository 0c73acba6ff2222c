-- ===== src/Inline.antt =====
-- runtime/pass/InlineParametersHelper.{h,cpp} and runtime/pass/InlineParameters.cpp: the pass that
-- builds a wrapper with the bound arguments inlined. Here: the layout of the parameters, and the
-- wrapper's type. A read or a write out of range, and a failed `assert`, are faults.
pub mod NewLayout
pub mod Forwarded
pub mod Signature
pub mod Constants
pub mod Link
pub mod Structs
pub mod Args
pub mod Bind
use easy_just_in_time.Prelude.{
  ℕ, zero, suc, ◌+◌, ◌^◌, ◌%◌, max, Bool, true, false, not, ◌||◌, List, [], ◌∷◌, ◌++◌, Option, none,
  some, Result, ok, err, ◌>>=◌, ◌>>◌, guard, length, get_elem?, set, replicate, ltb, ◌==◌,
  if◌then◌else◌,
}
use easy_just_in_time.Context.{Argument, forward_argument, Context}
use easy_just_in_time.Tracker.{TrackerError}
use easy_just_in_time.Utils.{EntryFault}
use easy_just_in_time.Llvm.{LlvmType, is_pointer_ty, IrFunction}

pub data Fault : Type 0 where
  no_argument parameter_out_of_range assertion_failed : Fault
  argument_out_of_range position_not_found : Fault
  missing_symbol unsupported_symbol null_constant link_failed : Fault
  exception : TrackerError → Fault
  entry_fault : EntryFault → Fault

pub record HighLevelArg : Type 0 where
  pub position : ℕ
  pub first_param_idx : ℕ
  pub types : List LlvmType
  pub struct_by_pointer : Bool

-- `HighLevelArg()`, which is zeroed before its members are initialised.
abbrev pub default_arg : HighLevelArg
default_arg = record { position = 0; first_param_idx = 0; types = []; struct_by_pointer = false }

pub record HighLevelLayout : Type 0 where
  pub struct_return : Option LlvmType
  pub args : List HighLevelArg
  pub return_type : LlvmType

-- `StructReturn_ ? 1 : 0`
abbrev pub return_params {ℓ} : {A : Type ℓ} → Option A → ℕ
return_params none = 0
return_params (some t) = 1

abbrev pub one_param : ℕ → ℕ → LlvmType → HighLevelArg
one_param arg_idx param_idx t = record {
  position = arg_idx;
  first_param_idx = param_idx;
  types = t ∷ [];
  struct_by_pointer = is_pointer_ty t;
}

-- The loop of the constructor, with the rounds left.
unfoldable pub layout_args : ℕ → ℕ → ℕ → List LlvmType → Result Fault (List HighLevelArg)
layout_args zero arg_idx param_idx params = ok []
layout_args (suc n) arg_idx param_idx params = elim (get_elem? params param_idx) [
  | none ↦ err parameter_out_of_range
  | some t ↦ do
    rest ← layout_args n (suc arg_idx) (suc param_idx) params
    ok (one_param arg_idx param_idx t ∷ rest)
]

-- `HighLevelLayout::HighLevelLayout`, over the function's parameters, whether the first one has the
-- attribute `sret`, and its return type. The attribute is read of the first argument.
unfoldable pub layout_of : List LlvmType → Bool → LlvmType → Result Fault HighLevelLayout
unfolding layout_args
layout_of [] struct_ret return_ty = err no_argument
layout_of (first ∷ others) struct_ret return_ty =
    let sret : Option LlvmType = if struct_ret then some first else none in
    do
      args' ← layout_args (length (first ∷ others)) 0 (return_params sret) (first ∷ others)
      ok (record { struct_return = sret; args = args'; return_type = return_ty })

unfoldable pub high_level_layout : IrFunction → Result Fault HighLevelLayout
unfolding layout_of
high_level_layout f = layout_of f.params f.struct_ret f.return_type

module _ {D : Type 0} where
  -- `NNewArgs`. `Map->get()+1` is an `unsigned`.
  abbrev pub more_args : ℕ → Argument D → ℕ
  more_args n (forward_argument k) = max n ((k + 1) % 2 ^ 32)
  more_args n _ = n

  unfoldable pub count_new_args : ℕ → List (Argument D) → ℕ
  count_new_args n [] = n
  count_new_args n (a ∷ rest) = count_new_args (more_args n a) rest

abbrev pub contains : ℕ → List ℕ → Bool
contains k [] = false
contains k (v ∷ visited) = v == k || contains k visited

module _ {D : Type 0} where
  -- The loop that keeps the forwarded parameters: the arguments and their layout, one by one, the
  -- visited indices and the new arguments.
  unfoldable pub keep_forwarded :
      List (Argument D)
      → List HighLevelArg
      → List ℕ
      → List HighLevelArg
      → Result Fault (List HighLevelArg)
  keep_forwarded (forward_argument k ∷ as') (h ∷ hs) visited new = elim (contains k visited) [
    | true ↦ keep_forwarded as' hs visited new
    | false ↦ do
      guard (ltb k (length new)) argument_out_of_range
      keep_forwarded as' hs (k ∷ visited) (set new k h)
  ]
  keep_forwarded (_ ∷ as') (h ∷ hs) visited new = keep_forwarded as' hs visited new
  keep_forwarded _ _ visited new = ok new

-- The loop that sets the parameter indices.
unfoldable pub set_param_idx : ℕ → List HighLevelArg → List HighLevelArg
set_param_idx param_idx [] = []
set_param_idx param_idx (a ∷ rest) =
    record a { first_param_idx = param_idx } ∷ set_param_idx (param_idx + length a.types) rest

unfoldable pub get_new_layout :
    {D : Type 0} → Context D → HighLevelLayout → Result Fault HighLevelLayout
unfolding count_new_args keep_forwarded set_param_idx
get_new_layout c hll = do
  guard (length c.argument_mapping == length hll.args) assertion_failed
  let n = count_new_args 0 c.argument_mapping
  new ← keep_forwarded c.argument_mapping hll.args [] (replicate n default_arg)
  ok (record hll { args = set_param_idx 0 new })

abbrev pub all_types : List HighLevelArg → List LlvmType
all_types [] = []
all_types (a ∷ rest) = a.types ++ all_types rest

-- The parameters of `GetWrapperTy`.
unfoldable pub get_wrapper_ty : HighLevelLayout → List LlvmType
get_wrapper_ty hll = elim hll.struct_return [
  | none ↦ all_types hll.args
  | some t ↦ t ∷ all_types hll.args
]
