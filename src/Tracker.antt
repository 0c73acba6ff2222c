-- ===== src/Tracker.antt =====
-- include/easy/runtime/BitcodeTracker.h and runtime/BitcodeTracker.cpp: what the static initialisers
-- of the compiled program register, and what the runtime looks up. The bitcode reader is a
-- parameter. Strings behind `const char*` are taken as they are at registration.
pub mod Registered
use Prim.Native.String.{String}
use mathlib.Core.List.{foldl}
use text.Mathlib.Text.{◌==◌ as str_eq}
use easy_just_in_time.Prelude.{
  ℕ, Bool, List, [], ◌∷◌, Option, none, some, Result, ok, err, ◌>>=◌, ◌==◌,
}
use easy_just_in_time.UnorderedMap.{find, emplace, is_some}

pub record GlobalMapping : Type 0 where
  pub name : String
  pub address : ℕ

-- `globals` points to the entries before the null name that ends the array, and may be null.
pub record FunctionInfo : Type 0 where
  pub name : String
  pub globals : Option (List GlobalMapping)
  pub bitcode : List ℕ

pub record BitcodeTracker : Type 0 where
  pub functions : List (ℕ × FunctionInfo)
  pub name_to_address : List (String × ℕ)
  pub layouts : List (ℕ × ℕ)

-- The exceptions, and a failed `assert`.
pub data TrackerError : Type 0 where
  bitcode_not_registered : TrackerError
  bitcode_parse_error : String → TrackerError
  no_layout : TrackerError

-- `TheTracker`, before any registration
abbrev pub new_tracker : BitcodeTracker
new_tracker = record { functions = []; name_to_address = []; layouts = [] }

abbrev pub nat_eq : ℕ → ℕ → Bool
nat_eq a b = a == b

unfoldable pub register_function : ℕ → FunctionInfo → BitcodeTracker → BitcodeTracker
register_function fptr info bt = record bt {
  functions = emplace nat_eq fptr info bt.functions;
  name_to_address = emplace str_eq info.name fptr bt.name_to_address;
}

unfoldable pub register_layout : ℕ → ℕ → BitcodeTracker → BitcodeTracker
register_layout id n bt = record bt { layouts = emplace nat_eq id n bt.layouts }

unfoldable pub has_global_mapping : ℕ → BitcodeTracker → Bool
has_global_mapping fptr bt = is_some (find nat_eq fptr bt.functions)

unfoldable pub get_layout_info : ℕ → BitcodeTracker → Result TrackerError ℕ
get_layout_info id bt = elim (find nat_eq id bt.layouts) [ none ↦ err no_layout | some n ↦ ok n ]

-- `none` is the null pointer.
unfoldable pub get_address : String → BitcodeTracker → Option ℕ
get_address name bt = find str_eq name bt.name_to_address

unfoldable pub get_name_and_global_mapping :
    ℕ → BitcodeTracker → Result TrackerError (String × Option (List GlobalMapping))
get_name_and_global_mapping fptr bt = elim (find nat_eq fptr bt.functions) [
  | none ↦ err bitcode_not_registered
  | some info ↦ ok (info.name, info.globals)
]

-- `parse` stands for `llvm::parseBitcodeFile`.
unfoldable pub get_module :
    {M : Type 0} → (List ℕ → Option M) → ℕ → BitcodeTracker → Result TrackerError M
get_module parse fptr bt = elim (find nat_eq fptr bt.functions) [
  | none ↦ err bitcode_not_registered
  | some info ↦ elim (parse info.bitcode) [
    | none ↦ err (bitcode_parse_error info.name)
    | some m ↦ ok m
  ]
]

-- A call of `easy_register` or of `easy_register_layout`.
pub data Registration : Type 0 where
  easy_register : ℕ → FunctionInfo → Registration
  easy_register_layout : ℕ → ℕ → Registration

unfoldable pub register : BitcodeTracker → Registration → BitcodeTracker
unfolding register_function register_layout
register bt (easy_register fptr info) = register_function fptr info bt
register bt (easy_register_layout id n) = register_layout id n bt

-- The tracker after the initialisers ran.
unfoldable pub register_all : BitcodeTracker → List Registration → BitcodeTracker
register_all = foldl register
