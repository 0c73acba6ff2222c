-- ===== src/Context.antt =====
-- include/easy/runtime/Context.h and runtime/Context.cpp: the arguments that a specialisation binds,
-- the options beside them, and the equality and the hash by which the cache finds a context.
-- `int64_t` and pointers are bit patterns, a `Function` is the address of its module, and `double`
-- and the standard library's hashes are parameters.
pub mod Equality
pub mod Hash
use Prim.Native.Nat.{bit_xor}
use Prim.Native.String.{String}
use mathlib.Core.List.{foldl}
use easy_just_in_time.Prelude.{
  ℕ, ◌+◌, ◌-◌, ◌^◌, ◌%◌, ltb, Bool, true, false, not, ◌&&◌, List, [], ◌∷◌, ◌++◌, length, ◌==◌,
  if◌then◌else◌,
}

-- `double`, as far as this code uses it: `==`.
pub record Double (D : Type 0) : Type 0 where
  pub eq : D → D → Bool

-- `std::hash` at the types that are hashed.
pub record StdHash (D : Type 0) : Type 0 where
  pub hash_unsigned : ℕ → ℕ
  pub hash_int64 : ℕ → ℕ
  pub hash_double : D → ℕ
  pub hash_pointer : ℕ → ℕ

pub data ArgumentKind : Type 0 where
  ak_forward ak_int ak_float ak_ptr ak_struct ak_module : ArgumentKind

-- The enumerators' values.
abbrev pub kind_value : ArgumentKind → ℕ
kind_value ak_forward = 0
kind_value ak_int = 1
kind_value ak_float = 2
kind_value ak_ptr = 3
kind_value ak_struct = 4
kind_value ak_module = 5

-- `ArgumentBase` and its subclasses, each with its `Data_`.
pub data Argument (D : Type 0) : Type 0 where
  forward_argument : ℕ → Argument D
  int_argument : ℕ → Argument D
  float_argument : D → Argument D
  ptr_argument : ℕ → Argument D
  struct_argument : List ℕ → Argument D
  module_argument : ℕ → Argument D

abbrev pub kind : {D : Type 0} → Argument D → ArgumentKind
kind (forward_argument n) = ak_forward
kind (int_argument n) = ak_int
kind (float_argument d) = ak_float
kind (ptr_argument p) = ak_ptr
kind (struct_argument b) = ak_struct
kind (module_argument f) = ak_module

-- `==` of vectors of `char`
unfoldable pub bytes_eq : List ℕ → List ℕ → Bool
bytes_eq [] [] = true
bytes_eq [] (b ∷ bs) = false
bytes_eq (a ∷ as') [] = false
bytes_eq (a ∷ as') (b ∷ bs) = a == b && bytes_eq as' bs

pub record RawBytes : Type 0 where
  pub bytes : List ℕ
  pub reserved_regs : List String

pub record Context (D : Type 0) : Type 0 where
  pub argument_mapping : List (Argument D)
  pub opt_level : ℕ
  pub opt_size : ℕ
  pub debug_file : String
  pub argument_layout : List ℕ
  pub raw_bytes : RawBytes

module _ {D : Type 0} where
  -- `Context()`
  abbrev pub new_context : Context D
  new_context = record {
    argument_mapping = [];
    opt_level = 2;
    opt_size = 0;
    debug_file = "";
    argument_layout = [];
    raw_bytes = record { bytes = []; reserved_regs = [] };
  }

  unfoldable pub set_arg : Argument D → Context D → Context D
  set_arg a c = record c { argument_mapping = c.argument_mapping ++ a ∷ [] }

  unfoldable pub set_parameter_index : ℕ → Context D → Context D
  unfolding set_arg
  set_parameter_index param_idx = set_arg (forward_argument (param_idx % 2 ^ 32))

  unfoldable pub set_parameter_int : ℕ → Context D → Context D
  unfolding set_arg
  set_parameter_int val = set_arg (int_argument val)

  unfoldable pub set_parameter_float : D → Context D → Context D
  unfolding set_arg
  set_parameter_float val = set_arg (float_argument val)

  unfoldable pub set_parameter_pointer : ℕ → Context D → Context D
  unfolding set_arg
  set_parameter_pointer val = set_arg (ptr_argument val)

  -- The object's bytes, copied.
  unfoldable pub set_parameter_struct : List ℕ → Context D → Context D
  unfolding set_arg
  set_parameter_struct object = set_arg (struct_argument object)

  unfoldable pub set_parameter_module : ℕ → Context D → Context D
  unfolding set_arg
  set_parameter_module f = set_arg (module_argument f)

  unfoldable pub set_argument_layout : ℕ → Context D → Context D
  set_argument_layout id c = record c { argument_layout = c.argument_layout ++ id ∷ [] }

  unfoldable pub set_opt_level : ℕ → ℕ → Context D → Context D
  set_opt_level level size c = record c { opt_level = level; opt_size = size }

  unfoldable pub set_raw_bytes : RawBytes → Context D → Context D
  set_raw_bytes raw c = record c { raw_bytes = raw }

  unfoldable pub set_debug_file : String → Context D → Context D
  set_debug_file file c = record c { debug_file = file }

module _ {D : Type 0} ⦃double : Double D⦄ where
  -- Called at arguments of one kind; the cast of another has no meaning.
  unfoldable pub compare_with_same_type : Argument D → Argument D → Bool
  unfolding bytes_eq
  compare_with_same_type (forward_argument m) (forward_argument n) = m == n
  compare_with_same_type (int_argument m) (int_argument n) = m == n
  compare_with_same_type (float_argument d) (float_argument e) = double.eq d e
  compare_with_same_type (ptr_argument p) (ptr_argument q) = p == q
  compare_with_same_type (struct_argument a) (struct_argument b) = bytes_eq a b
  compare_with_same_type (module_argument f) (module_argument g) = f == g
  compare_with_same_type _ _ = false

  -- `ArgumentBase::operator==`
  unfoldable pub argument_eq : Argument D → Argument D → Bool
  unfolding compare_with_same_type
  argument_eq a b = kind_value (kind a) == kind_value (kind b) && compare_with_same_type a b

  -- The loop of `Context::operator==`, over two vectors of one size.
  unfoldable pub arguments_eq : List (Argument D) → List (Argument D) → Bool
  arguments_eq [] others = true
  arguments_eq (a ∷ as') [] = false
  arguments_eq (a ∷ as') (b ∷ bs) =
      let rest = arguments_eq as' bs in if not (argument_eq a b) then false else rest

  -- `Context::operator==`
  unfoldable pub context_eq : Context D → Context D → Bool
  context_eq c other =
      if not (c.opt_level == other.opt_level && c.opt_size == other.opt_size)
      then false
      else if not (length c.argument_mapping == length other.argument_mapping)
      then false
      else arguments_eq c.argument_mapping other.argument_mapping

-- A `char`, which is signed, as an `int64_t`.
abbrev pub char_to_int64 : ℕ → ℕ
char_to_int64 c = if ltb c 128 then c else c + 2 ^ 64 - 256

-- `R ^= hash(c)`
abbrev pub xor_byte : (ℕ → ℕ) → ℕ → ℕ → ℕ
xor_byte hash r c = bit_xor r (hash (char_to_int64 c))

module _ {D : Type 0} ⦃std : StdHash D⦄ where
  -- `ArgumentBase::hash`
  unfoldable pub argument_hash : Argument D → ℕ
  argument_hash (forward_argument n) = std.hash_unsigned n
  argument_hash (int_argument n) = std.hash_int64 n
  argument_hash (float_argument d) = std.hash_double d
  argument_hash (ptr_argument p) = std.hash_pointer p
  argument_hash (struct_argument b) = foldl (xor_byte std.hash_int64) 0 b
  argument_hash (module_argument f) = std.hash_pointer f

  abbrev pub xor_argument : ℕ → Argument D → ℕ
  xor_argument h a = bit_xor h (argument_hash a)

  -- `std::hash<easy::Context>`
  unfoldable pub context_hash : Context D → ℕ
  unfolding argument_hash
  context_hash c =
      let h = foldl xor_argument 0 c.argument_mapping in
      bit_xor h (bit_xor (std.hash_unsigned c.opt_level) (std.hash_unsigned c.opt_size))
