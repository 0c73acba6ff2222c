-- ===== src/Function/Registers/Thread.antt =====
-- The globals of runtime/Function.cpp behind the hook, over the threads of a program: the entry of LLVM's
-- virtual table and what it was, the table of register names, and each thread's pointer to the reserved
-- registers, which are a member of the context that the thread compiled last. Contexts live at addresses.
-- Generating code asks for the reserved registers once; if it asks again, it is answered the same.
pub mod Runs
pub mod Histories
use Prim.Native.String.{String}
use easy_just_in_time.Prelude.{
  ℕ, Bool, List, [], ◌∷◌, Option, none, some, Result, ok, err, ◌>>=◌, ◌==◌, if◌then◌else◌,
}
use easy_just_in_time.Context.{RawBytes}
use easy_just_in_time.Function.Registers.{RegNameToIdx, BitFault, hooked_get_reserved_regs}

-- What the entry for `getReservedRegs` in the virtual table can be.
pub data Method : Type 0 where
  original_get_reserved_regs hooked_get_reserved_regs_type : Method

-- A use of a null pointer, of a context that is gone, a call of itself without end, and a write past the
-- bits.
pub data ThreadFault : Type 0 where
  null_method null_reserved_regs dangling_reserved_regs endless_recursion : ThreadFault
  bit_fault : BitFault → ThreadFault

pub record Runtime : Type 0 where
  pub vtable_entry : Method
  pub org_get_reserved_regs : Option Method
  pub reg_name_to_idx : RegNameToIdx
  pub reserved_regs : ℕ → Option ℕ
  pub contexts : ℕ → Option RawBytes

-- A program before its first compilation.
abbrev pub new_runtime : Runtime
new_runtime = record {
  vtable_entry = original_get_reserved_regs;
  org_get_reserved_regs = none;
  reg_name_to_idx = [];
  reserved_regs = λ t. none;
  contexts = λ a. none;
}

abbrev pub update {ℓ} : {A : Type ℓ} → (ℕ → A) → ℕ → A → ℕ → A
update f k v i = if k == i then v else f i

-- `Hook_getReservedRegs`
unfoldable pub hook_get_reserved_regs : Runtime → Runtime
hook_get_reserved_regs r = elim r.org_get_reserved_regs [
  | none ↦ record r {
    org_get_reserved_regs = some r.vtable_entry;
    vtable_entry = hooked_get_reserved_regs_type;
  }
  | some method ↦ r
]

-- `*g_reservedRegs` in a thread
unfoldable pub read_reserved_regs : ℕ → Runtime → Result ThreadFault (List String)
read_reserved_regs t r = elim (r.reserved_regs t) [
  | none ↦ err null_reserved_regs
  | some a ↦ elim (r.contexts a) [
    | none ↦ err dangling_reserved_regs
    | some raw ↦ ok raw.reserved_regs
  ]
]

abbrev pub or_bit_fault : {A : Type 0} → Result BitFault A → Result ThreadFault A
or_bit_fault (ok a) = ok a
or_bit_fault (err e) = err (bit_fault e)

-- What else a program can do: contexts that it makes and destroys itself, and reading a function.
pub data Action : Type 0 where
  construct : ℕ → RawBytes → Action
  destroy : ℕ → Action
  compile_action : ℕ → ℕ → Action
  jit_action : ℕ → ℕ → RawBytes → Action
  deserialize_action : ℕ → Action
  failed_action : Action

module _ (upper : String → String) (names : List String) (bits : List Bool) where
  -- The hook in a thread: it calls what the entry was, and then reads the thread's pointer.
  unfoldable pub call_hooked :
      Option Method → ℕ → Runtime → Result ThreadFault (List Bool × Runtime)
  unfolding read_reserved_regs
  call_hooked none t r = err null_method
  call_hooked (some hooked_get_reserved_regs_type) t r = err endless_recursion
  call_hooked (some original_get_reserved_regs) t r = do
    regs ← read_reserved_regs t r
    (bits', table) ← or_bit_fault (hooked_get_reserved_regs upper names regs r.reg_name_to_idx bits)
    ok (bits', record r { reg_name_to_idx = table })

  abbrev pub call_method : Method → ℕ → Runtime → Result ThreadFault (List Bool × Runtime)
  call_method original_get_reserved_regs t r = ok (bits, r)
  call_method hooked_get_reserved_regs_type t r = call_hooked r.org_get_reserved_regs t r

  -- `getReservedRegs` through the virtual table, when a thread generates code in `CompileAndWrap`.
  unfoldable pub get_reserved_regs : ℕ → Runtime → Result ThreadFault (List Bool × Runtime)
  unfolding call_hooked
  get_reserved_regs t r = call_method r.vtable_entry t r

  -- What `Function::Compile` does to the globals, in a thread and for the context at an address.
  unfoldable pub compile_in : ℕ → ℕ → Runtime → Result ThreadFault (List Bool × Runtime)
  unfolding hook_get_reserved_regs get_reserved_regs
  compile_in t a r =
      let hooked = hook_get_reserved_regs r in
      get_reserved_regs t (record hooked { reserved_regs = update hooked.reserved_regs t (some a) })

  -- A call of `easy::jit_` in a thread: its context is a local variable, at an address.
  unfoldable pub jit_in : ℕ → ℕ → RawBytes → Runtime → Result ThreadFault (List Bool × Runtime)
  unfolding compile_in
  jit_in t a raw r = do
    (bits', r') ← compile_in t a (record r { contexts = update r.contexts a (some raw) })
    ok (bits', record r' { contexts = update r'.contexts a none })

  -- `failed_action` is a compilation that throws when it writes the module to its file.
  unfoldable pub act : Action → Runtime → Result ThreadFault Runtime
  unfolding jit_in
  act (construct a raw) r = ok (record r { contexts = update r.contexts a (some raw) })
  act (destroy a) r = ok (record r { contexts = update r.contexts a none })
  act (compile_action t a) r = do (bits', r') ← compile_in t a r; ok r'
  act (jit_action t a raw) r = do (bits', r') ← jit_in t a raw r; ok r'
  act (deserialize_action t) r = do (bits', r') ← get_reserved_regs t r; ok r'
  act failed_action r = ok (hook_get_reserved_regs r)

  unfoldable pub run : List Action → Runtime → Result ThreadFault Runtime
  unfolding act
  run [] r = ok r
  run (action ∷ actions) r = act action r >>= run actions
