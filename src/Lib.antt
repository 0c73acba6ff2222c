-- ===== src/Lib.antt =====
-- easy::jit: specialisation of functions at run time. A compiler plugin embeds the bitcode of functions
-- in the program; at run time `easy::jit(f, args...)` binds some of the arguments of `f`, compiles a
-- wrapper with the bound values inlined, and returns it. The placeholders `_1, _2, ...` stay parameters.
--
-- The compiler plugin (pass/) exports functions: Easy.cpp collects them, tracing the arguments of calls with
-- MayAliasTracer.cpp, and writes for each a cleaned copy of its module and a call that registers it;
-- Layout.cpp does so for the functions that serialise arguments. A call goes through these parts:
--   include/easy/meta.h computes the wrapper's parameter list from the placeholders, at compile time;
--   include/easy/param.h, options.h and jit.h turn the arguments into a context;
--   include/easy/runtime/Context.h and runtime/Context.cpp are the context, its equality and its hash;
--   include/easy/code_cache.h keeps compiled wrappers, by a key or by function and context;
--   runtime/BitcodeTracker.cpp knows the functions that the program registered;
--   runtime/pass/InlineParameters.cpp and its helper build the wrapper;
--   runtime/pass/DevirtualizeConstant.cpp and IndirectcallConstant.cpp replace calls of constants;
--   runtime/pass/EmitCodes.cpp writes the raw bytes of the context into marked inline assembly;
--   runtime/Utils.cpp marks the wrapper as the module's entry;
--   runtime/Function.cpp puts this together: it compiles, writes and reads functions.
--
-- The files:
--   Prelude: shared names, results, list lemmas over the native numbers.
--   UnorderedMap: std::unordered_map as an association list, newest entry first.
--   Meta: meta.h, `map_placeholder_to_type` and what it uses. Meta.Rounds: one round after the other. Meta.Mapping: the result.
--   Context: Context.h and Context.cpp. Context.Equality: operator==. Context.Hash: std::hash<Context>.
--   Params: param.h, options.h, `get_context_for`. Params.Bound: the context that they build.
--   Tracker: BitcodeTracker. Tracker.Registered: lookups after registrations.
--   Cache: CacheBase and Cache<Key>. Cache.Auto: Cache<AutoKey>. Cache.Laws: sequences of calls.
--   Llvm: the data of LLVM that the code reads: types, symbols, named metadata, functions.
--   Utils: runtime/Utils.cpp. Utils.Entry: the entry mark.
--   Inline: `HighLevelLayout`, `GetNewLayout`, `GetWrapperTy`. Inline.Constants: `GetScalarArgument` and
--     `GetConstantFromRaw`. Inline.Link: `LinkPointerIfPossible`. Inline.Structs: `GetGlobalStruct`;
--     Structs.Stored: `GetStructAlloc`, with Stored.Packed against the other.
--     Inline.Args: `GetForwardArgs`, `GetInlineArgs`, `RemapAttributes`, `CreateWrapperFun` and
--     `runOnModule`. Inline.Bind: `std::bind`, and the pass against it. Inline.Structs.Memory: constants against
--     bytes. Inline.NewLayout, Forwarded, Signature, Args.Forward, Args.Calls, Args.Attributes and Constants.Scalars:
--     proofs.
--   EmitCodes: the pass of EmitCodes.cpp. EmitCodes.Laws: running it twice.
--   Function: `Function::Compile`, `serialize`, `deserialize` and their helpers. Function.Serialize: reading
--     what was written. Function.Linked: the functions that the code calls by name. Function.Registers: the
--     hook that reserves registers; Reserved: which ones; Thread: its globals, over the threads of a program.
--   Jit: `jit`, `jit_` and `jit_with_context` of jit.h, and the wrapper of function_wrapper.h. Jit.Composed: what a
--     call puts together. Jit.Returns: that it returns. Jit.Exported: from the plugin to the wrapper.
--   Search: searching a graph by recursion and by a stack. Search.Reached: reachability. Search.Depth and
--     Search.Worklist: the two searches end and find what is reached. Search.Members: lists.
--   Plugin: what pass/ reads of a module. Plugin.Tracer: MayAliasTracer.cpp; Tracer.Stored: what it finds.
--     Plugin.References: `getReferencedFromEntry` of Easy.cpp. Plugin.Export: `collectObjectsToJIT`;
--     Export.Marks, Marked, Collected and Kept: proofs. Plugin.Clean: `cleanModule` and `fixLinkages`; Clean.Fixed:
--     proofs. Plugin.Register: the rest of `runOnModule`; Register.Globals: the globals that it names and adds;
--     Register.Names: their names; Register.Memory and Register.Calls: what the constructor calls, and what it
--     registers in the tracker when the program is loaded; Register.Whole: the pass as a whole.
--   Layout: pass/Layout.cpp. Layout.Bounds: the buffer. Layout.Found: the layouts in the tracker.
--   Devirtualize: DevirtualizeConstant.cpp. Devirtualize.Recast: its casts of calls, and IndirectcallConstant.cpp;
--     Devirtualize.Typed and Devirtualize.Outcomes: proofs.
--   Tests: the theorems at concrete inputs.
--
-- Numbers: an `int64_t`, a pointer or an `unsigned` is a number below its power of two, and what the code
-- converts is reduced where the code does it, as the size of the serialised arguments and the indices of their
-- stores are to 32 bits. A `double` is a type with `==`, and nothing is assumed of it but what a theorem names.
-- Failed assertions, LLVM's among them, exceptions, reads out of range and uses of an end iterator are error
-- values: the code is taken as it is built with assertions, where it does not run LLVM's verifier. Loops are
-- structural recursion on what they go through, but for the two searches of the plugin, which run on fuel: the
-- number of nodes for the recursive one, the number of edges for the one with a stack, each proved to be
-- enough. LLVM's reader, writer, linker, engine and standard passes and the standard hashes are parameters. A
-- module that the linker refuses is taken to leave the destination as it was.
--
-- Not modelled: ownership but for the context that a thread points into, the pages of LLVM's virtual table, pass
-- registration, and `deduceVirtualMethodsToJIT`, which nothing calls. Values that the
-- plugin adds have no users in the table of values, since nothing reads them afterwards, and the users of a value are not
-- changed when uses are replaced.
pub mod Prelude
pub mod Meta
pub mod Context
pub mod UnorderedMap
pub mod Tracker
pub mod Cache
pub mod Params
pub mod Llvm
pub mod Inline
pub mod Utils
pub mod EmitCodes
pub mod Function
pub mod Jit
pub mod Devirtualize
pub mod Layout
pub mod Search
pub mod Plugin
pub mod Tests
