-- ===== src/Lib.antt =====
-- A model of the C part of Affix: lib/Affix.h, lib/Affix.cxx, and marshal.cxx, Aggregate.cxx,
-- Callback.cxx, pin.cxx, Type/Pointer.cxx, Lib.cxx, Platform.cxx, Utils.cxx and wchar_t.cxx of lib/Affix. Affix binds functions
-- of shared libraries to Perl. A Perl value goes to C memory by `sv2ptr` and comes back by `ptr2sv`; a
-- bound function's XSUB (`Fiction_trigger`, or `Affix_trigger` for an Affix) marshals its arguments, calls through dyncall and marshals the result;
-- `cbHandlerXXXXX` does the same when C calls a Perl sub; `pin` ties a scalar to a C variable by the
-- same two functions; `_aggregate` describes structs and unions to dyncall.
--
-- The files:
--   Flags       the type flags of lib/Affix.h, `type_as_dc` of Utils.cxx
--   Types       type objects: a record of the SLOT_TYPE_* scalars, the subtypes and a callback's
--               argument types; Types/Layout: `padding_needed_for` of Utils.cxx
--   Memory      the C heap (bytes, live blocks) with the effects on the interpreter, the structs
--               CodeRef and fiction of lib/Affix.h, and the results of a run
--   Perl, Env   what is not Affix's own: the interpreter, malloc, dyncall, the dynamic loader, and the
--               C library's multibyte functions, as the fields of two records
--   Wide        wchar_t.cxx, and the WCHAR_FLAG cases of marshal.cxx, used by Marshal, Unmarshal,
--               Trigger, Callback and AffixObject
--   Marshal     `sv2ptr` of marshal.cxx: Marshal/Cases has the cases of its switch, each over what its
--               recursive calls do, and Marshal ties the recursion over the type
--   Unmarshal   `ptr2sv` and `ptr2obj` of marshal.cxx, in the same way
--   Aggregate   `_aggregate` of Aggregate.cxx; Aggregate/Keys: the tied-hash methods
--   Trigger     `Fiction_trigger` of lib/Affix.cxx: Trigger/Args its argument loop, Trigger/Results its
--               result switch; Call: what is handed to dyncall
--   Callback    `cbHandlerXXXXX` of Callback.cxx
--   Bind        `Affix_fiction`, `Affix_load_library`, `Affix_find_symbol` of lib/Affix.cxx;
--               Bind/Libraries: `Affix_free_library` and `Affix_DESTROY`, and the libraries that are
--               open, as a step relation
--   AffixObject the older calls of lib/Affix.cxx. AffixObject/Make: `Affix_affix`, with `locate_lib`
--               and `mangle` of Lib.cxx; AffixObject/Trigger: `Affix_trigger`, its argument
--               loop in AffixObject/Args, its result switch in AffixObject/Results;
--               AffixObject/Left: the mode of dyncall's VM behind a call that croaks
--   Bind/Symbols: the paths and symbol lists of Lib.cxx and lib/Affix.cxx
--   Pin         pin.cxx
--   Pointer     the methods of Affix::Pointer and the memory functions of lib/Affix/Type/Pointer.cxx;
--               Pointer/Blocks: realloc and strdup; Pointer/Compared: memcmp, cast and ptr2sv
--   Dump        `_DumpHex` of Utils.cxx and DumpHex of Type/Pointer.cxx; what is printed is a value
--   Exports     the symbol table: `register_constant`, `_export_function`, `export_constant` and
--               `set_isa` of Utils.cxx; Exports/Boot: what `boot_Affix`, `boot_Affix_pin`,
--               `boot_Affix_Pointer` and `boot_Affix_Lib` register, in their order
--   Platform    `boot_Affix_Platform` of Platform.cxx; Platform/Macros: its `#if` chains
--   TypeObject  the class Affix_Type of lib/Affix.h, and the methods of Affix::Typex in lib/Affix.cxx
--   Tests       a small interpreter to run the model on, and examples
-- The other files below a part's folder hold its proofs.
--
-- How the code is modelled. A stateful function is a function of the heap (`M`): it returns a value and
-- a heap, croaks, reads what is no type object (`fault`), or runs out of fuel. A croak discards the
-- heap. Fuel is used by `strlen` (`c_string`), `wcslen` and the loop over a NULL-terminated table
-- (`get_pointers`), where one more than the number of bytes, characters or pointers is enough; by the
-- padding of a dump's last line, where 15 rounds are; and by the decimal digits of a number, where as
-- many as the number and one are. All else is recursion
-- over the type, the signature or the list of values. Numbers are ℕ: an integer is its bit pattern, and
-- `sign_extend` widens a signed one. Sizes are those of LP64, values are little-endian, char is signed.
-- A signature is the list of the flags of its types, a C string a list of bytes. The numeric slot of a
-- type is taken to be one of the flags. A tied hash's fields are a list of names and types, as the
-- "fields" entry that its methods read would hold it. Where the
-- source depends on what it does not define, as the order of a Perl hash, the model hands a list of
-- pairs to the interpreter.
--
-- Dyncall's mode is handed from call to call; `left_mode` is what a call that croaks leaves. How often a library is open is counted as dlopen and
-- dlclose do; the step relation frees an Affix::Lib object at most once, and binds no function through
-- one, though the code allows both.
--
-- A wchar_t has four bytes and a buffer that is overrun is undefined behaviour, as is reading one that
-- was not written. A croak also discards what a dump has printed. Of the symbol table, names are texts
-- of Perl, a package and a name in it, and the newest sub of a name counts.
--
-- Not modelled: dyncall, which is another project's library; Affix_trigger2 and the older callback
-- handlers, which are compiled out; `ptr2svx` and `sv2ptrx` of marshal.cxx, which nothing calls; the
-- getters of an Affix, and its destructor, which no method is named after; dlerror, sv_dump,
-- `_DD` and set_destruct_level, which only call the interpreter or the loader; the branches for Windows;
-- reference counts, but for the scalars that `sv2ptr` retains; and the Perl modules.
pub mod Prelude
pub mod Dump
pub mod Exports
pub mod Flags
pub mod Perl
pub mod TypeObject
pub mod Types
pub mod Memory
pub mod Env
pub mod Wide
pub mod Marshal
pub mod Unmarshal
pub mod Aggregate
pub mod Call
pub mod Trigger
pub mod Callback
pub mod Bind
pub mod Pin
pub mod Platform
pub mod Pointer
pub mod AffixObject
pub mod Tests
