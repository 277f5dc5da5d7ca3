-- ===== src/Env.antt =====
-- What the marshalling code takes from outside lib/, and the sizes of the C types.
use fiction.Prelude.{ℕ, String, Bool, Option, List, Text}
use fiction.Flags.{
  Flag, bool_flag, schar_flag, char_flag, uchar_flag, wchar_flag, short_flag, ushort_flag, int_flag,
  uint_flag, long_flag, ulong_flag, longlong_flag, ulonglong_flag, float_flag, double_flag,
}
use fiction.Call.{CallArg, CallMode, RetKind}
use fiction.Perl.{Perl}
use fiction.Types.{AffixType}
use fiction.Memory.{Heap, AffixPointer, CodeRef, Fiction, M}

-- sizeof of the C types, on LP64.
unfoldable pub sizeof : Flag → ℕ
sizeof bool_flag = 1
sizeof char_flag = 1
sizeof schar_flag = 1
sizeof uchar_flag = 1
sizeof wchar_flag = 4
sizeof short_flag = 2
sizeof ushort_flag = 2
sizeof int_flag = 4
sizeof uint_flag = 4
sizeof long_flag = 8
sizeof ulong_flag = 8
sizeof longlong_flag = 8
sizeof ulonglong_flag = 8
sizeof float_flag = 4
sizeof double_flag = 8
sizeof _ = 8

-- SIZEOF_INTPTR_T
abbrev pub sizeof_intptr : ℕ
sizeof_intptr = 8

-- What is not under lib/: the interpreter, `malloc`, dyncall's `dcbNewCallback`, XSUB and magic
-- creation, and the
-- C library's multibyte functions.
pub record Env : Type 1 where
  pub perl : Perl
  pub open perl use *
  pub malloc : Heap Sv → ℕ → ℕ
  -- the address that `realloc` chooses for a block and its new size
  pub realloc : Heap Sv → (ptr size : ℕ) → ℕ
  pub new_callback : Heap Sv → CodeRef Sv → ℕ
  -- `newXSproto_portable` with `Fiction_trigger`, blessed: its name, prototype and `any_ptr`
  pub new_xsub : Option Text → Option Text → Fiction Sv → Sv
  -- the blessed reference to an array of the SLOT_POINTER_* slots
  pub new_pointer : AffixPointer → Sv
  -- the SLOT_POINTER_SUBTYPE and SLOT_POINTER_POSITION of such an array
  pub pointer_subtype : Sv → AffixType
  pub pointer_position : Sv → ℕ
  -- what Affix::_Void_Pointer answers, with the given SLOT_TYPE_SIZEOF
  pub void_type : ℕ → AffixType
  -- where the bytes of a scalar's text stand
  pub pv_address : Sv → ℕ
  pub is_utf8_string : Text → Bool
  pub new_pvn_utf8 : Text → Bool → Sv
  -- dcCall* on the arguments handed over and the entry point: the result's pattern
  pub dc_call : RetKind → List CallArg → ℕ → M Sv ℕ
  -- `call_sv` of a callback's code on the arguments pushed
  pub call_sv : Sv → List Sv → M Sv Sv
  -- `dlopen` (of the program itself for `none`), `dlFindSymbol`, and a failing `stat`
  pub load_library : Option Text → Option ℕ
  pub find_symbol : ℕ → Text → Option ℕ
  pub stat_fails : Text → Bool
  -- what Affix::find_library answers, as a text
  pub find_library : Sv → Text
  -- the address behind a blessed reference, and the type object behind a scalar
  pub object_addr : Sv → ℕ
  pub type_of : Sv → AffixType
  -- `sv_setref_pv`: a reference to an address, blessed or not
  pub new_object : Option String → ℕ → Sv
  -- a scalar upgraded to hold a number too, and a std::string of a text
  pub upgrade_iv : Sv → ℕ → Sv
  pub std_string : Text → ℕ
  -- a fresh scalar bound by `_pin` to a type and an address
  pub new_pinned : AffixType → ℕ → Sv
  -- `uvchr_to_utf8`; the wide characters that `mbstowcs` writes for a text, with the terminator if it
  -- comes to the end; a scalar set by `sv_setpv` and decoded by `sv_utf8_decode`
  pub uvchr_to_utf8 : ℕ → Text
  pub mbstowcs : Text → List ℕ
  pub new_utf8_decoded : Text → Sv
  -- the scalar that a reference refers to
  pub deref : Sv → Option Sv
  -- `unpackstring` with "W" of a scalar's text, where it gives one character; `packlist` with "W"
  pub unpack_wchar : Sv → Option ℕ
  pub pack_wchar : ℕ → Sv
  -- the text of the std::string at an address
  pub std_string_text : ℕ → M Sv Text
  -- `sv_setref_pv` with a class named by a text
  pub new_instance : Text → ℕ → Sv
  -- `dc_call` where the calling convention was set by dcMode
  pub dc_call_in : CallMode → RetKind → List CallArg → ℕ → M Sv ℕ
  -- what Affix::locate_lib answers, if it answers one value; a mangle of Affix::ABI: what $@ holds
  -- behind the call, if that is true, and the text of the answer
  pub call_locate_lib : Sv → Sv → Option Sv
  pub call_mangle : String → Sv → Text → Sv → M Sv (Option Text × Text)
  -- `dlGetLibraryPath`
  pub library_path : ℕ → Text
  -- `newXSproto_portable` with `Affix_trigger`, blessed: its name and prototype
  pub new_affix_xsub : Option Text → Text → Sv
