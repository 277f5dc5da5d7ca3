-- ===== src/Exports/Boot.antt =====
-- What the boot functions of lib/Affix.cxx, lib/Affix/pin.cxx, lib/Affix/Type/Pointer.cxx and
-- lib/Affix/Lib.cxx register_one, in their order.
use fiction.Prelude.{ℕ, String, List, [], ◌∷◌, ◌++◌}
use fiction.Flags.{
  Flag, flag_code, affix_flag, bool_flag, char_flag, coderef_flag, cppstruct_flag, double_flag,
  float_flag, int_flag, long_flag, longlong_flag, pointer_flag, schar_flag, short_flag,
  stdstring_flag, struct_flag, sv_flag, uchar_flag, uint_flag, ulong_flag, ulonglong_flag,
  union_flag, ushort_flag, void_flag, wchar_flag, wstring_flag,
}
use fiction.AffixObject.{
  Convention, convention_code, reset, this, ellipsis, varargs, dcecl, stdcall, msfastcall,
  gnufastcall, msthis, gnuthis, arm, thumb, syscall,
}
use fiction.Exports.{
  Registration, new_xs, new_constant_export, new_export, new_isa, Symbols, register_all,
}

abbrev flag : String → Flag → Registration
flag name f = new_constant_export "Affix" name "flags" (flag_code f)

abbrev convention : String → Convention → Registration
convention name c = new_constant_export "Affix" name "flags" (convention_code c)

abbrev slot : String → ℕ → Registration
slot name n = new_constant_export "Affix" name "flags" n

-- boot_Affix: the functions of lib/Affix.cxx. `affix` and `wrap` are one C function, told apart by XSANY.
abbrev pub boot_xsubs : List Registration
boot_xsubs =
    new_xs "Affix" "DESTROY" "Affix_DESTROY" "$;$"
    ∷ new_xs "Affix" "END" "Affix_END" ""
    ∷ new_xs "Affix" "sv_dump" "Affix_sv_dump" "$"
    ∷ new_xs "Affix" "set_destruct_level" "Affix_set_destruct_level" "$"
    ∷ new_xs "Affix" "load_library" "Affix_load_library" "$"
    ∷ new_xs "Affix" "free_library" "Affix_free_library" "$;$"
    ∷ new_xs "Affix" "list_symbols" "Affix_list_symbols" "$"
    ∷ new_xs "Affix" "find_symbol" "Affix_find_symbol" "$$"
    ∷ new_xs "Affix" "dlerror" "Affix_dlerror" ""
    ∷ new_xs "Affix" "affix" "Affix_fiction" "$$;$$"
    ∷ new_export "Affix" "affix" "base"
    ∷ new_xs "Affix" "wrap" "Affix_fiction" "$$;$$"
    ∷ new_export "Affix" "wrap" "base"
    ∷ new_xs "Affix::Typex" "new" "Affix_Type_new" "$$$$$$"
    ∷ new_xs "Affix::Typex" "sizeof" "Affix_Type_sizeof" "$"
    ∷ new_xs "Affix::Typex" "alignment" "Affix_Type_alignment" "$"
    ∷ new_xs "Affix::Typex" "offset" "Affix_Type_offset" "$;$"
    ∷ new_xs "Affix::Typex" "typedef" "Affix_Type_typedef" "$$"
    ∷ new_xs "Affix::Typex" "pointer" "Affix_Type_pointer" "$;$"
    ∷ new_xs "Affix::Typex" "const" "Affix_Type_const" "$;$"
    ∷ new_xs "Affix::Typex" "stringify" "Affix_Type_stringify" "$$"
    ∷ []

-- the general purpose flags; SIZE_T_FLAG is ULONG_FLAG on LP64
abbrev pub boot_flags : List Registration
boot_flags =
    flag "VOID_FLAG" void_flag
    ∷ flag "BOOL_FLAG" bool_flag
    ∷ flag "SCHAR_FLAG" schar_flag
    ∷ flag "CHAR_FLAG" char_flag
    ∷ flag "UCHAR_FLAG" uchar_flag
    ∷ flag "WCHAR_FLAG" wchar_flag
    ∷ flag "SHORT_FLAG" short_flag
    ∷ flag "USHORT_FLAG" ushort_flag
    ∷ flag "INT_FLAG" int_flag
    ∷ flag "UINT_FLAG" uint_flag
    ∷ flag "LONG_FLAG" long_flag
    ∷ flag "ULONG_FLAG" ulong_flag
    ∷ flag "LONGLONG_FLAG" longlong_flag
    ∷ flag "ULONGLONG_FLAG" ulonglong_flag
    ∷ flag "SIZE_T_FLAG" ulong_flag
    ∷ flag "FLOAT_FLAG" float_flag
    ∷ flag "DOUBLE_FLAG" double_flag
    ∷ flag "WSTRING_FLAG" wstring_flag
    ∷ flag "STDSTRING_FLAG" stdstring_flag
    ∷ flag "STRUCT_FLAG" struct_flag
    ∷ flag "AFFIX_FLAG" affix_flag
    ∷ flag "CPPSTRUCT_FLAG" cppstruct_flag
    ∷ flag "UNION_FLAG" union_flag
    ∷ flag "CODEREF_FLAG" coderef_flag
    ∷ flag "POINTER_FLAG" pointer_flag
    ∷ flag "SV_FLAG" sv_flag
    ∷ []

-- the calling conventions
abbrev pub boot_conventions : List Registration
boot_conventions =
    convention "RESET_FLAG" reset
    ∷ convention "THIS_FLAG" this
    ∷ convention "ELLIPSIS_FLAG" ellipsis
    ∷ convention "VARARGS_FLAG" varargs
    ∷ convention "DCECL_FLAG" dcecl
    ∷ convention "STDCALL_FLAG" stdcall
    ∷ convention "MSFASTCALL_FLAG" msfastcall
    ∷ convention "GNUFASTCALL_FLAG" gnufastcall
    ∷ convention "MSTHIS_FLAG" msthis
    ∷ convention "GNUTHIS_FLAG" gnuthis
    ∷ convention "ARM_FLAG" arm
    ∷ convention "THUMB_FLAG" thumb
    ∷ convention "SYSCALL_FLAG" syscall
    ∷ []

-- the slots of type objects and of pointers
abbrev pub boot_slots : List Registration
boot_slots =
    slot "SLOT_TYPE_STRINGIFY" 0
    ∷ slot "SLOT_TYPE_NUMERIC" 1
    ∷ slot "SLOT_TYPE_SIZEOF" 2
    ∷ slot "SLOT_TYPE_ALIGNMENT" 3
    ∷ slot "SLOT_TYPE_OFFSET" 4
    ∷ slot "SLOT_TYPE_SUBTYPE" 5
    ∷ slot "SLOT_TYPE_ARRAYLEN" 6
    ∷ slot "SLOT_TYPE_CONST" 7
    ∷ slot "SLOT_TYPE_VOLATILE" 8
    ∷ slot "SLOT_TYPE_RESTRICT" 9
    ∷ slot "SLOT_TYPE_AGGREGATE" 11
    ∷ slot "SLOT_TYPE_FIELD" 12
    ∷ slot "SLOT_TYPE_TYPEDEF" 10
    ∷ slot "SLOT_CODEREF_ARGS" 12
    ∷ slot "SLOT_CODEREF_SIG" 13
    ∷ slot "SLOT_POINTER_ADDR" 0
    ∷ slot "SLOT_POINTER_SUBTYPE" 1
    ∷ slot "SLOT_POINTER_COUNT" 2
    ∷ slot "SLOT_POINTER_POSITION" 3
    ∷ []

-- boot_Affix_pin
abbrev pub boot_pin : List Registration
boot_pin =
    new_xs "Affix" "pin" "Affix_pin" "$$$$"
    ∷ new_export "Affix" "pin" "base"
    ∷ new_xs "Affix" "unpin" "Affix_unpin" "$"
    ∷ new_export "Affix" "unpin" "base"
    ∷ []

-- boot_Affix_Pointer
abbrev pub boot_pointer : List Registration
boot_pointer =
    new_xs "Affix" "malloc" "Affix_malloc" "$"
    ∷ new_export "Affix" "malloc" "memory"
    ∷ new_xs "Affix" "calloc" "Affix_calloc" "$$"
    ∷ new_export "Affix" "calloc" "memory"
    ∷ new_xs "Affix" "realloc" "Affix_realloc" "$$"
    ∷ new_export "Affix" "realloc" "memory"
    ∷ new_xs "Affix" "free" "Affix_free" "$"
    ∷ new_export "Affix" "free" "memory"
    ∷ new_xs "Affix" "memchr" "Affix_memchr" "$$$"
    ∷ new_export "Affix" "memchr" "memory"
    ∷ new_xs "Affix" "memcmp" "Affix_memcmp" "$$$"
    ∷ new_export "Affix" "memcmp" "memory"
    ∷ new_xs "Affix" "memset" "Affix_memset" "$$$"
    ∷ new_export "Affix" "memset" "memory"
    ∷ new_xs "Affix" "memcpy" "Affix_memcpy" "$$$"
    ∷ new_export "Affix" "memcpy" "memory"
    ∷ new_xs "Affix" "memmove" "Affix_memmove" "$$$"
    ∷ new_export "Affix" "memmove" "memory"
    ∷ new_xs "Affix" "strdup" "Affix_strdup" "$"
    ∷ new_export "Affix" "strdup" "memory"
    ∷ new_xs "Affix" "sv2ptr" "Affix_sv2ptr" "$$"
    ∷ new_xs "Affix" "ptr2sv" "Affix_ptr2sv" "$$"
    ∷ new_xs "Affix::Pointer" "sv" "Affix_Pointer_sv" "$;$"
    ∷ new_xs "Affix::Pointer" "raw" "Affix_Pointer_raw" "$$;$"
    ∷ new_xs "Affix::Pointer" "dump" "Affix_Pointer_DumpHex" "$$"
    ∷ new_xs "Affix" "DumpHex" "Affix_Pointer_DumpHex" "$$"
    ∷ new_xs "Affix::Pointer" "DESTROY" "Affix_Pointer_DESTROY" "$"
    ∷ new_xs "Affix::Pointer" "free" "Affix_free" "$"
    ∷ new_xs "Affix::Pointer" "cast" "Affix_cast" "$"
    ∷ new_isa "Affix::Pointer::Unmanaged" "Affix::Pointer"
    ∷ new_isa "Affix::Type::Ref" "Affix::Type::Pointer"
    ∷ new_isa "Affix::Ref" "Affix::Pointer"
    ∷ []

-- boot_Affix_Lib, where the compiler is GNU or Clang
abbrev pub boot_lib : List Registration
boot_lib =
    new_xs "Affix::Lib" "list_unmangled_symbols" "Affix_Lib_list_unmangled_symbols" "$"
    ∷ new_xs "Affix::Lib" "path" "Affix_Lib_path" "$"
    ∷ []

-- what boot_Affix calls in a row, but for boot_Affix_Platform, which has a package of its own
abbrev pub booting : List Registration
booting =
    boot_xsubs
    ++ (boot_flags
        ++ (boot_conventions ++ (boot_slots ++ (boot_pin ++ (boot_pointer ++ boot_lib)))))

unfoldable pub boot : Symbols → Symbols
unfolding register_all
boot = register_all booting
