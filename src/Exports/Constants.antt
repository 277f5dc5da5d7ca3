-- ===== src/Exports/Constants.antt =====
-- The flags that Perl sees.
use fiction.Prelude.{
  ℕ, ◌&&◌, ◌||◌, ◌≡◌, refl, ap, inl, inr, String, Bool, true, false, Bool-cases, Option, none, some,
  List, [], ◌∷◌, arith,
}
use text.Mathlib.Text.{◌==◌}
use fiction.Flags.{
  Flag, flag_code, other, void_flag, bool_flag, schar_flag, char_flag, uchar_flag, wchar_flag,
  short_flag, ushort_flag, int_flag, uint_flag, long_flag, ulong_flag, longlong_flag,
  ulonglong_flag, float_flag, double_flag, wstring_flag, stdstring_flag, struct_flag,
  cppstruct_flag, union_flag, affix_flag, coderef_flag, pointer_flag, sv_flag,
}
use fiction.AffixObject.{
  Convention, convention_code, reset, this, ellipsis, varargs, dcecl, stdcall, msfastcall,
  gnufastcall, msthis, gnuthis, arm, thumb, syscall,
}
use fiction.Exports.{
  nv, constant, Tag, Symbols, same, find_sub, exported, push_tag, Registration, new_xs,
  new_constant, new_export, new_constant_export, new_isa, register_one, register_all,
  export_function, export_constant, set_isa,
}
use fiction.Exports.Boot.{booting, boot}
use fiction.Exports.Closed.{contains, exported-push_tag, contains-append}

-- The name that lib/Affix.h gives each flag.
abbrev pub flag_name : Flag → Option String
flag_name void_flag = some "VOID_FLAG"
flag_name bool_flag = some "BOOL_FLAG"
flag_name schar_flag = some "SCHAR_FLAG"
flag_name char_flag = some "CHAR_FLAG"
flag_name uchar_flag = some "UCHAR_FLAG"
flag_name wchar_flag = some "WCHAR_FLAG"
flag_name short_flag = some "SHORT_FLAG"
flag_name ushort_flag = some "USHORT_FLAG"
flag_name int_flag = some "INT_FLAG"
flag_name uint_flag = some "UINT_FLAG"
flag_name long_flag = some "LONG_FLAG"
flag_name ulong_flag = some "ULONG_FLAG"
flag_name longlong_flag = some "LONGLONG_FLAG"
flag_name ulonglong_flag = some "ULONGLONG_FLAG"
flag_name float_flag = some "FLOAT_FLAG"
flag_name double_flag = some "DOUBLE_FLAG"
flag_name wstring_flag = some "WSTRING_FLAG"
flag_name stdstring_flag = some "STDSTRING_FLAG"
flag_name struct_flag = some "STRUCT_FLAG"
flag_name cppstruct_flag = some "CPPSTRUCT_FLAG"
flag_name union_flag = some "UNION_FLAG"
flag_name affix_flag = some "AFFIX_FLAG"
flag_name coderef_flag = some "CODEREF_FLAG"
flag_name pointer_flag = some "POINTER_FLAG"
flag_name sv_flag = some "SV_FLAG"
flag_name (other n) = none

abbrev pub convention_name : Convention → String
convention_name reset = "RESET_FLAG"
convention_name this = "THIS_FLAG"
convention_name ellipsis = "ELLIPSIS_FLAG"
convention_name varargs = "VARARGS_FLAG"
convention_name dcecl = "DCECL_FLAG"
convention_name stdcall = "STDCALL_FLAG"
convention_name msfastcall = "MSFASTCALL_FLAG"
convention_name gnufastcall = "GNUFASTCALL_FLAG"
convention_name msthis = "MSTHIS_FLAG"
convention_name gnuthis = "GNUTHIS_FLAG"
convention_name arm = "ARM_FLAG"
convention_name thumb = "THUMB_FLAG"
convention_name syscall = "SYSCALL_FLAG"

-- Some registration of a row exports the name under the tag.
abbrev exports : (pkg tag name : String) → List Registration → Bool
exports p t n [] = false
exports p t n (new_xs q m f u ∷ rs) = exports p t n rs
exports p t n (new_constant q m v ∷ rs) = exports p t n rs
exports p t n (new_export q m u ∷ rs) = (same p t q u && n == m) || exports p t n rs
exports p t n (new_constant_export q m u v ∷ rs) = (same p t q u && n == m) || exports p t n rs
exports p t n (new_isa k parent ∷ rs) = exports p t n rs

contains-old :
    (p t n q u what : String) (tags : List (String × String × Tag))
    → contains n (exported p t tags) ≡ true
    → contains n (exported p t (push_tag q u what tags)) ≡ true
contains-old p t n q u what tags h = ground (
  arith,
  h,
  ap (contains n) (exported-push_tag p t q u what tags),
  contains-append n what (exported p t tags),
)

contains-new :
    (p t n q u what : String) (tags : List (String × String × Tag))
    → (same p t q u && n == what) ≡ true
    → contains n (exported p t (push_tag q u what tags)) ≡ true
contains-new p t n q u what tags h = ground (
  arith,
  h,
  ap (contains n) (exported-push_tag p t q u what tags),
  contains-append n what (exported p t tags),
)

contains-register_one :
    (p t n : String) (r : Registration) (s : Symbols)
    → contains n (exported p t s.export_tags) ≡ true
    → contains n (exported p t (register_one r s).export_tags) ≡ true
unfolding register_one export_function export_constant set_isa
contains-register_one p t n (new_xs q m f u) s h = h
contains-register_one p t n (new_constant q m v) s h = h
contains-register_one p t n (new_export q m u) s h = contains-old p t n q u m s.export_tags h
contains-register_one p t n (new_constant_export q m u v) s h =
    contains-old p t n q u m s.export_tags h
contains-register_one p t n (new_isa k parent) s h = h

contains-register_all :
    (p t n : String) (rs : List Registration) (s : Symbols)
    → contains n (exported p t s.export_tags) ≡ true
    → contains n (exported p t (register_all rs s).export_tags) ≡ true
unfolding register_all
contains-register_all p t n [] s h = h
contains-register_all p t n (r ∷ rs) s h =
    contains-register_all p t n rs (register_one r s) (contains-register_one p t n r s h)

exports-contains :
    (p t n : String) (rs : List Registration) (s : Symbols)
    → exports p t n rs ≡ true
    → contains n (exported p t (register_all rs s).export_tags) ≡ true
unfolding register_all register_one export_function export_constant
exports-contains p t n [] s h = ground arith
exports-contains p t n (new_xs q m f u ∷ rs) s h = exports-contains p t n rs _ h
exports-contains p t n (new_constant q m v ∷ rs) s h = exports-contains p t n rs _ h
exports-contains p t n (new_isa k parent ∷ rs) s h = exports-contains p t n rs _ h
exports-contains p t n (new_export q m u ∷ rs) s h = elim (Bool-cases (same p t q u && n == m)) [
  | inl here ↦
      contains-register_all p t n rs (register_one (new_export q m u) s)
        (contains-new p t n q u m s.export_tags here)
  | inr later ↦
      exports-contains p t n rs (register_one (new_export q m u) s) (ground (arith, h, later))
]
exports-contains p t n (new_constant_export q m u v ∷ rs) s h =
    elim (Bool-cases (same p t q u && n == m)) [
      | inl here ↦
          contains-register_all p t n rs (register_one (new_constant_export q m u v) s)
            (contains-new p t n q u m s.export_tags here)
      | inr later ↦
          exports-contains p t n rs (register_one (new_constant_export q m u v) s)
            (ground (arith, h, later))
    ]

-- A constant of the package Affix with a code, exported under `flags`.
abbrev pub IsFlag : Symbols → String → ℕ → Type 0
IsFlag s name code =
    (find_sub "Affix" name s.subs ≡ some (constant (nv code)))
    × (contains name (exported "Affix" "flags" s.export_tags) ≡ true)

abbrev pub IsNamed : Symbols → Option String → ℕ → Type 0
IsNamed s none code = Unit {0}
IsNamed s (some name) code = IsFlag s name code

-- a flag that the row of `boot` registers
boot-IsFlag :
    (s : Symbols) (name : String) (code : ℕ)
    → find_sub "Affix" name (boot s).subs ≡ some (constant (nv code))
    → exports "Affix" "flags" name booting ≡ true
    → IsFlag (boot s) name code
unfolding boot
boot-IsFlag s name code value there = (value, exports-contains "Affix" "flags" name booting s there)

flags : (s : Symbols) (f : Flag) → IsNamed (boot s) (flag_name f) (flag_code f)
unfolding boot register_all register_one export_constant export_function find_sub flag_code
flags s void_flag = boot-IsFlag s "VOID_FLAG" (flag_code void_flag) refl refl
flags s bool_flag = boot-IsFlag s "BOOL_FLAG" (flag_code bool_flag) refl refl
flags s schar_flag = boot-IsFlag s "SCHAR_FLAG" (flag_code schar_flag) refl refl
flags s char_flag = boot-IsFlag s "CHAR_FLAG" (flag_code char_flag) refl refl
flags s uchar_flag = boot-IsFlag s "UCHAR_FLAG" (flag_code uchar_flag) refl refl
flags s wchar_flag = boot-IsFlag s "WCHAR_FLAG" (flag_code wchar_flag) refl refl
flags s short_flag = boot-IsFlag s "SHORT_FLAG" (flag_code short_flag) refl refl
flags s ushort_flag = boot-IsFlag s "USHORT_FLAG" (flag_code ushort_flag) refl refl
flags s int_flag = boot-IsFlag s "INT_FLAG" (flag_code int_flag) refl refl
flags s uint_flag = boot-IsFlag s "UINT_FLAG" (flag_code uint_flag) refl refl
flags s long_flag = boot-IsFlag s "LONG_FLAG" (flag_code long_flag) refl refl
flags s ulong_flag = boot-IsFlag s "ULONG_FLAG" (flag_code ulong_flag) refl refl
flags s longlong_flag = boot-IsFlag s "LONGLONG_FLAG" (flag_code longlong_flag) refl refl
flags s ulonglong_flag = boot-IsFlag s "ULONGLONG_FLAG" (flag_code ulonglong_flag) refl refl
flags s float_flag = boot-IsFlag s "FLOAT_FLAG" (flag_code float_flag) refl refl
flags s double_flag = boot-IsFlag s "DOUBLE_FLAG" (flag_code double_flag) refl refl
flags s wstring_flag = boot-IsFlag s "WSTRING_FLAG" (flag_code wstring_flag) refl refl
flags s stdstring_flag = boot-IsFlag s "STDSTRING_FLAG" (flag_code stdstring_flag) refl refl
flags s struct_flag = boot-IsFlag s "STRUCT_FLAG" (flag_code struct_flag) refl refl
flags s cppstruct_flag = boot-IsFlag s "CPPSTRUCT_FLAG" (flag_code cppstruct_flag) refl refl
flags s union_flag = boot-IsFlag s "UNION_FLAG" (flag_code union_flag) refl refl
flags s affix_flag = boot-IsFlag s "AFFIX_FLAG" (flag_code affix_flag) refl refl
flags s coderef_flag = boot-IsFlag s "CODEREF_FLAG" (flag_code coderef_flag) refl refl
flags s pointer_flag = boot-IsFlag s "POINTER_FLAG" (flag_code pointer_flag) refl refl
flags s sv_flag = boot-IsFlag s "SV_FLAG" (flag_code sv_flag) refl refl
flags s (other n) = tt

conventions :
    (s : Symbols) (c : Convention) → IsFlag (boot s) (convention_name c) (convention_code c)
unfolding boot register_all register_one export_constant export_function find_sub convention_code
conventions s reset = boot-IsFlag s "RESET_FLAG" (convention_code reset) refl refl
conventions s this = boot-IsFlag s "THIS_FLAG" (convention_code this) refl refl
conventions s ellipsis = boot-IsFlag s "ELLIPSIS_FLAG" (convention_code ellipsis) refl refl
conventions s varargs = boot-IsFlag s "VARARGS_FLAG" (convention_code varargs) refl refl
conventions s dcecl = boot-IsFlag s "DCECL_FLAG" (convention_code dcecl) refl refl
conventions s stdcall = boot-IsFlag s "STDCALL_FLAG" (convention_code stdcall) refl refl
conventions s msfastcall = boot-IsFlag s "MSFASTCALL_FLAG" (convention_code msfastcall) refl refl
conventions s gnufastcall = boot-IsFlag s "GNUFASTCALL_FLAG" (convention_code gnufastcall) refl refl
conventions s msthis = boot-IsFlag s "MSTHIS_FLAG" (convention_code msthis) refl refl
conventions s gnuthis = boot-IsFlag s "GNUTHIS_FLAG" (convention_code gnuthis) refl refl
conventions s arm = boot-IsFlag s "ARM_FLAG" (convention_code arm) refl refl
conventions s thumb = boot-IsFlag s "THUMB_FLAG" (convention_code thumb) refl refl
conventions s syscall = boot-IsFlag s "SYSCALL_FLAG" (convention_code syscall) refl refl

-- Whatever the symbol table holds before booting, each type flag and each calling convention is then a
-- constant of the package Affix, under the name that the header gives it, holds the code that the C part
-- tells it by, and is exported under `flags`.
pub boot-flags :
    (s : Symbols)
    → ((f : Flag) → IsNamed (boot s) (flag_name f) (flag_code f))
      × ((c : Convention) → IsFlag (boot s) (convention_name c) (convention_code c))
boot-flags s = (flags s, conventions s)
