-- ===== src/Flags.antt =====
-- The type flags of lib/Affix.h, and `type_as_dc` of lib/Affix/Utils.cxx.
pub mod Codes
use fiction.Prelude.{ℕ, Option, none, some}

-- `other` stands for a number that no type flag has.
pub data Flag : Type 0 where
  void_flag bool_flag schar_flag char_flag uchar_flag wchar_flag : Flag
  short_flag ushort_flag int_flag uint_flag long_flag ulong_flag : Flag
  longlong_flag ulonglong_flag float_flag double_flag : Flag
  wstring_flag stdstring_flag struct_flag cppstruct_flag union_flag : Flag
  affix_flag coderef_flag pointer_flag sv_flag : Flag
  other : ℕ → Flag

-- The character that each `#define` gives.
unfoldable pub flag_code : Flag → ℕ
flag_code void_flag = b'v'
flag_code bool_flag = b'b'
flag_code schar_flag = b'a'
flag_code char_flag = b'c'
flag_code uchar_flag = b'h'
flag_code wchar_flag = b'w'
flag_code short_flag = b's'
flag_code ushort_flag = b't'
flag_code int_flag = b'i'
flag_code uint_flag = b'j'
flag_code long_flag = b'l'
flag_code ulong_flag = b'm'
flag_code longlong_flag = b'x'
flag_code ulonglong_flag = b'y'
flag_code float_flag = b'f'
flag_code double_flag = b'd'
flag_code wstring_flag = b'<'
flag_code stdstring_flag = b'Y'
flag_code struct_flag = b'A'
flag_code cppstruct_flag = b'B'
flag_code union_flag = b'u'
flag_code affix_flag = b'@'
flag_code coderef_flag = b'&'
flag_code pointer_flag = b'P'
flag_code sv_flag = b'?'
flag_code (other n) = n

-- The DC_SIGCHAR_* of dyncall that the code names.
pub data SigChar : Type 0 where
  sigchar_void sigchar_bool sigchar_char sigchar_uchar sigchar_short sigchar_ushort : SigChar
  sigchar_int sigchar_uint sigchar_long sigchar_ulong sigchar_longlong : SigChar
  sigchar_ulonglong sigchar_float sigchar_double sigchar_pointer sigchar_aggregate : SigChar
  sigchar_wchar : SigChar

-- `none` is -1. `sigchar_wchar` is WCHAR_FLAG, which dyncall does not know.
unfoldable pub type_as_dc : Flag → Option SigChar
type_as_dc void_flag = some sigchar_void
type_as_dc bool_flag = some sigchar_bool
type_as_dc char_flag = some sigchar_char
type_as_dc short_flag = some sigchar_short
type_as_dc int_flag = some sigchar_int
type_as_dc long_flag = some sigchar_long
type_as_dc longlong_flag = some sigchar_longlong
type_as_dc float_flag = some sigchar_float
type_as_dc double_flag = some sigchar_double
type_as_dc wstring_flag = some sigchar_pointer
type_as_dc coderef_flag = some sigchar_pointer
type_as_dc pointer_flag = some sigchar_pointer
type_as_dc stdstring_flag = some sigchar_pointer
type_as_dc uchar_flag = some sigchar_uchar
type_as_dc ushort_flag = some sigchar_ushort
type_as_dc uint_flag = some sigchar_uint
type_as_dc ulong_flag = some sigchar_ulong
type_as_dc ulonglong_flag = some sigchar_ulonglong
type_as_dc struct_flag = some sigchar_aggregate
type_as_dc cppstruct_flag = some sigchar_aggregate
type_as_dc union_flag = some sigchar_aggregate
type_as_dc wchar_flag = some sigchar_wchar
type_as_dc _ = none
