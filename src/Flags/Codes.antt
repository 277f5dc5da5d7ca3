-- ===== src/Flags/Codes.antt =====
-- The flags' characters.
use fiction.Prelude.{ℕ, ◌≡◌, refl, sym, ap, ◌∙◌, ◌==◌, if◌then◌else◌}
use fiction.Flags.{
  Flag, other, flag_code, void_flag, bool_flag, schar_flag, char_flag, uchar_flag, wchar_flag,
  short_flag, ushort_flag, int_flag, uint_flag, long_flag, ulong_flag, longlong_flag,
  ulonglong_flag, float_flag, double_flag, wstring_flag, stdstring_flag, struct_flag,
  cppstruct_flag, union_flag, affix_flag, coderef_flag, pointer_flag, sv_flag,
}

abbrev pub IsNamed : Flag → Type 0
IsNamed (other n) = ⊥
IsNamed _ = Unit

-- The flag of a character, searched for in the order of lib/Affix.h.
abbrev flag_of : ℕ → Flag
flag_of n =
    if n == b'v'
    then void_flag
    else if n == b'b'
    then bool_flag
    else if n == b'a'
    then schar_flag
    else if n == b'c'
    then char_flag
    else if n == b'h'
    then uchar_flag
    else if n == b'w'
    then wchar_flag
    else if n == b's'
    then short_flag
    else if n == b't'
    then ushort_flag
    else if n == b'i'
    then int_flag
    else if n == b'j'
    then uint_flag
    else if n == b'l'
    then long_flag
    else if n == b'm'
    then ulong_flag
    else if n == b'x'
    then longlong_flag
    else if n == b'y'
    then ulonglong_flag
    else if n == b'f'
    then float_flag
    else if n == b'd'
    then double_flag
    else if n == b'<'
    then wstring_flag
    else if n == b'Y'
    then stdstring_flag
    else if n == b'A'
    then struct_flag
    else if n == b'B'
    then cppstruct_flag
    else if n == b'u'
    then union_flag
    else if n == b'@'
    then affix_flag
    else if n == b'&'
    then coderef_flag
    else if n == b'P'
    then pointer_flag
    else if n == b'?'
    then sv_flag
    else other n

flag_of-flag_code : (f : Flag) → IsNamed f → flag_of (flag_code f) ≡ f
unfolding flag_code
flag_of-flag_code void_flag n = refl
flag_of-flag_code bool_flag n = refl
flag_of-flag_code schar_flag n = refl
flag_of-flag_code char_flag n = refl
flag_of-flag_code uchar_flag n = refl
flag_of-flag_code wchar_flag n = refl
flag_of-flag_code short_flag n = refl
flag_of-flag_code ushort_flag n = refl
flag_of-flag_code int_flag n = refl
flag_of-flag_code uint_flag n = refl
flag_of-flag_code long_flag n = refl
flag_of-flag_code ulong_flag n = refl
flag_of-flag_code longlong_flag n = refl
flag_of-flag_code ulonglong_flag n = refl
flag_of-flag_code float_flag n = refl
flag_of-flag_code double_flag n = refl
flag_of-flag_code wstring_flag n = refl
flag_of-flag_code stdstring_flag n = refl
flag_of-flag_code struct_flag n = refl
flag_of-flag_code cppstruct_flag n = refl
flag_of-flag_code union_flag n = refl
flag_of-flag_code affix_flag n = refl
flag_of-flag_code coderef_flag n = refl
flag_of-flag_code pointer_flag n = refl
flag_of-flag_code sv_flag n = refl
flag_of-flag_code (other m) n = absurd n

-- No two type flags of lib/Affix.h have the same character, so a signature determines the flags that
-- it was built from.
flag_code-injective : (f g : Flag) → IsNamed f → IsNamed g → flag_code f ≡ flag_code g → f ≡ g
flag_code-injective f g nf ng e =
    sym (flag_of-flag_code f nf) ∙ ap flag_of e ∙ flag_of-flag_code g ng
