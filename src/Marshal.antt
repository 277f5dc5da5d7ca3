-- ===== src/Marshal.antt =====
-- `sv2ptr` of lib/Affix/marshal.cxx: a Perl value written to C memory as a type asks.
pub mod Cases
pub mod Wides
pub mod Numbers
pub mod Structs
pub mod Blocks
pub mod Texts
pub mod Nested
pub mod Unions
pub mod NestedStructs
use fiction.Prelude.{
  ℕ, ◌+◌, ◌*◌, String, Bool, true, false, not, ◌&&◌, ◌||◌, Option, none, some, List, [], ◌∷◌, ◌==◌,
  if◌then◌else◌, length, is_some, Text,
}
use fiction.Flags.{
  Flag, void_flag, bool_flag, schar_flag, char_flag, uchar_flag, wchar_flag, short_flag,
  ushort_flag, int_flag, uint_flag, long_flag, ulong_flag, longlong_flag, ulonglong_flag,
  float_flag, double_flag, struct_flag, union_flag, coderef_flag, pointer_flag, sv_flag, flag_code,
}
use fiction.Perl.{Perl}
use fiction.Types.{
  AffixType, affix_type, TypeList, nil, cons, Slots, slots, subtypes, argtypes, first,
}
use fiction.Memory.{
  Heap, CodeRef, Croak, plain, about, M, pure, ◌>>=◌, ◌>>◌, fail, undefined_behaviour, warn, store,
  calloc, encode,
}
use fiction.Env.{Env, sizeof, sizeof_intptr}
use fiction.Wide.{put_wchar}
use Cases.{
  mismatch, provide, store_array, put_array, put_scalar, put_number, put_void, bool_bits, put_bool,
  put_chars, store_pointers, put_pointers, put_pointer, put_sv, register, put_coderef, put_field,
  put_member, put_struct, put_union, is_float, sv_float, sv_double,
}

module _ (E : Env) where
  open E use {
    Sv, sv_ok, sv_readonly, sv_iok, sv_nok, sv_true, sv_type_null, sv_iv, sv_uv, sv_nv, sv_pvbyte,
    sv_pv, array_of, hash_of, sv_derived_from, pointer_addr, sv_address, float_bits, double_bits,
    malloc, new_callback,
  }

  -- The switch of `sv2ptr`, over what the calls of itself on the subtype and on the fields do.
  unfoldable pub put_switch :
      Slots
      → (subtype : Option AffixType) (args : TypeList) (put : Sv → ℕ → M Sv ℕ)
        (put_fields : (Text → Option Sv) → ℕ → M Sv (Unit {0}))
        (put_members : (Text → Option Sv) → ℕ → M Sv Bool)
      → Flag
      → Sv
      → ℕ
      → M Sv ℕ
  unfolding put_void put_bool put_chars put_pointer put_sv put_coderef put_struct put_union
      put_wchar
  put_switch s sub args put fs ms void_flag sv ret = put_void E s sv ret
  put_switch s sub args put fs ms bool_flag sv ret = put_bool E sv ret
  put_switch s sub args put fs ms char_flag sv ret = put_chars E (sizeof int_flag) 0 sv_iv sv ret
  put_switch s sub args put fs ms schar_flag sv ret = put_chars E (sizeof int_flag) 0 sv_iv sv ret
  put_switch s sub args put fs ms uchar_flag sv ret = put_chars E (sizeof uint_flag) 1 sv_uv sv ret
  put_switch s sub args put fs ms short_flag sv ret =
      put_number E s (sizeof short_flag) sv_iok sv_iv sv_iv sv ret
  put_switch s sub args put fs ms ushort_flag sv ret =
      put_number E s (sizeof ushort_flag) sv_iok sv_uv sv_uv sv ret
  put_switch s sub args put fs ms int_flag sv ret =
      put_number E s (sizeof int_flag) sv_iok sv_iv sv_iv sv ret
  put_switch s sub args put fs ms uint_flag sv ret =
      put_number E s (sizeof uint_flag) sv_iok sv_uv sv_uv sv ret
  put_switch s sub args put fs ms long_flag sv ret =
      put_number E s (sizeof long_flag) sv_iok sv_iv sv_iv sv ret
  put_switch s sub args put fs ms ulong_flag sv ret =
      put_number E s (sizeof ulong_flag) sv_iok sv_iv sv_iv sv ret
  put_switch s sub args put fs ms longlong_flag sv ret =
      put_number E s (sizeof longlong_flag) sv_iok sv_iv sv_iv sv ret
  put_switch s sub args put fs ms ulonglong_flag sv ret =
      put_number E s (sizeof ulonglong_flag) sv_iok sv_iv sv_iv sv ret
  put_switch s sub args put fs ms float_flag sv ret =
      put_number E s (sizeof float_flag) (is_float E) (sv_float E) (sv_float E) sv ret
  put_switch s sub args put fs ms double_flag sv ret =
      put_number E s (sizeof double_flag) (is_float E) (sv_double E) (sv_double E) sv ret
  put_switch s sub args put fs ms pointer_flag sv ret = put_pointer E sub put sv ret
  put_switch s sub args put fs ms sv_flag sv ret = put_sv E sv
  put_switch s sub args put fs ms coderef_flag sv ret = put_coderef E s sub args sv
  put_switch s sub args put fs ms wchar_flag sv ret = put_wchar E sv ret
  put_switch s sub args put fs ms struct_flag sv ret = put_struct E s fs sv ret
  put_switch s sub args put fs ms union_flag sv ret = put_union E s ms sv ret
  put_switch s sub args put fs ms _ sv ret =
      fail (about "Attempt to marshal unknown/unhandled type in sv2ptr: %s" s.stringify)

  -- `if (!SvOK(data) && SvREADONLY(data)) return NULL;`, then the switch.
  unfoldable pub sv2ptr_with :
      Slots
      → (subtype : Option AffixType) (args : TypeList) (put : Sv → ℕ → M Sv ℕ)
        (put_fields : (Text → Option Sv) → ℕ → M Sv (Unit {0}))
        (put_members : (Text → Option Sv) → ℕ → M Sv Bool)
      → Sv
      → ℕ
      → M Sv ℕ
  unfolding put_switch
  sv2ptr_with s sub args put fs ms sv ret =
      if not (sv_ok sv) && sv_readonly sv
      then pure 0
      else put_switch s sub args put fs ms s.numeric sv ret

  unfoldable mutual
    unfolding sv2ptr_with put_field put_member

    pub sv2ptr : AffixType → Sv → ℕ → M Sv ℕ
    sv2ptr (affix_type s sub args) =
        sv2ptr_with s (first sub) args (put_first sub) (put_fields sub)
          (λ struct_hv ret. put_members sub struct_hv ret false)

    -- `sv2ptr` on the type in the subtype slot
    pub put_first : TypeList → Sv → ℕ → M Sv ℕ
    put_first nil sv ret = undefined_behaviour
    put_first (cons t ts) sv ret = sv2ptr t sv ret

    pub put_fields : TypeList → (Text → Option Sv) → ℕ → M Sv (Unit {0})
    put_fields nil struct_hv ret = pure tt
    put_fields (cons t ts) struct_hv ret =
        put_field E (slots t) (sv2ptr t) struct_hv ret >> put_fields ts struct_hv ret

    pub put_members : TypeList → (Text → Option Sv) → ℕ → Bool → M Sv Bool
    put_members nil struct_hv ret okay = pure okay
    put_members (cons t ts) struct_hv ret okay = do
      found ← put_member E (slots t) (sv2ptr t) struct_hv ret okay
      put_members ts struct_hv ret found
