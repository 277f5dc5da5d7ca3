-- ===== src/Callback.antt =====
-- `cbHandlerXXXXX` of lib/Affix/Callback.cxx: C calls back into Perl. The arguments come as the
-- patterns that dyncall's dcbArg* functions hand out in order.
pub mod Widths
use fiction.Prelude.{
  length, ℕ, ◌%◌, ◌^◌, Bool, true, false, Option, none, some, List, [], ◌∷◌, ◌==◌, if◌then◌else◌,
}
use fiction.Flags.{
  Flag, void_flag, bool_flag, schar_flag, char_flag, uchar_flag, wchar_flag, short_flag,
  ushort_flag, int_flag, uint_flag, long_flag, ulong_flag, longlong_flag, ulonglong_flag,
  float_flag, double_flag, pointer_flag, flag_code,
}
use fiction.Types.{AffixType, TypeList, nil, cons, slots, subtypes, first}
use fiction.Memory.{CodeRef, about, M, pure, ◌>>=◌, fail, undefined_behaviour}
use fiction.Call.{
  CbValue, no_value, val_bool, val_char, val_uchar, val_short, val_ushort, val_int, val_uint,
  val_long, val_ulong, val_longlong, val_ulonglong, val_float, val_double, val_pointer,
}
use fiction.Wide.{utf2wchar_head, wchar2utf}
use fiction.Memory.{calloc, store, encode, safefree, ◌>>◌}
use fiction.Env.{Env}
use fiction.Marshal.{sv2ptr}
use fiction.Unmarshal.Cases.{sign_extend}
use fiction.Unmarshal.{ptr2sv}
use fiction.Trigger.Args.{first_byte}

module _ (E : Env) where
  open E use {
    Sv, sv_iok, sv_pok, sv_true, sv_iv, sv_uv, sv_nv, sv_pv, float_bits, double_bits, new_iv,
    new_uv, new_nv, new_bool, new_dual, float_nv, double_nv, upgrade_iv, call_sv, malloc, sv_pvutf8,
  }

  -- The scalar pushed for one argument.
  unfoldable pub callback_arg : ℕ → Flag → AffixType → ℕ → M Sv Sv
  callback_arg fuel bool_flag t v = pure (new_bool (if v == 0 then false else true))
  callback_arg fuel char_flag t v = pure (new_dual (v ∷ []) (sign_extend (2 ^ 7) v))
  callback_arg fuel schar_flag t v = pure (new_dual (v ∷ []) (sign_extend (2 ^ 7) v))
  callback_arg fuel uchar_flag t v = pure (new_dual (v ∷ []) (sign_extend (2 ^ 7) v))
  callback_arg fuel wchar_flag t v = do
    c ← calloc malloc 4
    store c (encode 4 (v % 2 ^ 32))
    w ← wchar2utf E c 1
    safefree c
    pure (upgrade_iv w (sign_extend (2 ^ 31) (v % 2 ^ 32)))
  callback_arg fuel short_flag t v = pure (new_iv (sign_extend (2 ^ 15) v))
  callback_arg fuel ushort_flag t v = pure (new_uv (sign_extend (2 ^ 15) v))
  callback_arg fuel int_flag t v = pure (new_iv (sign_extend (2 ^ 31) v))
  callback_arg fuel uint_flag t v = pure (new_uv (sign_extend (2 ^ 31) v))
  callback_arg fuel long_flag t v = pure (new_iv v)
  callback_arg fuel ulong_flag t v = pure (new_uv v)
  callback_arg fuel longlong_flag t v = pure (new_iv v)
  callback_arg fuel ulonglong_flag t v = pure (new_uv v)
  callback_arg fuel float_flag t v = pure (new_nv (float_nv v))
  callback_arg fuel double_flag t v = pure (new_nv (double_nv v))
  callback_arg fuel pointer_flag t v = ptr2sv E fuel t v
  callback_arg fuel f t v =
      fail (about "Attempt to pass unknown or unhandled type to CodeRef: %c" (flag_code f ∷ []))

  -- The loop over the signature. A void position takes no argument and pushes nothing.
  unfoldable pub callback_args : ℕ → List Flag → TypeList → List ℕ → M Sv (List Sv)
  unfolding callback_arg
  callback_args fuel [] ts vs = pure []
  callback_args fuel (f ∷ fs) nil vs = undefined_behaviour
  callback_args fuel (void_flag ∷ fs) (cons t ts) vs = callback_args fuel fs ts vs
  callback_args fuel (f ∷ fs) (cons t ts) [] = undefined_behaviour
  callback_args fuel (f ∷ fs) (cons t ts) (v ∷ vs) = do
    sv ← callback_arg fuel f t v
    svs ← callback_args fuel fs ts vs
    pure (sv ∷ svs)

  -- What the returned scalar writes to `result`, and the character that names the member.
  unfoldable pub callback_result : Flag → AffixType → Sv → M Sv (CbValue × ℕ)
  callback_result bool_flag t sv = pure (val_bool (sv_true sv), b'B')
  callback_result char_flag t sv =
      pure (val_char ((if sv_iok sv then sv_iv sv else first_byte (sv_pv sv)) % 2 ^ 8), b'c')
  callback_result schar_flag t sv =
      pure (val_char ((if sv_iok sv then sv_iv sv else first_byte (sv_pv sv)) % 2 ^ 8), b'c')
  callback_result uchar_flag t sv =
      pure (val_uchar ((if sv_iok sv then sv_uv sv else first_byte (sv_pv sv)) % 2 ^ 8), b'C')
  callback_result wchar_flag t sv =
      if sv_pok sv
      then (do
        (wc, w) ← utf2wchar_head E sv (length (sv_pvutf8 sv))
        safefree wc
        pure (val_long (sign_extend (2 ^ 31) w), b'j'))
      else pure (val_long 0, b'j')
  callback_result short_flag t sv = pure (val_short (sv_iv sv % 2 ^ 16), b's')
  callback_result ushort_flag t sv = pure (val_ushort (sv_iv sv % 2 ^ 16), b'S')
  callback_result int_flag t sv = pure (val_int (sv_iv sv % 2 ^ 32), b'i')
  callback_result uint_flag t sv = pure (val_uint (sv_iv sv % 2 ^ 32), b'I')
  callback_result long_flag t sv = pure (val_long (sv_iv sv), b'j')
  callback_result ulong_flag t sv = pure (val_ulong (sv_iv sv), b'J')
  callback_result longlong_flag t sv = pure (val_longlong (sv_iv sv), b'l')
  callback_result ulonglong_flag t sv = pure (val_ulonglong (sv_iv sv), b'L')
  callback_result float_flag t sv = pure (val_float (float_bits (sv_nv sv)), b'f')
  callback_result double_flag t sv = pure (val_double (double_bits (sv_nv sv)), b'd')
  callback_result pointer_flag t sv = elim (first (subtypes t)) [
    | none ↦ undefined_behaviour
    | some sub ↦ do p ← sv2ptr E sub sv 0; pure (val_pointer p, b'p')
  ]
  callback_result f t sv =
      fail (about "Attempt to return unknown or unhandled type from CodeRef: %c" (flag_code f ∷ []))

  -- The handler: the value written to `result`, and the character returned.
  unfoldable pub callback : ℕ → CodeRef Sv → List ℕ → M Sv (CbValue × ℕ)
  unfolding callback_args callback_result
  callback fuel c vs = do
    svs ← callback_args fuel c.signature c.argtypes vs
    sv ← call_sv c.cv svs
    elim c.restype_c [
      | void_flag ↦ pure (no_value, flag_code void_flag)
      | _ ↦ callback_result c.restype_c c.restype sv
    ]
