-- ===== src/Trigger/Results.antt =====
-- The result switch of `Fiction_trigger` (lib/Affix.cxx).
use fiction.Prelude.{
  ◌%◌, ℕ, ◌^◌, Bool, true, false, Option, none, some, List, [], ◌∷◌, ◌==◌, if◌then◌else◌,
}
use fiction.Flags.{
  Flag, void_flag, bool_flag, schar_flag, char_flag, uchar_flag, wchar_flag, short_flag,
  ushort_flag, int_flag, uint_flag, long_flag, ulong_flag, longlong_flag, ulonglong_flag,
  float_flag, double_flag, struct_flag, coderef_flag, pointer_flag, sv_flag,
}
use fiction.Types.{AffixType, slots, subtypes, first}
use fiction.Memory.{Fiction, about, M, pure, ◌>>=◌, ◌>>◌, fail, undefined_behaviour, warn, calloc}
use fiction.Aggregate.{Aggr}
use fiction.Call.{
  CallArg, call_void, call_bool, call_char, call_short, call_int, call_long, call_longlong,
  call_float, call_double, call_pointer, call_aggr,
}
use fiction.Wide.{wide_sv}
use fiction.Env.{Env}
use fiction.Unmarshal.Cases.{sign_extend, ptr2obj}
use fiction.Unmarshal.{ptr2sv}

-- The pointees whose pointers come back as a value, not as an Affix::Pointer.
unfoldable pub is_value_pointee : Flag → Bool
is_value_pointee char_flag = true
is_value_pointee uchar_flag = true
is_value_pointee schar_flag = true
is_value_pointee wchar_flag = true
is_value_pointee sv_flag = true
is_value_pointee _ = false

module _ (E : Env) where
  open E use {
    Sv, undef, new_iv, new_uv, new_nv, new_bool, new_dual, float_nv, double_nv, new_pointer,
    dc_call, malloc,
  }

  -- A char that dcCallChar returns, as both the byte and the IV of the (signed) char.
  unfoldable pub dual_char : ℕ → Sv
  dual_char v = new_dual (v ∷ []) (sign_extend (2 ^ 7) v)

  unfoldable pub pointer_result : ℕ → AffixType → ℕ → M Sv Sv
  unfolding is_value_pointee
  pointer_result fuel t ret = if ret == 0 then pure undef else elim (first (subtypes t)) [
    | none ↦ undefined_behaviour
    | some sub ↦
        if is_value_pointee (slots sub).numeric
        then ptr2sv E fuel t ret
        else pure (new_pointer (ptr2obj t ret))
  ]

  -- The value that `a->res` is set to.
  unfoldable pub result : ℕ → Fiction Sv → AffixType → Option Aggr → List CallArg → Flag → M Sv Sv
  unfolding dual_char pointer_result
  result fuel a t d args bool_flag = do
    v ← dc_call call_bool args a.entry_point
    pure (new_bool (if v == 0 then false else true))
  result fuel a t d args char_flag = do v ← dc_call call_char args a.entry_point; pure (dual_char v)
  result fuel a t d args schar_flag = do
    v ← dc_call call_char args a.entry_point
    pure (dual_char v)
  result fuel a t d args uchar_flag = do
    v ← dc_call call_char args a.entry_point
    pure (dual_char v)
  result fuel a t d args wchar_flag = do
    warn "RETURNING WIDE CHAR"
    v ← dc_call call_longlong args a.entry_point
    wide_sv E (v % 2 ^ 32)
  result fuel a t d args short_flag = do
    v ← dc_call call_short args a.entry_point
    pure (new_iv (sign_extend (2 ^ 15) v))
  result fuel a t d args ushort_flag = do v ← dc_call call_short args a.entry_point; pure (new_uv v)
  result fuel a t d args int_flag = do
    v ← dc_call call_int args a.entry_point
    pure (new_iv (sign_extend (2 ^ 31) v))
  result fuel a t d args uint_flag = do
    v ← dc_call call_int args a.entry_point
    pure (new_uv (sign_extend (2 ^ 31) v))
  result fuel a t d args long_flag = do v ← dc_call call_long args a.entry_point; pure (new_iv v)
  result fuel a t d args ulong_flag = do v ← dc_call call_long args a.entry_point; pure (new_uv v)
  result fuel a t d args longlong_flag = do
    v ← dc_call call_longlong args a.entry_point
    pure (new_iv v)
  result fuel a t d args ulonglong_flag = do
    v ← dc_call call_longlong args a.entry_point
    pure (new_uv v)
  result fuel a t d args float_flag = do
    v ← dc_call call_float args a.entry_point
    pure (new_nv (float_nv v))
  result fuel a t d args double_flag = do
    v ← dc_call call_double args a.entry_point
    pure (new_nv (double_nv v))
  result fuel a t d args pointer_flag = do
    ret ← dc_call call_pointer args a.entry_point
    pointer_result fuel t ret
  result fuel a t d args coderef_flag = do
    ret ← dc_call call_pointer args a.entry_point
    ptr2sv E fuel t ret
  result fuel a t d args struct_flag = elim d [
    | none ↦ undefined_behaviour
    | some description ↦ do
      ret ← calloc malloc (slots t).sizeof
      _ ← dc_call (call_aggr description ret) args a.entry_point
      ptr2sv E fuel t ret
  ]
  result fuel a t d args _ = fail (about "Unknown or unhandled return type: %s" (slots t).stringify)

  -- The switch on `restype_c`. A void call leaves `res` alone.
  unfoldable pub set_result : ℕ → Fiction Sv → Option Aggr → List CallArg → M Sv (Option Sv)
  unfolding result
  set_result fuel a d args = elim a.restype_c [
    | void_flag ↦ do _ ← dc_call call_void args a.entry_point; pure a.res
    | _ ↦ elim a.restype [
      | none ↦ undefined_behaviour
      | some t ↦ do sv ← result fuel a t d args a.restype_c; pure (some sv)
    ]
  ]
