-- ===== src/Trigger/Args.antt =====
-- The argument switch of `Fiction_trigger` (lib/Affix.cxx).
use fiction.Prelude.{
  ℕ, ◌%◌, ◌^◌, String, Option, none, some, List, [], ◌∷◌, ltb, if◌then◌else◌, length, Text,
}
use fiction.Flags.{
  Flag, void_flag, bool_flag, schar_flag, char_flag, uchar_flag, wchar_flag, short_flag,
  ushort_flag, int_flag, uint_flag, long_flag, ulong_flag, longlong_flag, ulonglong_flag,
  float_flag, double_flag, wstring_flag, stdstring_flag, struct_flag, coderef_flag, pointer_flag,
}
use fiction.Types.{AffixType, TypeList, nil, cons, slots, subtypes, first}
use fiction.Memory.{
  Result, ok, croak, fault, out_of_fuel, about, M, pure, ◌>>=◌, ◌>>◌, fail, undefined_behaviour,
  warn,
}
use fiction.Aggregate
use fiction.Call.{
  CallArg, arg_bool, arg_char, arg_short, arg_int, arg_long, arg_longlong, arg_float, arg_double,
  arg_pointer, arg_aggr,
}
use fiction.Wide.{utf2wchar_head}
use fiction.Unmarshal.Cases.{sign_extend}
use fiction.Memory.{safefree, ◌>>◌}
use fiction.Env.{Env}
use fiction.Marshal.{sv2ptr}

-- `value[0]` of a C string
abbrev pub first_byte : Text → ℕ
first_byte [] = 0
first_byte (c ∷ cs) = c

module _ (E : Env) where
  open E use {
    Sv, sv_ok, sv_iok, sv_uok, sv_nok, sv_true, sv_iv, sv_uv, sv_nv, sv_pvbyte, sv_pv, float_bits,
    double_bits, std_string,
  }

  unfoldable pub lift : {A : Type 0} → Result A → M Sv A
  lift (ok a) h = ok (a, h)
  lift (croak e) h = croak e
  lift fault h = fault
  lift out_of_fuel h = out_of_fuel

  unfoldable pub char_arg : String → Sv → M Sv CallArg
  char_arg w sv = if sv_iok sv then pure (arg_char (sv_iv sv % 2 ^ 8)) else (do
    (if ltb 1 (length (sv_pvbyte sv)) then warn w else pure tt)
    pure (arg_char (first_byte (sv_pvbyte sv))))

  -- One argument: `none` is a case that hands nothing to dyncall.
  unfoldable pub trigger_arg : Flag → AffixType → Sv → M Sv (Option CallArg)
  unfolding char_arg
  trigger_arg void_flag t sv = pure none
  trigger_arg bool_flag t sv = pure (some (arg_bool (sv_true sv)))
  trigger_arg schar_flag t sv = do
    c ← char_arg "Expected a single character; found %ld" sv
    pure (some c)
  trigger_arg char_flag t sv = do
    c ← char_arg "Expected a single character; found %ld" sv
    pure (some c)
  trigger_arg uchar_flag t sv = do
    c ← char_arg "Expected a single unsigned character; found %ld" sv
    pure (some c)
  trigger_arg wchar_flag t sv =
      if sv_ok sv
      then (do
        (str, w) ← utf2wchar_head E sv 1
        safefree str
        pure (some (arg_longlong (sign_extend (2 ^ 31) w))))
      else pure (some (arg_longlong 0))
  trigger_arg short_flag t sv = pure (some (arg_short (sv_iv sv % 2 ^ 16)))
  trigger_arg ushort_flag t sv = pure (some (arg_short (sv_uv sv % 2 ^ 16)))
  trigger_arg int_flag t sv = pure (some (arg_int (sv_iv sv % 2 ^ 32)))
  trigger_arg uint_flag t sv = pure (some (arg_int (sv_uv sv % 2 ^ 32)))
  trigger_arg long_flag t sv = pure (some (arg_long (sv_iv sv)))
  trigger_arg ulong_flag t sv = pure (some (arg_long (sv_uv sv)))
  trigger_arg longlong_flag t sv = pure (some (arg_longlong (sv_iv sv)))
  trigger_arg ulonglong_flag t sv = pure (some (arg_longlong (sv_uv sv)))
  trigger_arg float_flag t sv = pure (some (arg_float (float_bits (sv_nv sv))))
  trigger_arg double_flag t sv = pure (some (arg_double (double_bits (sv_nv sv))))
  trigger_arg wstring_flag t sv = pure none
  trigger_arg stdstring_flag t sv =
      if sv_ok sv then pure (some (arg_pointer (std_string (sv_pv sv)))) else undefined_behaviour
  trigger_arg coderef_flag t sv = do p ← sv2ptr E t sv 0; pure (some (arg_pointer p))
  trigger_arg pointer_flag t sv = elim (first (subtypes t)) [
    | none ↦ undefined_behaviour
    | some sub ↦ do p ← sv2ptr E sub sv 0; pure (some (arg_pointer p))
  ]
  trigger_arg struct_flag t sv = do
    a ← lift (Aggregate.aggregate t)
    p ← sv2ptr E t sv 0
    pure (some (arg_aggr a p))
  trigger_arg _ t sv = fail (about "Unhandled argument type: %s" (slots t).stringify)

  abbrev pub add : Option CallArg → List CallArg → List CallArg
  add none args = args
  add (some a) args = a ∷ args

  -- The loop over the signature. The lists are as long as one another: the types are those that the
  -- signature was built from, and `Fiction_trigger` has compared the count of the scalars.
  unfoldable pub trigger_args : List Flag → TypeList → List Sv → M Sv (List CallArg)
  unfolding trigger_arg
  trigger_args [] ts svs = pure []
  trigger_args (f ∷ fs) nil svs = undefined_behaviour
  trigger_args (f ∷ fs) (cons t ts) [] = undefined_behaviour
  trigger_args (f ∷ fs) (cons t ts) (sv ∷ svs) = do
    a ← trigger_arg f t sv
    args ← trigger_args fs ts svs
    pure (add a args)

  -- With no signature, numbers are passed by what they hold, and anything else is left out.
  unfoldable pub untyped_args : List Sv → List CallArg
  untyped_args [] = []
  untyped_args (sv ∷ svs) =
      let rest = untyped_args svs in
      if sv_nok sv
      then arg_double (double_bits (sv_nv sv)) ∷ rest
      else if sv_uok sv
      then arg_int (sv_uv sv % 2 ^ 32) ∷ rest
      else if sv_iok sv
      then arg_int (sv_iv sv % 2 ^ 32) ∷ rest
      else rest
