-- ===== src/AffixObject/Args.antt =====
-- The argument loop of `Affix_trigger` (lib/Affix.cxx).
use fiction.Prelude.{
  ℕ, suc, ◌+◌, ◌%◌, ◌^◌, ◌&&◌, Bool, true, false, Option, none, some, List, [], ◌∷◌, ◌++◌, ◌==◌,
  ltb, if◌then◌else◌, get_elem?, length,
}
use fiction.Flags.{
  Flag, void_flag, bool_flag, schar_flag, char_flag, uchar_flag, wchar_flag, short_flag,
  ushort_flag, int_flag, uint_flag, long_flag, ulong_flag, longlong_flag, ulonglong_flag,
  float_flag, double_flag, wstring_flag, stdstring_flag, struct_flag, cppstruct_flag, union_flag,
  coderef_flag, pointer_flag,
}
use fiction.Types.{AffixType, slots, subtypes, first}
use fiction.Memory.{
  plain, about, position, M, pure, ◌>>=◌, ◌>>◌, fail, undefined_behaviour, warn, safemalloc, peek,
}
use fiction.Call.{
  CallArg, CallMode, arg_bool, arg_short, arg_int, arg_long, arg_longlong, arg_float, arg_double,
  arg_pointer, arg_aggr,
}
use fiction.Env.{Env, sizeof_intptr}
use fiction.Bind.{is_explicit_undef}
use fiction.Marshal.{sv2ptr}
use fiction.Trigger.Args.{char_arg}
use fiction.AffixObject.{Affix, Convention, convention_of, mode_of, is_variadic, sets_reset_mode}

-- Where the loop stands: the mode and the arguments of dyncall's VM, and the rest of its variables.
pub record Loop : Type 0 where
  pub mode : CallMode
  pub handed : List CallArg
  pub st_pos : ℕ
  pub temp_ptrs : Option (ℕ → ℕ)
  pub reset_mode : Bool

-- `if (affix->temp_ptrs == NULL) Newxz(...)`, then `affix->temp_ptrs[st_pos] = p`
unfoldable pub set_temp : ℕ → ℕ → Option (ℕ → ℕ) → Option (ℕ → ℕ)
set_temp i p none = some (λ j. if j == i then p else 0)
set_temp i p (some t) = some (λ j. if j == i then p else t j)

-- A convention flag takes no scalar, unless it opens an argument list behind the last of them.
unfoldable pub convention_step : ℕ → Convention → Loop → Loop
convention_step items c l =
    let l₁ = record l {
      mode = mode_of c;
      reset_mode = if sets_reset_mode c then true else l.reset_mode;
    } in
    if is_variadic c
    then (if l.st_pos == items
        then record l₁ { handed = l.handed ++ (arg_pointer 0 ∷ []); st_pos = l.st_pos + 1 }
        else l₁)
    else record l₁ { handed = [] }

-- VOID_FLAG, which hands nothing over
unfoldable pub is_void : Flag → Bool
is_void void_flag = true
is_void _ = false

module _ (E : Env) where
  open E use {
    Sv, sv_ok, sv_readonly, sv_true, sv_iv, sv_uv, sv_nv, sv_pv, hash_of, sv_derived_from,
    float_bits, double_bits, std_string, object_addr, deref, unpack_wchar, malloc,
  }

  -- ST(i)
  abbrev pub stack : List Sv → ℕ → M Sv Sv
  stack svs i = elim (get_elem? svs i) [ none ↦ undefined_behaviour | some sv ↦ pure sv ]

  -- A value handed over by dcArgPointer, with what is kept in temp_ptrs.
  abbrev pub kept : ℕ → M Sv (CallArg × Option ℕ)
  kept p = pure (arg_pointer p, some p)

  unfoldable pub affix_aggregate :
      Affix → (st_pos arg_pos : ℕ) → AffixType → Sv → M Sv (CallArg × Option ℕ)
  affix_aggregate a st_pos arg_pos t sv =
      if is_explicit_undef E sv
      then pure (arg_pointer 0, none)
      else if sv_ok sv && sv_derived_from sv "Affix::Pointer"
      then pure (arg_pointer (object_addr sv), none)
      else elim (hash_of sv) [
        | none ↦ fail (position "Type of arg %ld must be an hash ref" (arg_pos + 1))
        | some hv ↦ do
          p ← sv2ptr E t sv 0
          elim (a.aggregates st_pos) [
            | none ↦ undefined_behaviour
            | some d ↦ pure (arg_aggr d p, some p)
          ]
      ]

  -- The check of an object's class is for a scalar that is no reference, so never an object.
  unfoldable pub affix_pointer : AffixType → Sv → M Sv (CallArg × Option ℕ)
  affix_pointer t sv =
      if is_explicit_undef E sv then pure (arg_pointer 0, none) else elim (deref sv) [
        | some target ↦
            if is_explicit_undef E target
            then pure (arg_pointer 0, none)
            else (do p ← sv2ptr E t sv 0; kept p)
        | none ↦
            if sv_ok sv
            then (if sv_derived_from sv "Affix::Pointer"
                then undefined_behaviour
                else (do p ← sv2ptr E t sv 0; kept p))
            else elim (first (subtypes t)) [
              | none ↦ undefined_behaviour
              | some sub ↦ do p ← safemalloc malloc (slots sub).sizeof; kept p
            ]
      ]

  -- One scalar: what is handed to dyncall, and what is kept in temp_ptrs.
  unfoldable pub affix_arg :
      Affix → (st_pos arg_pos : ℕ) → Flag → AffixType → Sv → M Sv (CallArg × Option ℕ)
  unfolding affix_aggregate affix_pointer
  affix_arg a i j bool_flag t sv = pure (arg_bool (sv_true sv), none)
  affix_arg a i j schar_flag t sv = do
    c ← char_arg E "Expected a single character; found %ld" sv
    pure (c, none)
  affix_arg a i j char_flag t sv = do
    c ← char_arg E "Expected a single character; found %ld" sv
    pure (c, none)
  affix_arg a i j uchar_flag t sv = do
    c ← char_arg E "Expected a single unsigned character; found %ld" sv
    pure (c, none)
  affix_arg a i j wchar_flag t sv =
      if sv_ok sv
      then (elim (unpack_wchar sv) [
        | none ↦ fail (plain "Failed to unpack wchar_t")
        | some v ↦ pure (arg_int (v % 2 ^ 32), none)
      ])
      else pure (arg_int 0, none)
  affix_arg a i j short_flag t sv = pure (arg_short (sv_iv sv % 2 ^ 16), none)
  affix_arg a i j ushort_flag t sv = pure (arg_short (sv_uv sv % 2 ^ 16), none)
  affix_arg a i j int_flag t sv = pure (arg_int (sv_iv sv % 2 ^ 32), none)
  affix_arg a i j uint_flag t sv = pure (arg_int (sv_uv sv % 2 ^ 32), none)
  affix_arg a i j long_flag t sv = pure (arg_long (sv_iv sv), none)
  affix_arg a i j ulong_flag t sv = pure (arg_long (sv_uv sv), none)
  affix_arg a i j longlong_flag t sv = pure (arg_longlong (sv_iv sv), none)
  affix_arg a i j ulonglong_flag t sv = pure (arg_longlong (sv_uv sv), none)
  affix_arg a i j float_flag t sv = pure (arg_float (float_bits (sv_nv sv)), none)
  affix_arg a i j double_flag t sv = pure (arg_double (double_bits (sv_nv sv)), none)
  affix_arg a i j wstring_flag t sv =
      if sv_ok sv
      then (do p ← sv2ptr E t sv 0; s ← peek p sizeof_intptr; pure (arg_pointer s, some p))
      else pure (arg_pointer 0, none)
  affix_arg a i j stdstring_flag t sv =
      if sv_ok sv then pure (arg_pointer (std_string (sv_pv sv)), none) else undefined_behaviour
  affix_arg a i j struct_flag t sv = affix_aggregate a i j t sv
  affix_arg a i j cppstruct_flag t sv = affix_aggregate a i j t sv
  affix_arg a i j union_flag t sv = affix_aggregate a i j t sv
  affix_arg a i j coderef_flag t sv =
      if sv_ok sv
      then (do hold ← sv2ptr E t sv 0; cb ← peek hold sizeof_intptr; pure (arg_pointer cb, none))
      else pure (arg_pointer 0, none)
  affix_arg a i j pointer_flag t sv = affix_pointer t sv
  affix_arg a i j _ t sv =
      fail (about "Unhandled argument type %s at %s line %d" (slots t).stringify)

  -- What one scalar does to the loop's variables.
  abbrev pub take : Loop → CallArg × Option ℕ → Loop
  take l (c, none) = record l { handed = l.handed ++ (c ∷ []); st_pos = l.st_pos + 1 }
  take l (c, some p) = record l {
    handed = l.handed ++ (c ∷ []);
    st_pos = l.st_pos + 1;
    temp_ptrs = set_temp l.st_pos p l.temp_ptrs;
  }

  unfoldable pub affix_step : Affix → List Sv → ℕ → Flag → AffixType → Loop → M Sv Loop
  unfolding convention_step affix_arg set_temp is_void
  affix_step a svs arg_pos f t l = elim (convention_of f) [
    | some c ↦ pure (convention_step (length svs) c l)
    | none ↦
        if is_void f
        then pure (record l { st_pos = l.st_pos + 1 })
        else (do sv ← stack svs l.st_pos; r ← affix_arg a l.st_pos arg_pos f t sv; pure (take l r))
  ]

  -- The loop from the argument type `arg_pos` on. Behind the last type there is no type object.
  unfoldable pub affix_loop : Affix → List Sv → ℕ → List (Flag × AffixType) → Loop → M Sv Loop
  unfolding affix_step
  affix_loop a svs arg_pos [] l = if ltb l.st_pos a.num_args then undefined_behaviour else pure l
  affix_loop a svs arg_pos ((f, t) ∷ ts) l =
      if ltb l.st_pos a.num_args
      then (do
        warn "!!! affix->arg_types[arg_pos] == %d"
        l' ← affix_step a svs arg_pos f t l
        affix_loop a svs (suc arg_pos) ts l')
      else pure l
