-- ===== src/AffixObject/Results.antt =====
-- The result switch of `Affix_trigger` (lib/Affix.cxx).
use fiction.Prelude.{ℕ, ◌^◌, true, false, Option, none, some, [], ◌∷◌, ◌==◌, if◌then◌else◌}
use fiction.Flags.{
  Flag, void_flag, bool_flag, schar_flag, char_flag, uchar_flag, wchar_flag, short_flag,
  ushort_flag, int_flag, uint_flag, long_flag, ulong_flag, longlong_flag, ulonglong_flag,
  float_flag, double_flag, wstring_flag, stdstring_flag, struct_flag, cppstruct_flag, union_flag,
  coderef_flag, pointer_flag,
}
use fiction.Types.{AffixType, slots, subtypes, first}
use fiction.Memory.{about, M, pure, ◌>>=◌, ◌>>◌, fail, undefined_behaviour, warn, safemalloc}
use fiction.Call.{
  RetKind, call_void, call_bool, call_char, call_short, call_int, call_long, call_longlong,
  call_float, call_double, call_pointer, call_aggr,
}
use fiction.Wide.{wide_string}
use fiction.Env.{Env}
use fiction.Trigger.Results.{dual_char}
use fiction.Unmarshal.Cases.{sign_extend}
use fiction.Unmarshal.{ptr2sv}
use fiction.AffixObject.{Affix}
use fiction.AffixObject.Args.{Loop}

module _ (E : Env) where
  open E use {
    Sv, sv_readonly, new_iv, new_uv, new_nv, new_bool, new_dual, new_pvn, float_nv, double_nv,
    pack_wchar, std_string_text, new_instance, new_object, dc_call_in, malloc,
  }

  abbrev pub affix_call : Affix → Loop → RetKind → M Sv ℕ
  affix_call a l k = dc_call_in l.mode k l.handed a.entry_point

  -- The pointer that a call returned.
  unfoldable pub affix_pointer_result : ℕ → AffixType → ℕ → M Sv Sv
  affix_pointer_result fuel t p = elim (first (subtypes t)) [
    | none ↦ undefined_behaviour
    | some sub ↦
        if (slots sub).isa "Affix::Type::Char" then ptr2sv E fuel t p else elim (slots t).typedef [
          | some typedef ↦ pure (new_instance typedef p)
          | none ↦ pure (new_object (some "Affix::Pointer::Unmanaged") p)
        ]
  ]

  -- `ret_ptr`, allocated by the first call that returns an aggregate.
  unfoldable pub ret_buffer : Affix → M Sv ℕ
  ret_buffer a =
      if a.ret_ptr == 0 then safemalloc malloc (slots a.ret_info).sizeof else pure a.ret_ptr

  -- `dcCallAggr` with `ret_aggregate`, which the library needs to know the result's layout.
  unfoldable pub aggregate_result : ℕ → Affix → Loop → M Sv (Option Sv × ℕ)
  unfolding ret_buffer
  aggregate_result fuel a l = do
    p ← ret_buffer a
    elim a.ret_aggregate [
      | none ↦ undefined_behaviour
      | some d ↦ do
        _ ← affix_call a l (call_aggr d p)
        sv ← ptr2sv E fuel a.ret_info p
        pure (some sv, p)
    ]

  -- RETVAL, where it is set, and `ret_ptr`.
  unfoldable pub affix_result : ℕ → Affix → Loop → Flag → M Sv (Option Sv × ℕ)
  unfolding affix_pointer_result aggregate_result dual_char
  affix_result fuel a l void_flag = do _ ← affix_call a l call_void; pure (none, a.ret_ptr)
  affix_result fuel a l bool_flag = do
    v ← affix_call a l call_bool
    pure (some (new_bool (if v == 0 then false else true)), a.ret_ptr)
  affix_result fuel a l schar_flag = do
    v ← affix_call a l call_char
    pure (some (dual_char E v), a.ret_ptr)
  affix_result fuel a l char_flag = do
    v ← affix_call a l call_char
    pure (some (dual_char E v), a.ret_ptr)
  affix_result fuel a l uchar_flag = do
    v ← affix_call a l call_char
    pure (some (new_dual (v ∷ []) v), a.ret_ptr)
  affix_result fuel a l wchar_flag = do
    v ← affix_call a l call_int
    pure (some (pack_wchar (sign_extend (2 ^ 31) v)), a.ret_ptr)
  affix_result fuel a l short_flag = do
    v ← affix_call a l call_short
    pure (some (new_iv (sign_extend (2 ^ 15) v)), a.ret_ptr)
  affix_result fuel a l ushort_flag = do
    v ← affix_call a l call_short
    pure (some (new_uv v), a.ret_ptr)
  affix_result fuel a l int_flag = do
    v ← affix_call a l call_int
    pure (some (new_iv (sign_extend (2 ^ 31) v)), a.ret_ptr)
  affix_result fuel a l uint_flag = do
    v ← affix_call a l call_int
    pure (some (new_uv v), a.ret_ptr)
  affix_result fuel a l long_flag = do
    v ← affix_call a l call_long
    pure (some (new_iv v), a.ret_ptr)
  affix_result fuel a l ulong_flag = do
    v ← affix_call a l call_long
    pure (some (new_uv v), a.ret_ptr)
  affix_result fuel a l longlong_flag = do
    v ← affix_call a l call_longlong
    pure (some (new_iv v), a.ret_ptr)
  affix_result fuel a l ulonglong_flag = do
    v ← affix_call a l call_longlong
    pure (some (new_uv v), a.ret_ptr)
  affix_result fuel a l float_flag = do
    v ← affix_call a l call_float
    pure (some (new_nv (float_nv v)), a.ret_ptr)
  affix_result fuel a l double_flag = do
    v ← affix_call a l call_double
    pure (some (new_nv (double_nv v)), a.ret_ptr)
  affix_result fuel a l wstring_flag = do
    p ← affix_call a l call_pointer
    sv ← wide_string E fuel p
    pure (some sv, a.ret_ptr)
  affix_result fuel a l stdstring_flag = do
    p ← affix_call a l call_pointer
    s ← std_string_text p
    pure (some (new_pvn s), a.ret_ptr)
  affix_result fuel a l struct_flag = aggregate_result fuel a l
  affix_result fuel a l cppstruct_flag = aggregate_result fuel a l
  affix_result fuel a l union_flag = aggregate_result fuel a l
  affix_result fuel a l coderef_flag = do
    warn "Returning a code ref is on the TODO list"
    pure (none, a.ret_ptr)
  affix_result fuel a l pointer_flag = do
    p ← affix_call a l call_pointer
    sv ← affix_pointer_result fuel a.ret_info p
    pure (some sv, a.ret_ptr)
  affix_result fuel a l _ =
      fail (about "Unhandled return type %s at %s line %d" (slots a.ret_info).stringify)
