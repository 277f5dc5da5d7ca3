-- ===== src/Unmarshal.antt =====
-- `ptr2sv` of lib/Affix/marshal.cxx: C memory read as a Perl value.
pub mod Cases
pub mod Pointers
use fiction.Prelude.{
  ℕ, zero, suc, ◌+◌, ◌-◌, ◌*◌, ◌^◌, codes, String, Bool, true, false, Option, none, some, List, [],
  ◌∷◌, ◌==◌, ltb, if◌then◌else◌, Text, map,
}
use fiction.Flags.{
  Flag, void_flag, bool_flag, schar_flag, char_flag, uchar_flag, wchar_flag, short_flag,
  ushort_flag, int_flag, uint_flag, long_flag, ulong_flag, longlong_flag, ulonglong_flag,
  float_flag, double_flag, struct_flag, union_flag, coderef_flag, pointer_flag, sv_flag, flag_code,
}
use fiction.Types.{AffixType, affix_type, TypeList, nil, cons, Slots, slots, subtypes, first}
use fiction.Memory.{
  Heap, Fiction, AffixPointer, Result, ok, croak, fault, out_of_fuel, about, M, pure, ◌>>=◌, fail,
  undefined_behaviour, peek, c_string, read_bytes,
}
use fiction.Env.{Env, sizeof, sizeof_intptr}
use fiction.Wide.{get_wchar}
use fiction.Memory.{c_text}
use Cases.{
  get_iv, get_text, coderef_fiction, get_coderef, get_array, get_pointers, get_pointer, get_char,
  get_field, sign_extend, ptr2obj, dollars, coderef_prototype,
}

module _ (E : Env) where
  open E use {
    Sv, undef, new_iv, new_uv, new_nv, new_bool, float_nv, double_nv, new_rv_av, new_rv_hv,
    new_pvn_utf8, is_utf8_string, sv_at, new_pointer, new_xsub, new_pinned,
  }

  -- The switch of `ptr2sv`, over what the calls of itself on the subtype and on the fields do.
  unfoldable pub get_switch :
      ℕ
      → AffixType
      → (subtype : Option AffixType) (args : TypeList) (get : ℕ → M Sv Sv)
        (get_fields : ℕ → M Sv (List (Text × Sv))) (pin_fields : ℕ → M Sv (List (Text × Sv)))
      → Flag
      → ℕ
      → M Sv Sv
  unfolding ptr2obj sizeof get_wchar
  get_switch fuel t sub args get fs ps void_flag ptr = pure (new_pointer (ptr2obj t ptr))
  get_switch fuel t sub args get fs ps bool_flag ptr = do
    v ← peek ptr (sizeof bool_flag)
    pure (new_bool (if v == 0 then false else true))
  get_switch fuel t sub args get fs ps char_flag ptr = get_text E fuel ptr
  get_switch fuel t sub args get fs ps schar_flag ptr = get_text E fuel ptr
  get_switch fuel t sub args get fs ps uchar_flag ptr = get_text E fuel ptr
  get_switch fuel t sub args get fs ps short_flag ptr = get_iv E (sizeof short_flag) (2 ^ 15) ptr
  get_switch fuel t sub args get fs ps ushort_flag ptr = do
    v ← peek ptr (sizeof ushort_flag)
    pure (new_uv v)
  get_switch fuel t sub args get fs ps int_flag ptr = get_iv E (sizeof int_flag) (2 ^ 31) ptr
  get_switch fuel t sub args get fs ps uint_flag ptr = do
    v ← peek ptr (sizeof uint_flag)
    pure (new_iv v)
  get_switch fuel t sub args get fs ps long_flag ptr = do
    v ← peek ptr (sizeof long_flag)
    pure (new_iv v)
  get_switch fuel t sub args get fs ps ulong_flag ptr = do
    v ← peek ptr (sizeof ulong_flag)
    pure (new_iv v)
  get_switch fuel t sub args get fs ps longlong_flag ptr = do
    v ← peek ptr (sizeof longlong_flag)
    pure (new_iv v)
  get_switch fuel t sub args get fs ps ulonglong_flag ptr = do
    v ← peek ptr (sizeof ulonglong_flag)
    pure (new_iv v)
  get_switch fuel t sub args get fs ps float_flag ptr = do
    v ← peek ptr (sizeof float_flag)
    pure (new_nv (float_nv v))
  get_switch fuel t sub args get fs ps double_flag ptr = do
    v ← peek ptr (sizeof double_flag)
    pure (new_nv (double_nv v))
  get_switch fuel t sub args get fs ps pointer_flag ptr =
      get_pointer E fuel (slots t).arraylen sub get ptr
  get_switch fuel t sub args get fs ps sv_flag ptr = pure (sv_at ptr)
  get_switch fuel t sub args get fs ps wchar_flag ptr = get_wchar E fuel ptr
  get_switch fuel t sub args get fs ps coderef_flag ptr = get_coderef E sub args ptr
  get_switch fuel t sub args get fs ps struct_flag ptr = do hv ← fs ptr; pure (new_rv_hv hv)
  get_switch fuel t sub args get fs ps union_flag ptr = do hv ← ps ptr; pure (new_rv_hv hv)
  get_switch fuel t sub args get fs ps _ ptr =
      fail (about "Attempt to marshal unknown/unhandled type in ptr2sv: %s " (slots t).stringify)

  unfoldable pub ptr2sv_with :
      ℕ
      → AffixType
      → (subtype : Option AffixType) (args : TypeList) (get : ℕ → M Sv Sv)
        (get_fields : ℕ → M Sv (List (Text × Sv))) (pin_fields : ℕ → M Sv (List (Text × Sv)))
      → ℕ
      → M Sv Sv
  unfolding get_switch
  ptr2sv_with fuel t sub args get fs ps ptr =
      if ptr == 0 then pure undef else get_switch fuel t sub args get fs ps (slots t).numeric ptr

  -- `_pin` on the field at `p`, or on what the pointer stored there points to
  unfoldable pub pin_field : AffixType → ℕ → M Sv Sv
  pin_field t p =
      if (slots t).isa "Affix::Type::Pointer"
      then (do target ← peek p sizeof_intptr; pure (new_pinned t target))
      else pure (new_pinned t p)

  -- `hv_store_ent(RETVAL_, *AXT_TYPE_FIELD(subtype), val, 0)`
  unfoldable pub entry : Slots → Sv → M Sv (Text × Sv)
  entry f sv = elim f.field [ none ↦ undefined_behaviour | some name ↦ pure (name, sv) ]

  unfoldable pub pin_fields : TypeList → ℕ → M Sv (List (Text × Sv))
  unfolding pin_field entry
  pin_fields nil ptr = pure []
  pin_fields (cons t ts) ptr = do
    sv ← pin_field t (ptr + (slots t).offset)
    e ← entry (slots t) sv
    es ← pin_fields ts ptr
    pure (e ∷ es)

  unfoldable mutual
    unfolding ptr2sv_with get_field entry

    pub ptr2sv : ℕ → AffixType → ℕ → M Sv Sv
    ptr2sv fuel (affix_type s sub args) =
        ptr2sv_with fuel (affix_type s sub args) (first sub) args (get_first fuel sub)
          (get_fields fuel sub) (pin_fields sub)

    -- `ptr2sv` on the type in the subtype slot
    pub get_first : ℕ → TypeList → ℕ → M Sv Sv
    get_first fuel nil ptr = undefined_behaviour
    get_first fuel (cons t ts) ptr = ptr2sv fuel t ptr

    -- `ptr2sv` on the subtype of a field
    pub get_inner : ℕ → AffixType → ℕ → M Sv Sv
    get_inner fuel (affix_type s sub args) ptr = get_first fuel sub ptr

    pub get_fields : ℕ → TypeList → ℕ → M Sv (List (Text × Sv))
    get_fields fuel nil ptr = pure []
    get_fields fuel (cons t ts) ptr = do
      sv ←
          get_field E (slots t) (first (subtypes t)) (ptr2sv fuel t) (get_inner fuel t)
            (ptr + (slots t).offset)
      e ← entry (slots t) sv
      es ← get_fields fuel ts ptr
      pure (e ∷ es)
