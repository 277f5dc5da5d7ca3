-- ===== src/Marshal/Cases.antt =====
-- The cases of `sv2ptr` (lib/Affix/marshal.cxx), each over what its recursive calls do.
use fiction.Prelude.{
  ℕ, ◌+◌, ◌*◌, Bool, true, not, ◌&&◌, ◌||◌, Option, none, some, List, [], ◌∷◌, ◌==◌, if◌then◌else◌,
  length, is_some, Text,
}
use fiction.Flags.{bool_flag}
use fiction.Types.{AffixType, TypeList, Slots, slots}
use fiction.Memory.{
  CodeRef, plain, about, M, pure, ◌>>=◌, ◌>>◌, fail, undefined_behaviour, warn, store, calloc,
  encode,
}
use fiction.Env.{Env, sizeof, sizeof_intptr}

module _ (E : Env) where
  open E use {
    Sv, sv_ok, sv_readonly, sv_iok, sv_nok, sv_true, sv_type_null, sv_iv, sv_uv, sv_nv, sv_pvbyte,
    sv_pv, array_of, hash_of, sv_derived_from, pointer_addr, sv_address, float_bits, double_bits,
    malloc, new_callback,
  }

  unfoldable pub mismatch : Slots → M Sv ℕ
  mismatch s = fail (about "Data type mismatch for Pointer[%s] [%d]" s.stringify)

  -- `if (ret == NULL) Newxz(ret, ...)`
  unfoldable pub provide : ℕ → ℕ → M Sv ℕ
  provide ret size = if ret == 0 then calloc malloc size else pure ret

  -- `for (x = 0; x < len; ++x) { i = ...; Copy(&i, ret + x * size, 1, T); }`
  unfoldable pub store_array : ℕ → (Sv → ℕ) → ℕ → List Sv → M Sv (Unit {0})
  store_array size conv a [] = pure tt
  store_array size conv a (x ∷ xs) =
      store a (encode size (conv x)) >> store_array size conv (a + size) xs

  unfoldable pub put_array : ℕ → ℕ → (Sv → ℕ) → List Sv → ℕ → M Sv ℕ
  put_array block size conv xs ret = do a ← provide ret block; store_array size conv a xs; pure a

  unfoldable pub put_scalar : ℕ → ℕ → ℕ → M Sv ℕ
  put_scalar size v ret = do a ← provide ret size; store a (encode size v); pure a

  -- The numeric cases: a scalar that `is_scalar` takes, or an array of numbers.
  unfoldable pub put_number :
      Slots → (size : ℕ) (is_scalar : Sv → Bool) (conv elem : Sv → ℕ) → Sv → ℕ → M Sv ℕ
  unfolding mismatch
  put_number s size is_scalar conv elem sv ret =
      if not (sv_ok sv)
      then pure ret
      else if is_scalar sv
      then put_scalar size (conv sv) ret
      else elim (array_of sv) [
        | none ↦ mismatch s
        | some xs ↦ put_array (length xs * size) size elem xs ret
      ]

  unfoldable pub put_void : Slots → Sv → ℕ → M Sv ℕ
  unfolding mismatch
  put_void s sv ret =
      if not (sv_ok sv)
      then pure ret
      else if is_some (array_of sv) && sv_derived_from sv "Affix::Pointer"
      then (elim (pointer_addr sv) [ none ↦ pure ret | some p ↦ pure p ])
      else if not (sv_type_null sv)
      then (do a ← provide ret (length (sv_pvbyte sv)); store a (sv_pvbyte sv); pure a)
      else mismatch s

  abbrev pub bool_bits : Sv → ℕ
  bool_bits sv = if sv_true sv then 1 else 0

  unfoldable pub put_bool : Sv → ℕ → M Sv ℕ
  put_bool sv ret = elim (array_of sv) [
    | some xs ↦ put_array (length xs * sizeof bool_flag) 1 bool_bits xs ret
    | none ↦ put_scalar 1 (bool_bits sv) ret
  ]

  -- The cases of the character types. `unit` and `extra` give the block of an array.
  unfoldable pub put_chars : (unit extra : ℕ) → (Sv → ℕ) → Sv → ℕ → M Sv ℕ
  put_chars unit extra elem sv ret = if not (sv_ok sv) then pure ret else elim (array_of sv) [
    | some xs ↦ put_array ((length xs + extra) * unit) 1 elem xs ret
    | none ↦ do a ← provide ret (length (sv_pv sv) + 1); store a (sv_pv sv); pure a
  ]

  -- The array loop of a Pointer[Pointer[...]]: `put` marshals an element into memory of its own.
  unfoldable pub store_pointers : (Sv → ℕ → M Sv ℕ) → ℕ → List Sv → M Sv (Unit {0})
  store_pointers put a [] = pure tt
  store_pointers put a (x ∷ xs) = do
    i ← put x 0
    store a (encode sizeof_intptr i)
    store_pointers put (a + sizeof_intptr) xs

  unfoldable pub put_pointers : (Sv → ℕ → M Sv ℕ) → Sv → ℕ → M Sv ℕ
  unfolding store_pointers
  put_pointers put sv ret = if not (sv_ok sv) then pure ret else elim (array_of sv) [
    | some xs ↦ do a ← provide ret (length xs * sizeof_intptr); store_pointers put a xs; pure a
    | none ↦ do
      a ← provide ret sizeof_intptr
      i ← put sv 0
      store a (encode sizeof_intptr i)
      pure a
  ]

  unfoldable pub put_pointer : Option AffixType → (Sv → ℕ → M Sv ℕ) → Sv → ℕ → M Sv ℕ
  unfolding put_pointers
  put_pointer none put sv ret = fail (plain "subtype is not of type Affix::Type")
  put_pointer (some t) put sv ret =
      if (slots t).isa "Affix::Type::Pointer"
      then put_pointers put sv ret
      else if not ((slots t).isa "Affix::Type")
      then fail (plain "subtype is not of type Affix::Type")
      else if is_some (array_of sv) && sv_derived_from sv "Affix::Pointer"
      then (elim (pointer_addr sv) [ none ↦ pure ret | some p ↦ pure p ])
      else put sv 0

  unfoldable pub put_sv : Sv → M Sv ℕ
  put_sv sv h = pure (sv_address sv) (record h { retained = sv ∷ h.retained })

  unfoldable pub register : CodeRef Sv → M Sv ℕ
  register c h = let a = new_callback h c in pure a (record h { callbacks = (a, c) ∷ h.callbacks })

  unfoldable pub put_coderef : Slots → Option AffixType → TypeList → Sv → M Sv ℕ
  unfolding register
  put_coderef s none args sv = undefined_behaviour
  put_coderef s (some restype) args sv =
      if sv_ok sv
      then (do
        _ ← calloc malloc sizeof_intptr
        register (record {
          signature = s.sig;
          argtypes = args;
          restype = restype;
          restype_c = (slots restype).numeric;
          cv = sv;
        }))
      else calloc malloc sizeof_intptr

  -- The loop over a struct's fields, at the address `ret`. `put` marshals the head field.
  unfoldable pub put_field : Slots → (Sv → ℕ → M Sv ℕ) → (Text → Option Sv) → ℕ → M Sv (Unit {0})
  put_field f put struct_hv ret = elim f.field [
    | none ↦ fail (plain "Malformed Struct[...] field; missing field name")
    | some field_name ↦ elim (struct_hv field_name) [
      | none ↦ fail (about "Malformed Struct[...]; missing '%s' field" field_name)
      | some field_data ↦
          if f.isa "Affix::Type::Pointer"
          then (do ptr ← put field_data 0; store (ret + f.offset) (encode sizeof_intptr ptr))
          else (do _ ← put field_data (ret + f.offset); pure tt)
    ]
  ]

  -- The same for a union: a field that the hash does not have is skipped. The result says whether
  -- some field was there.
  unfoldable pub put_member : Slots → (Sv → ℕ → M Sv ℕ) → (Text → Option Sv) → ℕ → Bool → M Sv Bool
  put_member f put struct_hv ret okay = elim f.field [
    | none ↦ fail (plain "Malformed Struct[...] field; missing field name")
    | some field_name ↦ elim (struct_hv field_name) [
      | none ↦ pure okay
      | some field_data ↦
          if f.isa "Affix::Type::Pointer"
          then (do
            ptr ← put field_data 0
            store (ret + f.offset) (encode sizeof_intptr ptr)
            pure true)
          else (do _ ← put field_data (ret + f.offset); pure true)
    ]
  ]

  unfoldable pub put_struct : Slots → ((Text → Option Sv) → ℕ → M Sv (Unit {0})) → Sv → ℕ → M Sv ℕ
  put_struct s put_fields sv ret = elim (hash_of sv) [
    | none ↦ do warn "Expected a hash reference to marshal into a %s"; pure 0
    | some struct_hv ↦ do a ← provide ret s.sizeof; put_fields struct_hv a; pure a
  ]

  unfoldable pub put_union : Slots → ((Text → Option Sv) → ℕ → M Sv Bool) → Sv → ℕ → M Sv ℕ
  put_union s put_members sv ret = elim (hash_of sv) [
    | none ↦ do warn "Expected a hash reference to marshal into a %s"; pure 0
    | some struct_hv ↦ do
      a ← provide ret s.sizeof
      okay ← put_members struct_hv a
      if okay then pure a else fail (plain "Malformed Union[...] field; missing defined field")
  ]

  abbrev pub is_float : Sv → Bool
  is_float sv = sv_nok sv || sv_iok sv

  abbrev pub sv_float : Sv → ℕ
  sv_float sv = float_bits (sv_nv sv)

  abbrev pub sv_double : Sv → ℕ
  sv_double sv = double_bits (sv_nv sv)
