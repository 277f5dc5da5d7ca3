-- ===== src/Unmarshal/Cases.antt =====
-- `ptr2obj`, and the cases of `ptr2sv`, of lib/Affix/marshal.cxx.
use fiction.Prelude.{
  ℕ, zero, suc, ◌+◌, ◌-◌, ◌*◌, ◌^◌, codes, false, Option, none, some, List, [], ◌∷◌, ◌==◌, ltb,
  if◌then◌else◌,
}
use fiction.Flags.{schar_flag, char_flag, uchar_flag, wchar_flag, pointer_flag}
use fiction.Types.{AffixType, TypeList, nil, cons, Slots, slots, signature_of}
use fiction.Memory.{
  Fiction, AffixPointer, out_of_fuel, M, pure, ◌>>=◌, undefined_behaviour, peek, c_string,
  read_bytes,
}
use fiction.Memory.{c_text}
use fiction.Env.{Env, sizeof_intptr}
use fiction.Wide.{get_wchar}

-- A signed value of `2 * half` patterns, widened to the 64-bit pattern of an IV.
unfoldable pub sign_extend : ℕ → ℕ → ℕ
sign_extend half v = if ltb v half then v else v + (2 ^ 64 - 2 * half)

unfoldable pub ptr2obj : AffixType → ℕ → AffixPointer
ptr2obj t ptr = record {
  address = if ptr == 0 then none else some ptr;
  subtype = t;
  count = 1;
  position = 0;
}

-- The prototype that the CODEREF case builds: `sig_len + 1` zero bytes, with '$' at `i + 1` for each
-- argument `i`.
unfoldable pub dollars : TypeList → List ℕ
dollars nil = []
dollars (cons t ts) = b'$' ∷ dollars ts

unfoldable pub coderef_prototype : TypeList → List ℕ
unfolding dollars
coderef_prototype ts = 0 ∷ dollars ts

module _ (E : Env) where
  open E use {
    Sv, undef, new_iv, new_uv, new_nv, new_bool, float_nv, double_nv, new_rv_av, new_rv_hv,
    new_pvn_utf8, is_utf8_string, sv_at, new_pointer, new_xsub, new_pinned,
  }

  unfoldable pub get_iv : (size half : ℕ) → ℕ → M Sv Sv
  get_iv size half ptr = do v ← peek ptr size; pure (new_iv (sign_extend half v))

  unfoldable pub get_text : ℕ → ℕ → M Sv Sv
  get_text fuel ptr = do s ← c_string fuel ptr; pure (new_pvn_utf8 s (is_utf8_string s))

  -- The fiction that a callback's address becomes.
  unfoldable pub coderef_fiction : AffixType → TypeList → ℕ → Fiction Sv
  coderef_fiction restype args ptr = record {
    lib = none;
    entry_point = ptr;
    symbol = codes "anonymous subroutine";
    signature = some (signature_of args);
    argtypes = args;
    restype = some restype;
    restype_c = (slots restype).numeric;
    aggr_restype = false;
    res = some undef;
  }

  unfoldable pub get_coderef : Option AffixType → TypeList → ℕ → M Sv Sv
  get_coderef none args ptr = undefined_behaviour
  get_coderef (some restype) args ptr =
      pure
        (new_xsub none (some (c_text (coderef_prototype args))) (coderef_fiction restype args ptr))

  -- `for (x = 0; x < len; ++x)` over an array of elements of `size` bytes
  unfoldable pub get_array : (ℕ → M Sv Sv) → (size ptr len : ℕ) → M Sv (List Sv)
  get_array get size ptr zero = pure []
  get_array get size ptr (suc len) = do
    sv ← get ptr
    svs ← get_array get size (ptr + size) len
    pure (sv ∷ svs)

  -- The do-while of a Pointer[Pointer[...]]: the terminating NULL is pushed too.
  unfoldable pub get_pointers : (ℕ → M Sv Sv) → ℕ → ℕ → M Sv (List Sv)
  get_pointers get zero ptr h = out_of_fuel
  get_pointers get (suc fuel) ptr h =
      (do
        tmp ← peek ptr sizeof_intptr
        sv ← get tmp
        let rest = (do svs ← get_pointers get fuel (ptr + sizeof_intptr); pure (sv ∷ svs))
        if tmp == 0 then pure (sv ∷ []) else rest)
        h

  unfoldable pub get_pointer :
      (fuel arraylen : ℕ) (subtype : Option AffixType) → (ℕ → M Sv Sv) → ℕ → M Sv Sv
  unfolding get_wchar
  get_pointer fuel len none get ptr = undefined_behaviour
  get_pointer fuel len (some t) get ptr = elim (slots t).numeric [
    | pointer_flag ↦ do svs ← get_pointers get fuel ptr; pure (new_rv_av svs)
    | char_flag ↦ get ptr
    | uchar_flag ↦ get ptr
    | schar_flag ↦ get ptr
    | wchar_flag ↦ get_wchar E fuel ptr
    | _ ↦
        if len == 1
        then get ptr
        else (do svs ← get_array get (slots t).sizeof ptr len; pure (new_rv_av svs))
  ]

  -- `newSVpvn_utf8((char *)p, 1, is_utf8_string((U8 *)p, 1))`
  unfoldable pub get_char : ℕ → M Sv Sv
  get_char p h = let s = read_bytes p 1 h.bytes in pure (new_pvn_utf8 s (is_utf8_string s)) h

  -- A field of a struct: `get` is `ptr2sv` on its type, `get_sub` on its subtype.
  unfoldable pub get_field : Slots → Option AffixType → (get get_sub : ℕ → M Sv Sv) → ℕ → M Sv Sv
  get_field f sub get get_sub p =
      if f.isa "Affix::Type::Pointer"
      then (do
        target ← peek p sizeof_intptr
        if target == 0 then pure undef else (elim sub [
          | none ↦ undefined_behaviour
          | some t ↦ if (slots t).isa "Affix::Type::Char" then get_sub target else pure undef
        ]))
      else elim f.numeric [
        | char_flag ↦ get_char p
        | schar_flag ↦ get_char p
        | uchar_flag ↦ get_char p
        | _ ↦ get p
      ]
