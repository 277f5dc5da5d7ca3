-- ===== src/Marshal/Structs.antt =====
-- Structs written by `sv2ptr` and read by `ptr2sv`, and the errors of the field loop.
use fiction.Prelude.{
  ℕ, ◌+◌, ◌^◌, ◌≤◌, ◌<◌, ◌≡◌, ◌≢◌, refl, ◌∙◌, inl, inr, true, false, Option, some, List, [], ◌∷◌,
  arith, Text, Option-cases,
}
use fiction.Flags.{
  Flag, short_flag, ushort_flag, int_flag, uint_flag, long_flag, ulong_flag, longlong_flag,
  ulonglong_flag, struct_flag,
}
use fiction.Types.{AffixType, affix_type, TypeList, nil, cons, Slots, slots, first}
use fiction.Memory.{Heap, ok, M, pure, ◌>>◌, encode, peek, read_bytes}
use fiction.Memory.Bytes.{read_bytes_congr, write_bytes-outside}
use fiction.Memory.Runs.{bind_ok}
use fiction.Env.{Env, sizeof}
use fiction.Marshal.Cases.{put_field}
use fiction.Marshal.{sv2ptr, put_fields}
use fiction.Marshal.Numbers.{
  IsInteger, wrap, taken, given, place, ready, written, put_scalar_lem, read-encode, sv2ptr-integer,
  ptr2sv-integer, provide_lem,
}
use fiction.Unmarshal.Cases.{get_field}
use fiction.Unmarshal.{ptr2sv, get_fields, get_inner, entry}

module _ (E : Env) where
  open E use {Sv, malloc, sv_ok, sv_iok, sv_iv, sv_uv, new_iv, new_uv, hash_of, new_rv_hv}

  -- A struct's field holds an integer, and the hash has an integer scalar for it.
  pub record IsIntegerField (s : Slots) (hv : Text → Option Sv) : Type 0 where
    pub integer : IsInteger s.numeric
    pub direct : s.isa "Affix::Type::Pointer" ≡ false
    pub name : Text
    pub sv : Sv
    pub named : s.field ≡ some name
    pub present : hv name ≡ some sv
    pub defined : sv_ok sv ≡ true
    pub is_iok : sv_iok sv ≡ true
    pub in_range : taken E s.numeric sv < 2 ^ 64

  -- Integer fields in the order of their offsets, none overlapping, the first at `lo` or later.
  abbrev pub IsLaidOut : ℕ → TypeList → (Text → Option Sv) → Type 0
  IsLaidOut lo nil hv = Unit
  IsLaidOut lo (cons (affix_type s sub args) ts) hv =
      IsIntegerField s hv × (lo ≤ s.offset) × IsLaidOut (s.offset + sizeof s.numeric) ts hv

  -- What the struct is read back as: each name with its value converted to the field's C type.
  abbrev pub converted :
      (lo : ℕ) (ts : TypeList) (hv : Text → Option Sv) → IsLaidOut lo ts hv → List (Text × Sv)
  converted lo nil hv l = []
  converted lo (cons (affix_type s sub args) ts) hv l =
      (l.0.name, given E s.numeric (wrap s.numeric (taken E s.numeric l.0.sv)))
      ∷ converted (s.offset + sizeof s.numeric) ts hv l.2

  put_field-integer :
      (s : Slots) (sub args : TypeList) (hv : Text → Option Sv) (ret : ℕ) (h : Heap Sv)
      → (l : IsIntegerField s hv) → ret ≢ 0
      → put_field E s (sv2ptr E (affix_type s sub args)) hv ret h
        ≡ ok (tt, written E (ret + s.offset) (encode (sizeof s.numeric) (taken E s.numeric l.sv)) h)
  unfolding put_field
  put_field-integer s sub args hv ret h l n = ground (
    arith,
    l.named,
    l.present,
    l.direct,
    sv2ptr-integer E s.numeric s sub args l.sv (ret + s.offset) h l.integer refl l.defined l.is_iok,
    put_scalar_lem E (sizeof s.numeric) (taken E s.numeric l.sv) (ret + s.offset) h,
  )

  get_field-direct :
      (f : Flag) (s : Slots) (inner : Option AffixType) (get get_sub : ℕ → M Sv Sv) (a : ℕ)
      (h : Heap Sv)
      → IsInteger f
      → s.numeric ≡ f
      → s.isa "Affix::Type::Pointer" ≡ false
      → get_field E s inner get get_sub a h ≡ get a h
  unfolding get_field
  get_field-direct short_flag s inner get get_sub a h i e d = ground arith
  get_field-direct ushort_flag s inner get get_sub a h i e d = ground arith
  get_field-direct int_flag s inner get get_sub a h i e d = ground arith
  get_field-direct uint_flag s inner get get_sub a h i e d = ground arith
  get_field-direct long_flag s inner get get_sub a h i e d = ground arith
  get_field-direct ulong_flag s inner get get_sub a h i e d = ground arith
  get_field-direct longlong_flag s inner get get_sub a h i e d = ground arith
  get_field-direct ulonglong_flag s inner get get_sub a h i e d = ground arith
  get_field-direct _ s inner get get_sub a h i e d = absurd i

  get_field-integer :
      (fuel : ℕ) (s : Slots) (sub args : TypeList) (hv : Text → Option Sv)
      (inner : Option AffixType) (get_sub : ℕ → M Sv Sv) (a : ℕ) (h : Heap Sv)
      → (l : IsIntegerField s hv) → a ≢ 0
      → read_bytes a (sizeof s.numeric) h.bytes ≡ encode (sizeof s.numeric) (taken E s.numeric l.sv)
      → get_field E s inner (ptr2sv E fuel (affix_type s sub args)) get_sub a h
        ≡ ok (given E s.numeric (wrap s.numeric (taken E s.numeric l.sv)), h)
  unfolding peek
  get_field-integer fuel s sub args hv inner get_sub a h l n p =
      get_field-direct s.numeric s inner (ptr2sv E fuel (affix_type s sub args)) get_sub a h
        l.integer refl l.direct
      ∙ ptr2sv-integer E s.numeric fuel s sub args (taken E s.numeric l.sv) a h l.integer refl
          (ground arith) l.in_range (ground (arith, p))

  -- What the field loops do from one field on: every later field is written and read back, and no
  -- byte below the first of them changes.
  fields_lem :
      (fuel lo : ℕ) (ts : TypeList) (hv : Text → Option Sv) (ret : ℕ) (h : Heap Sv)
      → ret ≢ 0
      → (l : IsLaidOut lo ts hv)
      → (h' : Heap Sv) × (put_fields E ts hv ret h ≡ ok (tt, h'))
        × (get_fields E fuel ts ret h' ≡ ok (converted lo ts hv l, h'))
        × ((p : ℕ) → p < ret + lo → h'.bytes p ≡ h.bytes p)
  unfolding put_fields get_fields entry
  fields_lem fuel lo nil hv ret h n l = (h, refl, refl, λ p b. refl)
  fields_lem fuel lo (cons (affix_type s sub args) ts) hv ret h n l =
      let size = sizeof s.numeric in
      let a = ret + s.offset in
      let bs = encode size (taken E s.numeric l.0.sv) in
      let h₁ = written E a bs h in
      let rest = fields_lem fuel (s.offset + size) ts hv ret h₁ n l.2 in
      let kept : read_bytes a size (rest.0).bytes ≡ bs =
        read_bytes_congr a size (rest.0).bytes h₁.bytes (λ p lo hi. rest.3 p (omega arith))
        ∙ read-encode size (taken E s.numeric l.0.sv) a h.bytes in
      (
        rest.0,
        ground (arith, put_field-integer s sub args hv ret h l.0 n, rest.1),
        ground (
          arith,
          get_field-integer fuel s sub args hv (first sub)
              (get_inner E fuel (affix_type s sub args)) a rest.0 l.0 (omega arith) kept,
          rest.2,
          l.0.named,
        ),
        λ p b. rest.3 p (omega arith) ∙ write_bytes-outside a bs h.bytes p (inl (omega arith)),
      )

  -- A struct of integer fields, laid out in the order of their offsets with none overlapping, that
  -- `sv2ptr` writes from a hash to fresh memory is read back by `ptr2sv` as a hash of the same names
  -- in order, each value converted to the C type of its field. Both run without an error. The
  -- address that malloc gives is not NULL.
  struct_round_trip :
      (fuel : ℕ) (s : Slots) (ts args : TypeList) (sv : Sv) (hv : Text → Option Sv) (h : Heap Sv)
      → s.numeric ≡ struct_flag
      → sv_ok sv ≡ true
      → hash_of sv ≡ some hv
      → (l : IsLaidOut 0 ts hv) → malloc h s.sizeof ≢ 0
      → (h' : Heap Sv) × (sv2ptr E (affix_type s ts args) sv 0 h ≡ ok (malloc h s.sizeof, h'))
        × (ptr2sv E fuel (affix_type s ts args) (malloc h s.sizeof) h'
            ≡ ok (new_rv_hv (converted 0 ts hv l), h'))
  unfolding sv2ptr ptr2sv
  struct_round_trip fuel s ts args sv hv h e o k l n =
      let all = fields_lem fuel 0 ts hv (malloc h s.sizeof) (ready E 0 s.sizeof h) n l in
      (all.0, ground (arith, provide_lem E 0 s.sizeof h, all.1), ground (arith, all.2))

  -- Each field has a name, and the hash an entry for it.
  abbrev pub HasFields : TypeList → (Text → Option Sv) → Type 0
  HasFields nil hv = Unit
  HasFields (cons t ts) hv =
      ((name : Text) × (sv : Sv) × ((slots t).field ≡ some name) × (hv name ≡ some sv))
      × HasFields ts hv

  put_field-present :
      (s : Slots) (put : Sv → ℕ → M Sv ℕ) (hv : Text → Option Sv) (ret : ℕ) (h h' : Heap Sv)
      → put_field E s put hv ret h ≡ ok (tt, h')
      → (name : Text) × (sv : Sv) × (s.field ≡ some name) × (hv name ≡ some sv)
  unfolding put_field
  put_field-present s put hv ret h h' e = elim (Option-cases s.field) [
    | inl unnamed ↦ absurd (ground arith)
    | inr (name, named) ↦ elim (Option-cases (hv name)) [
      | inl missing ↦ absurd (ground arith)
      | inr (sv, present) ↦ (name, sv, named, present)
    ]
  ]

  put_fields-present :
      (ts : TypeList) (hv : Text → Option Sv) (ret : ℕ) (h h' : Heap Sv)
      → put_fields E ts hv ret h ≡ ok (tt, h')
      → HasFields ts hv
  unfolding put_fields
  put_fields-present nil hv ret h h' e = tt
  put_fields-present (cons t ts) hv ret h h' e =
      let step =
        bind_ok (put_field E (slots t) (sv2ptr E t) hv ret) (λ _. put_fields E ts hv ret) h e in
      (
        put_field-present (slots t) (sv2ptr E t) hv ret h step.1 step.2,
        put_fields-present ts hv ret step.1 h' step.3,
      )

  -- If `sv2ptr` marshals a hash into a struct type, of fields of whatever types, then every field has
  -- a name and the hash has an entry for each: with one missing it does not return.
  pub struct_needs_fields :
      (s : Slots) (ts args : TypeList) (sv : Sv) (hv : Text → Option Sv) (ret a : ℕ)
      (h h' : Heap Sv)
      → s.numeric ≡ struct_flag
      → sv_ok sv ≡ true
      → hash_of sv ≡ some hv
      → sv2ptr E (affix_type s ts args) sv ret h ≡ ok (a, h')
      → HasFields ts hv
  unfolding sv2ptr
  struct_needs_fields s ts args sv hv ret a h h' e o k r =
      let start = ready E ret s.sizeof h in
      let at = place E ret s.sizeof h in
      let ran : (put_fields E ts hv at >> pure at) start ≡ ok (a, h') =
        ground (arith, provide_lem E ret s.sizeof h) in
      let loop = bind_ok (put_fields E ts hv at) (λ _. pure at) start ran in
      put_fields-present ts hv at start loop.1 loop.2
