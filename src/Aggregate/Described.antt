-- ===== src/Aggregate/Described.antt =====
-- What `_aggregate` describes.
use fiction.Prelude.{
  ℕ, ◌≡◌, ◌≢◌, refl, ap, ◌∙◌, Bool-cases, none, some, List, [], ◌∷◌, ◌⊎◌, inl, inr, arith,
}
use fiction.Flags.{
  Flag, SigChar, type_as_dc, other, void_flag, bool_flag, schar_flag, char_flag, uchar_flag,
  wchar_flag, short_flag, ushort_flag, int_flag, uint_flag, long_flag, ulong_flag, longlong_flag,
  ulonglong_flag, float_flag, double_flag, wstring_flag, stdstring_flag, struct_flag,
  cppstruct_flag, union_flag, affix_flag, coderef_flag, pointer_flag, sv_flag,
}
use fiction.Types.{affix_type, TypeList, nil, cons, Slots, slots, count}
use fiction.Memory.{Result, ok, croak, fault, out_of_fuel}
use fiction.Aggregate.{
  Aggr, aggr, AggrFields, close, field, nested, FieldKind, plain_field, aggregate_field,
  unhandled_field, field_kind, is_aggregate, build, add_field, aggregate, aggregate_fields,
}

abbrev pub offsets_of : TypeList → List ℕ
offsets_of nil = []
offsets_of (cons t ts) = (slots t).offset ∷ offsets_of ts

-- The offsets handed to dcAggrField, in order.
abbrev pub recorded : AggrFields → List ℕ
recorded close = []
recorded (field c n fs) = n ∷ recorded fs
recorded (nested a n fs) = n ∷ recorded fs

add_field-ok :
    (k : FieldKind) (f : Slots) (child : Result Aggr) (rest : Result AggrFields) (fs : AggrFields)
    → field_kind f.numeric ≡ k
    → add_field f child rest ≡ ok fs
    → (gs : AggrFields) × (rest ≡ ok gs) × (recorded fs ≡ f.offset ∷ recorded gs)
unfolding add_field
add_field-ok (plain_field c) f child (ok gs) fs k e = (gs, refl, ground arith)
add_field-ok aggregate_field f (ok a) (ok gs) fs k e = (gs, refl, ground arith)
add_field-ok (plain_field c) f child (croak x) fs k e = absurd (ground arith)
add_field-ok (plain_field c) f child fault fs k e = absurd (ground arith)
add_field-ok (plain_field c) f child out_of_fuel fs k e = absurd (ground arith)
add_field-ok aggregate_field f (ok a) (croak x) fs k e = absurd (ground arith)
add_field-ok aggregate_field f (ok a) fault fs k e = absurd (ground arith)
add_field-ok aggregate_field f (ok a) out_of_fuel fs k e = absurd (ground arith)
add_field-ok aggregate_field f (croak x) rest fs k e = absurd (ground arith)
add_field-ok aggregate_field f fault rest fs k e = absurd (ground arith)
add_field-ok aggregate_field f out_of_fuel rest fs k e = absurd (ground arith)
add_field-ok unhandled_field f child rest fs k e = absurd (ground arith)

fields_lem :
    (ts : TypeList) (fs : AggrFields) → aggregate_fields ts ≡ ok fs → recorded fs ≡ offsets_of ts
unfolding aggregate_fields
fields_lem nil fs e = ground arith
fields_lem (cons t ts) fs e =
    let head =
      add_field-ok (field_kind (slots t).numeric) (slots t) (aggregate t) (aggregate_fields ts) fs
        refl e in
    head.2 ∙ ap (λ ns. (slots t).offset ∷ ns) (fields_lem ts head.0 head.1)

build-made :
    (s : Slots) (m : ℕ) (r : Result AggrFields) (n size : ℕ) (fs : AggrFields)
    → build s m r ≡ ok (aggr n size fs)
    → (n ≡ m) × (size ≡ s.sizeof) × (r ≡ ok fs)
unfolding build
build-made s m (ok gs) n size fs e = (ground arith, ground arith, ground arith)
build-made s m (croak x) n size fs e = absurd (ground arith)
build-made s m fault n size fs e = absurd (ground arith)
build-made s m out_of_fuel n size fs e = absurd (ground arith)

build-needs :
    (s : Slots) (m : ℕ) (r : Result AggrFields) (a : Aggr)
    → s.aggregate ≡ none
    → build s m r ≡ ok a
    → (fs : AggrFields) × (r ≡ ok fs)
unfolding build
build-needs s m (ok gs) a c e = (gs, refl)
build-needs s m (croak x) a c e = absurd (ground arith)
build-needs s m fault a c e = absurd (ground arith)
build-needs s m out_of_fuel a c e = absurd (ground arith)

-- What `_aggregate` makes, it makes of a type of an aggregate's flag.
aggregate-build :
    (s : Slots) (ts args : TypeList) (a : Aggr)
    → aggregate (affix_type s ts args) ≡ ok a
    → build s (count ts) (aggregate_fields ts) ≡ ok a
unfolding aggregate
aggregate-build s ts args a e = elim (Bool-cases (is_aggregate s.numeric)) [
  | inl is ↦ ground arith
  | inr other_flag ↦ absurd (ground arith)
]

-- A description that `_aggregate` makes has the type's size, announces as many fields as the type
-- has, and hands over each of them once, in order, at its own offset.
pub aggregate-offsets :
    (s : Slots) (ts args : TypeList) (n size : ℕ) (fs : AggrFields)
    → aggregate (affix_type s ts args) ≡ ok (aggr n size fs)
    → (n ≡ count ts) × (size ≡ s.sizeof) × (recorded fs ≡ offsets_of ts)
aggregate-offsets s ts args n size fs e =
    let made =
      build-made s (count ts) (aggregate_fields ts) n size fs
        (aggregate-build s ts args (aggr n size fs) e) in
    (made.0, made.1, fields_lem ts fs made.2)

-- Some field has the flag.
abbrev pub HasField : Flag → TypeList → Type 0
HasField f nil = ⊥
HasField f (cons t ts) = ((slots t).numeric ≡ f) ⊎ HasField f ts

schar_fields_fail :
    (ts : TypeList) (fs : AggrFields) → HasField schar_flag ts → aggregate_fields ts ≢ ok fs
unfolding aggregate_fields add_field field_kind
schar_fields_fail nil fs h e = h
schar_fields_fail (cons t ts) fs (inl here) e = ground arith
schar_fields_fail (cons t ts) fs (inr there) e =
    let head =
      add_field-ok (field_kind (slots t).numeric) (slots t) (aggregate t) (aggregate_fields ts) fs
        refl e in
    schar_fields_fail ts head.0 there head.1

-- A fault of the code: although a signed char is a type of its own, no struct or union with a field
-- of it, not described before, can be described, so none can be passed or returned by value.
aggregate-schar :
    (s : Slots) (ts args : TypeList) (a : Aggr)
    → s.aggregate ≡ none
    → HasField schar_flag ts
    → aggregate (affix_type s ts args) ≢ ok a
aggregate-schar s ts args a n h e =
    let made = build-needs s (count ts) (aggregate_fields ts) a n (aggregate-build s ts args a e) in
    schar_fields_fail ts made.0 h made.1

-- A field and an argument of the same type are described to dyncall by the same character, for every
-- type that both `_aggregate` and `type_as_dc` give one, but wchar_t.
field_kind-type_as_dc :
    (f : Flag) (c : SigChar) → f ≢ wchar_flag → field_kind f ≡ plain_field c → type_as_dc f ≡ some c
unfolding field_kind type_as_dc
field_kind-type_as_dc void_flag c n e = ground arith
field_kind-type_as_dc bool_flag c n e = ground arith
field_kind-type_as_dc schar_flag c n e = ground arith
field_kind-type_as_dc char_flag c n e = ground arith
field_kind-type_as_dc uchar_flag c n e = ground arith
field_kind-type_as_dc wchar_flag c n e = ground arith
field_kind-type_as_dc short_flag c n e = ground arith
field_kind-type_as_dc ushort_flag c n e = ground arith
field_kind-type_as_dc int_flag c n e = ground arith
field_kind-type_as_dc uint_flag c n e = ground arith
field_kind-type_as_dc long_flag c n e = ground arith
field_kind-type_as_dc ulong_flag c n e = ground arith
field_kind-type_as_dc longlong_flag c n e = ground arith
field_kind-type_as_dc ulonglong_flag c n e = ground arith
field_kind-type_as_dc float_flag c n e = ground arith
field_kind-type_as_dc double_flag c n e = ground arith
field_kind-type_as_dc wstring_flag c n e = ground arith
field_kind-type_as_dc stdstring_flag c n e = ground arith
field_kind-type_as_dc struct_flag c n e = ground arith
field_kind-type_as_dc cppstruct_flag c n e = ground arith
field_kind-type_as_dc union_flag c n e = ground arith
field_kind-type_as_dc affix_flag c n e = ground arith
field_kind-type_as_dc coderef_flag c n e = ground arith
field_kind-type_as_dc pointer_flag c n e = ground arith
field_kind-type_as_dc sv_flag c n e = ground arith
field_kind-type_as_dc (other m) c n e = ground arith
