-- ===== src/Aggregate.antt =====
-- `_aggregate` of lib/Affix/Aggregate.cxx: the dyncall description of a struct or union. The calls of
-- dcNewAggr, dcAggrField and dcCloseAggr are recorded as a tree.
pub mod Keys
pub mod Described
use fiction.Prelude.{ℕ, Bool, true, false, Option, none, some, if◌then◌else◌}
use fiction.Flags.{
  Flag, bool_flag, char_flag, uchar_flag, wchar_flag, short_flag, ushort_flag, int_flag, uint_flag,
  long_flag, ulong_flag, longlong_flag, ulonglong_flag, float_flag, double_flag, wstring_flag,
  struct_flag, cppstruct_flag, union_flag, coderef_flag, pointer_flag, SigChar, sigchar_bool,
  sigchar_char, sigchar_uchar, sigchar_short, sigchar_ushort, sigchar_int, sigchar_uint,
  sigchar_long, sigchar_ulong, sigchar_longlong, sigchar_ulonglong, sigchar_float, sigchar_double,
  sigchar_pointer,
}
use fiction.Types.{AffixType, affix_type, TypeList, nil, cons, Slots, slots, count}
use fiction.Memory.{Result, ok, croak, fault, out_of_fuel, Croak, plain, about}

-- `cached` is an aggregate that the type holds already, at an address.
mutual
  pub data Aggr : Type 0 where
    cached : ℕ → Aggr
    aggr : (field_count size : ℕ) → AggrFields → Aggr

  -- Each field with its offset.
  pub data AggrFields : Type 0 where
    close : AggrFields
    field : SigChar → ℕ → AggrFields → AggrFields
    nested : Aggr → ℕ → AggrFields → AggrFields

infixl 5 ◌>>=◌
abbrev pub ◌>>=◌ : {A B : Type 0} → Result A → (A → Result B) → Result B
ok a >>= f = f a
croak e >>= f = croak e
fault >>= f = fault
out_of_fuel >>= f = out_of_fuel

-- What a field's type adds: a plain character, a nested aggregate, or nothing that is handled.
pub data FieldKind : Type 0 where
  plain_field : SigChar → FieldKind
  aggregate_field unhandled_field : FieldKind

unfoldable pub field_kind : Flag → FieldKind
field_kind bool_flag = plain_field sigchar_bool
field_kind char_flag = plain_field sigchar_char
field_kind uchar_flag = plain_field sigchar_uchar
field_kind short_flag = plain_field sigchar_short
field_kind ushort_flag = plain_field sigchar_ushort
field_kind int_flag = plain_field sigchar_int
field_kind uint_flag = plain_field sigchar_uint
field_kind long_flag = plain_field sigchar_long
field_kind ulong_flag = plain_field sigchar_ulong
field_kind longlong_flag = plain_field sigchar_longlong
field_kind ulonglong_flag = plain_field sigchar_ulonglong
field_kind float_flag = plain_field sigchar_float
field_kind double_flag = plain_field sigchar_double
field_kind pointer_flag = plain_field sigchar_pointer
field_kind coderef_flag = plain_field sigchar_pointer
field_kind wstring_flag = plain_field sigchar_pointer
field_kind struct_flag = aggregate_field
field_kind union_flag = aggregate_field
field_kind cppstruct_flag = aggregate_field
field_kind wchar_flag = plain_field sigchar_longlong
field_kind _ = unhandled_field

unfoldable pub is_aggregate : Flag → Bool
is_aggregate struct_flag = true
is_aggregate cppstruct_flag = true
is_aggregate union_flag = true
is_aggregate _ = false

unfoldable pub build : Slots → ℕ → Result AggrFields → Result Aggr
build s n fields = elim s.aggregate [
  | some address ↦ if s.aggregate_isa then ok (cached address) else croak (plain "Oh, no...")
  | none ↦ do fs ← fields; ok (aggr n s.sizeof fs)
]

unfoldable pub add_field : Slots → Result Aggr → Result AggrFields → Result AggrFields
add_field f child rest = elim (field_kind f.numeric) [
  | plain_field c ↦ do fs ← rest; ok (field c f.offset fs)
  | aggregate_field ↦ do a ← child; fs ← rest; ok (nested a f.offset fs)
  | unhandled_field ↦ croak (about "Unhandled type in aggregate: %s" f.stringify)
]

unfoldable mutual
  unfolding build add_field is_aggregate

  pub aggregate : AffixType → Result Aggr
  aggregate (affix_type s sub args) =
      if is_aggregate s.numeric
      then build s (count sub) (aggregate_fields sub)
      else croak (about "Unsupported aggregate: %s" s.stringify)

  pub aggregate_fields : TypeList → Result AggrFields
  aggregate_fields nil = ok close
  aggregate_fields (cons t ts) = add_field (slots t) (aggregate t) (aggregate_fields ts)
