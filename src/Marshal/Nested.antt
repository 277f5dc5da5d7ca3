-- ===== src/Marshal/Nested.antt =====
-- Structs in structs: what a type needs so that `sv2ptr` and `ptr2sv` are inverse on it, at any address.
use fiction.Prelude.{
  ℕ, ◌+◌, ◌^◌, ◌≤◌, ◌<◌, ◌≡◌, ◌≢◌, ap, ◌∙◌, ◌⊎◌, true, false, Option, some, List, [], ◌∷◌, arith,
  Text,
}
use fiction.Flags.{
  Flag, void_flag, bool_flag, schar_flag, char_flag, uchar_flag, wchar_flag, short_flag,
  ushort_flag, int_flag, uint_flag, long_flag, ulong_flag, longlong_flag, ulonglong_flag,
  float_flag, double_flag, wstring_flag, stdstring_flag, struct_flag, cppstruct_flag, union_flag,
  affix_flag, coderef_flag, pointer_flag, sv_flag, other,
}
use fiction.Types.{AffixType, affix_type, TypeList, nil, cons, Slots, slots}
use fiction.Memory.{Heap, ok, M, encode, decode, peek, write_bytes}
use fiction.Memory.Bytes.{length-encode, read_bytes_congr, write_bytes-outside}
use fiction.Env.{Env, sizeof}
use fiction.Marshal.{sv2ptr}
use fiction.Marshal.Numbers.{
  IsInteger, wrap, taken, given, written, put_scalar_lem, read-encode, sv2ptr-integer,
  ptr2sv-integer,
}
use fiction.Unmarshal.Cases.{get_field}
use fiction.Unmarshal.{ptr2sv}

-- `q` is outside the `n` bytes at `a`.
abbrev pub IsBeside : ℕ → ℕ → ℕ → Type 0
IsBeside a n q = (q < a) ⊎ (a + n ≤ q)

-- The types that a struct reads by `ptr2sv`, and not as a single character.
abbrev pub IsWhole : Flag → Type 0
IsWhole char_flag = ⊥
IsWhole schar_flag = ⊥
IsWhole uchar_flag = ⊥
IsWhole _ = Unit

module _ (E : Env) where
  open E use {Sv, sv_ok, sv_iok, hash_of, new_rv_hv}

  mutual
    -- A scalar for a type of so many bytes, and the scalar that it is read back as: an integer as its
    -- value in the C type, a hash as the hash of what its fields are read back as.
    pub data ReadAs : AffixType → Sv → ℕ → Sv → Type 0 where
      integer_as :
          (f : Flag) (s : Slots) (sub args : TypeList) (sv : Sv)
          → IsInteger f
          → s.numeric ≡ f
          → sv_ok sv ≡ true
          → sv_iok sv ≡ true
          → taken E f sv < 2 ^ 64
          → ReadAs (affix_type s sub args) sv (sizeof f) (given E f (wrap f (taken E f sv)))
      struct_as :
          (s : Slots) (ts args : TypeList) (sv : Sv) (hv : Text → Option Sv)
          (outs : List (Text × Sv))
          → s.numeric ≡ struct_flag
          → sv_ok sv ≡ true
          → hash_of sv ≡ some hv
          → FieldsReadAs 0 s.sizeof ts hv outs
          → ReadAs (affix_type s ts args) sv s.sizeof (new_rv_hv outs)

    -- Fields that are no pointers, in the order of their offsets from `lo` to `hi`, none overlapping,
    -- each with a scalar in the hash.
    pub data FieldsReadAs : ℕ → ℕ → TypeList → (Text → Option Sv) → List (Text × Sv) → Type 0 where
      no_field_as : (lo hi : ℕ) (hv : Text → Option Sv) → lo ≤ hi → FieldsReadAs lo hi nil hv []
      field_as :
          (lo hi : ℕ) (t : AffixType) (ts : TypeList) (hv : Text → Option Sv) (name : Text)
          (sv : Sv) (size : ℕ) (out : Sv) (outs : List (Text × Sv))
          → (slots t).isa "Affix::Type::Pointer" ≡ false
          → (slots t).field ≡ some name
          → hv name ≡ some sv
          → ReadAs t sv size out
          → lo ≤ (slots t).offset
          → FieldsReadAs ((slots t).offset + size) hi ts hv outs
          → FieldsReadAs lo hi (cons t ts) hv ((name, out) ∷ outs)

  pub FieldsReadAs-le :
      (lo hi : ℕ) (ts : TypeList) (hv : Text → Option Sv) (outs : List (Text × Sv))
      → FieldsReadAs lo hi ts hv outs
      → lo ≤ hi
  FieldsReadAs-le _ _ _ _ _ (no_field_as lo hi hv le) = le
  FieldsReadAs-le _ _ _ _ _ (field_as lo hi t ts hv name sv size out outs d n p r le l) =
      omega (arith, le, FieldsReadAs-le ((slots t).offset + size) hi ts hv outs l)

  IsInteger-IsWhole : (f : Flag) → IsInteger f → IsWhole f
  IsInteger-IsWhole char_flag i = i
  IsInteger-IsWhole schar_flag i = i
  IsInteger-IsWhole uchar_flag i = i
  IsInteger-IsWhole _ i = tt

  pub ReadAs-IsWhole :
      (t : AffixType) (sv : Sv) (size : ℕ) (out : Sv)
      → ReadAs t sv size out
      → IsWhole (slots t).numeric
  ReadAs-IsWhole _ _ _ _ (integer_as f s sub args sv i e o k b) = rw e (IsInteger-IsWhole f i)
  ReadAs-IsWhole _ _ _ _ (struct_as s ts args sv hv outs e o k l) = rw e tt

module _ (E : Env) (fuel : ℕ) where
  open E use {Sv, malloc, sv_ok, sv_iok, hash_of, new_rv_hv}

  -- At every address but NULL, `sv2ptr` writes the scalar to the `size` bytes there and no other, and
  -- from any heap that has the same bytes there `ptr2sv` reads `out`.
  abbrev pub Trips : AffixType → Sv → ℕ → Sv → Type 0
  Trips t sv size out =
      (a : ℕ) (h : Heap Sv)
      → a ≢ 0
      → (h' : Heap Sv) × (sv2ptr E t sv a h ≡ ok (a, h'))
        × ((q : ℕ) → IsBeside a size q → h'.bytes q ≡ h.bytes q)
        × ((g : Heap Sv)
            → ((q : ℕ) → a ≤ q → q < a + size → g.bytes q ≡ h'.bytes q)
            → ptr2sv E fuel t a g ≡ ok (out, g))

  -- An integer scalar trips through every integer type.
  pub integer-Trips :
      (f : Flag) (s : Slots) (sub args : TypeList) (sv : Sv)
      → IsInteger f
      → s.numeric ≡ f
      → sv_ok sv ≡ true
      → sv_iok sv ≡ true
      → taken E f sv < 2 ^ 64
      → Trips (affix_type s sub args) sv (sizeof f) (given E f (wrap f (taken E f sv)))
  unfolding peek
  integer-Trips f s sub args sv i e o k b a h n =
      let v = taken E f sv in
      let bs = encode (sizeof f) v in
      (
        written E a bs h,
        sv2ptr-integer E f s sub args sv a h i e o k
            ∙ ground (arith, put_scalar_lem E (sizeof f) v a h),
        λ q c. write_bytes-outside a bs h.bytes q (ground (arith, length-encode (sizeof f) v)),
        λ g same. ptr2sv-integer E f fuel s sub args v a g i e (ground arith) b (
            ap (λ cs. ok (decode cs, g))
              (read_bytes_congr a (sizeof f) g.bytes (write_bytes a bs h.bytes) same
                ∙ read-encode (sizeof f) v a h.bytes)),
      )

  pub get_field-whole :
      (f : Flag) (s : Slots) (inner : Option AffixType) (get get_sub : ℕ → M Sv Sv) (a : ℕ)
      (h : Heap Sv)
      → IsWhole f
      → s.numeric ≡ f
      → s.isa "Affix::Type::Pointer" ≡ false
      → get_field E s inner get get_sub a h ≡ get a h
  unfolding get_field
  get_field-whole char_flag s inner get get_sub a h w e d = absurd w
  get_field-whole schar_flag s inner get get_sub a h w e d = absurd w
  get_field-whole uchar_flag s inner get get_sub a h w e d = absurd w
  get_field-whole void_flag s inner get get_sub a h w e d = ground arith
  get_field-whole bool_flag s inner get get_sub a h w e d = ground arith
  get_field-whole wchar_flag s inner get get_sub a h w e d = ground arith
  get_field-whole short_flag s inner get get_sub a h w e d = ground arith
  get_field-whole ushort_flag s inner get get_sub a h w e d = ground arith
  get_field-whole int_flag s inner get get_sub a h w e d = ground arith
  get_field-whole uint_flag s inner get get_sub a h w e d = ground arith
  get_field-whole long_flag s inner get get_sub a h w e d = ground arith
  get_field-whole ulong_flag s inner get get_sub a h w e d = ground arith
  get_field-whole longlong_flag s inner get get_sub a h w e d = ground arith
  get_field-whole ulonglong_flag s inner get get_sub a h w e d = ground arith
  get_field-whole float_flag s inner get get_sub a h w e d = ground arith
  get_field-whole double_flag s inner get get_sub a h w e d = ground arith
  get_field-whole wstring_flag s inner get get_sub a h w e d = ground arith
  get_field-whole stdstring_flag s inner get get_sub a h w e d = ground arith
  get_field-whole struct_flag s inner get get_sub a h w e d = ground arith
  get_field-whole cppstruct_flag s inner get get_sub a h w e d = ground arith
  get_field-whole union_flag s inner get get_sub a h w e d = ground arith
  get_field-whole affix_flag s inner get get_sub a h w e d = ground arith
  get_field-whole coderef_flag s inner get get_sub a h w e d = ground arith
  get_field-whole pointer_flag s inner get get_sub a h w e d = ground arith
  get_field-whole sv_flag s inner get get_sub a h w e d = ground arith
  get_field-whole (other n) s inner get get_sub a h w e d = ground arith
