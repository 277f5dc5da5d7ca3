-- ===== src/Marshal/NestedStructs.antt =====
-- Structs whose fields are integers or structs, to any depth.
use fiction.Prelude.{
  ℕ, ◌+◌, ◌≤◌, ◌<◌, ◌≡◌, ◌≢◌, refl, ◌∙◌, ◌⊎◌, inl, true, false, Option, some, List, [], ◌∷◌, arith,
  Text,
}
use fiction.Flags.{struct_flag}
use fiction.Types.{AffixType, affix_type, TypeList, nil, cons, Slots, slots, first, subtypes}
use fiction.Memory.Bytes.{length-zeros, write_bytes-outside}
use fiction.Memory.{zeros, Heap, ok}
use fiction.Env.{Env}
use fiction.Marshal.Cases.{put_field, provide}
use fiction.Marshal.{sv2ptr, put_fields}
use fiction.Marshal.Numbers.{ready, provide_lem}
use fiction.Marshal.Nested.{
  IsBeside, IsWhole, Trips, ReadAs, FieldsReadAs, integer_as, struct_as, no_field_as, field_as,
  FieldsReadAs-le, ReadAs-IsWhole, integer-Trips, get_field-whole,
}
use fiction.Unmarshal.{ptr2sv, get_fields, get_inner, entry}

module _ (E : Env) (fuel : ℕ) where
  open E use {Sv, malloc, sv_ok, hash_of, new_rv_hv}

  -- What the loop over the fields writes, and what the loop over them then reads.
  FieldsTrip :
      (lo hi : ℕ) (ts : TypeList) (hv : Text → Option Sv) → List (Text × Sv) → ℕ → Heap Sv → Type 0
  FieldsTrip lo hi ts hv outs ret h =
      (h' : Heap Sv) × (put_fields E ts hv ret h ≡ ok (tt, h'))
      × ((q : ℕ) → IsOutside q → h'.bytes q ≡ h.bytes q)
      × ((g : Heap Sv)
          → ((q : ℕ) → ret + lo ≤ q → q < ret + hi → g.bytes q ≡ h'.bytes q)
          → get_fields E fuel ts ret g ≡ ok (outs, g))
    where
      IsOutside : ℕ → Type 0
      IsOutside q = (q < ret + lo) ⊎ (ret + hi ≤ q)

  put_field-Trips :
      (t : AffixType) (hv : Text → Option Sv) (name : Text) (sv : Sv) (ret : ℕ) (h h' : Heap Sv)
      → (slots t).isa "Affix::Type::Pointer" ≡ false
      → (slots t).field ≡ some name
      → hv name ≡ some sv
      → sv2ptr E t sv (ret + (slots t).offset) h ≡ ok (ret + (slots t).offset, h')
      → put_field E (slots t) (sv2ptr E t) hv ret h ≡ ok (tt, h')
  unfolding put_field
  put_field-Trips t hv name sv ret h h' d n p e = ground (arith, n, p, d, e)

  -- A field that trips, before fields that do.
  field-Trips :
      (lo hi : ℕ) (t : AffixType) (ts : TypeList) (hv : Text → Option Sv) (name : Text) (sv : Sv)
      (size : ℕ) (out : Sv) (outs : List (Text × Sv)) (ret : ℕ) (h : Heap Sv)
      → (slots t).isa "Affix::Type::Pointer" ≡ false
      → (slots t).field ≡ some name
      → hv name ≡ some sv
      → IsWhole (slots t).numeric
      → lo ≤ (slots t).offset
      → (slots t).offset + size ≤ hi
      → ret ≢ 0
      → Trips E fuel t sv size out
      → ((g : Heap Sv) → FieldsTrip ((slots t).offset + size) hi ts hv outs ret g)
      → FieldsTrip lo hi (cons t ts) hv ((name, out) ∷ outs) ret h
  unfolding FieldsTrip put_fields get_fields entry
  field-Trips lo hi t ts hv name sv size out outs ret h direct named present whole behind le n trips
        others =
      let a = ret + (slots t).offset in
      let one = trips a h (omega (arith, n)) in
      let rest = others one.0 in
      (
        rest.0,
        ground (arith, put_field-Trips t hv name sv ret h one.0 direct named present one.1, rest.1),
        λ q o. rest.2 q (ground (arith, o)) ∙ one.2 q (ground (arith, o)),
        λ g same.
            let kept : ptr2sv E fuel t a g ≡ ok (out, g) =
              one.3 g
                (λ q i j. same q (omega arith) (omega arith) ∙ rest.2 q (inl (omega arith))) in
            ground (
              arith,
              get_field-whole E fuel (slots t).numeric (slots t) (first (subtypes t))
                  (ptr2sv E fuel t) (get_inner E fuel t) a g whole refl direct,
              kept,
              named,
              rest.3 g (λ q i j. same q (omega arith) j),
            ),
      )

  no_field-trip :
      (lo hi : ℕ) (hv : Text → Option Sv) (ret : ℕ) (h : Heap Sv) → FieldsTrip lo hi nil hv [] ret h
  unfolding FieldsTrip put_fields get_fields
  no_field-trip lo hi hv ret h = (h, refl, λ q o. refl, λ g same. refl)

  put_struct-trip :
      (s : Slots) (ts args : TypeList) (sv : Sv) (hv : Text → Option Sv) (ret a : ℕ)
      (h h₁ h' : Heap Sv)
      → s.numeric ≡ struct_flag
      → sv_ok sv ≡ true
      → hash_of sv ≡ some hv
      → provide E ret s.sizeof h ≡ ok (a, h₁)
      → put_fields E ts hv a h₁ ≡ ok (tt, h')
      → sv2ptr E (affix_type s ts args) sv ret h ≡ ok (a, h')
  unfolding sv2ptr
  put_struct-trip s ts args sv hv ret a h h₁ h' e o k p r = ground (arith, p, r)

  get_struct-trip :
      (s : Slots) (ts args : TypeList) (outs : List (Text × Sv)) (a : ℕ) (g : Heap Sv)
      → s.numeric ≡ struct_flag
      → a ≢ 0
      → get_fields E fuel ts a g ≡ ok (outs, g)
      → ptr2sv E fuel (affix_type s ts args) a g ≡ ok (new_rv_hv outs, g)
  unfolding ptr2sv
  get_struct-trip s ts args outs a g e n r = ground (arith, r)

  -- A struct whose fields trip trips as a field of another.
  struct-Trips :
      (s : Slots) (ts args : TypeList) (sv : Sv) (hv : Text → Option Sv) (outs : List (Text × Sv))
      → s.numeric ≡ struct_flag
      → sv_ok sv ≡ true
      → hash_of sv ≡ some hv
      → ((a : ℕ) (h : Heap Sv) → a ≢ 0 → FieldsTrip 0 s.sizeof ts hv outs a h)
      → Trips E fuel (affix_type s ts args) sv s.sizeof (new_rv_hv outs)
  unfolding FieldsTrip
  struct-Trips s ts args sv hv outs e o k trips a h n =
      let all = trips a h n in
      (
        all.0,
        put_struct-trip s ts args sv hv a a h h all.0 e o k
            (ground (arith, provide_lem E a s.sizeof h)) all.1,
        λ q c. all.2 q (ground (arith, c)),
        λ g same.
            get_struct-trip s ts args outs a g e n (all.3 g (λ q i j. same q (omega arith) j)),
      )

  mutual
    ReadAs-Trips :
        (t : AffixType) (sv : Sv) (size : ℕ) (out : Sv)
        → ReadAs E t sv size out
        → Trips E fuel t sv size out
    ReadAs-Trips _ _ _ _ (integer_as f s sub args sv i e o k b) =
        integer-Trips E fuel f s sub args sv i e o k b
    ReadAs-Trips _ _ _ _ (struct_as s ts args sv hv outs e o k l) =
        struct-Trips s ts args sv hv outs e o k (λ a h n. fields_trip 0 s.sizeof ts hv outs l a h n)

    fields_trip :
        (lo hi : ℕ) (ts : TypeList) (hv : Text → Option Sv) (outs : List (Text × Sv))
        → FieldsReadAs E lo hi ts hv outs
        → (ret : ℕ) (h : Heap Sv) → ret ≢ 0
        → FieldsTrip lo hi ts hv outs ret h
    fields_trip _ _ _ _ _ (no_field_as lo hi hv le) ret h n = no_field-trip lo hi hv ret h
    fields_trip _ _ _ _ _ (field_as lo hi t ts hv name sv size out outs d na p r le l) ret h n =
        field-Trips lo hi t ts hv name sv size out outs ret h d na p
          (ReadAs-IsWhole E t sv size out r) le
          (FieldsReadAs-le E ((slots t).offset + size) hi ts hv outs l) n
          (ReadAs-Trips t sv size out r)
          (λ g. fields_trip ((slots t).offset + size) hi ts hv outs l ret g n)

  -- A struct of fields that are integers or again such structs, to any depth, laid out within its size
  -- in the order of their offsets with none overlapping, that `sv2ptr` writes from hashes of hashes to
  -- a fresh block is read back by `ptr2sv` as hashes of the same names in order, each integer converted
  -- to the C type of its field; no byte outside the block changes. Both run without an error. The
  -- address that malloc gives is not NULL.
  pub nested_round_trip :
      (s : Slots) (ts args : TypeList) (sv : Sv) (hv : Text → Option Sv) (outs : List (Text × Sv))
      (h : Heap Sv)
      → s.numeric ≡ struct_flag
      → sv_ok sv ≡ true
      → hash_of sv ≡ some hv
      → FieldsReadAs E 0 s.sizeof ts hv outs
      → malloc h s.sizeof ≢ 0
      → (h' : Heap Sv) × (sv2ptr E (affix_type s ts args) sv 0 h ≡ ok (malloc h s.sizeof, h'))
        × (ptr2sv E fuel (affix_type s ts args) (malloc h s.sizeof) h' ≡ ok (new_rv_hv outs, h'))
        × ((q : ℕ) → IsBeside (malloc h s.sizeof) s.sizeof q → h'.bytes q ≡ h.bytes q)
  unfolding FieldsTrip
  nested_round_trip s ts args sv hv outs h e o k l n =
      let a = malloc h s.sizeof in
      let h₁ = ready E 0 s.sizeof h in
      let all = fields_trip 0 s.sizeof ts hv outs l a h₁ n in
      (
        all.0,
        put_struct-trip s ts args sv hv 0 a h h₁ all.0 e o k (provide_lem E 0 s.sizeof h) all.1,
        get_struct-trip s ts args outs a all.0 e n (all.3 all.0 (λ q i j. refl)),
        λ q c.
            all.2 q (ground (arith, c))
            ∙ write_bytes-outside a (zeros s.sizeof) h.bytes q
                (ground (arith, c, length-zeros s.sizeof)),
      )
