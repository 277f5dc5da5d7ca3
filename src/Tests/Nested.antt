-- ===== src/Tests/Nested.antt =====
-- An example of a struct in a struct.
use fiction.Prelude.{ℕ, ◌≡◌, refl, none, some, List, [], ◌∷◌, arith, codes, str_eq, Text}
use fiction.Flags.{int_flag, short_flag, struct_flag, union_flag}
use fiction.Types.{affix_type, TypeList, nil, cons, Slots}
use fiction.Memory.{Heap, ok, store, calloc}
use fiction.Env.{sizeof}
use fiction.Marshal.{sv2ptr}
use fiction.Marshal.Cases.{put_union, put_member, put_number, put_scalar, provide}
use fiction.Marshal.Unions.{HasMember, union_needs_member}
use fiction.Marshal.Nested.{
  IsBeside, ReadAs, FieldsReadAs, integer_as, struct_as, no_field_as, field_as,
}
use fiction.Marshal.NestedStructs.{nested_round_trip}
use fiction.Unmarshal.{ptr2sv}
use fiction.Unmarshal.Cases.{sign_extend}
use fiction.Tests.Toy.{
  Val, int_val, hash_val, Entries, no_entries, more_entries, look_up, toy, empty, slots_of,
}

-- struct { struct { short y; } p; int z; }
abbrev y_slots : Slots
y_slots = slots_of short_flag 2 0 (some (codes "y"))

abbrev p_slots : Slots
p_slots = slots_of struct_flag 2 0 (some (codes "p"))

abbrev z_slots : Slots
z_slots = slots_of int_flag 4 4 (some (codes "z"))

abbrev outer_slots : Slots
outer_slots = slots_of struct_flag 8 0 none

abbrev inner_fields : TypeList
inner_fields = cons (affix_type y_slots nil nil) nil

abbrev outer_fields : TypeList
outer_fields = cons (affix_type p_slots inner_fields nil) (cons (affix_type z_slots nil nil) nil)

abbrev inner_entries : Entries
inner_entries = more_entries (codes "y") (int_val 65535) no_entries

abbrev outer_entries : Entries
outer_entries =
    more_entries (codes "p") (hash_val inner_entries)
      (more_entries (codes "z") (int_val 9) no_entries)

y_ReadAs : ReadAs toy (affix_type y_slots nil nil) (int_val 65535) 2 (int_val 18446744073709551615)
unfolding sizeof sign_extend
y_ReadAs = integer_as short_flag y_slots nil nil (int_val 65535) tt refl refl refl (omega arith)

z_ReadAs : ReadAs toy (affix_type z_slots nil nil) (int_val 9) 4 (int_val 9)
unfolding sizeof sign_extend
z_ReadAs = integer_as int_flag z_slots nil nil (int_val 9) tt refl refl refl (omega arith)

inner_ReadAs :
    FieldsReadAs toy 0 2 inner_fields
      (look_up inner_entries)
      ((codes "y", int_val 18446744073709551615) ∷ [])
unfolding str_eq
inner_ReadAs =
    field_as 0 2 (affix_type y_slots nil nil) nil (look_up inner_entries) (codes "y")
      (int_val 65535) 2 (int_val 18446744073709551615) [] refl refl refl y_ReadAs (omega arith)
      (no_field_as 2 2 (look_up inner_entries) (omega arith))

abbrev outs : List (Text × Val)
outs =
    (codes "p", hash_val (more_entries (codes "y") (int_val 18446744073709551615) no_entries))
    ∷ (codes "z", int_val 9)
    ∷ []

outer_ReadAs : FieldsReadAs toy 0 8 outer_fields (look_up outer_entries) outs
unfolding str_eq
outer_ReadAs =
    field_as 0 8 (affix_type p_slots inner_fields nil) (cons (affix_type z_slots nil nil) nil)
      (look_up outer_entries) (codes "p") (hash_val inner_entries) 2
      (hash_val (more_entries (codes "y") (int_val 18446744073709551615) no_entries))
      ((codes "z", int_val 9) ∷ []) refl refl refl
      (struct_as p_slots inner_fields nil (hash_val inner_entries) (look_up inner_entries)
        ((codes "y", int_val 18446744073709551615) ∷ []) refl refl refl inner_ReadAs)
      (omega arith)
      (field_as 2 8 (affix_type z_slots nil nil) nil (look_up outer_entries) (codes "z") (int_val 9)
        4 (int_val 9) [] refl refl refl z_ReadAs (omega arith)
        (no_field_as 8 8 (look_up outer_entries) (omega arith)))

nested_round_trip_example :
    (h : Heap Val) × (sv2ptr toy
        (affix_type outer_slots outer_fields nil)
        (hash_val outer_entries)
        0
        empty
      ≡ ok (4096, h))
    × (ptr2sv toy 1 (affix_type outer_slots outer_fields nil) 4096 h
        ≡ ok (
          hash_val (
              more_entries
                (codes "p")
                (hash_val (more_entries (codes "y") (int_val 18446744073709551615) no_entries))
                (more_entries (codes "z") (int_val 9) no_entries)),
          h,
        ))
    × ((q : ℕ) → IsBeside 4096 8 q → h.bytes q ≡ 0)
nested_round_trip_example =
    nested_round_trip toy 1 outer_slots outer_fields nil (hash_val outer_entries)
      (look_up outer_entries) outs empty refl refl refl outer_ReadAs (omega arith)

-- union { short y; int z; } given a y
abbrev union_fields : TypeList
union_fields = cons (affix_type y_slots nil nil) (cons (affix_type z_slots nil nil) nil)

union_made :
    (h : Heap Val) × (sv2ptr toy
        (affix_type (slots_of union_flag 8 0 none) union_fields nil)
        (hash_val inner_entries)
        0
        empty
      ≡ ok (4096, h))
unfolding sv2ptr put_union put_member put_number put_scalar provide store calloc sizeof str_eq
union_made = (_, refl)

union_needs_member_example : HasMember toy union_fields (look_up inner_entries)
union_needs_member_example =
    union_needs_member toy (slots_of union_flag 8 0 none) union_fields nil (hash_val inner_entries)
      (look_up inner_entries) 0 4096 empty union_made.0 refl refl refl union_made.1
