-- ===== src/Tests/Marshalled.antt =====
-- Examples of values written to C memory and read from it.
use fiction.Prelude.{
  ℕ, ◌-◌, ◌^◌, ◌≡◌, refl, false, Option, none, some, [], ◌∷◌, arith, Text, codes, str_eq,
}
use fiction.Flags.{char_flag, short_flag, ushort_flag, int_flag, pointer_flag, struct_flag}
use fiction.Types.{AffixType, affix_type, TypeList, nil, cons, Slots}
use fiction.Memory.{
  Heap, ok, read_bytes, write_bytes, write_byte, decode, encode, peek, store, calloc,
}
use fiction.Env.{sizeof}
use fiction.Marshal.{sv2ptr}
use fiction.Marshal.Cases.{put_struct, put_field, put_scalar, put_number, provide}
use fiction.Marshal.Numbers.{sv2ptr-ptr2sv}
use fiction.Marshal.Structs.{IsLaidOut, HasFields, struct_needs_fields}
use fiction.Marshal.Texts.{text_round_trip}
use fiction.Marshal.Blocks.{sv2ptr-array, char_overrun}
use fiction.Unmarshal.{ptr2sv}
use fiction.Memory.{c_text}
use fiction.Unmarshal.Cases.{sign_extend, get_pointer, get_iv}
use fiction.Unmarshal.Pointers.{ptr2sv-table}
use fiction.Pin.{set_pin, get_pin}
use fiction.Pin.RoundTrip.{set_pin-get_pin}
use fiction.Marshal.Nested.{IsBeside}
use fiction.Tests.Toy.{
  Val, undef_val, int_val, text_val, array_val, hash_val, no_vals, more_vals, no_entries,
  more_entries, look_up, toy, empty, slots_of, plain_type,
}

-- struct { int x; short y; }
abbrev x_slots : Slots
x_slots = slots_of int_flag 4 0 (some (codes "x"))

abbrev y_slots : Slots
y_slots = slots_of short_flag 2 4 (some (codes "y"))

abbrev point_slots : Slots
point_slots = slots_of struct_flag 8 0 none

abbrev point_fields : TypeList
point_fields = cons (affix_type x_slots nil nil) (cons (affix_type y_slots nil nil) nil)

abbrev point : Val
point =
    hash_val
      (more_entries (codes "y") (int_val 65537) (more_entries (codes "x") (int_val 7) no_entries))

abbrev point_entries : Text → Option Val
point_entries =
    look_up
      (more_entries (codes "y") (int_val 65537) (more_entries (codes "x") (int_val 7) no_entries))

point_IsLaidOut : IsLaidOut toy 0 point_fields point_entries
unfolding str_eq sizeof
point_IsLaidOut = (
  record {
    integer = tt;
    direct = refl;
    name = codes "x";
    sv = int_val 7;
    named = refl;
    present = refl;
    defined = refl;
    is_iok = refl;
    in_range = omega arith;
  },
  omega arith,
  (
    record {
      integer = tt;
      direct = refl;
      name = codes "y";
      sv = int_val 65537;
      named = refl;
      present = refl;
      defined = refl;
      is_iok = refl;
      in_range = omega arith;
    },
    ground arith,
    tt,
  ),
)

sv2ptr-ptr2sv_example :
    (h : Heap Val) × (sv2ptr toy (plain_type short_flag 2 0 none) (int_val 65535) 0 empty
      ≡ ok (4096, h))
    × (ptr2sv toy 1 (plain_type short_flag 2 0 none) 4096 h ≡ ok (int_val (2 ^ 64 - 1), h))
unfolding sign_extend
sv2ptr-ptr2sv_example =
    sv2ptr-ptr2sv toy short_flag 1 (slots_of short_flag 2 0 none) nil nil (int_val 65535) empty tt
      refl refl refl (omega arith) (omega arith)

text_round_trip_example :
    (h : Heap Val) × (sv2ptr toy (plain_type char_flag 1 0 none) (text_val (codes "hello")) 0 empty
      ≡ ok (4096, h))
    × (ptr2sv toy 6 (plain_type char_flag 1 0 none) 4096 h ≡ ok (text_val (codes "hello"), h))
unfolding c_text
text_round_trip_example =
    text_round_trip toy char_flag 6 (slots_of char_flag 1 0 none) nil nil (text_val (codes "hello"))
      empty tt refl refl refl (omega arith) (omega arith)

abbrev three : Val
three = array_val (more_vals (int_val 1) (more_vals (int_val 258) (more_vals (int_val 3) no_vals)))

sv2ptr-array_example :
    (h : Heap Val) × (sv2ptr toy (plain_type short_flag 2 0 none) three 0 empty ≡ ok (4096, h))
    × (h.blocks ≡ (4096, 6) ∷ [])
    × (read_bytes 4096 6 h.bytes ≡ 1 ∷ 0 ∷ 2 ∷ 1 ∷ 3 ∷ 0 ∷ [])
unfolding sizeof encode
sv2ptr-array_example =
    sv2ptr-array toy short_flag (slots_of short_flag 2 0 none) nil nil three
      (int_val 1 ∷ int_val 258 ∷ int_val 3 ∷ []) empty tt refl refl refl refl

char_overrun_example :
    (h : Heap Val) × (sv2ptr toy (plain_type char_flag 1 0 none) (text_val (codes "ab")) 64 empty
      ≡ ok (64, h))
    × (h.bytes 65 ≡ b'b')
unfolding sizeof
char_overrun_example =
    char_overrun toy (slots_of char_flag 1 0 none) nil nil (text_val (codes "ab")) b'a' b'b' [] 64
      empty refl refl refl refl (omega arith)

-- A run on the struct, with the heap that it leaves.
point_made :
    (h : Heap Val) × (sv2ptr toy (affix_type point_slots point_fields nil) point 0 empty
      ≡ ok (4096, h))
unfolding sv2ptr put_struct put_field put_number put_scalar provide store calloc sizeof str_eq
point_made = (_, refl)

struct_needs_fields_example : HasFields toy point_fields point_entries
struct_needs_fields_example =
    struct_needs_fields toy point_slots point_fields nil point point_entries 0 4096 empty
      point_made.0 refl refl refl point_made.1

set_pin-get_pin_example :
    (h : Heap Val) × (set_pin toy
        (record { ptr = 64; type_sv = plain_type ushort_flag 2 0 none })
        (int_val 65541)
        empty
      ≡ ok (tt, h))
    × (get_pin toy 1 (record { ptr = 64; type_sv = plain_type ushort_flag 2 0 none }) h
        ≡ ok (int_val 5, h))
    × (h.blocks ≡ [])
    × ((q : ℕ) → IsBeside 4096 2 q → IsBeside 64 2 q → h.bytes q ≡ 0)
unfolding sizeof
set_pin-get_pin_example =
    set_pin-get_pin toy ushort_flag 1 (slots_of ushort_flag 2 0 none) nil nil 64 (int_val 65541)
      empty tt refl refl refl refl (omega arith) (omega arith)

-- A table at 4096 of one pointer, to a table at 8192 of none.
abbrev table : Heap Val
table = record empty { bytes = write_bytes 4096 (encode 8 8192) (λ a. 0) }

abbrev pointer_type : AffixType
pointer_type =
    affix_type (slots_of pointer_flag 8 0 none) (cons (plain_type int_flag 4 0 none) nil) nil

ptr2sv-table_example :
    ptr2sv toy 2
      (affix_type (slots_of pointer_flag 8 0 none) (cons pointer_type nil) nil)
      4096
      table
    ≡ ok (array_val (more_vals (int_val 0) (more_vals (undef_val false) no_vals)), table)
unfolding ptr2sv peek read_bytes write_bytes write_byte encode decode get_pointer get_iv sign_extend
    sizeof
ptr2sv-table_example =
    ptr2sv-table toy (slots_of pointer_flag 8 0 none) pointer_type nil nil (λ p. int_val 0)
      (8192 ∷ []) 2 4096 table refl refl (omega arith) (omega arith) (refl, omega arith, refl, refl)
