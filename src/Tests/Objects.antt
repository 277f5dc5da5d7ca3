-- ===== src/Tests/Objects.antt =====
-- Examples of Affix objects.
use fiction.Prelude.{
  ℕ, ◌≡◌, refl, ap, true, false, none, some, List, [], ◌∷◌, arith, length, codes, str_eq, Option,
  Text,
}
use fiction.Flags.{int_flag, struct_flag, pointer_flag, other}
use fiction.Types.{AffixType, affix_type, cons, nil, signature_of, count}
use fiction.Trigger.{trigger, begin, gather}
use fiction.AffixObject.SameResults.{IsSameCall}
use fiction.AffixObject.Agreeing.{IsPair, trigger-affix_trigger}
use fiction.Memory.{Fiction, Heap, ok, croak, Croak, safemalloc, peek, warn, decode, read_bytes}
use fiction.Call.{arg_int, c_default}
use fiction.Trigger.Results.{set_result, result}
use fiction.Trigger.Args.{trigger_arg, trigger_args}
use fiction.Unmarshal.{ptr2sv}
use fiction.Unmarshal.Cases.{sign_extend, get_pointer, get_iv}
use fiction.Aggregate.{is_aggregate}
use fiction.AffixObject.{Affix, convention_of, is_variadic, stdcall, mode_of, sets_reset_mode}
use fiction.AffixObject.Args.{
  affix_loop, affix_step, convention_step, affix_arg, affix_pointer, set_temp, is_void,
}
use fiction.AffixObject.Results.{affix_result, affix_pointer_result}
use fiction.AffixObject.Trigger.{
  Called, begun, affix_trigger, affix_run, first_loop, finish_call, write_kept, write_back,
  write_one, final_mode, wanted,
}
use fiction.AffixObject.Conventions.{done, convention-numbers}
use fiction.AffixObject.Left.{Keeps, left_mode}
use fiction.AffixObject.Modes.{croaking_call, call, calls_over, Session-default_mode}
use fiction.AffixObject.Temps.{IsWithin, affix_trigger-IsWithin}
use fiction.AffixObject.Make.{
  make, finish_make, affix_symbol, affix_library, load_for, locate_lib, affix_types, add_types,
  add_type, affix_entry, affix_return, has_colons,
}
use fiction.AffixObject.Bound.{make-Resolves, make-trigger, Resolves}
use fiction.Tests.Toy.{
  Val, undef_val, int_val, text_val, array_val, object_val, no_vals, more_vals, toy, empty,
  plain_type, slots_of, int_slots,
}

abbrev int_type : AffixType
int_type = plain_type int_flag 4 0 none

-- int add(int), with the convention of this flag
abbrev add_by : ℕ → Affix
add_by convention = record {
  num_args = 1;
  args = (other convention, int_type) ∷ (int_flag, int_type) ∷ [];
  ret_type = int_flag;
  ret_info = int_type;
  lib_name = none;
  lib_handle = 256;
  entry_point = 512;
  aggregates = λ i. none;
  ret_aggregate = none;
  ellipsis = false;
  cpp_constructor = false;
  cpp_const = false;
  cpp_struct = false;
  temp_ptrs = none;
  ret_ptr = 0;
}

five_handed :
    trigger_args toy (int_flag ∷ []) (cons int_type nil) (int_val 5 ∷ []) empty
    ≡ ok (arg_int 5 ∷ [], empty)
unfolding trigger_args trigger_arg
five_handed = refl

convention-numbers_example :
    (h : Heap Val) × (affix_loop toy
        (add_by b'T')
        (int_val 5 ∷ [])
        0
        (add_by b'T').args
        (begun c_default none [] 0)
        empty
      ≡ ok (done stdcall (arg_int 5 ∷ []) 1 none, h))
unfolding convention_of is_variadic signature_of count
convention-numbers_example =
    convention-numbers toy (add_by b'T') stdcall (other b'T') int_type (cons int_type nil)
      (int_val 5 ∷ []) c_default empty empty empty (arg_int 5 ∷ []) refl refl refl (omega arith)
      refl five_handed

-- this-call
method_called :
    (out : Called toy) × (h : Heap Val) × (affix_trigger toy 1 c_default
        (add_by b'*')
        (int_val 5 ∷ [])
        empty
      ≡ ok (out, h))
unfolding affix_trigger affix_run first_loop affix_loop affix_step convention_step convention_of
    mode_of sets_reset_mode is_variadic is_void affix_arg finish_call affix_result write_kept wanted
    sign_extend final_mode warn
method_called = (_, _, refl)

-- a call with too many items, and one whose only scalar is an object of another class
abbrev too_many : List Val
too_many = int_val 5 ∷ int_val 6 ∷ []

refused : (e : Croak) × (affix_trigger toy 1 c_default (add_by b'>') too_many empty ≡ croak e)
unfolding affix_trigger wanted
refused = (_, refl)

reset_Keeps : Keeps c_default (add_by b'>').args
unfolding convention_of mode_of
reset_Keeps = (λ c e. ground (arith, e), (λ c e. absurd (ground (arith, e)), tt))

Session-default_mode_example : method_called.0.vm_mode ≡ c_default
unfolding convention_of refused left_mode wanted
Session-default_mode_example = Session-default_mode toy method_called.0.vm_mode (
    croaking_call 1 (add_by b'>') too_many refused.0 empty reset_Keeps refused.1 (
      call 1 (add_by b'*') (int_val 5 ∷ []) empty method_called.1 method_called.0 refl
        method_called.2 calls_over))

-- this-call of a struct, which takes no integer
abbrev on_struct : Affix
on_struct = record (add_by b'*') { args = (other b'*', int_type) ∷ (struct_flag, int_type) ∷ [] }

-- int *f(int *)
abbrev pointer_type : AffixType
pointer_type =
    affix_type (slots_of pointer_flag 8 0 none) (cons (affix_type int_slots nil nil) nil) nil

abbrev by_pointer : Affix
by_pointer = record (add_by 0) {
  args = (pointer_flag, pointer_type) ∷ [];
  ret_type = pointer_flag;
  ret_info = pointer_type;
  lib_name = some [];
}

filled :
    (out : Called toy) × (h : Heap Val) × (affix_trigger toy 1 c_default by_pointer
        (undef_val false ∷ [])
        empty
      ≡ ok (out, h))
unfolding affix_trigger affix_run first_loop affix_loop affix_step convention_of is_void affix_arg
    affix_pointer set_temp safemalloc warn finish_call affix_result affix_pointer_result write_kept
    write_back write_one wanted final_mode ptr2sv get_pointer get_iv peek read_bytes decode str_eq
filled = (_, _, refl)

affix_trigger-IsWithin_example : (filled.0.after.num_args ≡ 1) × IsWithin 1 filled.0.after.temp_ptrs
affix_trigger-IsWithin_example =
    affix_trigger-IsWithin toy 1 c_default by_pointer (undef_val false ∷ []) empty filled.1 filled.0
      filled.2 tt

-- affix( undef, 'add', [Pointer[Int]], Pointer[Int] )
abbrev one_type : Val
one_type = array_val (more_vals (object_val 1) no_vals)

affix_made :
    (out : Affix × Val) × (h : Heap Val) × (make toy true
        (undef_val true)
        (text_val (codes "add"))
        one_type
        (object_val 1)
        empty
      ≡ ok (out, h))
unfolding make finish_make affix_symbol affix_library load_for locate_lib affix_types add_types
    add_type convention_of is_aggregate affix_entry affix_return has_colons str_eq
affix_made = (_, _, refl)

make-Resolves_example :
    (names : Text × Text) × (path : Option Text) × (g : Heap Val) × (g' : Heap Val) × (affix_symbol
        toy true
        (text_val (codes "add"))
        empty
      ≡ ok (names, g))
    × (affix_library toy (undef_val true) g ≡ ok ((path, 256), g'))
    × Resolves toy 256 affix_made.0.1 one_type names.0 512
unfolding affix_made
make-Resolves_example =
    make-Resolves toy true (undef_val true) (text_val (codes "add")) one_type (object_val 1)
      affix_made.0.0 affix_made.0.1 empty affix_made.1 affix_made.2

called_made :
    (out : Called toy) × (h : Heap Val) × (affix_trigger toy 1 c_default affix_made.0.0
        (undef_val true ∷ [])
        empty
      ≡ ok (out, h))
unfolding affix_trigger affix_run first_loop affix_loop affix_step convention_of is_void affix_arg
    affix_pointer set_temp safemalloc warn finish_call affix_result affix_pointer_result write_kept
    write_back write_one wanted final_mode ptr2sv peek read_bytes decode str_eq affix_made
called_made = (_, _, refl)

make-trigger_example : length (undef_val true ∷ []) ≡ 1
unfolding convention_of affix_made
make-trigger_example =
    make-trigger toy true (undef_val true) (text_val (codes "add")) one_type (object_val 1)
      affix_made.0.0 affix_made.0.1 empty affix_made.1 1 c_default (undef_val true ∷ [])
      (object_val 1 ∷ []) empty called_made.1 called_made.0 affix_made.2 refl refl refl
      called_made.2

-- the same function as a fiction
abbrev add_fiction : Fiction Val
add_fiction = record {
  lib = some 256;
  entry_point = 512;
  symbol = codes "add";
  signature = some (int_flag ∷ []);
  argtypes = cons int_type nil;
  restype = some int_type;
  restype_c = int_flag;
  aggr_restype = false;
  res = none;
}

abbrev add_affix : Affix
add_affix = record (add_by 0) { args = (int_flag, int_type) ∷ [] }

one_number : IsPair toy add_affix add_fiction (cons int_type nil) int_type
unfolding signature_of count
one_number = record {
  numbers = refl;
  common = refl;
  types = refl;
  counted = refl;
  no_method = refl;
  no_constructor = refl;
  nothing_kept = refl;
  signature = refl;
  argtypes = refl;
  returns = refl;
  same_return = refl;
}

same_total : IsSameCall toy c_default 512 512
same_total k args h h' g v e = (g, ap (λ x. ok (x, g)) (ground (arith, e)))

fiction_called :
    (out : Fiction Val) × (h : Heap Val) × (trigger toy 1 add_fiction (int_val 5 ∷ []) empty
      ≡ ok ((out, some (int_val 5)), h))
unfolding trigger begin gather trigger_args trigger_arg set_result result sign_extend
fiction_called = (_, _, refl)

trigger-affix_trigger_example :
    (out : Called toy) × (h : Heap Val) × (affix_trigger toy 1 c_default add_affix
        (int_val 5 ∷ [])
        empty
      ≡ ok (out, h))
    × (out.retval ≡ some (int_val 5))
    × (out.written ≡ [])
    × (out.vm_mode ≡ c_default)
trigger-affix_trigger_example =
    trigger-affix_trigger toy add_affix add_fiction fiction_called.0 (cons int_type nil) int_type 1
      c_default (int_val 5 ∷ []) empty fiction_called.1 empty (int_val 5) one_number same_total
      fiction_called.2
