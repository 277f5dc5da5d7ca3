-- ===== src/Tests/Called.antt =====
-- Examples of binding, calls and callbacks.
use fiction.Prelude.{
  ℕ, ◌-◌, ◌^◌, ◌≡◌, refl, true, false, none, some, List, [], ◌∷◌, arith, length, codes, str_eq,
}
use fiction.Flags.{Flag, ushort_flag, int_flag, uint_flag, wstring_flag}
use fiction.Types.{AffixType, TypeList, nil, cons, signature_of}
use fiction.Memory.{CodeRef, Fiction, ok}
use fiction.Call.{arg_int, val_ushort}
use fiction.Unmarshal.Cases.{sign_extend, dollars}
use fiction.Trigger.{trigger, begin, gather}
use fiction.Trigger.Args.{trigger_arg, trigger_args}
use fiction.Trigger.Results.{set_result, result}
use fiction.Trigger.Values.{trigger-integer}
use fiction.Trigger.Arity.{trigger_args-handed}
use fiction.Callback.{callback, callback_args}
use fiction.Callback.Widths.{callback-echo, callback_args-unsigned}
use fiction.Bind.{
  bind, open_library, symbol_names, with_types, with_argtypes, with_restype, types_of, initial_res,
  is_struct,
}
use fiction.Bind.Lookup.{bind-resolves, bind-trigger}
use fiction.Tests.Toy.{
  Val, undef_val, int_val, text_val, array_val, no_vals, more_vals, toy, empty, plain_type,
}

abbrev int_type : AffixType
int_type = plain_type int_flag 4 0 none

-- int add(int)
abbrev fiction_of : List Flag → TypeList → Fiction Val
fiction_of signature ts = record {
  lib = some 256;
  entry_point = 512;
  symbol = codes "add";
  signature = some signature;
  argtypes = ts;
  restype = some int_type;
  restype_c = int_flag;
  aggr_restype = false;
  res = some (undef_val false);
}

abbrev negate_one : Fiction Val
negate_one = fiction_of (int_flag ∷ []) (cons int_type nil)

-- 2^32 - 1 is handed over as the int -1, and comes back as the IV -1.
trigger-integer_example :
    trigger toy 1 negate_one (int_val (2 ^ 32 - 1) ∷ []) empty
    ≡ ok (
      (record negate_one { res = some (int_val (2 ^ 64 - 1)) }, some (int_val (2 ^ 64 - 1))),
      empty,
    )
unfolding sign_extend
trigger-integer_example =
    trigger-integer toy int_flag int_flag 1 negate_one int_type int_type (int_val (2 ^ 32 - 1))
      (2 ^ 32 - 1) empty empty tt tt refl refl refl refl refl refl

five_called :
    trigger toy 1 negate_one (int_val 5 ∷ []) empty
    ≡ ok ((record negate_one { res = some (int_val 5) }, some (int_val 5)), empty)
unfolding sign_extend trigger begin gather trigger_args trigger_arg set_result result
five_called = refl

-- A wide string, then an int.
handed_over :
    trigger_args toy
      (wstring_flag ∷ int_flag ∷ [])
      (cons int_type (cons int_type nil))
      (text_val (codes "a") ∷ int_val 5 ∷ [])
      empty
    ≡ ok (arg_int 5 ∷ [], empty)
unfolding trigger_args trigger_arg
handed_over = refl

trigger_args-handed_example : length (arg_int 5 ∷ []) ≡ 1
trigger_args-handed_example =
    trigger_args-handed toy (wstring_flag ∷ int_flag ∷ []) (cons int_type (cons int_type nil))
      (text_val (codes "a") ∷ int_val 5 ∷ []) empty empty (arg_int 5 ∷ []) handed_over

-- An unsigned short callback of one argument that returns it
abbrev echo : CodeRef Val
echo = record {
  signature = ushort_flag ∷ [];
  argtypes = cons int_type nil;
  restype = int_type;
  restype_c = ushort_flag;
  cv = undef_val false;
}

callback-echo_example :
    callback toy 1 echo (65535 ∷ []) empty ≡ ok ((val_ushort 65535, b'S'), empty)
callback-echo_example =
    callback-echo toy ushort_flag 1 echo int_type 65535 empty empty tt (omega arith) refl refl refl
      (λ n b. refl) (λ n b. refl) (λ sv. refl)

callback_args-unsigned_example :
    callback_args toy 1
      (ushort_flag ∷ uint_flag ∷ [])
      (cons int_type (cons int_type nil))
      (65535 ∷ (2 ^ 32 - 1) ∷ [])
      empty
    ≡ ok (int_val (2 ^ 64 - 1) ∷ int_val (2 ^ 64 - 1) ∷ [], empty)
callback_args-unsigned_example =
    callback_args-unsigned toy 1 int_type 65535 (2 ^ 32 - 1) empty (omega arith, omega arith)
      (omega arith, omega arith)

-- wrap( undef, 'add', [Int] ), with Int for the result too
abbrev arg_list : Val
arg_list = array_val (more_vals (int_val 0) no_vals)

bound :
    bind toy false (undef_val true) (text_val (codes "add")) (arg_list ∷ int_val 0 ∷ []) empty
    ≡ ok ((negate_one, int_val 512), empty)
unfolding bind open_library symbol_names with_types with_argtypes with_restype types_of initial_res
    is_struct signature_of dollars str_eq
bound = refl

bind-resolves_example :
    (handle : ℕ) × (open_library toy (undef_val true) ≡ some handle)
    × (some 256 ≡ some handle)
    × (toy.find_symbol handle (codes "add") ≡ some 512)
bind-resolves_example =
    bind-resolves toy false (undef_val true) (text_val (codes "add")) (arg_list ∷ int_val 0 ∷ [])
      negate_one (int_val 512) empty empty bound

bind-trigger_example : length (int_val 5 ∷ []) ≡ 1
bind-trigger_example =
    bind-trigger toy false (undef_val true) (text_val (codes "add")) arg_list (int_val 0 ∷ [])
      (int_val 0 ∷ []) negate_one (int_val 512) empty empty 1 (int_val 5 ∷ []) empty empty
      (record negate_one { res = some (int_val 5) }, some (int_val 5)) refl refl bound five_called
