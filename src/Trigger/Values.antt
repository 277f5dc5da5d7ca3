-- ===== src/Trigger/Values.antt =====
-- The values that `Fiction_trigger` makes of integer results.
use fiction.Prelude.{
  ℕ, ◌+◌, ◌-◌, ◌%◌, ◌^◌, ◌<◌, ◌≤◌, ◌≡◌, refl, ap, ◌∙◌, false, none, some, List, [], ◌∷◌, arith,
}
use fiction.Flags.{
  Flag, short_flag, ushort_flag, int_flag, uint_flag, long_flag, ulong_flag, longlong_flag,
  ulonglong_flag,
}
use fiction.Types.{AffixType, nil, cons}
use fiction.Memory.{Fiction, Heap, ok}
use fiction.Env.{Env}
use fiction.Call.{
  CallArg, RetKind, call_short, call_int, call_long, call_longlong, arg_short, arg_int, arg_long,
  arg_longlong,
}
use fiction.Marshal.Numbers.{IsInteger}
use fiction.Unmarshal.Cases.{sign_extend}
use fiction.Trigger.Args.{trigger_arg, trigger_args}
use fiction.Trigger.Results.{set_result, result}
use fiction.Trigger.{begin, gather, trigger}

-- The dcArg* and the dcCall* of an integer type.
abbrev pub argument : Flag → ℕ → CallArg
argument short_flag v = arg_short (v % 2 ^ 16)
argument ushort_flag v = arg_short (v % 2 ^ 16)
argument int_flag v = arg_int (v % 2 ^ 32)
argument uint_flag v = arg_int (v % 2 ^ 32)
argument long_flag v = arg_long v
argument ulong_flag v = arg_long v
argument _ v = arg_longlong v

abbrev pub kind_of : Flag → RetKind
kind_of short_flag = call_short
kind_of ushort_flag = call_short
kind_of int_flag = call_int
kind_of uint_flag = call_int
kind_of long_flag = call_long
kind_of ulong_flag = call_long
kind_of _ = call_longlong

module _ (E : Env) where
  open E use {Sv, sv_iv, sv_uv, new_iv, new_uv, dc_call}

  -- The result of a function that returns a value of the type: an unsigned int goes through int.
  abbrev pub returned : Flag → ℕ → Sv
  returned short_flag v = new_iv (sign_extend (2 ^ 15) v)
  returned ushort_flag v = new_uv v
  returned int_flag v = new_iv (sign_extend (2 ^ 31) v)
  returned uint_flag v = new_uv (sign_extend (2 ^ 31) v)
  returned ulong_flag v = new_uv v
  returned ulonglong_flag v = new_uv v
  returned _ v = new_iv v

  -- The integer that a call takes from a scalar, by SvUV for every unsigned type.
  abbrev pub passed : Flag → Sv → ℕ
  passed ushort_flag sv = sv_uv sv
  passed uint_flag sv = sv_uv sv
  passed ulong_flag sv = sv_uv sv
  passed ulonglong_flag sv = sv_uv sv
  passed _ sv = sv_iv sv

  trigger_arg-integer :
      (f : Flag) (t : AffixType) (sv : Sv) (h : Heap Sv)
      → IsInteger f
      → trigger_arg E f t sv h ≡ ok (some (argument f (passed f sv)), h)
  unfolding trigger_arg
  trigger_arg-integer short_flag t sv h i = refl
  trigger_arg-integer ushort_flag t sv h i = refl
  trigger_arg-integer int_flag t sv h i = refl
  trigger_arg-integer uint_flag t sv h i = refl
  trigger_arg-integer long_flag t sv h i = refl
  trigger_arg-integer ulong_flag t sv h i = refl
  trigger_arg-integer longlong_flag t sv h i = refl
  trigger_arg-integer ulonglong_flag t sv h i = refl
  trigger_arg-integer _ t sv h i = absurd i

  set_result-integer :
      (f : Flag) (fuel : ℕ) (a : Fiction Sv) (t : AffixType) (args : List CallArg) (v : ℕ)
      (h h' : Heap Sv)
      → IsInteger f
      → a.restype ≡ some t
      → a.restype_c ≡ f
      → dc_call (kind_of f) args a.entry_point h ≡ ok (v, h')
      → set_result E fuel a none args h ≡ ok (some (returned f v), h')
  unfolding set_result result
  set_result-integer short_flag fuel a t args v h h' i r c e = ground arith
  set_result-integer ushort_flag fuel a t args v h h' i r c e = ground arith
  set_result-integer int_flag fuel a t args v h h' i r c e = ground arith
  set_result-integer uint_flag fuel a t args v h h' i r c e = ground arith
  set_result-integer long_flag fuel a t args v h h' i r c e = ground arith
  set_result-integer ulong_flag fuel a t args v h h' i r c e = ground arith
  set_result-integer longlong_flag fuel a t args v h h' i r c e = ground arith
  set_result-integer ulonglong_flag fuel a t args v h h' i r c e = ground arith
  set_result-integer _ fuel a t args v h h' i r c e = absurd i

  -- A call of a function of one integer argument that returns an integer: the function is called on
  -- the scalar's value converted to the argument's C type, what it returns is the call's result, and
  -- the fiction keeps it.
  pub trigger-integer :
      (f g : Flag) (fuel : ℕ) (a : Fiction Sv) (t u : AffixType) (sv : Sv) (v : ℕ) (h h' : Heap Sv)
      → IsInteger f
      → IsInteger g
      → a.signature ≡ some (f ∷ [])
      → a.argtypes ≡ cons t nil
      → a.restype ≡ some u
      → a.restype_c ≡ g
      → a.aggr_restype ≡ false
      → dc_call (kind_of g) (argument f (passed f sv) ∷ []) a.entry_point h ≡ ok (v, h')
      → trigger E fuel a (sv ∷ []) h
        ≡ ok ((record a { res = some (returned g v) }, some (returned g v)), h')
  unfolding trigger begin gather trigger_args
  trigger-integer f g fuel a t u sv v h h' i j s k r c n e = ground (
    arith,
    trigger_arg-integer f t sv h i,
    set_result-integer g fuel a u (argument f (passed f sv) ∷ []) v h h' j r c e,
  )

  -- A fault of the code: an unsigned int of 2^31 or more that a bound function returns reaches Perl
  -- sign-extended, as a number of 2^64 - 2^31 or more.
  set_result-uint :
      (fuel : ℕ) (a : Fiction Sv) (t : AffixType) (args : List CallArg) (v : ℕ) (h h' : Heap Sv)
      → a.restype ≡ some t
      → a.restype_c ≡ uint_flag
      → dc_call call_int args a.entry_point h ≡ ok (v, h')
      → (2 ^ 31 ≤ v) × (v < 2 ^ 32)
      → set_result E fuel a none args h ≡ ok (some (new_uv (v + (2 ^ 64 - 2 ^ 32))), h')
  unfolding sign_extend
  set_result-uint fuel a t args v h h' r c e b =
      set_result-integer uint_flag fuel a t args v h h' tt r c e
      ∙ ap (λ n. ok (some (new_uv n), h')) (ground arith)
