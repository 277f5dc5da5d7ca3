-- ===== src/Trigger/Arity.antt =====
-- How many arguments `Fiction_trigger` takes, and how many it hands to dyncall.
use fiction.Prelude.{
  ℕ, suc, ◌≡◌, ◌≢◌, Bool, true, false, Bool-cases, inl, inr, Option, some, is_some, Option-cases,
  List, [], ◌∷◌, ◌==◌, ltb, ==_iff, arith, if◌then◌else◌, length,
}
use fiction.Flags.{
  Flag, void_flag, bool_flag, schar_flag, char_flag, uchar_flag, wchar_flag, short_flag,
  ushort_flag, int_flag, uint_flag, long_flag, ulong_flag, longlong_flag, ulonglong_flag,
  float_flag, double_flag, wstring_flag, stdstring_flag, struct_flag, cppstruct_flag, union_flag,
  affix_flag, coderef_flag, pointer_flag, sv_flag, other,
}
use fiction.Types.{AffixType, TypeList, nil, cons, subtypes, first}
use fiction.Memory.{Fiction, Heap, ok, croak, arguments, M, pure, ◌>>=◌}
use fiction.Memory.Runs.{bind_ok}
use fiction.Env.{Env}
use fiction.Call.{CallArg, arg_pointer, arg_aggr}
use fiction.Aggregate.{aggregate}
use fiction.Marshal.{sv2ptr}
use fiction.Trigger.Args.{lift, char_arg, trigger_arg, trigger_args, add}
use fiction.Trigger.Results.{set_result}
use fiction.Trigger.{begin, gather, trigger}

-- The positions of a signature that hand a value to dyncall.
abbrev pub hands_over : Flag → Bool
hands_over void_flag = false
hands_over wstring_flag = false
hands_over _ = true

abbrev pub handed : List Flag → ℕ
handed [] = 0
handed (f ∷ fs) = if hands_over f then suc (handed fs) else handed fs

module _ (E : Env) where
  open E use {Sv}

  gather-count :
      (a : Fiction Sv) (signature : List Flag) (svs : List Sv) (h h' : Heap Sv)
      (args : List CallArg)
      → a.signature ≡ some signature
      → gather E a svs h ≡ ok (args, h')
      → length svs ≡ length signature
  unfolding gather
  gather-count a signature svs h h' args s e = elim (Bool-cases (length svs == length signature)) [
    | inl same ↦ (==_iff (length svs) (length signature)).0 same
    | inr other_length ↦ absurd (ground arith)
  ]

  -- A call of a function bound with argument types that returns was given as many arguments as the
  -- signature has positions.
  pub trigger-count :
      (fuel : ℕ) (a : Fiction Sv) (signature : List Flag) (svs : List Sv) (h h' : Heap Sv)
      (out : Fiction Sv × Option Sv)
      → a.signature ≡ some signature
      → trigger E fuel a svs h ≡ ok (out, h')
      → length svs ≡ length signature
  unfolding trigger
  trigger-count fuel a signature svs h h' out s e =
      let started =
        bind_ok (begin E a)
          (λ d. gather E a svs >>= λ args.
            set_result E fuel a d args >>= λ res. pure (record a { res = res }, res))
          h e in
      let gathered =
        bind_ok (gather E a svs)
          (λ args. set_result E fuel a started.0 args >>= λ res. pure (record a { res = res }, res))
          started.1 started.3 in
      gather-count a signature svs started.1 gathered.1 gathered.0 s gathered.2

  -- Where the result is no struct, a call with a wrong number of arguments croaks, with both numbers,
  -- before any argument is marshalled and without calling the function.
  trigger-arity :
      (fuel : ℕ) (a : Fiction Sv) (signature : List Flag) (svs : List Sv) (h : Heap Sv)
      → a.signature ≡ some signature
      → a.aggr_restype ≡ false
      → length svs ≢ length signature
      → trigger E fuel a svs h
        ≡ croak (
            arguments
              (if ltb (length signature) (length svs) then "Too many" else "Not enough")
              a.symbol
              (length signature)
              (length svs))
  unfolding trigger begin gather
  trigger-arity fuel a signature svs h s r n = ground arith

  -- A case that ends by handing over what it computed.
  then_hands :
      {A : Type 0} (m : M Sv A) (k : A → CallArg) (h h' : Heap Sv) (o : Option CallArg)
      → (m >>= λ x. pure (some (k x))) h ≡ ok (o, h')
      → is_some o ≡ true
  then_hands m k h h' o e =
      let step = bind_ok m (λ x. pure (some (k x))) h e in hands (k step.0) o step.1 h' step.3
    where
      hands :
          (a : CallArg) (o : Option CallArg) (h h' : Heap Sv)
          → pure (some a) h ≡ ok (o, h')
          → is_some o ≡ true
      hands a o h h' e = ground arith

  trigger_arg-hands :
      (f : Flag) (t : AffixType) (sv : Sv) (h h' : Heap Sv) (o : Option CallArg)
      → trigger_arg E f t sv h ≡ ok (o, h')
      → is_some o ≡ hands_over f
  unfolding trigger_arg
  trigger_arg-hands void_flag t sv h h' o e = ground arith
  trigger_arg-hands wstring_flag t sv h h' o e = ground arith
  trigger_arg-hands bool_flag t sv h h' o e = ground arith
  trigger_arg-hands wchar_flag t sv h h' o e = ground arith
  trigger_arg-hands short_flag t sv h h' o e = ground arith
  trigger_arg-hands ushort_flag t sv h h' o e = ground arith
  trigger_arg-hands int_flag t sv h h' o e = ground arith
  trigger_arg-hands uint_flag t sv h h' o e = ground arith
  trigger_arg-hands long_flag t sv h h' o e = ground arith
  trigger_arg-hands ulong_flag t sv h h' o e = ground arith
  trigger_arg-hands longlong_flag t sv h h' o e = ground arith
  trigger_arg-hands ulonglong_flag t sv h h' o e = ground arith
  trigger_arg-hands float_flag t sv h h' o e = ground arith
  trigger_arg-hands double_flag t sv h h' o e = ground arith
  trigger_arg-hands cppstruct_flag t sv h h' o e = ground arith
  trigger_arg-hands union_flag t sv h h' o e = ground arith
  trigger_arg-hands affix_flag t sv h h' o e = ground arith
  trigger_arg-hands sv_flag t sv h h' o e = ground arith
  trigger_arg-hands stdstring_flag t sv h h' o e = ground arith
  trigger_arg-hands schar_flag t sv h h' o e =
      then_hands (char_arg E "Expected a single character; found %ld" sv) (λ c. c) h h' o e
  trigger_arg-hands char_flag t sv h h' o e =
      then_hands (char_arg E "Expected a single character; found %ld" sv) (λ c. c) h h' o e
  trigger_arg-hands uchar_flag t sv h h' o e =
      then_hands (char_arg E "Expected a single unsigned character; found %ld" sv) (λ c. c) h h' o e
  trigger_arg-hands coderef_flag t sv h h' o e = then_hands (sv2ptr E t sv 0) arg_pointer h h' o e
  trigger_arg-hands pointer_flag t sv h h' o e = elim (Option-cases (first (subtypes t))) [
    | inl absent ↦ absurd (ground arith)
    | inr (sub, present) ↦ then_hands (sv2ptr E sub sv 0) arg_pointer h h' o (ground arith)
  ]
  trigger_arg-hands struct_flag t sv h h' o e =
      let step =
        bind_ok (lift E (aggregate t)) (λ d. sv2ptr E t sv 0 >>= λ p. pure (some (arg_aggr d p))) h
          e in
      then_hands (sv2ptr E t sv 0) (arg_aggr step.0) step.1 h' o step.3
  trigger_arg-hands (other n) t sv h h' o e = ground arith

  -- A call that returns handed over exactly one value for each position of its signature that is
  -- neither void nor a wide string: the arguments behind a wide string move up by one.
  pub trigger_args-handed :
      (fs : List Flag) (ts : TypeList) (svs : List Sv) (h h' : Heap Sv) (args : List CallArg)
      → trigger_args E fs ts svs h ≡ ok (args, h')
      → length args ≡ handed fs
  unfolding trigger_args
  trigger_args-handed [] ts svs h h' args e = ground arith
  trigger_args-handed (f ∷ fs) nil svs h h' args e = absurd (ground arith)
  trigger_args-handed (f ∷ fs) (cons t ts) [] h h' args e = absurd (ground arith)
  trigger_args-handed (f ∷ fs) (cons t ts) (sv ∷ svs) h h' args e =
      let one =
        bind_ok (trigger_arg E f t sv) (λ a. trigger_args E fs ts svs >>= λ cs. pure (add E a cs)) h
          e in
      let rest = bind_ok (trigger_args E fs ts svs) (λ cs. pure (add E one.0 cs)) one.1 one.3 in
      ground (
        arith,
        trigger_arg-hands f t sv h one.1 one.0 one.2,
        trigger_args-handed fs ts svs one.1 rest.1 rest.0 rest.2,
      )
