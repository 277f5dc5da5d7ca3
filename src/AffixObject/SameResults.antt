-- ===== src/AffixObject/SameResults.antt =====
-- The result switches of `Affix_trigger` and `Fiction_trigger`, on the results that both convert alike.
use fiction.Prelude.{
  ℕ, ◌^◌, ◌≡◌, refl, sym, ap, ◌∙◌, Bool, true, false, Option, some, List, ◌==◌, if◌then◌else◌,
  arith,
}
use fiction.Flags.{
  Flag, bool_flag, schar_flag, char_flag, short_flag, ushort_flag, int_flag, long_flag, ulong_flag,
  longlong_flag, ulonglong_flag, float_flag, double_flag,
}
use fiction.Types.{AffixType}
use fiction.Memory.{Fiction, Heap, ok, M, pure, ◌>>=◌}
use fiction.Memory.Runs.{bind_ok}
use fiction.Aggregate.{Aggr}
use fiction.Call.{
  CallArg, CallMode, RetKind, call_bool, call_char, call_short, call_int, call_long, call_longlong,
  call_float, call_double,
}
use fiction.Env.{Env}
use fiction.Trigger.Results.{result, dual_char, set_result}
use fiction.Unmarshal.Cases.{sign_extend}
use fiction.AffixObject.{Affix}
use fiction.AffixObject.Args.{Loop}
use fiction.AffixObject.Results.{affix_result}

-- The results that both calls convert alike: neither unsigned char nor unsigned int, where
-- Fiction_trigger lacks a cast, nor wchar_t.
abbrev pub is_common : Flag → Bool
is_common bool_flag = true
is_common schar_flag = true
is_common char_flag = true
is_common short_flag = true
is_common ushort_flag = true
is_common int_flag = true
is_common long_flag = true
is_common ulong_flag = true
is_common longlong_flag = true
is_common ulonglong_flag = true
is_common float_flag = true
is_common double_flag = true
is_common _ = false

module _ (E : Env) where
  open E use {Sv, dc_call, dc_call_in, new_bool, new_iv, new_uv, new_nv, float_nv, double_nv}

  -- The C function answers the same when it is called by the same mode with the same arguments,
  -- whatever the heap.
  abbrev pub IsSameCall : CallMode → (p q : ℕ) → Type 0
  IsSameCall mode p q =
      (k : RetKind) (args : List CallArg) (h h' g : Heap Sv) (v : ℕ)
      → dc_call k args p h ≡ ok (v, h')
      → (g' : Heap Sv) × (dc_call_in mode k args q g ≡ ok (v, g'))

  abbrev answer : (ℕ → Sv) → (ret_ptr v : ℕ) → M Sv (Option Sv × ℕ)
  answer conv r v = pure (some (conv v), r)

  -- A result that is computed from the answer of one kind of call.
  then_same :
      (k : RetKind) (conv : ℕ → Sv) (mode : CallMode) (p q r : ℕ) (args : List CallArg)
      (h h' g : Heap Sv) (sv : Sv)
      → IsSameCall mode p q
      → (dc_call k args p >>= λ v. pure (conv v)) h ≡ ok (sv, h')
      → (g' : Heap Sv) × ((dc_call_in mode k args q >>= answer conv r) g ≡ ok ((some sv, r), g'))
  then_same k conv mode p q r args h h' g sv same e =
      let one = bind_ok (dc_call k args p) (λ v. pure (conv v)) h e in
      let other = same k args h one.1 g one.0 one.2 in
      let converted : conv one.0 ≡ sv = ground (arith, one.3) in
      (other.0, rw (◌>>=◌, other.1) (ap (λ x. ok ((some x, r), other.0)) converted))

  pub result-agrees :
      (f : Flag) (fuel : ℕ) (fic : Fiction Sv) (t : AffixType) (d : Option Aggr) (a : Affix)
      (l : Loop) (h h' g : Heap Sv) (sv : Sv)
      → is_common f ≡ true
      → IsSameCall l.mode fic.entry_point a.entry_point
      → result E fuel fic t d l.handed f h ≡ ok (sv, h')
      → (g' : Heap Sv) × (affix_result E fuel a l f g ≡ ok ((some sv, a.ret_ptr), g'))
  unfolding result affix_result
  result-agrees bool_flag fuel fic t d a l h h' g sv c same e =
      then_same call_bool (λ v. new_bool (if v == 0 then false else true)) l.mode fic.entry_point
        a.entry_point a.ret_ptr l.handed h h' g sv same e
  result-agrees schar_flag fuel fic t d a l h h' g sv c same e =
      then_same call_char (dual_char E) l.mode fic.entry_point a.entry_point a.ret_ptr l.handed h h'
        g sv same e
  result-agrees char_flag fuel fic t d a l h h' g sv c same e =
      then_same call_char (dual_char E) l.mode fic.entry_point a.entry_point a.ret_ptr l.handed h h'
        g sv same e
  result-agrees short_flag fuel fic t d a l h h' g sv c same e =
      then_same call_short (λ v. new_iv (sign_extend (2 ^ 15) v)) l.mode fic.entry_point
        a.entry_point a.ret_ptr l.handed h h' g sv same e
  result-agrees ushort_flag fuel fic t d a l h h' g sv c same e =
      then_same call_short new_uv l.mode fic.entry_point a.entry_point a.ret_ptr l.handed h h' g sv
        same e
  result-agrees int_flag fuel fic t d a l h h' g sv c same e =
      then_same call_int (λ v. new_iv (sign_extend (2 ^ 31) v)) l.mode fic.entry_point a.entry_point
        a.ret_ptr l.handed h h' g sv same e
  result-agrees long_flag fuel fic t d a l h h' g sv c same e =
      then_same call_long new_iv l.mode fic.entry_point a.entry_point a.ret_ptr l.handed h h' g sv
        same e
  result-agrees ulong_flag fuel fic t d a l h h' g sv c same e =
      then_same call_long new_uv l.mode fic.entry_point a.entry_point a.ret_ptr l.handed h h' g sv
        same e
  result-agrees longlong_flag fuel fic t d a l h h' g sv c same e =
      then_same call_longlong new_iv l.mode fic.entry_point a.entry_point a.ret_ptr l.handed h h' g
        sv same e
  result-agrees ulonglong_flag fuel fic t d a l h h' g sv c same e =
      then_same call_longlong new_uv l.mode fic.entry_point a.entry_point a.ret_ptr l.handed h h' g
        sv same e
  result-agrees float_flag fuel fic t d a l h h' g sv c same e =
      then_same call_float (λ v. new_nv (float_nv v)) l.mode fic.entry_point a.entry_point a.ret_ptr
        l.handed h h' g sv same e
  result-agrees double_flag fuel fic t d a l h h' g sv c same e =
      then_same call_double (λ v. new_nv (double_nv v)) l.mode fic.entry_point a.entry_point
        a.ret_ptr l.handed h h' g sv same e
  result-agrees _ fuel fic t d a l h h' g sv c same e = absurd (cc)

  set_result-known :
      (f : Flag) (fuel : ℕ) (fic : Fiction Sv) (t : AffixType) (d : Option Aggr)
      (args : List CallArg) (h : Heap Sv)
      → is_common f ≡ true
      → fic.restype_c ≡ f
      → fic.restype ≡ some t
      → set_result E fuel fic d args h ≡ (result E fuel fic t d args f >>= λ v. pure (some v)) h
  unfolding set_result
  set_result-known bool_flag fuel fic t d args h c e r = rw (set_result, e, r, e) refl
  set_result-known schar_flag fuel fic t d args h c e r = rw (set_result, e, r, e) refl
  set_result-known char_flag fuel fic t d args h c e r = rw (set_result, e, r, e) refl
  set_result-known short_flag fuel fic t d args h c e r = rw (set_result, e, r, e) refl
  set_result-known ushort_flag fuel fic t d args h c e r = rw (set_result, e, r, e) refl
  set_result-known int_flag fuel fic t d args h c e r = rw (set_result, e, r, e) refl
  set_result-known long_flag fuel fic t d args h c e r = rw (set_result, e, r, e) refl
  set_result-known ulong_flag fuel fic t d args h c e r = rw (set_result, e, r, e) refl
  set_result-known longlong_flag fuel fic t d args h c e r = rw (set_result, e, r, e) refl
  set_result-known ulonglong_flag fuel fic t d args h c e r = rw (set_result, e, r, e) refl
  set_result-known float_flag fuel fic t d args h c e r = rw (set_result, e, r, e) refl
  set_result-known double_flag fuel fic t d args h c e r = rw (set_result, e, r, e) refl
  set_result-known _ fuel fic t d args h c e r = absurd (cc)

  pub set_result-common :
      (f : Flag) (fuel : ℕ) (fic : Fiction Sv) (t : AffixType) (d : Option Aggr)
      (args : List CallArg) (h h' : Heap Sv) (sv : Sv)
      → is_common f ≡ true
      → fic.restype_c ≡ f
      → fic.restype ≡ some t
      → set_result E fuel fic d args h ≡ ok (some sv, h')
      → (g : Heap Sv) × (result E fuel fic t d args f h ≡ ok (sv, g))
  set_result-common f fuel fic t d args h h' sv c e r run =
      let one =
        bind_ok (result E fuel fic t d args f) (λ v. pure (some v)) h
          (sym (set_result-known f fuel fic t d args h c e r) ∙ run) in
      let same : one.0 ≡ sv = ground (arith, one.3) in (one.1, one.2 ∙ ap (λ x. ok (x, one.1)) same)
