-- ===== src/AffixObject/Agreeing.antt =====
-- The two calls of lib/Affix.cxx, `Affix_trigger` and `Fiction_trigger`, on a function of numbers.
use fiction.Prelude.{
  Bool-cases, inl, inr, ℕ, suc, ◌≡◌, refl, sym, ap, ◌∙◌, true, false, ◌||◌, Option, none, some,
  List, [], ◌==◌, length, arith,
}
use fiction.Types.{AffixType, TypeList, nil, cons, count, signature_of}
use fiction.Memory.{Fiction, Heap, ok, M, pure, ◌>>=◌}
use fiction.Memory.Runs.{bind_ok}
use fiction.Aggregate.{Aggr}
use fiction.Call.{CallArg, CallMode}
use fiction.Env.{Env}
use fiction.Trigger.Results.{set_result}
use fiction.Trigger.Args.{trigger_args}
use fiction.Trigger.{trigger, begin, gather}
use fiction.Trigger.Arity.{trigger-count}
use fiction.AffixObject.{Affix}
use fiction.AffixObject.SameResults.{is_common, IsSameCall, result-agrees, set_result-common}
use fiction.AffixObject.Numbers.{are_numbers, typed, numbers-agree, advance}
use fiction.AffixObject.Args.{Loop, affix_loop}
use fiction.AffixObject.Results.{affix_result}
use fiction.AffixObject.Trigger.{
  Called, called, begun, first_loop, write_kept, finish_call, affix_run, affix_trigger, wanted,
  final_mode,
}

module _ (E : Env) where
  open E use {Sv, dc_call, dc_call_in, new_bool, new_iv, new_uv, new_nv, float_nv, double_nv}

  length-signature_of : (ts : TypeList) → length (signature_of ts) ≡ count ts
  unfolding signature_of count
  length-signature_of nil = refl
  length-signature_of (cons t ts) = ap suc (length-signature_of ts)

  gather-args :
      (fic : Fiction Sv) (ts : TypeList) (svs : List Sv) (h h' : Heap Sv) (args : List CallArg)
      → fic.signature ≡ some (signature_of ts)
      → fic.argtypes ≡ ts
      → gather E fic svs h ≡ ok (args, h')
      → trigger_args E (signature_of ts) ts svs h ≡ ok (args, h')
  unfolding gather
  gather-args fic ts svs h h' args s t e =
      elim (Bool-cases (length svs == length (signature_of ts))) [
        | inl same ↦ ground arith
        | inr other_length ↦ absurd (ground arith)
      ]

  wanted-function : (a : Affix) → a.cpp_struct ≡ false → wanted a ≡ a.num_args
  unfolding wanted
  wanted-function a e = rw e refl

  -- The call of an Affix of numbers whose loop and result are known.
  affix_trigger-called :
      (a : Affix) (fuel : ℕ) (mode : CallMode) (svs : List Sv) (l : Loop) (g g₁ g₂ : Heap Sv)
      (sv : Sv)
      → length svs ≡ wanted a
      → a.cpp_constructor ≡ false
      → affix_loop E a svs 0 a.args (begun mode a.temp_ptrs [] 0) g ≡ ok (l, g₁)
      → l.temp_ptrs ≡ none
      → affix_result E fuel a l a.ret_type g₁ ≡ ok ((some sv, a.ret_ptr), g₂)
      → affix_trigger E fuel mode a svs g ≡ ok (called E a l (some sv, a.ret_ptr) [], g₂)
  unfolding affix_trigger affix_run first_loop finish_call write_kept
  affix_trigger-called a fuel mode svs l g g₁ g₂ sv items plain_call loop nothing answered =
      let checked : (a.ellipsis || length svs == wanted a) ≡ true = ground arith in
      let started : first_loop E mode a svs g ≡ ok (begun mode a.temp_ptrs [] 0, g) =
        rw plain_call refl in
      let kept : write_kept E fuel a svs l.temp_ptrs g₂ ≡ ok ([], g₂) = rw nothing refl in
      rw (checked, affix_run, ◌>>=◌, started, loop, finish_call, answered, kept) refl

  -- An Affix and a Fiction of one function, of numbers.
  pub record IsPair (a : Affix) (fic : Fiction Sv) (ts : TypeList) (t : AffixType) : Type 0 where
    pub numbers : are_numbers ts ≡ true
    pub common : is_common a.ret_type ≡ true
    pub types : a.args ≡ typed ts
    pub counted : a.num_args ≡ count ts
    pub no_method : a.cpp_struct ≡ false
    pub no_constructor : a.cpp_constructor ≡ false
    pub nothing_kept : a.temp_ptrs ≡ none
    pub signature : fic.signature ≡ some (signature_of ts)
    pub argtypes : fic.argtypes ≡ ts
    pub returns : fic.restype ≡ some t
    pub same_return : fic.restype_c ≡ a.ret_type

  abbrev keep : Fiction Sv → Option Sv → M Sv (Fiction Sv × Option Sv)
  keep fic res = pure (record fic { res = res }, res)

  -- `Fiction_trigger`, from the description of a struct result on
  abbrev call_of : ℕ → Fiction Sv → List Sv → Option Aggr → M Sv (Fiction Sv × Option Sv)
  call_of fuel fic svs d = gather E fic svs >>= λ args. set_result E fuel fic d args >>= keep fic

  -- Where Fiction_trigger returns for a function of numbers with a common result, the same call of the
  -- Affix of that function returns the same scalar, writes nothing back, and leaves dyncall's VM in the
  -- mode it was in. The C function is taken to answer the same in that mode, whatever the heap.
  pub trigger-affix_trigger :
      (a : Affix) (fic fic' : Fiction Sv) (ts : TypeList) (t : AffixType) (fuel : ℕ)
      (mode : CallMode) (svs : List Sv) (h h' g : Heap Sv) (sv : Sv)
      → IsPair a fic ts t
      → IsSameCall E mode fic.entry_point a.entry_point
      → trigger E fuel fic svs h ≡ ok ((fic', some sv), h')
      → (out : Called E) × (g' : Heap Sv) × (affix_trigger E fuel mode a svs g ≡ ok (out, g'))
        × (out.retval ≡ some sv)
        × (out.written ≡ [])
        × (out.vm_mode ≡ mode)
  unfolding trigger final_mode wanted
  trigger-affix_trigger a fic fic' ts t fuel mode svs h h' g sv pair same e =
      let started = bind_ok (begin E fic) (call_of fuel fic svs) h e in
      let gathered =
        bind_ok (gather E fic svs) (λ args. set_result E fuel fic started.0 args >>= keep fic)
          started.1 started.3 in
      let results =
        bind_ok (set_result E fuel fic started.0 gathered.0) (keep fic) gathered.1 gathered.3 in
      let value : results.0 ≡ some sv = ground (arith, results.3) in
      let items : length svs ≡ length (signature_of ts) =
        trigger-count E fuel fic (signature_of ts) svs h h' (fic', some sv) pair.signature e in
      let f : fic.restype_c ≡ a.ret_type = pair.same_return in
      let l = advance E (begun mode a.temp_ptrs [] 0) gathered.0 (count ts) in
      let loop =
        numbers-agree E a ts svs [] svs 0 (begun mode a.temp_ptrs [] 0) started.1 gathered.1 g
          gathered.0 pair.numbers (omega (arith, pair.counted)) refl refl
          (gather-args fic ts svs started.1 gathered.1 gathered.0 pair.signature pair.argtypes
            gathered.2) in
      let answered =
        set_result-common E a.ret_type fuel fic t started.0 gathered.0 gathered.1 results.1 sv
          pair.common f pair.returns (results.2 ∙ ap (λ r. ok (r, results.1)) value) in
      let same_answer =
        result-agrees E a.ret_type fuel fic t started.0 a l gathered.1 answered.0 loop.0 sv
          pair.common same answered.1 in
      let called_with : length svs ≡ wanted a =
        items
        ∙ length-signature_of ts
        ∙ sym pair.counted
        ∙ sym (wanted-function a pair.no_method) in
      (
        called E a l (some sv, a.ret_ptr) [],
        same_answer.0,
        affix_trigger-called a fuel mode svs l g loop.0 same_answer.0 sv called_with
            pair.no_constructor
            (ap (λ us. affix_loop E a svs 0 us (begun mode a.temp_ptrs [] 0) g) pair.types ∙ loop.1)
            pair.nothing_kept same_answer.1,
        refl,
        refl,
        refl,
      )
