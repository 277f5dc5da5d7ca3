-- ===== src/AffixObject/Conventions.antt =====
-- What the calling convention flags do to a call of `Affix_trigger`, and to the calls behind it.
use fiction.Prelude.{
  ℕ, ◌<◌, ◌≡◌, refl, ap, ◌∙◌, true, false, Option, some, List, [], ◌∷◌, ltb, length, arith,
}
use fiction.Flags.{Flag}
use fiction.Types.{AffixType, TypeList, count, signature_of}
use fiction.Memory.{Heap, ok, warn, ◌>>=◌}
use fiction.Call.{CallArg, CallMode}
use fiction.Env.{Env}
use fiction.Trigger.Args.{trigger_args}
use fiction.AffixObject.{
  Affix, Convention, convention_of, is_variadic, sets_reset_mode, mode_of, ellipsis, varargs,
}
use fiction.AffixObject.Args.{Loop, affix_step, affix_loop, convention_step}
use fiction.AffixObject.Trigger.{begun}
use fiction.AffixObject.Numbers.{are_numbers, typed, numbers-agree}

-- The loop's variables where it has handed over `args`.
abbrev pub done : Convention → List CallArg → ℕ → Option (ℕ → ℕ) → Loop
done c args n temp = record {
  mode = mode_of c;
  handed = args;
  st_pos = n;
  temp_ptrs = temp;
  reset_mode = sets_reset_mode c;
}

convention_step-begun :
    (items : ℕ) (c : Convention) (mode : CallMode) (temp : Option (ℕ → ℕ))
    → is_variadic c ≡ false
    → convention_step items c (begun mode temp [] 0) ≡ done c [] 0 temp
unfolding convention_step is_variadic mode_of sets_reset_mode
convention_step-begun items ellipsis mode temp v = absurd (cc)
convention_step-begun items varargs mode temp v = absurd (cc)
convention_step-begun items _ mode temp v = refl

module _ (E : Env) where
  open E use {Sv}

  -- For a convention flag that is not variadic, followed by numbers, at least one, the loop of
  -- Affix_trigger hands dyncall the very arguments that Fiction_trigger does for the same types and
  -- scalars. It leaves the VM in the convention's mode, whichever it was in, and notes to restore the
  -- mode exactly for the conventions that ask for it.
  pub convention-numbers :
      (a : Affix) (c : Convention) (f : Flag) (t : AffixType) (ts : TypeList) (svs : List Sv)
      (mode : CallMode) (h h' g : Heap Sv) (args : List CallArg)
      → convention_of f ≡ some c
      → is_variadic c ≡ false
      → are_numbers ts ≡ true
      → 0 < count ts
      → a.num_args ≡ count ts
      → trigger_args E (signature_of ts) ts svs h ≡ ok (args, h')
      → (g' : Heap Sv) × (affix_loop E a svs 0 ((f, t) ∷ typed ts) (begun mode a.temp_ptrs [] 0) g
          ≡ ok (done c args (count ts) a.temp_ptrs, g'))
  unfolding affix_loop warn
  convention-numbers a c f t ts svs mode h h' g args e v n some_args counted run =
      let g₁ = record g { warnings = "!!! affix->arg_types[arg_pos] == %d" ∷ g.warnings } in
      let rest =
        numbers-agree E a ts svs [] svs 1 (done c [] 0 a.temp_ptrs) h h' g₁ args n
          (omega (arith, counted)) refl refl run in
      let going : ltb 0 a.num_args ≡ true = ground (arith, counted) in
      let first : affix_step E a svs 0 f t (begun mode a.temp_ptrs [] 0) g₁
          ≡ ok (done c [] 0 a.temp_ptrs, g₁) =
        rw (affix_step, e)
          (ap (λ l. ok (l, g₁)) (convention_step-begun (length svs) c mode a.temp_ptrs v)) in
      (
        rest.0,
        rw (going, ◌>>=◌, first)
            (rest.1 ∙ ap (λ k. ok (done c args k a.temp_ptrs, rest.0)) (omega arith)),
      )
