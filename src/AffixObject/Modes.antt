-- ===== src/AffixObject/Modes.antt =====
-- The mode that dyncall's VM, which every call shares, is left in by calls of `Affix_trigger`.
use fiction.Prelude.{
  ℕ, suc, ◌≡◌, refl, sym, ap, ◌∙◌, Bool, true, false, ◌&&◌, Bool-cases, inl, inr, Option, none,
  some, List, [], ◌∷◌, ◌==◌, length, arith,
}
use fiction.Flags.{Flag}
use fiction.Types.{AffixType}
use fiction.Memory.{Heap, ok, croak, Croak}
use fiction.Call.{CallArg, CallMode, c_default}
use fiction.Env.{Env}
use fiction.AffixObject.{
  Affix, Convention, convention_of, reset, this, ellipsis, varargs, is_variadic, mode_of,
  sets_reset_mode,
}
use fiction.AffixObject.Args.{Loop, take, affix_loop, convention_step}
use fiction.AffixObject.Steps.{
  Stepped, by_convention, by_void, by_scalar, over, round, affix_loop-Looped, affix_loop-ended,
}
use fiction.AffixObject.Runs.{ran, affix_trigger-Ran}
use fiction.AffixObject.Left.{Keeps, left_mode, left_mode-keeps}
use fiction.AffixObject.Trigger.{final_mode, begun, affix_trigger, Called}

-- The conventions behind which the default mode is set again, or was set by themselves.
abbrev pub keeps_default : Convention → Bool
keeps_default reset = true
keeps_default this = true
keeps_default ellipsis = true
keeps_default varargs = true
keeps_default _ = false

abbrev settles : Option Convention → Bool
settles none = true
settles (some c) = keeps_default c

abbrev pub is_settled : Flag → Bool
is_settled f = settles (convention_of f)

abbrev pub are_settled : List (Flag × AffixType) → Bool
are_settled [] = true
are_settled ((f, t) ∷ ts) = is_settled f && are_settled ts

convention_step-mode :
    (items : ℕ) (c : Convention) (l : Loop)
    → keeps_default c ≡ true
    → final_mode l ≡ c_default
    → final_mode (convention_step items c l) ≡ c_default
unfolding convention_step final_mode is_variadic mode_of sets_reset_mode
convention_step-mode items reset l k e = ground arith
convention_step-mode items this l k e = refl
convention_step-mode items ellipsis l k e = elim (Bool-cases (l.st_pos == items)) [
  | inl behind ↦ rw behind refl
  | inr before ↦ rw before refl
]
convention_step-mode items varargs l k e = elim (Bool-cases (l.st_pos == items)) [
  | inl behind ↦ rw behind refl
  | inr before ↦ rw before refl
]
convention_step-mode items _ l k e = absurd (cc)

module _ (E : Env) where
  open E use {Sv, malloc}

  take-mode : (l : Loop) (r : CallArg × Option ℕ) → final_mode (take E l r) ≡ final_mode l
  unfolding final_mode
  take-mode l (c, none) = refl
  take-mode l (c, some p) = refl

  Stepped-mode :
      (items : ℕ) (f : Flag) (l l' : Loop)
      → is_settled f ≡ true
      → Stepped E items f l l'
      → final_mode l ≡ c_default
      → final_mode l' ≡ c_default
  unfolding final_mode
  Stepped-mode items f l l' k (by_convention c is_one e) m =
      ap final_mode (sym e) ∙ convention_step-mode items c l (sym (ap settles is_one) ∙ k) m
  Stepped-mode items f l l' k (by_void e) m = ap final_mode (sym e) ∙ m
  Stepped-mode items f l l' k (by_scalar r e) m = ap final_mode (sym e) ∙ take-mode l r ∙ m

  affix_loop-mode :
      (a : Affix) (svs : List Sv) (j : ℕ) (ts : List (Flag × AffixType)) (l l' : Loop)
      (h h' : Heap Sv)
      → are_settled ts ≡ true
      → affix_loop E a svs j ts l h ≡ ok (l', h')
      → final_mode l ≡ c_default
      → final_mode l' ≡ c_default
  affix_loop-mode a svs j [] l l' h h' k e m =
      ap final_mode (sym (affix_loop-ended E a svs j l l' h h' e).1) ∙ m
  affix_loop-mode a svs j ((f, t) ∷ ts) l l' h h' k e m =
      elim (affix_loop-Looped E a svs j f t ts l l' h h' e) [
        | over past same ↦ ap final_mode (sym same) ∙ m
        | round l₁ h₁ h₂ h₃ going step rest ↦
            let settled : (is_settled f ≡ true) × (are_settled ts ≡ true) = ground arith in
            affix_loop-mode a svs (suc j) ts l₁ l' h₂ h₃ settled.1 rest
              (Stepped-mode (length svs) f l l₁ settled.0 step m)
      ]

  affix_trigger-mode :
      (fuel : ℕ) (mode : CallMode) (a : Affix) (svs : List Sv) (h h' : Heap Sv) (out : Called E)
      → are_settled a.args ≡ true
      → affix_trigger E fuel mode a svs h ≡ ok (out, h')
      → mode ≡ c_default
      → out.vm_mode ≡ c_default
  unfolding final_mode
  affix_trigger-mode fuel mode a svs h h' out k e m =
      elim (affix_trigger-Ran E fuel mode a svs h h' out e) [
        | ran args i l g g' r ws passed loop same ↦
            ap (λ x. x.vm_mode) (sym same)
            ∙ affix_loop-mode a svs 0 a.args (begun mode a.temp_ptrs args i) l g g' k loop m
      ]

  -- Calls of Affix objects, one behind the other, by the mode before the first and behind the last:
  -- each finds the VM as the one before left it. A call returns, or croaks where its types have no
  -- convention but reset. What else happens between two calls does not touch
  -- the mode, and may change the heap.
  pub data Session : CallMode → CallMode → Type 0 where
    calls_over : {m : CallMode} → Session m m
    call :
        {mode m : CallMode} (fuel : ℕ) (a : Affix) (svs : List Sv) (h h' : Heap Sv) (out : Called E)
        → are_settled a.args ≡ true
        → affix_trigger E fuel mode a svs h ≡ ok (out, h')
        → Session out.vm_mode m
        → Session mode m
    croaking_call :
        {mode m : CallMode} (fuel : ℕ) (a : Affix) (svs : List Sv) (e : Croak) (h : Heap Sv)
        → Keeps c_default a.args
        → affix_trigger E fuel mode a svs h ≡ croak e
        → Session (left_mode E mode a svs h) m
        → Session mode m

  -- A sequence of calls leaves dyncall's VM in the default mode it found it in, where the types of those
  -- that return have no convention but reset, this, ellipsis and varargs, and the types of those that
  -- croak have none but reset.
  pub Session-default_mode : (m : CallMode) → Session c_default m → m ≡ c_default
  Session-default_mode m s = go c_default m s refl
    where
      go : (mode m : CallMode) → Session mode m → mode ≡ c_default → m ≡ c_default
      go mode m calls_over e = e
      go mode m (call fuel a svs h h' out k r s) e =
          go out.vm_mode m s (affix_trigger-mode fuel mode a svs h h' out k r e)
      go mode m (croaking_call fuel a svs c h k r s) e =
          go (left_mode E mode a svs h) m s
            (ap (λ x. left_mode E x a svs h) e ∙ left_mode-keeps E c_default a svs h k)
