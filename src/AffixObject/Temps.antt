-- ===== src/AffixObject/Temps.antt =====
-- The bounds of the array `temp_ptrs` of an Affix, which is allocated with num_args entries.
use fiction.Prelude.{
  ℕ, suc, ◌≤◌, ◌≡◌, refl, sym, ap, Bool-cases, inl, inr, Option, none, some, List, [], ◌∷◌, ◌==◌,
  length, arith, ◌<◌,
}
use mathlib.Core.Path.{subst}
use fiction.Flags.{Flag}
use fiction.Types.{AffixType}
use fiction.Memory.{Heap, ok}
use fiction.Call.{CallMode, CallArg}
use fiction.Env.{Env}
use fiction.AffixObject.{Affix, Convention, is_variadic}
use fiction.AffixObject.Args.{Loop, take, set_temp, affix_loop, convention_step}
use fiction.AffixObject.Steps.{
  Stepped, by_convention, by_void, by_scalar, over, round, affix_loop-Looped, affix_loop-ended,
}
use fiction.AffixObject.Trigger.{Called, affix_trigger, begun}
use fiction.AffixObject.Runs.{ran, affix_trigger-Ran}

-- No entry at or behind `n` is set.
abbrev pub IsWithin : ℕ → Option (ℕ → ℕ) → Type 0
IsWithin n none = Unit {0}
IsWithin n (some temp) = (i : ℕ) → n ≤ i → temp i ≡ 0

set_temp-IsWithin :
    (n i p : ℕ) (temp : Option (ℕ → ℕ)) → i < n → IsWithin n temp → IsWithin n (set_temp i p temp)
unfolding set_temp
set_temp-IsWithin n i p none below w = λ j past. ground (arith, below, past)
set_temp-IsWithin n i p (some temp) below w = λ j past. ground (arith, below, past, w j past)

convention_step-temp :
    (items : ℕ) (c : Convention) (l : Loop) → (convention_step items c l).temp_ptrs ≡ l.temp_ptrs
unfolding convention_step
convention_step-temp items c l = elim (Bool-cases (is_variadic c)) [
  | inr v ↦ rw (convention_step, v) refl
  | inl v ↦ elim (Bool-cases (l.st_pos == items)) [
    | inl behind ↦ rw (convention_step, v, behind) refl
    | inr before ↦ rw (convention_step, v, before) refl
  ]
]

module _ (E : Env) where
  open E use {Sv}

  take-IsWithin :
      (n : ℕ) (l : Loop) (r : CallArg × Option ℕ)
      → l.st_pos < n
      → IsWithin n l.temp_ptrs
      → IsWithin n (take E l r).temp_ptrs
  take-IsWithin n l (c, none) below w = w
  take-IsWithin n l (c, some p) below w = set_temp-IsWithin n l.st_pos p l.temp_ptrs below w

  Stepped-IsWithin :
      (n items : ℕ) (f : Flag) (l l' : Loop)
      → Stepped E items f l l'
      → l.st_pos < n
      → IsWithin n l.temp_ptrs
      → IsWithin n l'.temp_ptrs
  Stepped-IsWithin n items f l l' (by_convention c is_one e) below w =
      subst (λ x. IsWithin n x.temp_ptrs) e
        (subst (IsWithin n) (sym (convention_step-temp items c l)) w)
  Stepped-IsWithin n items f l l' (by_void e) below w = subst (λ x. IsWithin n x.temp_ptrs) e w
  Stepped-IsWithin n items f l l' (by_scalar r e) below w =
      subst (λ x. IsWithin n x.temp_ptrs) e (take-IsWithin n l r below w)

  affix_loop-IsWithin :
      (a : Affix) (svs : List Sv) (j : ℕ) (ts : List (Flag × AffixType)) (l l' : Loop)
      (h h' : Heap Sv)
      → affix_loop E a svs j ts l h ≡ ok (l', h')
      → IsWithin a.num_args l.temp_ptrs
      → IsWithin a.num_args l'.temp_ptrs
  affix_loop-IsWithin a svs j [] l l' h h' e w =
      subst (λ x. IsWithin a.num_args x.temp_ptrs) (affix_loop-ended E a svs j l l' h h' e).1 w
  affix_loop-IsWithin a svs j ((f, t) ∷ ts) l l' h h' e w =
      elim (affix_loop-Looped E a svs j f t ts l l' h h' e) [
        | over past same ↦ subst (λ x. IsWithin a.num_args x.temp_ptrs) same w
        | round l₁ h₁ h₂ h₃ going step rest ↦
            affix_loop-IsWithin a svs (suc j) ts l₁ l' h₂ h₃ rest
              (Stepped-IsWithin a.num_args (length svs) f l l₁ step (ground (arith, going)) w)
      ]

  -- A call of an Affix sets no entry of temp_ptrs at or behind num_args, where the array ends, whatever
  -- the types and the scalars are: where none was set before, as in an Affix just made, none is after.
  pub affix_trigger-IsWithin :
      (fuel : ℕ) (mode : CallMode) (a : Affix) (svs : List Sv) (h h' : Heap Sv) (out : Called E)
      → affix_trigger E fuel mode a svs h ≡ ok (out, h')
      → IsWithin a.num_args a.temp_ptrs
      → (out.after.num_args ≡ a.num_args) × IsWithin a.num_args out.after.temp_ptrs
  affix_trigger-IsWithin fuel mode a svs h h' out e w =
      elim (affix_trigger-Ran E fuel mode a svs h h' out e) [
        | ran args i l g g' r ws passed loop same ↦ (
          sym (ap (λ x. x.after.num_args) same),
          subst (λ x. IsWithin a.num_args x.after.temp_ptrs) same
              (affix_loop-IsWithin a svs 0 a.args (begun mode a.temp_ptrs args i) l g g' loop w),
        )
      ]
