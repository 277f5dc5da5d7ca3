-- ===== src/AffixObject/Left.antt =====
-- The mode that dyncall's VM is left in by a call of `Affix_trigger` (lib/Affix.cxx) that croaks, which
-- never comes to where the default mode is restored.
use fiction.Prelude.{
  ℕ, suc, ◌≡◌, refl, sym, ap, ◌∙◌, ◌||◌, Bool-cases, inl, inr, none, some, List, [], ◌∷◌, ◌==◌, ltb,
  if◌then◌else◌, length, arith,
}
use fiction.Flags.{Flag}
use fiction.Types.{AffixType}
use fiction.Memory.{Heap, Result, ok, croak, fault, out_of_fuel, M, ◌>>◌, warn}
use fiction.Memory.Runs.{bind_ok}
use fiction.AffixObject.Runs.{first_loop-begun}
use fiction.Call.{CallMode}
use fiction.Env.{Env}
use fiction.AffixObject.{Affix, Convention, convention_of, mode_of, is_variadic}
use fiction.AffixObject.Args.{Loop, affix_step, convention_step}
use fiction.AffixObject.Steps.{Stepped, by_convention, by_void, by_scalar, affix_step-Stepped}
use fiction.AffixObject.Trigger.{first_loop, wanted}

-- Where a computation goes on from, or the mode it stops in.
abbrev or_stopped : {A B : Type 0} → CallMode → (A → B → CallMode) → Result (A × B) → CallMode
or_stopped m k (ok r) = k r.0 r.1
or_stopped m k (croak e) = m
or_stopped m k fault = m
or_stopped m k out_of_fuel = m

or_stopped-is :
    {A B : Type 0} (m x : CallMode) (k : A → B → CallMode) (r : Result (A × B))
    → m ≡ x
    → ((a : A) (b : B) → r ≡ ok (a, b) → k a b ≡ x)
    → or_stopped m k r ≡ x
or_stopped-is m x k (ok r) stops goes = goes r.0 r.1 refl
or_stopped-is m x k (croak e) stops goes = stops
or_stopped-is m x k fault stops goes = stops
or_stopped-is m x k out_of_fuel stops goes = stops

convention_step-mode_of :
    (items : ℕ) (c : Convention) (l : Loop) → (convention_step items c l).mode ≡ mode_of c
unfolding convention_step
convention_step-mode_of items c l = elim (Bool-cases (is_variadic c)) [
  | inr v ↦ ground arith
  | inl v ↦ elim (Bool-cases (l.st_pos == items)) [ inl b ↦ ground arith | inr b ↦ ground arith ]
]

-- The conventions among the types, if there are any, all set this mode.
abbrev pub Keeps : CallMode → List (Flag × AffixType) → Type 0
Keeps x [] = Unit
Keeps x ((f, t) ∷ ts) = ((c : Convention) → convention_of f ≡ some c → mode_of c ≡ x) × Keeps x ts

module _ (E : Env) where
  open E use {Sv}

  abbrev said : M Sv (Unit {0})
  said = warn "!!! affix->arg_types[arg_pos] == %d"

  -- The VM's mode where the argument loop croaks, or at its end.
  unfoldable pub stopped_mode :
      Affix → List Sv → ℕ → List (Flag × AffixType) → Loop → Heap Sv → CallMode
  unfolding affix_step
  stopped_mode a svs j [] l h = l.mode
  stopped_mode a svs j ((f, t) ∷ ts) l h =
      if ltb l.st_pos a.num_args
      then or_stopped l.mode (λ l' h'. stopped_mode a svs (suc j) ts l' h')
          ((said >> affix_step E a svs j f t l) h)
      else l.mode

  -- The VM's mode behind a call that croaks: in its check, in the loop, or behind it.
  unfoldable pub left_mode : CallMode → Affix → List Sv → Heap Sv → CallMode
  unfolding wanted first_loop stopped_mode
  left_mode mode a svs h =
      if a.ellipsis || length svs == wanted a
      then or_stopped mode (λ l h'. stopped_mode a svs 0 a.args l h') (first_loop E mode a svs h)
      else mode

  Stepped-keeps :
      (x : CallMode) (items : ℕ) (f : Flag) (l l' : Loop)
      → ((c : Convention) → convention_of f ≡ some c → mode_of c ≡ x)
      → l.mode ≡ x
      → Stepped E items f l l'
      → l'.mode ≡ x
  Stepped-keeps x items f l l' k m (by_convention c is_one e) =
      ap (λ (y : Loop). y.mode) (sym e) ∙ convention_step-mode_of items c l ∙ k c is_one
  Stepped-keeps x items f l l' k m (by_void e) = ap (λ (y : Loop). y.mode) (sym e) ∙ m
  Stepped-keeps x items f l l' k m (by_scalar (c, none) e) = ap (λ (y : Loop). y.mode) (sym e) ∙ m
  Stepped-keeps x items f l l' k m (by_scalar (c, some p) e) = ap (λ (y : Loop). y.mode) (sym e) ∙ m

  stopped_mode-keeps :
      (x : CallMode) (a : Affix) (svs : List Sv) (j : ℕ) (ts : List (Flag × AffixType)) (l : Loop)
      (h : Heap Sv)
      → Keeps x ts
      → l.mode ≡ x
      → stopped_mode a svs j ts l h ≡ x
  unfolding stopped_mode
  stopped_mode-keeps x a svs j [] l h k m = m
  stopped_mode-keeps x a svs j ((f, t) ∷ ts) l h k m = elim (Bool-cases (ltb l.st_pos a.num_args)) [
    | inr past ↦ rw past m
    | inl going ↦ rw going (
        or_stopped-is l.mode x (λ l' h'. stopped_mode a svs (suc j) ts l' h')
          ((said >> affix_step E a svs j f t l) h) m
          (λ l' h' e.
            let step = bind_ok said (λ _. affix_step E a svs j f t l) h e in
            stopped_mode-keeps x a svs (suc j) ts l' h' k.1 (
              Stepped-keeps x (length svs) f l l' k.0 m
                (affix_step-Stepped E a svs j f t l l' step.1 h' step.3))))
  ]

  pub left_mode-keeps :
      (x : CallMode) (a : Affix) (svs : List Sv) (h : Heap Sv)
      → Keeps x a.args
      → left_mode x a svs h ≡ x
  unfolding left_mode
  left_mode-keeps x a svs h k = elim (Bool-cases (a.ellipsis || length svs == wanted a)) [
    | inr refused ↦ rw refused refl
    | inl passed ↦ rw passed (
        or_stopped-is x x (λ l h'. stopped_mode a svs 0 a.args l h') (first_loop E x a svs h) refl
          (λ l h' e.
            let (args, i, same) = first_loop-begun E x a svs l h h' e in
            stopped_mode-keeps x a svs 0 a.args l h' k (ap (λ (y : Loop). y.mode) (sym same))))
  ]
