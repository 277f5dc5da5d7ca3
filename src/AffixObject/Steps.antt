-- ===== src/AffixObject/Steps.antt =====
-- What a round of the argument loop of `Affix_trigger` that returned has done to the loop's variables.
use fiction.Prelude.{
  ℕ, suc, ◌+◌, ◌≡◌, inl, inr, true, false, Bool-cases, Option, some, Option-cases, List, [], ◌∷◌,
  ltb, length, arith,
}
use fiction.Flags.{Flag}
use fiction.Types.{AffixType}
use fiction.Memory.{Heap, ok, M, pure, ◌>>=◌, warn}
use fiction.Memory.Runs.{bind_ok}
use fiction.Call.{CallArg}
use fiction.Env.{Env}
use fiction.AffixObject.{Affix, Convention, convention_of}
use fiction.AffixObject.Args.{
  Loop, take, stack, is_void, affix_arg, affix_step, affix_loop, convention_step,
}

module _ (E : Env) where
  open E use {Sv}

  -- A convention flag, a void, or a scalar.
  pub data Stepped (items : ℕ) (f : Flag) (l l' : Loop) : Type 0 where
    by_convention :
        (c : Convention)
        → convention_of f ≡ some c
        → convention_step items c l ≡ l'
        → Stepped items f l l'
    by_void : record l { st_pos = l.st_pos + 1 } ≡ l' → Stepped items f l l'
    by_scalar : (r : CallArg × Option ℕ) → take E l r ≡ l' → Stepped items f l l'

  -- `affix_step` behind the fetch of the scalar
  abbrev behind_stack : Affix → ℕ → Flag → AffixType → Loop → Sv → M Sv Loop
  behind_stack a j f t l sv = affix_arg E a l.st_pos j f t sv >>= λ r. pure (take E l r)

  pub affix_step-Stepped :
      (a : Affix) (svs : List Sv) (j : ℕ) (f : Flag) (t : AffixType) (l l' : Loop) (h h' : Heap Sv)
      → affix_step E a svs j f t l h ≡ ok (l', h')
      → Stepped (length svs) f l l'
  unfolding affix_step
  affix_step-Stepped a svs j f t l l' h h' e = elim (Option-cases (convention_of f)) [
    | inr (c, is_one) ↦ by_convention c is_one (ground arith)
    | inl is_none ↦ elim (Bool-cases (is_void f)) [
      | inl v ↦ by_void (ground arith)
      | inr v ↦
          let scalar : (stack E svs l.st_pos >>= behind_stack a j f t l) h ≡ ok (l', h') =
            ground arith in
          let found = bind_ok (stack E svs l.st_pos) (behind_stack a j f t l) h scalar in
          let one =
            bind_ok (affix_arg E a l.st_pos j f t found.0) (λ r. pure (take E l r)) found.1
              found.3 in
          by_scalar one.0 (ground (arith, one.3))
    ]
  ]

  -- The loop at the position of a type.
  pub data Looped (a : Affix) (svs : List Sv) (j : ℕ) (f : Flag) (t : AffixType)
      (ts : List (Flag × AffixType)) (l l' : Loop) : Type 0 where
    over : ltb l.st_pos a.num_args ≡ false → l ≡ l' → Looped a svs j f t ts l l'
    round :
        (l₁ : Loop) (h₁ h₂ h₃ : Heap Sv)
        → ltb l.st_pos a.num_args ≡ true
        → Stepped (length svs) f l l₁
        → affix_loop E a svs (suc j) ts l₁ h₂ ≡ ok (l', h₃)
        → Looped a svs j f t ts l l'

  pub affix_loop-Looped :
      (a : Affix) (svs : List Sv) (j : ℕ) (f : Flag) (t : AffixType) (ts : List (Flag × AffixType))
      (l l' : Loop) (h h' : Heap Sv)
      → affix_loop E a svs j ((f, t) ∷ ts) l h ≡ ok (l', h')
      → Looped a svs j f t ts l l'
  unfolding affix_loop
  affix_loop-Looped a svs j f t ts l l' h h' e = elim (Bool-cases (ltb l.st_pos a.num_args)) [
    | inr past ↦ over past (ground arith)
    | inl going ↦
        let behind_step : Loop → M Sv Loop = λ l₁. affix_loop E a svs (suc j) ts l₁ in
        let run : (warn "!!! affix->arg_types[arg_pos] == %d" >>= λ u.
        affix_step E a svs j f t l >>= behind_step)
              h
            ≡ ok (l', h') =
          ground arith in
        let warned =
          bind_ok (warn "!!! affix->arg_types[arg_pos] == %d")
            (λ u. affix_step E a svs j f t l >>= behind_step) h run in
        let step = bind_ok (affix_step E a svs j f t l) behind_step warned.1 warned.3 in
        round step.0 warned.1 step.1 h' going
          (affix_step-Stepped a svs j f t l step.0 warned.1 step.1 step.2) step.3
  ]

  pub affix_loop-ended :
      (a : Affix) (svs : List Sv) (j : ℕ) (l l' : Loop) (h h' : Heap Sv)
      → affix_loop E a svs j [] l h ≡ ok (l', h')
      → (ltb l.st_pos a.num_args ≡ false) × (l ≡ l')
  unfolding affix_loop
  affix_loop-ended a svs j l l' h h' e = elim (Bool-cases (ltb l.st_pos a.num_args)) [
    | inl going ↦ absurd (ground arith)
    | inr past ↦ (past, ground arith)
  ]
