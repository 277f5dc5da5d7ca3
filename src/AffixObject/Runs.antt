-- ===== src/AffixObject/Runs.antt =====
-- Inversion of a call of `Affix_trigger` that returned.
use fiction.Prelude.{
  ℕ, ◌≡◌, ap, ◌∙◌, true, ◌||◌, Bool-cases, inl, inr, Option, List, [], ◌∷◌, ◌==◌, length, arith,
}
use fiction.Memory.{Heap, ok, pure, ◌>>=◌, calloc}
use fiction.Memory.Runs.{bind_ok}
use fiction.Call.{CallArg, CallMode, arg_pointer}
use fiction.Env.{Env, sizeof_intptr}
use fiction.AffixObject.{Affix}
use fiction.AffixObject.Args.{Loop, stack, affix_loop}
use fiction.AffixObject.Results.{affix_result}
use fiction.AffixObject.Trigger.{
  Called, called, begun, first_loop, write_kept, finish_call, affix_run, affix_trigger, wanted,
}

module _ (E : Env) where
  open E use {Sv, malloc}

  -- The call passed the check of its items, started the loop with what is kept from earlier calls,
  -- and answers with where the loop ended.
  pub data Ran (mode : CallMode) (a : Affix) (svs : List Sv) (out : Called E) : Type 0 where
    ran :
        (args : List CallArg) (i : ℕ) (l : Loop) (g g' : Heap Sv) (r : Option Sv × ℕ)
        (ws : List (ℕ × Sv))
        → (a.ellipsis || length svs == wanted a) ≡ true
        → affix_loop E a svs 0 a.args (begun mode a.temp_ptrs args i) g ≡ ok (l, g')
        → called E a l r ws ≡ out
        → Ran mode a svs out

  abbrev constructed : CallMode → Affix → ℕ → Loop
  constructed mode a p = begun mode a.temp_ptrs (arg_pointer p ∷ []) 1

  pub first_loop-begun :
      (mode : CallMode) (a : Affix) (svs : List Sv) (l : Loop) (h h' : Heap Sv)
      → first_loop E mode a svs h ≡ ok (l, h')
      → (args : List CallArg) × (i : ℕ) × (begun mode a.temp_ptrs args i ≡ l)
  unfolding first_loop
  first_loop-begun mode a svs l h h' e = elim (Bool-cases a.cpp_constructor) [
    | inr plain_call ↦ let same : begun mode a.temp_ptrs [] 0 ≡ l = ground arith in ([], 0, same)
    | inl constructor_call ↦
        let run : (calloc malloc sizeof_intptr >>= λ p.
        stack E svs 0 >>= λ sv. pure (constructed mode a p))
              h
            ≡ ok (l, h') =
          ground arith in
        let made =
          bind_ok (calloc malloc sizeof_intptr)
            (λ p. stack E svs 0 >>= λ sv. pure (constructed mode a p)) h run in
        let class_name =
          bind_ok (stack E svs 0) (λ sv. pure (constructed mode a made.0)) made.1 made.3 in
        let same : constructed mode a made.0 ≡ l = ground (arith, class_name.3) in
        (arg_pointer made.0 ∷ [], 1, same)
  ]

  -- A call that returned passed the check of its items.
  affix_trigger-runs :
      (fuel : ℕ) (mode : CallMode) (a : Affix) (svs : List Sv) (h h' : Heap Sv) (out : Called E)
      → affix_trigger E fuel mode a svs h ≡ ok (out, h')
      → ((a.ellipsis || length svs == wanted a) ≡ true)
        × (affix_run E fuel mode a svs h ≡ ok (out, h'))
  unfolding affix_trigger
  affix_trigger-runs fuel mode a svs h h' out e =
      elim (Bool-cases (a.ellipsis || length svs == wanted a)) [
        | inl passed ↦ (passed, ground arith)
        | inr refused ↦ absurd (ground arith)
      ]

  pub affix_trigger-Ran :
      (fuel : ℕ) (mode : CallMode) (a : Affix) (svs : List Sv) (h h' : Heap Sv) (out : Called E)
      → affix_trigger E fuel mode a svs h ≡ ok (out, h')
      → Ran mode a svs out
  unfolding affix_run finish_call
  affix_trigger-Ran fuel mode a svs h h' out e =
      let checked = affix_trigger-runs fuel mode a svs h h' out e in
      let first =
        bind_ok (first_loop E mode a svs)
          (λ l₀. affix_loop E a svs 0 a.args l₀ >>= finish_call E fuel a svs) h checked.1 in
      let loop =
        bind_ok (affix_loop E a svs 0 a.args first.0) (finish_call E fuel a svs) first.1 first.3 in
      let answer =
        bind_ok (affix_result E fuel a loop.0 a.ret_type)
          (λ r. write_kept E fuel a svs loop.0.temp_ptrs >>= λ ws. pure (called E a loop.0 r ws))
          loop.1 loop.3 in
      let kept =
        bind_ok (write_kept E fuel a svs loop.0.temp_ptrs)
          (λ ws. pure (called E a loop.0 answer.0 ws)) answer.1 answer.3 in
      let start = first_loop-begun mode a svs first.0 h first.1 first.2 in
      ran start.0 start.1 loop.0 first.1 loop.1 answer.0 kept.0 checked.0
        (ap (λ l. affix_loop E a svs 0 a.args l first.1) start.2 ∙ loop.2) (ground (arith, kept.3))
