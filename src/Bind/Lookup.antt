-- ===== src/Bind/Lookup.antt =====
-- What a function that `Affix_fiction` bound refers to, and how it may be called.
use fiction.Prelude.{
  ℕ, suc, ◌≡◌, refl, sym, ap, ◌∙◌, Bool, true, false, inl, inr, Option, none, some, Option-cases,
  List, [], ◌∷◌, arith, if◌then◌else◌, length, Text,
}
use fiction.Types.{signature_of}
use fiction.Memory.{Fiction, Heap, ok, about, M, pure, ◌>>=◌, fail}
use fiction.Memory.Runs.{bind_ok}
use fiction.Env.{Env}
use fiction.Unmarshal.Cases.{dollars}
use fiction.Bind.{
  open_library, symbol_names, types_of, with_argtypes, with_restype, with_types, unbound, bind,
  is_explicit_undef,
}
use fiction.Trigger.{trigger}
use fiction.Trigger.Arity.{trigger-count}

module _ (E : Env) where
  open E use {Sv, array_of, find_symbol, type_of, new_xsub}

  with_argtypes-keeps :
      (a : Fiction Sv) (sv : Sv) (o : Option (List Sv)) (b : Bool)
      → array_of sv ≡ o
      → is_explicit_undef E sv ≡ b
      → let made = (with_argtypes E a sv).0 in
        (made.lib ≡ a.lib) × (made.entry_point ≡ a.entry_point) × (made.symbol ≡ a.symbol)
  unfolding with_argtypes
  with_argtypes-keeps a sv o true e u = rw u (refl, refl, refl)
  with_argtypes-keeps a sv none false e u = rw (u, e) (refl, refl, refl)
  with_argtypes-keeps a sv (some svs) false e u = rw (u, e) (refl, refl, refl)

  with_types-keeps :
      (a : Fiction Sv) (types : List Sv)
      → let made = (with_types E a types).0 in
        (made.lib ≡ a.lib) × (made.entry_point ≡ a.entry_point) × (made.symbol ≡ a.symbol)
  unfolding with_types with_restype
  with_types-keeps a [] = (refl, refl, refl)
  with_types-keeps a (args ∷ []) =
      with_argtypes-keeps a args (array_of args) (is_explicit_undef E args) refl refl
  with_types-keeps a (args ∷ ret ∷ rest) =
      with_argtypes-keeps (with_restype E a (type_of ret)) args (array_of args)
        (is_explicit_undef E args) refl refl

  -- `bind`, from the library and the names on
  abbrev finish : Bool → List Sv → ℕ → (Text × Text) → M Sv (Fiction Sv × Sv)
  finish named types handle names = elim (find_symbol handle names.0) [
    | none ↦ fail (about "Failed to locate entry point named %s" names.0)
    | some entry_point ↦
        let made = with_types E (unbound E handle entry_point names.0) types in
        pure (made.0, new_xsub (if named then some names.1 else none) made.1 made.0)
  ]

  -- What a binding that returned went through.
  bind-made :
      (named : Bool) (lib symbol : Sv) (types : List Sv) (a : Fiction Sv) (sv : Sv) (h h' : Heap Sv)
      → bind E named lib symbol types h ≡ ok ((a, sv), h')
      → (handle : ℕ) × (name : Text) × (entry_point : ℕ) × (open_library E lib ≡ some handle)
        × (find_symbol handle name ≡ some entry_point)
        × ((with_types E (unbound E handle entry_point name) types).0 ≡ a)
  unfolding bind
  bind-made named lib symbol types a sv h h' e = elim (Option-cases (open_library E lib)) [
    | inl absent ↦ absurd (ground arith)
    | inr (handle, opened) ↦
        let ran : (symbol_names E named symbol >>= finish named types handle) h ≡ ok ((a, sv), h') =
          ground arith in
        let step = bind_ok (symbol_names E named symbol) (finish named types handle) h ran in
        elim (Option-cases (find_symbol handle step.0.0)) [
          | inl missing ↦ absurd (ground (arith, step.3))
          | inr (entry_point, found) ↦
              (handle, step.0.0, entry_point, opened, found, ground (arith, step.3))
        ]
  ]

  -- A function that is bound keeps the library that was opened for it, and its entry point is where
  -- that library has the symbol under the fiction's name, whichever types were given.
  pub bind-resolves :
      (named : Bool) (lib symbol : Sv) (types : List Sv) (a : Fiction Sv) (sv : Sv) (h h' : Heap Sv)
      → bind E named lib symbol types h ≡ ok ((a, sv), h')
      → (handle : ℕ) × (open_library E lib ≡ some handle)
        × (a.lib ≡ some handle)
        × (find_symbol handle a.symbol ≡ some a.entry_point)
  bind-resolves named lib symbol types a sv h h' e =
      let made = bind-made named lib symbol types a sv h h' e in
      let kept = with_types-keeps (unbound E made.0 made.2 made.1) types in
      (
        made.0,
        made.3,
        sym (ap (λ x. x.lib) made.5) ∙ kept.0,
        ap (find_symbol made.0) (sym (ap (λ x. x.symbol) made.5) ∙ kept.2)
            ∙ made.4
            ∙ ap some (sym kept.1 ∙ ap (λ x. x.entry_point) made.5),
      )

  length-signature_of : (svs : List Sv) → length (signature_of (types_of E svs)) ≡ length svs
  unfolding signature_of types_of
  length-signature_of [] = refl
  length-signature_of (sv ∷ svs) = ap suc (length-signature_of svs)

  length-dollars : (svs : List Sv) → length (dollars (types_of E svs)) ≡ length svs
  unfolding dollars types_of
  length-dollars [] = refl
  length-dollars (sv ∷ svs) = ap suc (length-dollars svs)

  with_argtypes-signature :
      (a : Fiction Sv) (args : Sv) (svs : List Sv)
      → is_explicit_undef E args ≡ false
      → array_of args ≡ some svs
      → (with_argtypes E a args).0.signature ≡ some (signature_of (types_of E svs))
  unfolding with_argtypes
  with_argtypes-signature a args svs u e = rw (u, e) refl

  with_types-signature :
      (a : Fiction Sv) (args : Sv) (rest svs : List Sv)
      → is_explicit_undef E args ≡ false
      → array_of args ≡ some svs
      → (with_types E a (args ∷ rest)).0.signature ≡ some (signature_of (types_of E svs))
  unfolding with_types
  with_types-signature a args [] svs u e = with_argtypes-signature a args svs u e
  with_types-signature a args (ret ∷ rest) svs u e =
      with_argtypes-signature (with_restype E a (type_of ret)) args svs u e

  -- A function bound with a list of argument types returns only from a call with as many arguments as
  -- that list has types, whether or not a return type was given.
  pub bind-trigger :
      (named : Bool) (lib symbol args : Sv) (rest svs : List Sv) (a : Fiction Sv) (sub : Sv)
      (h h' : Heap Sv) (fuel : ℕ) (vals : List Sv) (g g' : Heap Sv) (out : Fiction Sv × Option Sv)
      → is_explicit_undef E args ≡ false
      → array_of args ≡ some svs
      → bind E named lib symbol (args ∷ rest) h ≡ ok ((a, sub), h')
      → trigger E fuel a vals g ≡ ok (out, g')
      → length vals ≡ length svs
  bind-trigger named lib symbol args rest svs a sub h h' fuel vals g g' out u e b r =
      let made = bind-made named lib symbol (args ∷ rest) a sub h h' b in
      trigger-count E fuel a (signature_of (types_of E svs)) vals g g' out
        (sym (ap (λ x. x.signature) made.5)
          ∙ with_types-signature (unbound E made.0 made.2 made.1) args rest svs u e)
        r
      ∙ length-signature_of svs
