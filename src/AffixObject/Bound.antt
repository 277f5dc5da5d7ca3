-- ===== src/AffixObject/Bound.antt =====
-- How a function that `Affix_affix` bound is found, called, and kept within its arrays.
use fiction.Prelude.{
  ℕ, ◌≡◌, ap, ◌∙◌, Bool, true, false, ◌||◌, Option-cases, inl, inr, Option, none, some, List, [],
  ◌∷◌, ◌==◌, ==_iff, length, arith, Text, String, ◌⊎◌,
}
use fiction.Memory.{Heap, ok, M, pure}
use fiction.Memory.Runs.{bind_ok}
use fiction.Call.{CallMode}
use fiction.Env.{Env}
use fiction.AffixObject.{Affix}
use fiction.AffixObject.Trigger.{Called, affix_trigger, wanted}
use fiction.AffixObject.Runs.{ran, affix_trigger-Ran}
use fiction.AffixObject.Make.{affix_symbol, affix_library, affix_entry, find_mangled, mangle, make}
use fiction.AffixObject.Made.{make-Made, scalars, opens, typed_args}

module _ (E : Env) where
  open E use {Sv, type_of, array_of, find_symbol}

  -- The ABIs of a list are asked in turn for the symbol's mangled name, until the library has it.
  pub data FoundMangled (handle : ℕ) (xsub args : Sv) (symbol : Text) (p : ℕ)
      : List String → Heap Sv → Type 0 where
    found_by :
        (abi : String) (abis : List String) (name : Text) (h g : Heap Sv)
        → mangle E abi xsub symbol args h ≡ ok (name, g)
        → find_symbol handle name ≡ some p
        → FoundMangled handle xsub args symbol p (abi ∷ abis) h
    found_later :
        (abi : String) (abis : List String) (name : Text) (h g : Heap Sv)
        → mangle E abi xsub symbol args h ≡ ok (name, g)
        → find_symbol handle name ≡ none
        → FoundMangled handle xsub args symbol p abis g
        → FoundMangled handle xsub args symbol p (abi ∷ abis) h

  find_mangled-found :
      (handle : ℕ) (abis : List String) (xsub args : Sv) (symbol : Text) (p : ℕ) (h h' : Heap Sv)
      → find_mangled E handle abis xsub symbol args h ≡ ok (p, h')
      → FoundMangled handle xsub args symbol p abis h
  unfolding find_mangled
  find_mangled-found handle [] xsub args symbol p h h' e = absurd (ground arith)
  find_mangled-found handle (abi ∷ abis) xsub args symbol p h h' e =
      let behind : Text → M Sv ℕ = λ name. elim (find_symbol handle name) [
        | some entry_point ↦ pure entry_point
        | none ↦ find_mangled E handle abis xsub symbol args
      ] in
      let one = bind_ok (mangle E abi xsub symbol args) behind h e in
      elim (Option-cases (find_symbol handle one.0)) [
        | inr (q, found) ↦ found_by abi abis one.0 h one.1 one.2 (ground (arith, one.3))
        | inl missing ↦
            found_later abi abis one.0 h one.1 one.2 missing
              (find_mangled-found handle abis xsub args symbol p one.1 h' (ground (arith, one.3)))
      ]

  -- Where a symbol is found: under its own name, or else as one of the ABIs mangles it.
  abbrev pub Resolves : ℕ → Sv → Sv → Text → ℕ → Type 0
  Resolves handle xsub args symbol p =
      (find_symbol handle symbol ≡ some p)
      ⊎ ((find_symbol handle symbol ≡ none)
          × (h : Heap Sv) × FoundMangled handle xsub args symbol p
              ("Itanium" ∷ "Rust" ∷ "Fortran" ∷ []) h)

  affix_entry-found :
      (handle : ℕ) (xsub args : Sv) (symbol : Text) (p : ℕ) (h h' : Heap Sv)
      → affix_entry E handle xsub symbol args h ≡ ok (p, h')
      → Resolves handle xsub args symbol p
  unfolding affix_entry
  affix_entry-found handle xsub args symbol p h h' e =
      elim (Option-cases (find_symbol handle symbol)) [
        | inr (q, found) ↦ inl (ground arith)
        | inl missing ↦ inr (
          missing,
          h,
          find_mangled-found handle ("Itanium" ∷ "Rust" ∷ "Fortran" ∷ []) xsub args symbol p h h'
              (ground arith),
        )
      ]

  -- An Affix that is made holds the library that was opened for it, and its entry point is where that
  -- library has the given symbol or, only where it has no such symbol, the name that the first of the
  -- ABIs Itanium, Rust and Fortran mangles it to whose name the library has; each of these is asked
  -- with the XSUB and the argument types.
  pub make-Resolves :
      (named : Bool) (lib symbol args ret : Sv) (a : Affix) (sub : Sv) (h h' : Heap Sv)
      → make E named lib symbol args ret h ≡ ok ((a, sub), h')
      → (names : Text × Text) × (path : Option Text) × (g : Heap Sv) × (g' : Heap Sv)
        × (affix_symbol E named symbol h ≡ ok (names, g))
        × (affix_library E lib g ≡ ok ((path, a.lib_handle), g'))
        × Resolves a.lib_handle sub args names.0 a.entry_point
  make-Resolves named lib symbol args ret a sub h h' e =
      let r = make-Made E named lib symbol args ret a sub h h' e in
      (
        r.names,
        r.path,
        r.h₁,
        r.h₂,
        r.symbol_given,
        r.library_opened,
        affix_entry-found a.lib_handle sub args r.names.0 a.entry_point r.h₃ r.h₄
            (rw r.installed at r.entry_found),
      )

  -- A function that was bound with a list of types, none of them variadic, to a symbol without `::`
  -- returns only from a call with as many items as the list has types that are no convention.
  pub make-trigger :
      (named : Bool) (lib symbol args ret : Sv) (a : Affix) (sub : Sv) (h h' : Heap Sv) (fuel : ℕ)
      (mode : CallMode) (svs types : List Sv) (g g' : Heap Sv) (out : Called E)
      → make E named lib symbol args ret h ≡ ok ((a, sub), h')
      → array_of args ≡ some types
      → opens (typed_args E types) ≡ false
      → a.cpp_struct ≡ false
      → affix_trigger E fuel mode a svs g ≡ ok (out, g')
      → length svs ≡ scalars (typed_args E types)
  unfolding wanted
  make-trigger named lib symbol args ret a sub h h' fuel mode svs types g g' out e given closed
        no_method run =
      let r = make-Made E named lib symbol args ret a sub h h' e in
      let same : r.svs ≡ types = ground (arith, r.types_given) in
      let passed : (a.ellipsis || length svs == wanted a) ≡ true =
        elim (affix_trigger-Ran E fuel mode a svs g g' out run) [
          | ran args i l k k' r ws p loop same ↦ p
        ] in
      let not_open : a.ellipsis ≡ false =
        r.types_open ∙ ap (λ ts. opens (typed_args E ts)) same ∙ closed in
      let checked : (length svs == wanted a) ≡ true = ground (arith, passed, not_open) in
      (==_iff (length svs) (wanted a)).0 checked
      ∙ rw no_method r.types_counted
      ∙ ap (λ ts. scalars (typed_args E ts)) same
