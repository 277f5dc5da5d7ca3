-- ===== src/AffixObject/Made.antt =====
-- What an Affix object that `Affix_affix` made refers to, and how it may be called.
use fiction.Prelude.{
  ℕ, suc, ◌+◌, ◌≡◌, refl, sym, ap, ◌∙◌, Bool, false, ◌||◌, Bool-cases, Option-cases, inl, inr,
  Option, none, some, List, [], ◌∷◌, ◌++◌, if◌then◌else◌, arith, map, Text,
}
use mathlib.Core.Path.{subst}
use mathlib.Core.List.{append-nil, append_assoc}
use fiction.Flags.{Flag}
use fiction.Types.{AffixType, slots}
use fiction.Memory.{Heap, ok, M, pure, ◌>>=◌}
use fiction.Memory.Runs.{bind_ok}
use fiction.Env.{Env}
use fiction.Aggregate.{aggregate, is_aggregate}
use fiction.Trigger.Args.{lift}
use fiction.AffixObject.{Affix, Convention, convention_of, is_variadic}
use fiction.AffixObject.Make.{
  ArgTypes, no_types, set_aggregate, has_colons, is_type, add_type, add_types, affix_types,
  affix_symbol, affix_library, affix_entry, affix_return, made, finish_make, make,
}

-- How many of the types take a scalar, and whether one opens a variable argument list.
abbrev is_scalar : Option Convention → ℕ
is_scalar none = 1
is_scalar (some c) = 0

abbrev pub scalars : List (Flag × AffixType) → ℕ
scalars [] = 0
scalars ((f, t) ∷ ts) = is_scalar (convention_of f) + scalars ts

abbrev is_open : Option Convention → Bool
is_open none = false
is_open (some c) = is_variadic c

abbrev pub opens : List (Flag × AffixType) → Bool
opens [] = false
opens ((f, t) ∷ ts) = is_open (convention_of f) || opens ts

module _ (E : Env) where
  open E use {Sv, type_of, array_of, new_affix_xsub, find_symbol}

  abbrev typed_arg : Sv → Flag × AffixType
  typed_arg sv = ((slots (type_of sv)).numeric, type_of sv)

  abbrev pub typed_args : List Sv → List (Flag × AffixType)
  typed_args svs = map typed_arg svs

  -- `m'` is `m` with the types `ts` behind it.
  abbrev Extends : ArgTypes → List (Flag × AffixType) → ArgTypes → Type 0
  Extends m ts m' =
      (m'.args ≡ m.args ++ ts)
      × (m'.num_args ≡ m.num_args + scalars ts)
      × (m'.ellipsis ≡ (m.ellipsis || opens ts))

  add_type-Extends :
      (j : ℕ) (t : AffixType) (m m' : ArgTypes) (h h' : Heap Sv)
      → add_type E j t m h ≡ ok (m', h')
      → Extends m (((slots t).numeric, t) ∷ []) m'
  unfolding add_type
  add_type-Extends j t m m' h h' e = elim (Option-cases (convention_of (slots t).numeric)) [
    | inr (c, is_one) ↦ elim (Bool-cases (is_variadic c)) [
      | inl v ↦ (ground arith, ground arith, ground arith)
      | inr v ↦ (ground arith, ground arith, ground arith)
    ]
    | inl is_none ↦ elim (Bool-cases (is_aggregate (slots t).numeric)) [
      | inl yes_aggregate ↦
          let counted : ArgTypes = record m {
            args = m.args ++ (((slots t).numeric, t) ∷ []);
            num_args = suc m.num_args;
            prototype = m.prototype ++ (b'$' ∷ []);
          } in
          let run : (lift E (aggregate t) >>= λ d.
          pure (record counted { aggregates = set_aggregate j d m.aggregates }))
                h
              ≡ ok (m', h') =
            ground arith in
          let described =
            bind_ok (lift E (aggregate t))
              (λ d. pure (record counted { aggregates = set_aggregate j d m.aggregates })) h run in
          let same : record counted { aggregates = set_aggregate j described.0 m.aggregates } ≡ m' =
            ground (arith, described.3) in
          (sym (ap (λ x. x.args) same), ground arith, ground arith)
      | inr no_aggregate ↦ (ground arith, ground arith, ground arith)
    ]
  ]

  add_types-Extends :
      (j : ℕ) (svs : List Sv) (m m' : ArgTypes) (h h' : Heap Sv)
      → add_types E j svs m h ≡ ok (m', h')
      → Extends m (typed_args svs) m'
  unfolding add_types
  add_types-Extends j [] m m' h h' e =
      let same : m ≡ m' = ground arith in
      (sym (ap (λ x. x.args) same) ∙ sym (append-nil m.args), ground arith, ground arith)
  add_types-Extends j (sv ∷ svs) m m' h h' e = elim (Bool-cases (is_type E sv)) [
    | inr other_scalar ↦ absurd (ground arith)
    | inl a_type ↦
        let run : (add_type E j (type_of sv) m >>= λ m₁. add_types E (suc j) svs m₁) h
            ≡ ok (m', h') =
          ground arith in
        let one = bind_ok (add_type E j (type_of sv) m) (λ m₁. add_types E (suc j) svs m₁) h run in
        let first = add_type-Extends j (type_of sv) m one.0 h one.1 one.2 in
        let rest = add_types-Extends (suc j) svs one.0 m' one.1 h' one.3 in
        (
          rest.0
              ∙ ap (λ ts. ts ++ typed_args svs) first.0
              ∙ append_assoc m.args (typed_arg sv ∷ []) (typed_args svs),
          omega (arith, rest.1, first.1),
          ground (arith, rest.2, first.2),
        )
  ]

  affix_types-made :
      (args : Sv) (m : ArgTypes) (h h' : Heap Sv)
      → affix_types E args h ≡ ok (m, h')
      → (svs : List Sv) × (array_of args ≡ some svs) × (Extends no_types (typed_args svs) m)
  unfolding affix_types
  affix_types-made args m h h' e = elim (Option-cases (array_of args)) [
    | inl no_list ↦ absurd (ground arith)
    | inr (svs, is_list) ↦
        let run : add_types E 0 svs no_types h ≡ ok (m, h') = ground arith in
        (svs, is_list, add_types-Extends 0 svs no_types m h h' run)
  ]

  -- `make`, from the names on
  abbrev xsub_of : Bool → Text × Text → ArgTypes → Sv
  xsub_of named names m = new_affix_xsub (if named then some names.1 else none) m.prototype

  abbrev behind_types :
      Bool → (args ret : Sv) → Text × Text → Option Text × ℕ → ArgTypes → M Sv (Affix × Sv)
  behind_types named args ret names opened m =
      finish_make E opened names.0 m (xsub_of named names m) args ret

  abbrev behind_library : Bool → (args ret : Sv) → Text × Text → Option Text × ℕ → M Sv (Affix × Sv)
  behind_library named args ret names opened =
      affix_types E args >>= behind_types named args ret names opened

  abbrev behind_symbol : Bool → (lib args ret : Sv) → Text × Text → M Sv (Affix × Sv)
  behind_symbol named lib args ret names =
      affix_library E lib >>= behind_library named args ret names

  -- What an Affix that was made went through: its symbol, its library, its types, and its entry point.
  pub record Made (named : Bool) (lib symbol args ret : Sv) (h : Heap Sv) (sub : Sv) (a : Affix)
      : Type 0 where
    pub names : Text × Text
    pub path : Option Text
    pub svs : List Sv
    pub xsub : Sv
    pub h₁ : Heap Sv
    pub h₂ : Heap Sv
    pub h₃ : Heap Sv
    pub h₄ : Heap Sv
    pub symbol_given : affix_symbol E named symbol h ≡ ok (names, h₁)
    pub library_opened : affix_library E lib h₁ ≡ ok ((path, a.lib_handle), h₂)
    pub types_given : array_of args ≡ some svs
    pub types_held : a.args ≡ typed_args svs
    pub types_counted : a.num_args ≡ scalars (typed_args svs)
    pub types_open : a.ellipsis ≡ opens (typed_args svs)
    pub entry_found : affix_entry E a.lib_handle xsub names.0 args h₃ ≡ ok (a.entry_point, h₄)
    pub installed : xsub ≡ sub
    pub is_method : a.cpp_struct ≡ has_colons names.0
    pub no_constructor : a.cpp_constructor ≡ false

  pub make-Made :
      (named : Bool) (lib symbol args ret : Sv) (a : Affix) (sub : Sv) (h h' : Heap Sv)
      → make E named lib symbol args ret h ≡ ok ((a, sub), h')
      → Made named lib symbol args ret h sub a
  unfolding make finish_make
  make-Made named lib symbol args ret a sub h h' e =
      let names = bind_ok (affix_symbol E named symbol) (behind_symbol named lib args ret) h e in
      let opened =
        bind_ok (affix_library E lib) (behind_library named args ret names.0) names.1 names.3 in
      let types =
        bind_ok (affix_types E args) (behind_types named args ret names.0 opened.0) opened.1
          opened.3 in
      let given = affix_types-made args types.0 opened.1 types.1 types.2 in
      let xsub = xsub_of named names.0 types.0 in
      let entry =
        bind_ok (affix_entry E opened.0.1 xsub names.0.0 args)
          (λ p. affix_return E ret >>= λ t. pure (made E opened.0 names.0.0 types.0 p t, xsub))
          types.1 types.3 in
      let returns =
        bind_ok (affix_return E ret) (λ t. pure (made E opened.0 names.0.0 types.0 entry.0 t, xsub))
          entry.1 entry.3 in
      let same : made E opened.0 names.0.0 types.0 entry.0 returns.0 ≡ a =
        ground (arith, returns.3) in
      subst (Made named lib symbol args ret h sub) same (record {
        names = names.0;
        path = opened.0.0;
        svs = given.0;
        xsub = xsub;
        h₁ = names.1;
        h₂ = opened.1;
        h₃ = types.1;
        h₄ = entry.1;
        symbol_given = names.2;
        library_opened = opened.2;
        types_given = given.1;
        types_held = given.2.0;
        types_counted = given.2.1 ∙ omega arith;
        types_open = given.2.2;
        entry_found = entry.2;
        installed = ground (arith, returns.3);
        is_method = refl;
        no_constructor = refl;
      })
