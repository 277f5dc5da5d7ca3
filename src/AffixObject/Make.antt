-- ===== src/AffixObject/Make.antt =====
-- `Affix_affix` of lib/Affix.cxx, with `locate_lib` and `mangle` of lib/Affix/Lib.cxx: how an Affix
-- object is made.
use fiction.Prelude.{
  ℕ, suc, ◌+◌, String, Bool, true, false, ◌&&◌, ◌||◌, Option, none, some, is_some, List, [], ◌∷◌,
  ◌++◌, ◌==◌, if◌then◌else◌, length, Text, codes,
}
use fiction.Flags.{Flag}
use fiction.Types.{AffixType, slots}
use fiction.Aggregate.{Aggr, aggregate, is_aggregate}
use fiction.Memory.{
  plain, about, position, usage, M, pure, ◌>>=◌, ◌>>◌, fail, undefined_behaviour, warn,
}
use fiction.Env.{Env}
use fiction.Trigger.Args.{lift}
use fiction.AffixObject.{Affix, convention_of, is_variadic}

-- `instr(name, "::") != NULL`
unfoldable pub has_colons : Text → Bool
has_colons [] = false
has_colons (c ∷ []) = false
has_colons (c ∷ d ∷ cs) = (c == b':' && d == b':') || has_colons (d ∷ cs)

-- What the loop over the argument types has filled.
pub record ArgTypes : Type 0 where
  pub num_args : ℕ
  pub args : List (Flag × AffixType)
  pub aggregates : ℕ → Option Aggr
  pub ellipsis : Bool
  pub prototype : Text

abbrev pub no_types : ArgTypes
no_types = record {
  num_args = 0;
  args = [];
  aggregates = λ i. none;
  ellipsis = false;
  prototype = [];
}

unfoldable pub set_aggregate : ℕ → Aggr → (ℕ → Option Aggr) → ℕ → Option Aggr
set_aggregate i d as_before j = if j == i then some d else as_before j

module _ (E : Env) where
  open E use {
    Sv, sv_ok, sv_pok, sv_isobject, sv_derived_from, sv_pv, undef, array_of, deref, object_addr,
    type_of, load_library, find_symbol, call_locate_lib, call_mangle, library_path, new_affix_xsub,
  }

  -- `SvROK(sv) && sv_derived_from(sv, "Affix::Type")`
  abbrev pub is_type : Sv → Bool
  is_type sv = is_some (deref sv) && sv_derived_from sv "Affix::Type"

  -- The case of one argument type.
  unfoldable pub add_type : ℕ → AffixType → ArgTypes → M Sv ArgTypes
  unfolding is_aggregate set_aggregate
  add_type arg_pos t m =
      let f = (slots t).numeric in
      let m₁ = record m { args = m.args ++ ((f, t) ∷ []) } in
      let counted = record m₁ {
        num_args = suc m.num_args;
        prototype = m.prototype ++ (b'$' ∷ []);
      } in
      elim (convention_of f) [
        | some c ↦ pure (
            if is_variadic c
            then record m₁ { ellipsis = true; prototype = m.prototype ++ (b';' ∷ []) }
            else m₁)
        | none ↦
            if is_aggregate f
            then (do
              d ← lift E (aggregate t)
              pure (record counted { aggregates = set_aggregate arg_pos d m.aggregates }))
            else pure counted
      ]

  unfoldable pub add_types : ℕ → List Sv → ArgTypes → M Sv ArgTypes
  unfolding add_type
  add_types arg_pos [] m = pure m
  add_types arg_pos (sv ∷ svs) m =
      if is_type sv
      then (do m' ← add_type arg_pos (type_of sv) m; add_types (suc arg_pos) svs m')
      else fail (position "Unexpected arg type in slot %ld" (arg_pos + 1))

  unfoldable pub affix_types : Sv → M Sv ArgTypes
  unfolding add_types
  affix_types args = elim (array_of args) [
    | none ↦ fail (plain "Expected a list of argument types as an array ref")
    | some svs ↦ add_types 0 svs no_types
  ]

  -- The symbol and the Perl name. `wrap` refuses a pair.
  unfoldable pub affix_symbol : Bool → Sv → M Sv (Text × Text)
  affix_symbol named sv = elim (array_of sv) [
    | some (symbol ∷ name ∷ []) ↦
        if named
        then (if sv_pok symbol
            then pure (sv_pv symbol, sv_pv name)
            else fail (plain "Undefined symbol name"))
        else fail (plain "wrap( ... ) isn't expecting a name and has ignored it")
    | some _ ↦ fail (plain "Expected a symbol and name")
    | none ↦ if sv_pok sv then pure (sv_pv sv, sv_pv sv) else fail (plain "Undefined symbol name")
  ]

  -- `locate_lib`: an undefined library is the program itself, and so is one that is not found.
  unfoldable pub locate_lib : Sv → Sv → Option Text
  locate_lib lib ver =
      if sv_ok lib
      then elim (call_locate_lib lib ver) [
        | none ↦ none
        | some ret ↦
            if sv_ok ret then (if length (sv_pv ret) == 0 then none else some (sv_pv ret)) else none
      ]
      else none

  -- The library's path and handle.
  unfoldable pub load_for : Sv → Sv → M Sv (Option Text × ℕ)
  unfolding locate_lib
  load_for lib ver =
      if sv_isobject lib && sv_derived_from lib "Affix::Lib"
      then pure (some (library_path (object_addr lib)), object_addr lib)
      else elim (load_library (locate_lib lib ver)) [
        | none ↦ fail (plain "Failed to load lib %s")
        | some handle ↦ pure (locate_lib lib ver, handle)
      ]

  -- The library, or a list of it and its version. The list's elements are fetched without a look at
  -- its length, which is only warned about.
  unfoldable pub affix_library : Sv → M Sv (Option Text × ℕ)
  unfolding load_for
  affix_library sv = elim (array_of sv) [
    | none ↦ load_for sv undef
    | some (lib ∷ ver ∷ []) ↦ load_for lib ver
    | some (lib ∷ ver ∷ v ∷ rest) ↦ do warn "Expected a lib and version"; load_for lib ver
    | some _ ↦ undefined_behaviour
  ]

  -- `mangle`: the ABI's module is called under G_KEEPERR, so what $@ holds may be older.
  unfoldable pub mangle : String → Sv → Text → Sv → M Sv Text
  mangle abi xsub symbol args = do
    r ← call_mangle abi xsub symbol args
    elim r.0 [
      | some e ↦ fail (about "Malformed call to Affix::ABI::%s::mangle( ... ): %s\n" (codes abi))
      | none ↦ do warn "! mangled: %s"; pure r.1
    ]

  -- The symbol under its own name, or as one of these ABIs mangles it.
  unfoldable pub find_mangled : ℕ → List String → Sv → Text → Sv → M Sv ℕ
  unfolding mangle
  find_mangled handle [] xsub symbol args = fail (about "Failed to find symbol named %s" symbol)
  find_mangled handle (abi ∷ abis) xsub symbol args = do
    name ← mangle abi xsub symbol args
    elim (find_symbol handle name) [
      | some entry_point ↦ pure entry_point
      | none ↦ find_mangled handle abis xsub symbol args
    ]

  unfoldable pub affix_entry : ℕ → Sv → Text → Sv → M Sv ℕ
  unfolding find_mangled
  affix_entry handle xsub symbol args = elim (find_symbol handle symbol) [
    | some entry_point ↦ pure entry_point
    | none ↦ find_mangled handle ("Itanium" ∷ "Rust" ∷ "Fortran" ∷ []) xsub symbol args
  ]

  -- A type object is an array, which `hv_exists` takes for a hash.
  unfoldable pub affix_return : Sv → M Sv AffixType
  affix_return sv =
      if is_type sv
      then (if sv_derived_from sv "Affix::Type::Array"
          then undefined_behaviour
          else pure (type_of sv))
      else fail (plain "Unknown return type")

  abbrev pub made : Option Text × ℕ → Text → ArgTypes → ℕ → AffixType → Affix
  made opened name m entry_point t = record {
    num_args = m.num_args;
    args = m.args;
    ret_type = (slots t).numeric;
    ret_info = t;
    lib_name = opened.0;
    lib_handle = opened.1;
    entry_point = entry_point;
    aggregates = m.aggregates;
    ret_aggregate = none;
    ellipsis = m.ellipsis;
    cpp_constructor = false;
    cpp_const = false;
    cpp_struct = has_colons name;
    temp_ptrs = none;
    ret_ptr = 0;
  }

  -- What is left once the XSUB is installed.
  unfoldable pub finish_make :
      Option Text × ℕ → Text → ArgTypes → (xsub args ret : Sv) → M Sv (Affix × Sv)
  unfolding affix_entry affix_return has_colons
  finish_make opened name m xsub args ret = do
    entry_point ← affix_entry opened.1 xsub name args
    t ← affix_return ret
    pure (made opened name m entry_point t, xsub)

  unfoldable pub make : Bool → (lib symbol args ret : Sv) → M Sv (Affix × Sv)
  unfolding affix_symbol affix_library affix_types finish_make
  make named lib symbol args ret = do
    names ← affix_symbol named symbol
    opened ← affix_library lib
    m ← affix_types args
    finish_make opened names.0 m (new_affix_xsub (if named then some names.1 else none) m.prototype)
        args ret

  -- `Affix_affix`: `affix` for ix == 0, `wrap` for ix == 1.
  unfoldable pub affix_affix : Bool → List Sv → M Sv (Affix × Sv)
  unfolding make
  affix_affix named (lib ∷ symbol ∷ args ∷ ret ∷ []) = make named lib symbol args ret
  affix_affix named _ = fail (usage "$lib, $symbol, @arg_types, $ret_type")

-- `Affix_cpp_constructor`, where it is given a second item.
unfoldable pub set_constructor : Bool → Affix → Affix
set_constructor b a = record a { cpp_constructor = b }
