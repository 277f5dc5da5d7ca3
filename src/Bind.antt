-- ===== src/Bind.antt =====
-- Binding of functions: the library functions and `Affix_fiction` (affix and wrap)
-- of lib/Affix.cxx.
pub mod Lookup
pub mod Libraries
pub mod Closing
pub mod Symbols
use fiction.Prelude.{
  ℕ, Bool, true, false, not, ◌&&◌, ◌||◌, Option, none, some, List, [], ◌∷◌, ◌==◌, if◌then◌else◌,
  length, is_some, String, Text, codes,
}
use fiction.Flags.{Flag, void_flag, wchar_flag, wstring_flag, stdstring_flag, struct_flag}
use fiction.Types.{AffixType, TypeList, nil, cons, slots, signature_of}
use fiction.Memory.{
  Heap, Fiction, plain, about, usage, M, pure, ◌>>=◌, ◌>>◌, fail, undefined_behaviour, warn, calloc,
}
use fiction.Unmarshal.Cases.{dollars}
use fiction.Env.{Env}

abbrev pub non_null : ℕ → Option ℕ
non_null a = if a == 0 then none else some a

module _ (E : Env) where
  open E use {
    Sv, undef, sv_ok, sv_readonly, sv_pok, sv_isobject, sv_derived_from, sv_pv, array_of,
    object_addr, type_of, load_library, find_symbol, stat_fails, find_library, new_pvn, new_xsub,
    new_object, malloc,
  }

  abbrev pub is_explicit_undef : Sv → Bool
  is_explicit_undef sv = not (sv_ok sv) && sv_readonly sv

  -- The library of `affix`, `wrap` and `pin`: the program itself, a library object, a file that
  -- loads, or what Affix::find_library answers where there is no such file.
  unfoldable pub open_library : Sv → Option ℕ
  open_library sv =
      if is_explicit_undef sv
      then load_library none
      else if sv_isobject sv && sv_derived_from sv "Affix::Lib"
      then non_null (object_addr sv)
      else elim (load_library (some (sv_pv sv))) [
        | some lib ↦ some lib
        | none ↦ if stat_fails (sv_pv sv) then load_library (some (find_library sv)) else none
      ]

  -- The name to look up, and the Perl name: a symbol, or a pair of both. `named` is ix == 0.
  unfoldable pub symbol_names : Bool → Sv → M Sv (Text × Text)
  symbol_names named sv = elim (array_of sv) [
    | some (symbol ∷ name ∷ []) ↦ do
      (if named then pure tt else warn "wrap( ... ) isn't expecting a name and has ignored it")
      if sv_pok symbol
          then pure (sv_pv symbol, sv_pv name)
          else fail (plain "Undefined symbol name")
    | some _ ↦ fail (plain "Expected a symbol and name")
    | none ↦ if sv_pok sv then pure (sv_pv sv, sv_pv sv) else undefined_behaviour
  ]

  -- The scalar that results are set in, by the return type's flag.
  unfoldable pub initial_res : Flag → Option Sv
  initial_res struct_flag = none
  initial_res wchar_flag = some (new_pvn [])
  initial_res wstring_flag = some (new_pvn [])
  initial_res stdstring_flag = some (new_pvn [])
  initial_res _ = some undef

  unfoldable pub is_struct : Flag → Bool
  is_struct struct_flag = true
  is_struct _ = false

  unfoldable pub types_of : List Sv → TypeList
  types_of [] = nil
  types_of (sv ∷ svs) = cons (type_of sv) (types_of svs)

  -- The argument types, and the fiction with its signature and its prototype.
  unfoldable pub with_argtypes : Fiction Sv → Sv → Fiction Sv × Option Text
  unfolding types_of dollars
  with_argtypes a sv =
      if is_explicit_undef sv
      then (record a { signature = none; argtypes = nil }, none)
      else elim (array_of sv) [
        | none ↦ (a, none)
        | some svs ↦
            let ts = types_of svs in
            (record a { signature = some (signature_of ts); argtypes = ts }, some (dollars ts))
      ]

  unfoldable pub with_restype : Fiction Sv → AffixType → Fiction Sv
  unfolding initial_res is_struct
  with_restype a t = record a {
    restype = some t;
    restype_c = (slots t).numeric;
    aggr_restype = is_struct (slots t).numeric;
    res = initial_res (slots t).numeric;
  }

  -- The switch on the number of items: a missing type leaves its defaults.
  unfoldable pub with_types : Fiction Sv → List Sv → Fiction Sv × Option Text
  unfolding with_argtypes with_restype
  with_types a [] = (a, none)
  with_types a (args ∷ []) = with_argtypes a args
  with_types a (args ∷ ret ∷ rest) = with_argtypes (with_restype a (type_of ret)) args

  abbrev pub unbound : ℕ → ℕ → Text → Fiction Sv
  unbound lib entry_point symbol = record {
    lib = some lib;
    entry_point = entry_point;
    symbol = symbol;
    signature = none;
    argtypes = nil;
    restype = none;
    restype_c = void_flag;
    aggr_restype = false;
    res = none;
  }

  -- `Affix_fiction` after the check of the number of items; `types` are ST(2) and ST(3), if given.
  unfoldable pub bind : Bool → (lib symbol : Sv) (types : List Sv) → M Sv (Fiction Sv × Sv)
  unfolding open_library symbol_names with_types
  bind named lib symbol types = elim (open_library lib) [
    | none ↦ fail (plain "Failed to load library")
    | some handle ↦ do
      names ← symbol_names named symbol
      elim (find_symbol handle names.0) [
        | none ↦ fail (about "Failed to locate entry point named %s" names.0)
        | some entry_point ↦
            let made = with_types (unbound handle entry_point names.0) types in
            pure (made.0, new_xsub (if named then some names.1 else none) made.1 made.0)
      ]
  ]

  unfoldable pub affix_fiction : Bool → List Sv → M Sv (Fiction Sv × Sv)
  unfolding bind
  affix_fiction named (lib ∷ symbol ∷ []) = bind named lib symbol []
  affix_fiction named (lib ∷ symbol ∷ args ∷ []) = bind named lib symbol (args ∷ [])
  affix_fiction named (lib ∷ symbol ∷ args ∷ ret ∷ []) = bind named lib symbol (args ∷ ret ∷ [])
  affix_fiction named _ = fail (usage "$lib, $symbol, [$argtypes, $rettype]")

  -- `Affix_load_library`: undef, or an Affix::Lib object of the handle.
  unfoldable pub affix_load_library : Sv → Sv
  affix_load_library sv =
      elim (load_library (if is_explicit_undef sv then none else some (sv_pv sv))) [
        | none ↦ undef
        | some lib ↦ new_object (some "Affix::Lib") lib
      ]

  -- `Affix_find_symbol`: any other scalar than these leaves `lib` NULL, which answers undef.
  -- The buffer of 1024 bytes is neither used nor freed.
  unfoldable pub symbol_library : Sv → Option ℕ
  symbol_library sv =
      if is_explicit_undef sv
      then load_library none
      else if sv_isobject sv && sv_derived_from sv "Affix::Lib"
      then non_null (object_addr sv)
      else if sv_pok sv || (sv_isobject sv && sv_derived_from sv "Path::Tiny")
      then load_library (some (sv_pv sv))
      else none

  unfoldable pub affix_find_symbol : Sv → Sv → M Sv Sv
  unfolding symbol_library
  affix_find_symbol lib symbol = elim (symbol_library lib) [
    | none ↦ pure undef
    | some handle ↦ do
      _ ← calloc malloc 1024
      elim (find_symbol handle (sv_pv symbol)) [
        | none ↦ fail (plain "Failed to load lib %s")
        | some entry_point ↦ pure (new_object none entry_point)
      ]
  ]
