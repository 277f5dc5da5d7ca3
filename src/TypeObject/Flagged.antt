-- ===== src/TypeObject/Flagged.antt =====
-- What the methods of a type object do, in a row.
use fiction.Prelude.{
  ℕ, ◌%◌, ◌^◌, ◌≡◌, ◌≢◌, refl, sym, ap, ◌∙◌, Bool, false, none, some, List, [], ◌∷◌, ◌++◌, ◌==◌,
  if◌then◌else◌, Text, codes, arith,
}
use fiction.Env.{Env, sizeof_intptr}
use fiction.Memory.{Heap, Result, ok, croak, fault, out_of_fuel, c_string}
use fiction.TypeObject.{
  delete_type, type_destroy, TypeObject, Types, find_type, set_type, alignment, stringify, Answer,
  type_new, with_type, answer_text, type_alignment, type_sizeof, type_stringify, type_pointer,
  type_const,
}

set_type-here :
    (a : ℕ) (t u : TypeObject) (types : Types) → set_type a u ((a, t) ∷ types) ≡ (a, u) ∷ types
unfolding set_type
set_type-here a t u types = ground arith

delete_type-here : (a : ℕ) (t : TypeObject) (types : Types) → delete_type a ((a, t) ∷ types) ≡ types
unfolding delete_type
delete_type-here a t types = ground arith

find_type-here : (a : ℕ) (t : TypeObject) (types : Types) → find_type a ((a, t) ∷ types) ≡ some t
unfolding find_type
find_type-here a t types = ground arith

find_type-there :
    (a b : ℕ) (t : TypeObject) (types : Types)
    → b ≢ a
    → find_type b ((a, t) ∷ types) ≡ find_type b types
unfolding find_type
find_type-there a b t types h = ground (arith, h)

-- A call of `pointer` or of `const` with a flag.
pub data Setting (Sv : Type 0) : Type 0 where
  set_pointer set_const : Sv → Setting Sv

module _ (E : Env) where
  open E use {Sv, sv_true, sv_iv, sv_pv, new_iv, new_pvn, new_instance, object_addr, pv_address}

  abbrev pub types_of : Answer Sv → Result Types
  types_of (ok (sv, types)) = ok types
  types_of (croak e) = croak e
  types_of fault = fault
  types_of out_of_fuel = out_of_fuel

  abbrev pub set : Sv → Setting Sv → Types → Result Types
  set sv (set_pointer flag) types = types_of (type_pointer E sv (flag ∷ []) types)
  set sv (set_const flag) types = types_of (type_const E sv (flag ∷ []) types)

  abbrev pub set_all : Sv → List (Setting Sv) → Types → Result Types
  set_all sv [] types = ok types
  set_all sv (s ∷ settings) types = elim (set sv s types) [
    | ok types' ↦ set_all sv settings types'
    | croak e ↦ croak e
    | fault ↦ fault
    | out_of_fuel ↦ out_of_fuel
  ]

  -- the flags behind a row of settings: the last one counts
  abbrev pub pointer_behind : List (Setting Sv) → Bool → Bool
  pointer_behind [] b = b
  pointer_behind (set_pointer flag ∷ settings) b = pointer_behind settings (sv_true flag)
  pointer_behind (set_const flag ∷ settings) b = pointer_behind settings b

  abbrev pub const_behind : List (Setting Sv) → Bool → Bool
  const_behind [] b = b
  const_behind (set_pointer flag ∷ settings) b = const_behind settings b
  const_behind (set_const flag ∷ settings) b = const_behind settings (sv_true flag)

  abbrev behind : List (Setting Sv) → TypeObject → TypeObject
  behind settings t = record t {
    pointer_flag = pointer_behind settings t.pointer_flag;
    const_flag = const_behind settings t.const_flag;
  }

  set_lem :
      (sv : Sv) (s : Setting Sv) (t : TypeObject) (types : Types)
      → object_addr sv ≢ 0
      → find_type (object_addr sv) types ≡ some t
      → set sv s types ≡ ok (set_type (object_addr sv) (behind (s ∷ []) t) types)
  unfolding type_pointer type_const
  set_lem sv (set_pointer flag) t types live found = ground (arith, live, found)
  set_lem sv (set_const flag) t types live found = ground (arith, live, found)

  set_all-then :
      (sv : Sv) (s : Setting Sv) (settings : List (Setting Sv)) (types : Types) {types' : Types}
      → set sv s types ≡ ok types'
      → set_all sv (s ∷ settings) types ≡ set_all sv settings types'
  set_all-then sv s settings types e = rw (set_all, e) refl

  behind-then :
      (s : Setting Sv) (settings : List (Setting Sv)) (t : TypeObject)
      → behind settings (behind (s ∷ []) t) ≡ behind (s ∷ settings) t
  behind-then (set_pointer flag) settings t = refl
  behind-then (set_const flag) settings t = refl

  -- on the object that was made last
  set_all_lem :
      (sv : Sv) (settings : List (Setting Sv)) (t : TypeObject) (types : Types)
      → object_addr sv ≢ 0
      → set_all sv settings ((object_addr sv, t) ∷ types)
        ≡ ok ((object_addr sv, behind settings t) ∷ types)
  set_all_lem sv [] t types live = refl
  set_all_lem sv (s ∷ settings) t types live =
      let a = object_addr sv in
      let u = behind (s ∷ []) t in
      set_all-then sv s settings ((a, t) ∷ types) (
        set_lem sv s t ((a, t) ∷ types) live (find_type-here a t types)
        ∙ ap ok (set_type-here a t u types))
      ∙ set_all_lem sv settings u types live
      ∙ ap (λ v. ok ((a, v) ∷ types)) (behind-then s settings t)

  with_type-live :
      (sv : Sv) (t : TypeObject) (types : Types) (use_it : TypeObject → Types → Answer Sv)
      → object_addr sv ≢ 0
      → find_type (object_addr sv) types ≡ some t
      → with_type E sv use_it types ≡ use_it t types
  unfolding with_type
  with_type-live sv t types use_it live found =
      let no_null : (object_addr sv == 0) ≡ false = ground (arith, live) in rw (no_null, found) refl

  -- `new` with five arguments and any row of calls of `pointer` and `const` with a flag on the new object:
  -- its text, where the pointer leads, is then stringified between `Pointer[ ` and `Const[ ` as the last
  -- flags of each say; `alignment` is a pointer's if that flag is set and the own one otherwise; `sizeof`
  -- is the own size, whatever the flags are; all other objects are as before; and DESTROY leaves just the
  -- objects that there were.
  pub type_new-settings :
      (allocate : Types → ℕ) (klass text flag size align : Sv) (settings : List (Setting Sv))
      (types : Types) (fuel : ℕ) (s : Text) (h : Heap Sv)
      → allocate types ≢ 0
      → object_addr (new_instance (sv_pv klass) (allocate types)) ≡ allocate types
      → c_string fuel (pv_address text) h ≡ ok (s, h)
      → let sv = new_instance (sv_pv klass) (allocate types) in
        let p = pointer_behind settings false in
        let c = const_behind settings false in
        (first last : Types) × (type_new E allocate (klass ∷ text ∷ flag ∷ size ∷ align ∷ []) types
          ≡ ok (some sv, first))
        × (set_all sv settings first ≡ ok last)
        × (type_stringify E fuel h sv last
            ≡ ok (
              some (
                  new_pvn (
                    (if p then codes "Pointer[ " else [])
                    ++ ((if c then codes "Const[ " else [])
                        ++ (s
                            ++ ((if c then codes " ]" else [])
                                ++ (if p then codes " ]" else [])))))),
              last,
            ))
        × (type_alignment E sv last
            ≡ ok (some (new_iv (if p then sizeof_intptr else sv_iv align % 2 ^ 64)), last))
        × (type_sizeof E sv last ≡ ok (some (new_iv (sv_iv size % 2 ^ 64)), last))
        × ((b : ℕ) → b ≢ allocate types → find_type b last ≡ find_type b types)
        × (type_destroy E sv last ≡ ok (none, types))
  unfolding type_destroy type_new type_stringify type_alignment type_sizeof alignment stringify
  type_new-settings allocate klass text flag size align settings types fuel s h live addr reads =
      let a = allocate types in
      let sv = new_instance (sv_pv klass) a in
      let t : TypeObject = record {
        stringify_address = pv_address text;
        numeric = sv_iv flag % 256;
        size = sv_iv size % 2 ^ 64;
        own_alignment = sv_iv align % 2 ^ 64;
        const_flag = false;
        pointer_flag = false;
      } in
      let there : object_addr sv ≢ 0 = λ e. live (sym addr ∙ e) in
      let u = behind settings t in
      let last : Types = (a, u) ∷ types in
      let run : set_all sv settings ((a, t) ∷ types) ≡ ok last =
        ap (λ b. set_all sv settings ((b, t) ∷ types)) (sym addr)
        ∙ set_all_lem sv settings t types there
        ∙ ap (λ b. ok ((b, u) ∷ types)) addr in
      let here : find_type (object_addr sv) last ≡ some u =
        ap (λ b. find_type b last) addr ∙ find_type-here a u types in
      let go = λ (f : TypeObject → Types → Answer Sv). with_type-live sv u last f there here in
      (
        (a, t) ∷ types,
        last,
        refl,
        run,
        go (λ t types. answer_text E t types (c_string fuel t.stringify_address h))
            ∙ ap (answer_text E u last) reads,
        go (λ t types. ok (some (new_iv (alignment t)), types)),
        go (λ t types. ok (some (new_iv t.size), types)),
        λ b out. find_type-there a b u types out,
        go (λ t types. ok (none, delete_type (object_addr sv) types))
            ∙ ap (λ b. ok (none, delete_type b last)) addr
            ∙ ap (λ ts. ok (none, ts)) (delete_type-here a u types),
      )
