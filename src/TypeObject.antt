-- ===== src/TypeObject.antt =====
-- The C++ class Affix_Type of lib/Affix.h, and the methods of Affix::Typex in lib/Affix.cxx that reach it.
pub mod Flagged
use fiction.Prelude.{
  ℕ, suc, zero, ◌%◌, ◌^◌, Bool, true, false, Option, none, some, List, [], ◌∷◌, ◌++◌, ◌==◌,
  if◌then◌else◌, Text, codes,
}
use fiction.Env.{Env, sizeof_intptr}
use fiction.Memory.{Heap, Result, ok, croak, fault, out_of_fuel, plain, usage, c_string}

-- The members that some method reads. `stringify_address` is the `const char *`: what it points to is the
-- caller's.
pub record TypeObject : Type 0 where
  pub stringify_address : ℕ
  pub numeric : ℕ
  pub size : ℕ
  pub own_alignment : ℕ
  pub const_flag : Bool
  pub pointer_flag : Bool

-- the live objects, by their addresses
abbrev pub Types : Type 0
Types = List (ℕ × TypeObject)

unfoldable pub find_type : ℕ → Types → Option TypeObject
find_type a [] = none
find_type a ((b, t) ∷ rest) = if a == b then some t else find_type a rest

unfoldable pub set_type : ℕ → TypeObject → Types → Types
set_type a t [] = []
set_type a t ((b, u) ∷ rest) = if a == b then (b, t) ∷ rest else (b, u) ∷ set_type a t rest

unfoldable pub delete_type : ℕ → Types → Types
delete_type a [] = []
delete_type a ((b, u) ∷ rest) = if a == b then rest else (b, u) ∷ delete_type a rest

-- Affix_Type::alignment
unfoldable pub alignment : TypeObject → ℕ
alignment t = if t.pointer_flag then sizeof_intptr else t.own_alignment

-- Affix_Type::stringify of the text that the pointer leads to
unfoldable pub stringify : TypeObject → Text → Text
stringify t s =
    (if t.pointer_flag then codes "Pointer[ " else [])
    ++ ((if t.const_flag then codes "Const[ " else [])
        ++ (s
            ++ ((if t.const_flag then codes " ]" else [])
                ++ (if t.pointer_flag then codes " ]" else []))))

abbrev pub bit : Bool → ℕ
bit true = 1
bit false = 0

-- What a method answers, nothing for XSRETURN_EMPTY, and the objects behind it.
abbrev pub Answer : Type 0 → Type 0
Answer Sv = Result (Option Sv × Types)

module _ (E : Env) where
  open E use {Sv, sv_iv, sv_pv, sv_true, new_iv, new_pvn, new_instance, object_addr, pv_address}

  -- `new`; the allocator chooses the address.
  unfoldable pub type_new : (allocate : Types → ℕ) → List Sv → Types → Answer Sv
  type_new allocate (klass ∷ text ∷ flag ∷ size ∷ align ∷ []) types =
      let a = allocate types in
      let t : TypeObject = record {
        stringify_address = pv_address text;
        numeric = sv_iv flag % 256;
        size = sv_iv size % 2 ^ 64;
        own_alignment = sv_iv align % 2 ^ 64;
        const_flag = false;
        pointer_flag = false;
      } in
      ok (some (new_instance (sv_pv klass) a), (a, t) ∷ types)
  type_new allocate _ types = croak (usage "package, stringify, flag, sizeof, alignment")

  -- `type != NULL`, then what the method does with the object.
  unfoldable pub with_type : Sv → (TypeObject → Types → Answer Sv) → Types → Answer Sv
  unfolding find_type
  with_type sv use_it types =
      if object_addr sv == 0
      then ok (none, types)
      else elim (find_type (object_addr sv) types) [ none ↦ fault | some t ↦ use_it t types ]

  unfoldable pub type_alignment : Sv → Types → Answer Sv
  unfolding with_type alignment
  type_alignment sv = with_type sv (λ t types. ok (some (new_iv (alignment t)), types))

  unfoldable pub type_sizeof : Sv → Types → Answer Sv
  unfolding with_type
  type_sizeof sv = with_type sv (λ t types. ok (some (new_iv t.size), types))

  -- `offset` and `typedef` are not written yet.
  unfoldable pub type_offset : Sv → Types → Answer Sv
  type_offset sv types = croak (plain "TODO: offset")

  unfoldable pub type_typedef : Sv → Types → Answer Sv
  type_typedef sv types = croak (plain "TODO: typedef")

  abbrev pub answer_text : TypeObject → Types → Result (Text × Heap Sv) → Answer Sv
  answer_text t types (ok (s, h)) = ok (some (new_pvn (stringify t s)), types)
  answer_text t types (croak e) = croak e
  answer_text t types fault = fault
  answer_text t types out_of_fuel = out_of_fuel

  -- The text is read where the pointer leads now.
  unfoldable pub type_stringify : ℕ → Heap Sv → Sv → Types → Answer Sv
  unfolding with_type stringify c_string
  type_stringify fuel h sv =
      with_type sv (λ t types. answer_text t types (c_string fuel t.stringify_address h))

  -- The switch of `pointer` and of `const` over the number of items: the flag is set for two, and answered.
  unfoldable pub flag_switch :
      (get : TypeObject → Bool) (set : Bool → TypeObject → TypeObject)
      → Sv
      → List Sv
      → Types
      → Answer Sv
  unfolding with_type set_type
  flag_switch get set sv [] = with_type sv (λ t types. ok (some (new_iv (bit (get t))), types))
  flag_switch get set sv (flag ∷ []) = with_type sv (λ t types.
      let u = set (sv_true flag) t in
      ok (some (new_iv (bit (get u))), set_type (object_addr sv) u types))
  flag_switch get set sv (_ ∷ _ ∷ _ ∷ _ ∷ []) = with_type sv (λ t types. ok (none, types))
  flag_switch get set sv (_ ∷ _ ∷ _) = with_type sv (λ t types. croak (usage "type, [flag]"))

  -- The arguments behind the object.
  unfoldable pub type_pointer : Sv → List Sv → Types → Answer Sv
  unfolding flag_switch
  type_pointer = flag_switch (λ t. t.pointer_flag) (λ b t. record t { pointer_flag = b })

  unfoldable pub type_const : Sv → List Sv → Types → Answer Sv
  unfolding flag_switch
  type_const = flag_switch (λ t. t.const_flag) (λ b t. record t { const_flag = b })

  unfoldable pub type_destroy : Sv → Types → Answer Sv
  unfolding with_type delete_type
  type_destroy sv = with_type sv (λ t types. ok (none, delete_type (object_addr sv) types))
