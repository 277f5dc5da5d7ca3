-- ===== src/Types.antt =====
-- Type objects: the slots of lib/Affix.h's SLOT_TYPE_* and the AXT_TYPE_* accessors.
pub mod Layout
use fiction.Prelude.{ℕ, suc, String, Bool, Option, none, some, List, [], ◌∷◌, Text}
use fiction.Flags.{Flag}

-- The slots that hold no type. `isa` is `sv_derived_from` of the object.
pub record Slots : Type 0 where
  pub stringify : Text
  pub numeric : Flag
  pub sizeof : ℕ
  pub alignment : ℕ
  pub offset : ℕ
  pub arraylen : ℕ
  -- SLOT_TYPE_AGGREGATE, if it holds a defined value, and whether that is an Affix::Aggregate
  pub aggregate : Option ℕ
  pub aggregate_isa : Bool
  pub field : Option Text
  -- SLOT_TYPE_TYPEDEF, if it is there
  pub typedef : Option Text
  pub sig : List Flag
  pub isa : String → Bool

-- The subtype slot holds one type (the pointee, a callback's result) or the list of an aggregate's
-- fields; the last part is the list in SLOT_CODEREF_ARGS.
mutual
  pub data AffixType : Type 0 where
    affix_type : Slots → TypeList → TypeList → AffixType

  pub data TypeList : Type 0 where
    nil : TypeList
    cons : AffixType → TypeList → TypeList

abbrev pub slots : AffixType → Slots
slots (affix_type s sub args) = s

abbrev pub subtypes : AffixType → TypeList
subtypes (affix_type s sub args) = sub

abbrev pub argtypes : AffixType → TypeList
argtypes (affix_type s sub args) = args

abbrev pub first : TypeList → Option AffixType
first nil = none
first (cons t ts) = some t

unfoldable pub count : TypeList → ℕ
count nil = 0
count (cons t ts) = suc (count ts)

-- The flags of the types in a list, as the character signature built from them.
unfoldable pub signature_of : TypeList → List Flag
signature_of nil = []
signature_of (cons t ts) = (slots t).numeric ∷ signature_of ts
