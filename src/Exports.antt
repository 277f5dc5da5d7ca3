-- ===== src/Exports.antt =====
-- The symbol table that booting fills: `register_constant`, `_export_function`, `export_constant_char`,
-- `export_constant` and `set_isa` of lib/Affix/Utils.cxx. A full name is a package and a name in it. That a
-- package exists is not kept.
pub mod Boot
pub mod Closed
pub mod Constants
use fiction.Prelude.{
  ℕ, ◌&&◌, String, Bool, Option, none, some, List, [], ◌∷◌, ◌++◌, if◌then◌else◌, Text,
}
use text.Mathlib.Text.{◌==◌}

-- What a constant holds: `newSVpv` of a literal, or of bytes; `newSVnv` of a whole number, `newSViv`, `boolSV`.
pub data Value : Type 0 where
  pv : String → Value
  chars : Text → Value
  nv : ℕ → Value
  iv : ℕ → Value
  bool : Bool → Value

-- `newCONSTSUB`, and `newXSproto_portable`: the C function's name and the prototype
pub data Sub : Type 0 where
  constant : Value → Sub
  xsub : (function prototype : String) → Sub

-- The value of an export tag: a reference to an array, or any other, also an undefined one.
pub data Tag : Type 0 where
  array : List String → Tag
  no_array : Tag

-- The subs, the newest first; the tags of each package's %EXPORT_TAGS; and @ISA of each class.
pub record Symbols : Type 0 where
  pub subs : List (String × String × Sub)
  pub export_tags : List (String × String × Tag)
  pub isa : List (String × List String)

abbrev pub same : (pkg name other_package other_name : String) → Bool
same p n q m = p == q && n == m

unfoldable pub find_sub : (pkg name : String) → List (String × String × Sub) → Option Sub
find_sub p n [] = none
find_sub p n ((q, m, v) ∷ rest) = if same p n q m then some v else find_sub p n rest

abbrev names_of : Tag → List String
names_of (array names) = names
names_of no_array = []

-- the names exported under a tag
unfoldable pub exported : (pkg tag : String) → List (String × String × Tag) → List String
exported p t [] = []
exported p t ((q, u, names) ∷ rest) = if same p t q u then names_of names else exported p t rest

-- `av_push` on the array that is there, or a new array with the one name.
unfoldable pub push_tag :
    (pkg tag what : String) → List (String × String × Tag) → List (String × String × Tag)
push_tag p t what [] = (p, t, array (what ∷ [])) ∷ []
push_tag p t what ((q, u, names) ∷ rest) =
    if same p t q u
    then (q, u, array (names_of names ++ (what ∷ []))) ∷ rest
    else (q, u, names) ∷ push_tag p t what rest

unfoldable pub push_isa :
    (klass parent : String) → List (String × List String) → List (String × List String)
push_isa k parent [] = (k, parent ∷ []) ∷ []
push_isa k parent ((c, parents) ∷ rest) =
    if k == c then (c, parents ++ (parent ∷ [])) ∷ rest else (c, parents) ∷ push_isa k parent rest

abbrev pub define : (pkg name : String) → Sub → Symbols → Symbols
define p n v s = record s { subs = (p, n, v) ∷ s.subs }

abbrev pub register_constant : (pkg name : String) → Value → Symbols → Symbols
register_constant p n v = define p n (constant v)

unfoldable pub export_function : (pkg what tag : String) → Symbols → Symbols
unfolding push_tag
export_function p what t s = record s { export_tags = push_tag p t what s.export_tags }

unfoldable pub export_constant_char : (pkg name tag : String) → (val : ℕ) → Symbols → Symbols
unfolding export_function
export_constant_char p n t val s =
    export_function p n t (register_constant p n (chars (val ∷ [])) s)

unfoldable pub export_constant : (pkg name tag : String) → (val : ℕ) → Symbols → Symbols
unfolding export_function
export_constant p n t val s = export_function p n t (register_constant p n (nv val) s)

unfoldable pub set_isa : (klass parent : String) → Symbols → Symbols
unfolding push_isa
set_isa k parent s = record s { isa = push_isa k parent s.isa }

-- A call of the functions above or of newXSproto_portable, as the boot functions make them in a row.
pub data Registration : Type 0 where
  new_xs : (pkg name function prototype : String) → Registration
  new_constant : (pkg name : String) → Value → Registration
  new_export : (pkg what tag : String) → Registration
  new_constant_export : (pkg name tag : String) → ℕ → Registration
  new_isa : (klass parent : String) → Registration

unfoldable pub register_one : Registration → Symbols → Symbols
unfolding export_function export_constant set_isa
register_one (new_xs p n function prototype) s = define p n (xsub function prototype) s
register_one (new_constant p n v) s = register_constant p n v s
register_one (new_export p what t) s = export_function p what t s
register_one (new_constant_export p n t val) s = export_constant p n t val s
register_one (new_isa k parent) s = set_isa k parent s

unfoldable pub register_all : List Registration → Symbols → Symbols
unfolding register_one
register_all [] s = s
register_all (r ∷ rs) s = register_all rs (register_one r s)
