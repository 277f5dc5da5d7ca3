-- ===== src/Tests/Toy.antt =====
-- A small interpreter, allocator and dyncall, as an `Env`.
use fiction.Prelude.{
  ◌/◌, ◌%◌, ℕ, ◌+◌, Bool, true, false, Option, none, some, List, [], ◌∷◌, if◌then◌else◌, Text,
  codes, str_eq, String, length, ◌==◌, ◌&&◌, not,
}
use fiction.Flags.{Flag, int_flag, pointer_flag, void_flag}
use fiction.Perl.{Perl}
use fiction.Types.{AffixType, affix_type, nil, cons, Slots}
use fiction.Memory.{Heap, AffixPointer, pure}
use fiction.Call.{
  CallArg, arg_bool, arg_char, arg_short, arg_int, arg_long, arg_longlong, arg_float, arg_double,
  arg_pointer, arg_aggr,
}
use fiction.Env.{Env}

mutual
  pub data Val : Type 0 where
    undef_val : Bool → Val
    int_val : ℕ → Val
    text_val : Text → Val
    array_val : Vals → Val
    hash_val : Entries → Val
    pointer_val : AffixPointer → Val
    object_val : ℕ → Val

  pub data Vals : Type 0 where
    no_vals : Vals
    more_vals : Val → Vals → Vals

  pub data Entries : Type 0 where
    no_entries : Entries
    more_entries : Text → Val → Entries → Entries

abbrev to_list : Vals → List Val
to_list no_vals = []
to_list (more_vals v vs) = v ∷ to_list vs

abbrev from_list : List Val → Vals
from_list [] = no_vals
from_list (v ∷ vs) = more_vals v (from_list vs)

abbrev from_entries : List (Text × Val) → Entries
from_entries [] = no_entries
from_entries ((k, v) ∷ es) = more_entries k v (from_entries es)

abbrev pub look_up : Entries → Text → Option Val
look_up no_entries key = none
look_up (more_entries k v es) key = if str_eq key k then some v else look_up es key

abbrev is_defined : Val → Bool
is_defined (undef_val b) = false
is_defined _ = true

abbrev is_readonly : Val → Bool
is_readonly (undef_val b) = b
is_readonly _ = false

abbrev is_int : Val → Bool
is_int (int_val n) = true
is_int _ = false

abbrev is_text : Val → Bool
is_text (text_val s) = true
is_text _ = false

abbrev number : Val → ℕ
number (int_val n) = n
number _ = 0

abbrev text : Val → Text
text (text_val s) = s
text _ = []

abbrev elements : Val → Option (List Val)
elements (array_val vs) = some (to_list vs)
elements (pointer_val p) = some []
elements _ = none

abbrev address_of : Val → Option ℕ
address_of (pointer_val p) = p.address
address_of _ = none

abbrev object_address : Val → ℕ
object_address (object_val a) = a
object_address _ = 0

abbrev is_pointer : Val → Bool
is_pointer (pointer_val p) = true
is_pointer (object_val a) = true
is_pointer _ = false

abbrev is_object : Val → Bool
is_object (object_val a) = true
is_object _ = false

-- Affix::Type::Array has 18 characters, which no class has that the examples ask for.
abbrev is_array_class : String → Bool
is_array_class k = length (codes k) == 18

abbrev entries : Val → Option (Text → Option Val)
entries (hash_val es) = some (look_up es)
entries _ = none

abbrev toy_perl : Perl
toy_perl = record {
  Sv = Val;
  Nv = ℕ;
  sv_ok = is_defined;
  sv_readonly = is_readonly;
  sv_iok = is_int;
  sv_uok = λ sv. false;
  sv_nok = λ sv. false;
  sv_pok = is_text;
  sv_true = is_defined;
  sv_isobject = is_object;
  sv_type_null = λ sv. false;
  sv_iv = number;
  sv_uv = number;
  sv_nv = number;
  sv_pvbyte = text;
  sv_pv = text;
  sv_pvutf8 = text;
  sv_utf8 = is_text;
  array_of = elements;
  hash_of = entries;
  sv_derived_from = λ sv k. is_pointer sv && not (is_array_class k);
  pointer_addr = address_of;
  sv_address = λ sv. 0;
  sv_at = λ a. undef_val false;
  float_bits = λ n. n;
  double_bits = λ n. n;
  float_nv = λ n. n;
  double_nv = λ n. n;
  undef = undef_val false;
  new_iv = int_val;
  new_uv = int_val;
  new_nv = int_val;
  new_bool = λ b. if b then int_val 1 else text_val [];
  new_pvn = text_val;
  new_dual = λ s n. text_val s;
  new_rv_av = λ svs. array_val (from_list svs);
  new_rv_hv = λ es. hash_val (from_entries es);
}

abbrev pub slots_of : Flag → (size offset : ℕ) → Option Text → Slots
slots_of f size offset name = record {
  stringify = codes "Toy";
  numeric = f;
  sizeof = size;
  alignment = size;
  offset = offset;
  arraylen = 1;
  aggregate = none;
  aggregate_isa = false;
  field = name;
  typedef = none;
  sig = [];
  isa = λ k. false;
}

abbrev pub plain_type : Flag → (size offset : ℕ) → Option Text → AffixType
plain_type f size offset name = affix_type (slots_of f size offset name) nil nil

abbrev value_of : CallArg → ℕ
value_of (arg_bool b) = 0
value_of (arg_char n) = n
value_of (arg_short n) = n
value_of (arg_int n) = n
value_of (arg_long n) = n
value_of (arg_longlong n) = n
value_of (arg_float n) = n
value_of (arg_double n) = n
value_of (arg_pointer n) = n
value_of (arg_aggr a n) = n

-- The one C function of the toy library adds its arguments.
abbrev total : List CallArg → ℕ
total [] = 0
total (a ∷ rest) = value_of a + total rest

abbrev first_of : List Val → Val
first_of [] = undef_val false
first_of (v ∷ vs) = v

-- Addresses are handed out one block of 64 bytes after the other.
abbrev pub next_block : List (ℕ × ℕ) → ℕ
next_block [] = 4096
next_block (b ∷ bs) = 64 + next_block bs

-- An object stands for the type Pointer[Int], any other scalar for Int.
abbrev pub int_slots : Slots
int_slots = record (slots_of int_flag 4 0 none) {
  isa = λ k. str_eq (codes k) (codes "Affix::Type");
}

abbrev type_behind : Val → AffixType
type_behind (object_val a) =
    affix_type (slots_of pointer_flag 8 0 none) (cons (affix_type int_slots nil nil) nil) nil
type_behind _ = plain_type int_flag 4 0 none

abbrev subtype_of : Val → AffixType
subtype_of (pointer_val p) = p.subtype
subtype_of _ = plain_type int_flag 4 0 none

abbrev position_of : Val → ℕ
position_of (pointer_val p) = p.position
position_of _ = 0

-- `mbstowcs` of ASCII characters
abbrev wide_ascii : Text → List ℕ
wide_ascii [] = 0 ∷ []
wide_ascii (c ∷ t) = c ∷ wide_ascii t

abbrev pub toy : Env
toy = record {
  perl = toy_perl;
  malloc = λ h n. next_block h.blocks;
  realloc = λ h ptr size. next_block h.blocks;
  new_callback = λ h c. 64;
  new_xsub = λ name prototype a. int_val a.entry_point;
  new_pointer = pointer_val;
  pointer_subtype = subtype_of;
  pointer_position = position_of;
  void_type = λ n. plain_type void_flag n 0 none;
  pv_address = λ sv. 0;
  is_utf8_string = λ s. true;
  new_pvn_utf8 = λ s b. text_val s;
  dc_call = λ k args entry_point. pure (total args);
  call_sv = λ code svs. pure (first_of svs);
  load_library = λ name. some 256;
  find_symbol = λ lib name. if str_eq name (codes "add") then some 512 else none;
  stat_fails = λ name. false;
  find_library = λ sv. [];
  object_addr = object_address;
  type_of = type_behind;
  new_object = λ class a. object_val a;
  upgrade_iv = λ sv n. int_val n;
  std_string = λ s. 0;
  new_pinned = λ t a. int_val a;
  uvchr_to_utf8 = λ w. (192 + w / 64) ∷ (128 + w % 64) ∷ [];
  mbstowcs = wide_ascii;
  new_utf8_decoded = text_val;
  deref = λ sv. if is_pointer sv then some (int_val (object_address sv)) else none;
  unpack_wchar = λ sv. none;
  pack_wchar = int_val;
  std_string_text = λ a. pure [];
  new_instance = λ class a. object_val a;
  dc_call_in = λ mode k args entry_point. pure (total args);
  call_locate_lib = λ lib ver. some lib;
  call_mangle = λ abi xsub symbol args. pure (none, symbol);
  library_path = λ lib. [];
  new_affix_xsub = λ name prototype. int_val 1;
}

abbrev pub empty : Heap Val
empty = record { bytes = λ a. 0; blocks = []; callbacks = []; retained = []; warnings = [] }
