-- ===== src/Memory.antt =====
-- The C heap that the marshalling code writes to: bytes, live blocks, and the effects on the
-- interpreter that it has besides. Values are little-endian.
pub mod Bytes
pub mod Runs
use fiction.Prelude.{
  ℕ, zero, suc, ◌+◌, ◌*◌, ◌/◌, ◌%◌, String, Bool, Option, List, [], ◌∷◌, ◌==◌, if◌then◌else◌, Text,
}
use fiction.Flags.{Flag}
use fiction.Types.{AffixType, TypeList}

-- struct CodeRef
pub record CodeRef (Sv : Type 0) : Type 0 where
  pub signature : List Flag
  pub argtypes : TypeList
  pub restype : AffixType
  pub restype_c : Flag
  pub cv : Sv

-- struct fiction; the library and the entry point are addresses
pub record Fiction (Sv : Type 0) : Type 0 where
  pub lib : Option ℕ
  pub entry_point : ℕ
  pub symbol : Text
  pub signature : Option (List Flag)
  pub argtypes : TypeList
  pub restype : Option AffixType
  pub restype_c : Flag
  pub aggr_restype : Bool
  pub res : Option Sv

-- The array behind an Affix::Pointer, SLOT_POINTER_*: no address is an undefined scalar.
pub record AffixPointer : Type 0 where
  pub address : Option ℕ
  pub subtype : AffixType
  pub count : ℕ
  pub position : ℕ

pub record Heap (Sv : Type 0) : Type 0 where
  -- the byte at each address
  pub bytes : ℕ → ℕ
  -- address and size of each allocated block
  pub blocks : List (ℕ × ℕ)
  -- the callbacks made, and the userdata of each
  pub callbacks : List (ℕ × CodeRef Sv)
  -- the scalars whose reference count was raised
  pub retained : List Sv
  pub warnings : List String

-- What `croak` is called with: its format, and the text of its argument.
pub data Croak : Type 0 where
  plain : String → Croak
  about : String → Text → Croak
  position : String → ℕ → Croak
  -- `croak_xs_usage`
  usage : String → Croak
  -- the wrong number of arguments: which, the symbol, how many are expected, how many found
  arguments : String → Text → ℕ → ℕ → Croak

-- `fault`: the C code reads what is no type object, which has no defined result. `out_of_fuel`: a
-- loop that runs until it meets a zero was given too few rounds.
pub data Result (A : Type 0) : Type 0 where
  ok : A → Result A
  croak : Croak → Result A
  fault : Result A
  out_of_fuel : Result A

abbrev pub M : Type 0 → Type 0 → Type 0
M Sv A = Heap Sv → Result (A × Heap Sv)

module _ {Sv : Type 0} where
  abbrev pub pure : {A : Type 0} → A → M Sv A
  pure a h = ok (a, h)

  infixl 5 ◌>>=◌ ◌>>◌
  abbrev pub ◌>>=◌ : {A B : Type 0} → M Sv A → (A → M Sv B) → M Sv B
  ◌>>=◌ m f h = elim (m h) [
    | ok (a, h') ↦ f a h'
    | croak e ↦ croak e
    | fault ↦ fault
    | out_of_fuel ↦ out_of_fuel
  ]

  abbrev pub ◌>>◌ : {B : Type 0} → M Sv (Unit {0}) → M Sv B → M Sv B
  m >> k = m >>= λ _. k

  abbrev pub fail : {A : Type 0} → Croak → M Sv A
  fail e h = croak e

  abbrev pub undefined_behaviour : {A : Type 0} → M Sv A
  undefined_behaviour h = fault

  unfoldable pub warn : String → M Sv (Unit {0})
  warn w h = ok (tt, record h { warnings = w ∷ h.warnings })

abbrev pub Bytes : Type 0
Bytes = ℕ → ℕ

unfoldable pub write_byte : ℕ → ℕ → Bytes → Bytes
write_byte a v m p = if p == a then v else m p

unfoldable pub write_bytes : ℕ → List ℕ → Bytes → Bytes
write_bytes a [] m = m
write_bytes a (b ∷ bs) m = write_bytes (a + 1) bs (write_byte a b m)

unfoldable pub read_bytes : ℕ → ℕ → Bytes → List ℕ
read_bytes a zero m = []
read_bytes a (suc n) m = m a ∷ read_bytes (a + 1) n m

-- The object representation of the low `n` bytes of a value, and the value of a representation.
unfoldable pub encode : ℕ → ℕ → List ℕ
encode zero v = []
encode (suc n) v = (v % 256) ∷ encode n (v / 256)

unfoldable pub decode : List ℕ → ℕ
decode [] = 0
decode (b ∷ bs) = b + 256 * decode bs

-- A buffer read as a C string.
unfoldable pub c_text : List ℕ → Text
c_text [] = []
c_text (c ∷ cs) = if c == 0 then [] else c ∷ c_text cs

unfoldable pub zeros : ℕ → List ℕ
zeros zero = []
zeros (suc n) = 0 ∷ zeros n

unfoldable pub drop_block : ℕ → List (ℕ × ℕ) → List (ℕ × ℕ)
drop_block a [] = []
drop_block a ((b, n) ∷ bs) = if a == b then bs else (b, n) ∷ drop_block a bs

module _ {Sv : Type 0} where
  -- `Copy` and `Move` of bytes to an address
  unfoldable pub store : ℕ → List ℕ → M Sv (Unit {0})
  store a bs h = ok (tt, record h { bytes = write_bytes a bs h.bytes })

  -- `Newxz`, `safecalloc`: `malloc` chooses the address.
  unfoldable pub calloc : (Heap Sv → ℕ → ℕ) → ℕ → M Sv ℕ
  calloc malloc n h =
      let a = malloc h n in
      ok (a, record h { bytes = write_bytes a (zeros n) h.bytes; blocks = (a, n) ∷ h.blocks })

  -- `safemalloc`: the block keeps the bytes that stood there.
  unfoldable pub safemalloc : (Heap Sv → ℕ → ℕ) → ℕ → M Sv ℕ
  safemalloc malloc n h = let a = malloc h n in ok (a, record h { blocks = (a, n) ∷ h.blocks })

  -- `safefree`: the block is no longer live; its bytes stay.
  unfoldable pub safefree : ℕ → M Sv (Unit {0})
  unfolding drop_block
  safefree a h = ok (tt, record h { blocks = drop_block a h.blocks })

  -- the value of the `n` bytes at an address
  unfoldable pub peek : ℕ → ℕ → M Sv ℕ
  unfolding read_bytes decode
  peek a n h = ok (decode (read_bytes a n h.bytes), h)

  -- The bytes up to the first zero, as `strlen` finds it.
  unfoldable pub c_string : ℕ → ℕ → M Sv Text
  c_string zero a h = out_of_fuel
  c_string (suc fuel) a h =
      let rest = (do t ← c_string fuel (a + 1); pure (h.bytes a ∷ t)) h in
      if h.bytes a == 0 then pure [] h else rest
