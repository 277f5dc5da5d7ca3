-- ===== src/Perl.antt =====
-- The Perl interpreter's scalars, as lib/Affix uses them: a parameter of the model. Integers are
-- 64-bit patterns (an IV in two's complement), texts are byte strings.
use fiction.Prelude.{ℕ, String, Bool, Option, List, Text}

pub record Perl : Type 1 where
  pub Sv : Type 0
  pub Nv : Type 0
  -- `SvOK`, `SvREADONLY`, `SvIOK`, `SvUOK`, `SvNOK`, `SvPOK`, `SvTRUE`, `sv_isobject`
  pub sv_ok : Sv → Bool
  pub sv_readonly : Sv → Bool
  pub sv_iok : Sv → Bool
  pub sv_uok : Sv → Bool
  pub sv_nok : Sv → Bool
  pub sv_pok : Sv → Bool
  pub sv_true : Sv → Bool
  pub sv_isobject : Sv → Bool
  -- `SvTYPE(sv) == SVt_NULL`
  pub sv_type_null : Sv → Bool
  -- `SvIV`, `SvUV`, `SvNV`, `SvPVbyte`, and `SvUTF8(sv) ? SvPVutf8(sv) : SvPV(sv)`
  pub sv_iv : Sv → ℕ
  pub sv_uv : Sv → ℕ
  pub sv_nv : Sv → Nv
  pub sv_pvbyte : Sv → Text
  pub sv_pv : Sv → Text
  -- `SvPVutf8`, and `SvUTF8` behind it
  pub sv_pvutf8 : Sv → Text
  pub sv_utf8 : Sv → Bool
  -- The elements behind a reference to an array, and the fetch behind a reference to a hash.
  pub array_of : Sv → Option (List Sv)
  pub hash_of : Sv → Option (Text → Option Sv)
  pub sv_derived_from : Sv → String → Bool
  -- The address slot of an Affix::Pointer array, if it holds a defined value.
  pub pointer_addr : Sv → Option ℕ
  -- The scalar's own address, and the scalar at an address.
  pub sv_address : Sv → ℕ
  pub sv_at : ℕ → Sv
  -- The C conversions of an NV, as bit patterns, and back.
  pub float_bits : Nv → ℕ
  pub double_bits : Nv → ℕ
  pub float_nv : ℕ → Nv
  pub double_nv : ℕ → Nv
  -- `newSV(0)`, `newSViv`, `newSVuv`, `newSVnv`, `boolSV`, `newSVpvn`, `newRV` of a new array or hash
  pub undef : Sv
  pub new_iv : ℕ → Sv
  pub new_uv : ℕ → Sv
  pub new_nv : Nv → Sv
  pub new_bool : Bool → Sv
  pub new_pvn : Text → Sv
  -- A scalar that holds both a byte string and an integer.
  pub new_dual : Text → ℕ → Sv
  pub new_rv_av : List Sv → Sv
  pub new_rv_hv : List (Text × Sv) → Sv
