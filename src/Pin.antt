-- ===== src/Pin.antt =====
-- lib/Affix/pin.cxx: a Perl variable bound to a C variable. The magic attached to a scalar is the
-- record that its `mg_ptr` points to.
pub mod RoundTrip
pub mod Store
use fiction.Prelude.{
  ℕ, not, ◌&&◌, Bool, true, false, Option, none, some, List, [], ◌∷◌, if◌then◌else◌,
}
use fiction.Types.{AffixType, slots}
use fiction.Memory.{plain, about, usage, M, pure, ◌>>=◌, ◌>>◌, fail, store, safefree, read_bytes}
use fiction.Env.{Env}
use fiction.Marshal.{sv2ptr}
use fiction.Unmarshal.{ptr2sv}
use fiction.Bind.{open_library}

-- var_ptr
pub record VarPtr : Type 0 where
  pub ptr : ℕ
  pub type_sv : AffixType

module _ (E : Env) where
  open E use {Sv, sv_ok, sv_pv, find_symbol, type_of}

  unfoldable pub get_pin : ℕ → VarPtr → M Sv Sv
  get_pin fuel p = ptr2sv E fuel p.type_sv p.ptr

  -- `Move` of `n` bytes
  unfoldable pub move : (from to n : ℕ) → M Sv (Unit {0})
  move from to n h = store to (read_bytes from n h.bytes) h

  unfoldable pub set_pin : VarPtr → Sv → M Sv (Unit {0})
  unfolding move
  set_pin p sv =
      if sv_ok sv
      then (do
        block ← sv2ptr E p.type_sv sv 0
        move block p.ptr (slots p.type_sv).sizeof
        safefree block)
      else pure tt

  -- The magic of a scalar after `pin`, `_pin` and `unpin`, newest first.
  abbrev pub Magic : Type 0
  Magic = List VarPtr

  unfoldable pub pin_ : Magic → AffixType → ℕ → Magic
  pin_ mg t ptr = record { ptr = ptr; type_sv = t } ∷ mg

  unfoldable pub affix_pin : Magic → List Sv → M Sv Magic
  unfolding pin_
  affix_pin mg (var ∷ lib ∷ symbol ∷ t ∷ []) = elim (open_library E lib) [
    | none ↦ fail (plain "Failed to load library")
    | some handle ↦ elim (find_symbol handle (sv_pv symbol)) [
      | none ↦ fail (about "Failed to locate '%s'" (sv_pv symbol))
      | some ptr ↦ pure (pin_ mg (type_of t) ptr)
    ]
  ]
  affix_pin mg _ = fail (usage "var, lib, symbol, type")

  -- `sv_unmagicext` removes all the magic of that table.
  unfoldable pub affix_unpin : Magic → Magic × Bool
  affix_unpin [] = ([], false)
  affix_unpin (p ∷ ps) = ([], true)
