-- ===== src/Pointer.antt =====
-- The methods of Affix::Pointer and the memory functions, of lib/Affix/Type/Pointer.cxx. A pointer that
-- `ptr2obj` makes is a blessed array; the older functions take and make blessed references to an address.
pub mod Memory
pub mod Access
pub mod Blocks
pub mod Kept
pub mod Compared
use fiction.Prelude.{
  ℕ, zero, suc, ◌+◌, ◌-◌, ◌*◌, ◌%◌, ◌^◌, ◌&&◌, not, Bool, true, false, Option, none, some, List, [],
  ◌∷◌, ◌==◌, leb, ◌||◌, if◌then◌else◌, is_some, length, Text,
}
use fiction.Types.{AffixType, Slots, slots}
use fiction.Memory.{
  Bytes, plain, M, pure, ◌>>=◌, ◌>>◌, fail, undefined_behaviour, store, calloc, safefree,
  read_bytes, zeros,
}
use fiction.Env.{Env}
use fiction.Marshal.{sv2ptr}
use fiction.Unmarshal.Cases.{ptr2obj}
use fiction.Unmarshal.{ptr2sv}
use fiction.Trigger.Args.{first_byte}

-- `memchr`: the first of `n` addresses that holds the byte, or NULL
unfoldable pub find_byte : ℕ → (a n : ℕ) → Bytes → ℕ
find_byte ch a zero m = 0
find_byte ch a (suc n) m = if m a == ch then a else find_byte ch (a + 1) n m

unfoldable pub repeated : ℕ → ℕ → List ℕ
repeated ch zero = []
repeated ch (suc n) = ch ∷ repeated ch n

module _ (E : Env) where
  open E use {
    Sv, undef, sv_iok, sv_pok, sv_true, sv_iv, sv_uv, sv_pv, array_of, sv_derived_from,
    pointer_addr, object_addr, type_of, new_pointer, new_object, pointer_subtype, pointer_position,
    void_type, pv_address, new_pvn_utf8, malloc,
  }

  -- The check that a scalar is a blessed array.
  abbrev pub is_pointer : Sv → Bool
  is_pointer sv = is_some (array_of sv) && sv_derived_from sv "Affix::Pointer"

  abbrev pub unmanaged : ℕ → Sv
  unmanaged a = new_object (some "Affix::Pointer::Unmanaged") a

  unfoldable pub affix_sv2ptr : (type value : Sv) → M Sv Sv
  affix_sv2ptr type value =
      if not (sv_derived_from type "Affix::Type::Pointer")
      then fail (plain "type is not of type Affix::Type::Pointer")
      else (do
        ptr ← sv2ptr E (type_of type) value 0
        pure (new_pointer (ptr2obj (type_of type) ptr)))

  unfoldable pub pointer_sv : ℕ → Sv → M Sv Sv
  pointer_sv fuel sv =
      if not (is_pointer sv)
      then fail (plain "ptr is not of type Affix::Pointer")
      else elim (pointer_addr sv) [
        | none ↦ pure undef
        | some ptr ↦
            ptr2sv E fuel (pointer_subtype sv)
              (ptr + (slots (pointer_subtype sv)).sizeof * pointer_position sv)
      ]

  -- `raw`: the third argument is optional.
  unfoldable pub pointer_raw : Sv → Sv → Option Sv → M Sv Sv
  pointer_raw sv size utf8 =
      if not (is_pointer sv)
      then fail (plain "ptr is not of type Affix::Pointer")
      else elim (pointer_addr sv) [
        | none ↦ pure undef
        | some ptr ↦ λ h.
            pure
              (new_pvn_utf8 (read_bytes ptr (sv_uv size) h.bytes)
                (elim utf8 [ none ↦ false | some u ↦ sv_true u ]))
              h
      ]

  -- `free`; what it leaves in its argument is undef.
  unfoldable pub affix_free : Sv → M Sv Sv
  affix_free sv =
      if not (is_pointer sv)
      then fail (plain "ptr is not of type Affix::Pointer")
      else elim (pointer_addr sv) [
        | none ↦ pure undef
        | some ptr ↦ if ptr == 0 then pure undef else (do safefree ptr; pure undef)
      ]

  unfoldable pub pointer_plus : Sv → Sv → M Sv Sv
  pointer_plus sv other =
      if not (sv_derived_from sv "Affix::Pointer")
      then fail (plain "ptr is not of type Affix::Pointer")
      else pure (unmanaged ((object_addr sv + sv_iv other) % 2 ^ 64))

  unfoldable pub pointer_minus : Sv → Sv → M Sv Sv
  pointer_minus sv other =
      if not (sv_derived_from sv "Affix::Pointer")
      then fail (plain "ptr is not of type Affix::Pointer")
      else pure (unmanaged ((object_addr sv + (2 ^ 64 - sv_iv other)) % 2 ^ 64))

  -- `calloc`; `safecalloc` does not return NULL.
  unfoldable pub affix_calloc : Sv → Sv → M Sv Sv
  affix_calloc num size = do a ← calloc malloc (sv_uv num * sv_uv size); pure (unmanaged a)

  -- The address that a destination or a source names.
  unfoldable pub dest_addr : Sv → M Sv ℕ
  dest_addr sv =
      if sv_derived_from sv "Affix::Pointer"
      then pure (object_addr sv)
      else if sv_iok sv
      then pure (sv_iv sv)
      else fail (plain "dest is not of type Affix::Pointer")

  unfoldable pub src_addr : Sv → M Sv ℕ
  src_addr sv =
      if sv_derived_from sv "Affix::Pointer"
      then pure (object_addr sv)
      else if sv_iok sv
      then pure (sv_iv sv)
      else if sv_pok sv
      then pure (pv_address sv)
      else fail (plain "dest is not of type Affix::Pointer")

  unfoldable pub affix_memchr : Sv → Sv → Sv → M Sv Sv
  affix_memchr sv ch n =
      if sv_derived_from sv "Affix::Pointer"
      then (λ h.
          pure (unmanaged (find_byte (first_byte (sv_pv ch)) (object_addr sv) (sv_uv n) h.bytes)) h)
      else fail (plain "ptr is not of type Affix::Pointer")

  unfoldable pub affix_memset : Sv → Sv → Sv → M Sv Sv
  affix_memset sv ch n =
      if sv_derived_from sv "Affix::Pointer"
      then (do
        store (object_addr sv) (repeated (first_byte (sv_pv ch)) (sv_uv n))
        pure (unmanaged (object_addr sv)))
      else fail (plain "dest is not of type Affix::Pointer")

  -- `memcpy` is defined only for objects that do not overlap.
  unfoldable pub affix_memcpy : Sv → Sv → Sv → M Sv Sv
  unfolding dest_addr src_addr
  affix_memcpy dest src nitems = do
    d ← dest_addr dest
    s ← src_addr src
    if leb (d + sv_uv nitems) s || leb (s + sv_uv nitems) d
        then (λ h. (store d (read_bytes s (sv_uv nitems) h.bytes) >> pure (unmanaged d)) h)
        else undefined_behaviour

  unfoldable pub affix_memmove : Sv → Sv → Sv → M Sv Sv
  unfolding dest_addr src_addr
  affix_memmove dest src nitems = do
    d ← dest_addr dest
    s ← src_addr src
    λ h. (store d (read_bytes s (sv_uv nitems) h.bytes) >> pure (unmanaged d)) h

  -- `_Void`: a pointer to what has a size and no type.
  abbrev pub void_pointer : (ptr size : ℕ) → Sv
  void_pointer ptr size = new_pointer (ptr2obj (void_type size) ptr)

  -- `malloc`: the block keeps the bytes that stood there.
  unfoldable pub affix_malloc : Sv → M Sv Sv
  affix_malloc size h =
      let a = malloc h (sv_uv size) in
      pure (void_pointer a (sv_uv size)) (record h { blocks = (a, sv_uv size) ∷ h.blocks })
