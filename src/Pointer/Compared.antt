-- ===== src/Pointer/Compared.antt =====
-- `Affix_memcmp`, `Affix_cast` and `Affix_ptr2sv` of lib/Affix/Type/Pointer.cxx.
use fiction.Prelude.{
  ℕ, ◌+◌, ◌^◌, ◌≤◌, ◌≡◌, ◌⊎◌, refl, inl, inr, true, none, some, List, length, ◌==◌, not, leb, ◌||◌,
  if◌then◌else◌, arith,
}
use fiction.Memory.{
  Heap, AffixPointer, ok, plain, M, pure, ◌>>=◌, fail, undefined_behaviour, store, read_bytes,
  write_bytes,
}
use fiction.Memory.Bytes.{read-write, read-write_disjoint}
use fiction.Env.{Env}
use fiction.Marshal.{sv2ptr}
use fiction.Unmarshal.Cases.{sign_extend}
use fiction.Pointer.{is_pointer, src_addr, affix_memcpy, unmanaged}
use fiction.Pointer.Memory.{length-read_bytes}

module _ (E : Env) where
  open E use {Sv, undef, sv_iok, sv_iv, sv_uv, sv_derived_from, object_addr, new_iv, type_of}

  unfoldable pub lhs_addr : Sv → M Sv ℕ
  lhs_addr sv =
      if sv_derived_from sv "Affix::Pointer"
      then pure (object_addr sv)
      else if sv_iok sv
      then pure (sv_iv sv)
      else fail (plain "ptr is not of type Affix::Pointer")

  -- `memcmp`'s int on the bytes is a parameter.
  unfoldable pub affix_memcmp : (memcmp : List ℕ → List ℕ → ℕ) → Sv → Sv → Sv → M Sv Sv
  unfolding lhs_addr src_addr
  affix_memcmp memcmp left right count = do
    lhs ← lhs_addr left
    rhs ← src_addr E right
    λ h.
        pure
          (new_iv (
            sign_extend (2 ^ 31) (
              memcmp (read_bytes lhs (sv_uv count) h.bytes)
                (read_bytes rhs (sv_uv count) h.bytes))))
          h

  -- `cast` takes the pointer for a type and marshals it as that type. What it makes is blessed into
  -- Affix::Pointer::Unmanaged. The bytes that it prints are left out.
  unfoldable pub affix_cast : (new_cast : AffixPointer → Sv) → (pointer type : Sv) → M Sv Sv
  affix_cast new_cast pointer type =
      if not (sv_derived_from pointer "Affix::Type")
      then fail (plain "type is not of type Affix::Type::Pointer")
      else (do
        ptr ← sv2ptr E (type_of pointer) pointer 0
        pure (
            new_cast (record {
              address = if ptr == 0 then none else some ptr;
              subtype = type_of type;
              count = 1;
              position = 0;
            })))

  -- The address is looked for behind the array itself, as if that were a reference.
  unfoldable pub affix_ptr2sv : (type sv : Sv) → M Sv Sv
  affix_ptr2sv type sv =
      if not (sv_derived_from type "Affix::Type")
      then fail (plain "type is not of type Affix::Type")
      else if not (is_pointer E sv)
      then fail (plain "ptr is not of type Affix::Pointer")
      else undefined_behaviour

  -- Where memcmp answers 0 of equal bytes: after memcpy of bytes to an Affix::Pointer apart from them,
  -- memcmp of the two for the same number of bytes, or fewer, answers 0.
  affix_memcpy-affix_memcmp :
      (memcmp : List ℕ → List ℕ → ℕ) (dest src nitems : Sv) (s : ℕ) (h : Heap Sv)
      → ((bs : List ℕ) → memcmp bs bs ≡ 0)
      → sv_derived_from dest "Affix::Pointer" ≡ true
      → ((g : Heap Sv) → src_addr E src g ≡ ok (s, g))
      → (object_addr dest + sv_uv nitems ≤ s) ⊎ (s + sv_uv nitems ≤ object_addr dest)
      → (h' : Heap Sv) × (affix_memcpy E dest src nitems h
          ≡ ok (unmanaged E (object_addr dest), h'))
        × (affix_memcmp memcmp dest src nitems h' ≡ ok (new_iv 0, h'))
  unfolding affix_memcpy affix_memcmp store sign_extend
  affix_memcpy-affix_memcmp memcmp dest src nitems s h same isa from apart =
      let d = object_addr dest in
      let n = sv_uv nitems in
      let bs = read_bytes s n h.bytes in
      let h' : Heap Sv = record h { bytes = write_bytes d bs h.bytes } in
      let size = length-read_bytes s n h.bytes in
      let apart_of : (length bs ≡ n)
          → (d + n ≤ s) ⊎ (s + n ≤ d)
          → (s + n ≤ d) ⊎ (d + length bs ≤ s) =
        λ e o. elim o [ inl x ↦ inr (omega (arith, e, x)) | inr y ↦ inl y ] in
      let fits : leb (d + n) s || leb (s + n) d ≡ true = ground (arith, apart) in
      let there : read_bytes d n h'.bytes ≡ bs = rw size at (read-write d bs h.bytes) in
      let here : read_bytes s n h'.bytes ≡ bs =
        read-write_disjoint s n d bs h.bytes (apart_of size apart) in
      (h', rw (isa, ◌>>=◌, from h, fits) refl, rw (isa, ◌>>=◌, from h', there, here, same bs) refl)
