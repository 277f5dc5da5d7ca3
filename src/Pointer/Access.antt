-- ===== src/Pointer/Access.antt =====
-- Values reached through an Affix::Pointer, and the blocks of `malloc`.
use fiction.Prelude.{
  ℕ, ◌+◌, ◌*◌, ◌^◌, ◌<◌, ◌≡◌, ◌≢◌, refl, ap, ◌∙◌, true, false, none, some, ◌∷◌, arith, ◌==◌,
  if◌then◌else◌,
}
use fiction.Flags.{
  Flag, pointer_flag, short_flag, ushort_flag, int_flag, uint_flag, long_flag, ulong_flag,
  longlong_flag, ulonglong_flag,
}
use fiction.Types.{AffixType, affix_type, TypeList, cons, Slots, slots}
use fiction.Memory.{AffixPointer, Heap, ok, ◌>>=◌, safefree, drop_block}
use fiction.Env.{Env, sizeof}
use fiction.Marshal.Cases.{put_pointer}
use fiction.Marshal.{sv2ptr}
use fiction.Marshal.Numbers.{IsInteger, wrap, taken, given, sv2ptr-ptr2sv}
use fiction.Unmarshal.Cases.{ptr2obj, get_pointer}
use fiction.Unmarshal.{ptr2sv}
use fiction.Pointer.{affix_sv2ptr, pointer_sv, affix_malloc, affix_free, is_pointer}

module _ (E : Env) where
  open E use {
    Sv, sv_ok, sv_iok, sv_uv, array_of, sv_derived_from, pointer_addr, pointer_subtype,
    pointer_position, type_of, new_pointer, void_type, malloc, undef,
  }

  -- What the array behind an Affix::Pointer answers: the slots that it was made with.
  pub record IsKept (p : AffixPointer) : Type 0 where
    pub kept_pointer : is_pointer E (new_pointer p) ≡ true
    pub kept_addr : pointer_addr (new_pointer p) ≡ p.address
    pub kept_subtype : pointer_subtype (new_pointer p) ≡ p.subtype
    pub kept_position : pointer_position (new_pointer p) ≡ p.position

  -- A block that `malloc` gives is freed by `free` of the pointer that it returned: no block stays
  -- live, and no byte changes. The array keeps its slots, and the address is not NULL.
  pub affix_malloc-affix_free :
      (size : Sv) (h : Heap Sv)
      → malloc h (sv_uv size) ≢ 0
      → ((p : AffixPointer) → IsKept p)
      → (sv : Sv) × (h' : Heap Sv) × (affix_malloc E size h ≡ ok (sv, h'))
        × (h'.blocks ≡ (malloc h (sv_uv size), sv_uv size) ∷ h.blocks)
        × (affix_free E sv h' ≡ ok (undef, h))
  unfolding affix_malloc affix_free ptr2obj safefree drop_block
  affix_malloc-affix_free size h n kept =
      let p = ptr2obj (void_type (sv_uv size)) (malloc h (sv_uv size)) in
      (_, _, refl, refl, ground (arith, (kept p).kept_pointer, (kept p).kept_addr))

  -- `sv2ptr` on a pointer type whose pointee is no pointer, and a scalar that is no pointer: the
  -- pointee's own marshalling, into memory of its own.
  sv2ptr-pointee :
      (s : Slots) (t : AffixType) (ts args : TypeList) (sv : Sv) (h : Heap Sv)
      → s.numeric ≡ pointer_flag
      → (slots t).isa "Affix::Type::Pointer" ≡ false
      → (slots t).isa "Affix::Type" ≡ true
      → array_of sv ≡ none
      → sv_ok sv ≡ true
      → sv2ptr E (affix_type s (cons t ts) args) sv 0 h ≡ sv2ptr E t sv 0 h
  unfolding sv2ptr put_pointer
  sv2ptr-pointee s (affix_type u sub uargs) ts args sv h e a b k o = ground arith

  ptr2sv-pointee :
      (f : Flag) (fuel : ℕ) (s u : Slots) (sub uargs ts args : TypeList) (a : ℕ) (h : Heap Sv)
      → IsInteger f
      → u.numeric ≡ f
      → s.numeric ≡ pointer_flag
      → s.arraylen ≡ 1
      → a ≢ 0
      → ptr2sv E fuel (affix_type s (cons (affix_type u sub uargs) ts) args) a h
        ≡ ptr2sv E fuel (affix_type u sub uargs) a h
  unfolding ptr2sv get_pointer
  ptr2sv-pointee short_flag fuel s u sub uargs ts args a h i e p l n = ground arith
  ptr2sv-pointee ushort_flag fuel s u sub uargs ts args a h i e p l n = ground arith
  ptr2sv-pointee int_flag fuel s u sub uargs ts args a h i e p l n = ground arith
  ptr2sv-pointee uint_flag fuel s u sub uargs ts args a h i e p l n = ground arith
  ptr2sv-pointee long_flag fuel s u sub uargs ts args a h i e p l n = ground arith
  ptr2sv-pointee ulong_flag fuel s u sub uargs ts args a h i e p l n = ground arith
  ptr2sv-pointee longlong_flag fuel s u sub uargs ts args a h i e p l n = ground arith
  ptr2sv-pointee ulonglong_flag fuel s u sub uargs ts args a h i e p l n = ground arith
  ptr2sv-pointee _ fuel s u sub uargs ts args a h i e p l n = absurd i

  at_start : (a n : ℕ) → a + n * 0 ≡ a
  at_start a n = omega arith

  -- `sv` of a pointer that `ptr2obj` made of an address that is not NULL
  pointer_sv-kept :
      (fuel : ℕ) (p : AffixPointer) (a : ℕ) (h : Heap Sv)
      → p.address ≡ some a
      → p.position ≡ 0
      → IsKept p
      → pointer_sv E fuel (new_pointer p) h ≡ ptr2sv E fuel p.subtype a h
  unfolding pointer_sv
  pointer_sv-kept fuel p a h n z kept =
      rw (kept.kept_pointer, kept.kept_addr, n, kept.kept_subtype, kept.kept_position, z)
        (ap (λ n. ptr2sv E fuel p.subtype n h) (at_start a (slots p.subtype).sizeof))

  -- An integer given to Affix::sv2ptr with the type of a pointer to one integer of a C type, and read
  -- through the pointer's `sv`, comes back converted to the C type. The array keeps its slots, the
  -- address that malloc gives is not NULL.
  pub affix_sv2ptr-pointer_sv :
      (f : Flag) (fuel : ℕ) (type sv : Sv) (s u : Slots) (sub uargs ts args : TypeList)
      (h : Heap Sv)
      → IsInteger f
      → type_of type ≡ affix_type s (cons (affix_type u sub uargs) ts) args
      → sv_derived_from type "Affix::Type::Pointer" ≡ true
      → s.numeric ≡ pointer_flag
      → s.arraylen ≡ 1
      → u.numeric ≡ f
      → u.isa "Affix::Type::Pointer" ≡ false
      → u.isa "Affix::Type" ≡ true
      → array_of sv ≡ none
      → sv_ok sv ≡ true
      → sv_iok sv ≡ true
      → taken E f sv < 2 ^ 64
      → malloc h (sizeof f) ≢ 0
      → ((p : AffixPointer) → IsKept p)
      → (made : Sv) × (h' : Heap Sv) × (affix_sv2ptr E type sv h ≡ ok (made, h'))
        × (pointer_sv E fuel made h' ≡ ok (given E f (wrap f (taken E f sv)), h'))
  unfolding affix_sv2ptr ptr2obj
  affix_sv2ptr-pointer_sv f fuel type sv s u sub uargs ts args h i y d e l g np it k o ik b n kept =
      let a = malloc h (sizeof f) in
      let p = ptr2obj (type_of type) a in
      let trip = sv2ptr-ptr2sv E f fuel u sub uargs sv h i g o ik b n in
      let put : sv2ptr E (type_of type) sv 0 h ≡ ok (a, trip.0) =
        ap (λ t. sv2ptr E t sv 0 h) y
        ∙ sv2ptr-pointee s (affix_type u sub uargs) ts args sv h e np it k o
        ∙ trip.1 in
      (
        new_pointer p,
        trip.0,
        rw (d, ◌>>=◌, put) refl,
        pointer_sv-kept fuel p a trip.0 (held a n) refl (kept p)
            ∙ ap (λ t. ptr2sv E fuel t a trip.0) y
            ∙ ptr2sv-pointee f fuel s u sub uargs ts args a trip.0 i g e l n
            ∙ trip.2,
      )
    where
      held : (a : ℕ) → a ≢ 0 → (if a == 0 then none else some a) ≡ some a
      held a n = ground arith
