-- ===== src/Pointer/Memory.antt =====
-- What the memory functions write, find and free.
use fiction.Prelude.{
  ℕ, zero, suc, ◌+◌, ◌-◌, ◌%◌, ◌^◌, ◌≤◌, ◌<◌, ◌≡◌, ◌≢◌, refl, sym, ap, ◌∙◌, Bool-cases, ==_iff, ◌⊎◌,
  inl, inr, true, none, arith, ◌==◌, length,
}
use fiction.Memory.{
  Bytes, Heap, ok, croak, plain, store, read_bytes, write_bytes, write_byte, calloc,
}
use fiction.Memory.Bytes.{read-write, write_bytes-outside}
use fiction.Env.{Env}
use fiction.Pointer.{
  find_byte, dest_addr, src_addr, affix_memchr, affix_memset, repeated, affix_memcpy, affix_memmove,
  affix_calloc, affix_free, pointer_plus, pointer_minus, unmanaged,
}
use fiction.Trigger.Args.{first_byte}

pub length-read_bytes : (a n : ℕ) (m : Bytes) → length (read_bytes a n m) ≡ n
unfolding read_bytes
length-read_bytes a zero m = refl
length-read_bytes a (suc n) m = ap suc (length-read_bytes (a + 1) n m)

-- Where `find_byte` may stop: at NULL with no match, or at the first match.
abbrev pub IsFirst : ℕ → (a n : ℕ) → Bytes → ℕ → Type 0
IsFirst ch a n m r =
    ((r ≡ 0) × ((p : ℕ) → a ≤ p → p < a + n → m p ≢ ch))
    ⊎ ((a ≤ r) × (r < a + n) × (m r ≡ ch) × ((p : ℕ) → a ≤ p → p < r → m p ≢ ch))

-- No match at `a` and none in the rest: none at all.
none_from :
    (ch a n : ℕ) (m : Bytes)
    → m a ≢ ch
    → ((p : ℕ) → a + 1 ≤ p → p < a + 1 + n → m p ≢ ch)
    → (p : ℕ) → a ≤ p
    → p < a + suc n
    → m p ≢ ch
none_from ch a n m h rest p l u e = elim (Bool-cases (p == a)) [
  | inl same ↦ h (sym (ap m ((==_iff p a).0 same)) ∙ e)
  | inr apart ↦ rest p (ground arith) (omega arith) e
]

later :
    (ch a n : ℕ) (m : Bytes) (r : ℕ)
    → m a ≢ ch
    → IsFirst ch (a + 1) n m r
    → IsFirst ch a (suc n) m r
later ch a n m r h (inl (z, rest)) = inl (z, none_from ch a n m h rest)
later ch a n m r h (inr (l, u, e, rest)) = inr (
  omega arith,
  omega arith,
  e,
  λ p k v. none_from ch a (r - (a + 1)) m h (λ q i j. rest q i (omega arith)) p k (omega arith),
)

find_byte-IsFirst : (ch a n : ℕ) (m : Bytes) → IsFirst ch a n m (find_byte ch a n m)
unfolding find_byte
find_byte-IsFirst ch a zero m = inl (refl, λ p l u. absurd (omega arith))
find_byte-IsFirst ch a (suc n) m = elim (Bool-cases (m a == ch)) [
  | inl same ↦
      rw same
        (inr (omega arith, omega arith, (==_iff (m a) ch).0 same, λ p l u. absurd (omega arith)))
  | inr apart ↦
      rw apart (
        later ch a n m (find_byte ch (a + 1) n m) (ground arith) (find_byte-IsFirst ch (a + 1) n m))
]

length-repeated : (ch n : ℕ) → length (repeated ch n) ≡ n
unfolding repeated
length-repeated ch zero = refl
length-repeated ch (suc n) = ap suc (length-repeated ch n)

filled :
    (ch a n : ℕ) (m : Bytes) (p : ℕ) → a ≤ p → p < a + n → write_bytes a (repeated ch n) m p ≡ ch
unfolding write_bytes write_byte repeated
filled ch a zero m p l u = absurd (omega arith)
filled ch a (suc n) m p l u = elim (Bool-cases (p == a)) [
  | inl same ↦
      write_bytes-outside (a + 1) (repeated ch n) (write_byte a ch m) p (ground arith)
      ∙ ground arith
  | inr apart ↦ filled ch (a + 1) n (write_byte a ch m) p (ground arith) (omega arith)
]

module _ (E : Env) where
  open E use {
    Sv, sv_iok, sv_pok, sv_iv, sv_uv, sv_pv, array_of, sv_derived_from, object_addr, new_object,
    malloc,
  }

  -- `memmove` leaves at the destination what stood at the source before, also where the two overlap,
  -- changes no other byte, and returns the destination.
  pub affix_memmove-moves :
      (dest src nitems : Sv) (d s : ℕ) (h : Heap Sv)
      → dest_addr E dest h ≡ ok (d, h)
      → src_addr E src h ≡ ok (s, h)
      → (h' : Heap Sv) × (affix_memmove E dest src nitems h ≡ ok (unmanaged E d, h'))
        × (read_bytes d (sv_uv nitems) h'.bytes ≡ read_bytes s (sv_uv nitems) h.bytes)
        × ((p : ℕ) → (p < d) ⊎ (d + sv_uv nitems ≤ p) → h'.bytes p ≡ h.bytes p)
  unfolding affix_memmove store
  affix_memmove-moves dest src nitems d s h x y =
      let n = sv_uv nitems in
      let bs = read_bytes s n h.bytes in
      (
        record h { bytes = write_bytes d bs h.bytes },
        ground (arith, x, y),
        rw length-read_bytes at (read-write d bs h.bytes),
        λ p o. write_bytes-outside d bs h.bytes p (ground (arith, length-read_bytes s n h.bytes)),
      )

  -- Where source and destination do not overlap, `memcpy` and `memmove` do the same; where they do,
  -- `memcpy` has no defined result.
  affix_memcpy-affix_memmove :
      (dest src nitems : Sv) (d s : ℕ) (h : Heap Sv)
      → dest_addr E dest h ≡ ok (d, h)
      → src_addr E src h ≡ ok (s, h)
      → (d + sv_uv nitems ≤ s) ⊎ (s + sv_uv nitems ≤ d)
      → affix_memcpy E dest src nitems h ≡ affix_memmove E dest src nitems h
  unfolding affix_memcpy affix_memmove
  affix_memcpy-affix_memmove dest src nitems d s h x y o = ground (arith, x, y)

  -- `memchr` answers NULL where none of the bytes matches, and else the address of the first that does.
  affix_memchr-IsFirst :
      (sv ch n : Sv) (h : Heap Sv)
      → sv_derived_from sv "Affix::Pointer" ≡ true
      → (r : ℕ) × (affix_memchr E sv ch n h ≡ ok (unmanaged E r, h))
        × IsFirst (first_byte (sv_pv ch)) (object_addr sv) (sv_uv n) h.bytes r
  unfolding affix_memchr
  affix_memchr-IsFirst sv ch n h d = (
    find_byte (first_byte (sv_pv ch)) (object_addr sv) (sv_uv n) h.bytes,
    rw d refl,
    find_byte-IsFirst (first_byte (sv_pv ch)) (object_addr sv) (sv_uv n) h.bytes,
  )

  -- `memset` fills as many bytes from its destination on as it is told to with the character's byte,
  -- changes no other, and returns the destination.
  affix_memset-fills :
      (sv ch n : Sv) (h : Heap Sv)
      → sv_derived_from sv "Affix::Pointer" ≡ true
      → (h' : Heap Sv) × (affix_memset E sv ch n h ≡ ok (unmanaged E (object_addr sv), h'))
        × ((p : ℕ)
            → object_addr sv ≤ p
            → p < object_addr sv + sv_uv n
            → h'.bytes p ≡ first_byte (sv_pv ch))
        × ((p : ℕ) → (p < object_addr sv) ⊎ (object_addr sv + sv_uv n ≤ p) → h'.bytes p ≡ h.bytes p)
  unfolding affix_memset store
  affix_memset-fills sv ch n h d =
      let a = object_addr sv in
      let c = first_byte (sv_pv ch) in
      (
        record h { bytes = write_bytes a (repeated c (sv_uv n)) h.bytes },
        rw d refl,
        λ p l u. filled c a (sv_uv n) h.bytes p l u,
        λ p o.
            write_bytes-outside a (repeated c (sv_uv n)) h.bytes p
              (ground (arith, o, length-repeated c (sv_uv n))),
      )

  -- Adding an offset to a pointer and taking it away again gives the pointer's address. The address and
  -- the offset are 64-bit patterns, and an object made of an address is a pointer that holds it.
  pointer_plus-pointer_minus :
      (sv other : Sv) (h : Heap Sv)
      → sv_derived_from sv "Affix::Pointer" ≡ true
      → object_addr sv < 2 ^ 64
      → sv_iv other < 2 ^ 64
      → ((a : ℕ) → sv_derived_from (unmanaged E a) "Affix::Pointer" ≡ true)
      → ((a : ℕ) → object_addr (unmanaged E a) ≡ a)
      → (sum : Sv) × (pointer_plus E sv other h ≡ ok (sum, h))
        × (pointer_minus E sum other h ≡ ok (unmanaged E (object_addr sv), h))
  unfolding pointer_plus pointer_minus
  pointer_plus-pointer_minus sv other h d b c isa addr =
      let sum = (object_addr sv + sv_iv other) % 2 ^ 64 in
      (
        unmanaged E sum,
        rw d refl,
        rw (isa sum, addr sum) (ap (λ a. ok (unmanaged E a, h)) (omega arith)),
      )

  -- A fault of the code: `free` refuses every pointer that `calloc` returns, so its block stays live.
  -- An object made of an address is no reference to an array.
  affix_calloc-affix_free :
      (num size : Sv) (h : Heap Sv)
      → ((a : ℕ) → array_of (unmanaged E a) ≡ none)
      → (sv : Sv) × (h' : Heap Sv) × (affix_calloc E num size h ≡ ok (sv, h'))
        × (affix_free E sv h' ≡ croak (plain "ptr is not of type Affix::Pointer"))
  unfolding affix_calloc calloc affix_free
  affix_calloc-affix_free num size h bare = (_, _, refl, rw bare refl)
