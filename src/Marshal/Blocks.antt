-- ===== src/Marshal/Blocks.antt =====
-- NULL, arrays of numbers, and how far `sv2ptr` writes.
use fiction.Prelude.{
  ℕ, ◌+◌, ◌*◌, ◌≡◌, ◌≢◌, refl, ◌∙◌, sym, ap, Bool, true, false, none, some, List, [], ◌∷◌, ◌++◌,
  arith, length, length-append, Text,
}
use fiction.Flags.{
  Flag, char_flag, short_flag, ushort_flag, int_flag, uint_flag, long_flag, ulong_flag,
  longlong_flag, ulonglong_flag,
}
use fiction.Types.{AffixType, affix_type, TypeList, Slots}
use fiction.Memory.{Heap, ok, ◌>>=◌, store, encode, read_bytes, write_bytes, write_byte}
use fiction.Memory.Bytes.{length-encode, read-write, write_bytes-append, write_bytes-outside}
use fiction.Env.{Env, sizeof}
use fiction.Marshal.Cases.{put_number, put_array, store_array, put_chars}
use fiction.Marshal.{sv2ptr}
use fiction.Marshal.Numbers.{IsInteger, place, ready, written, provide_lem}
use fiction.Unmarshal.{ptr2sv}

-- The bytes of an array of numbers.
abbrev pub image {ℓ} : {A : Type ℓ} → ℕ → (A → ℕ) → List A → List ℕ
image size conv [] = []
image size conv (x ∷ xs) = encode size (conv x) ++ image size conv xs

length-image {ℓ} :
    {A : Type ℓ} (size : ℕ) (conv : A → ℕ) (xs : List A)
    → length (image size conv xs) ≡ length xs * size
length-image size conv [] = omega arith
length-image size conv (x ∷ xs) = omega (
  arith,
  length-append {0} (encode size (conv x)) (image size conv xs),
  length-encode size (conv x),
  length-image size conv xs,
)

module _ (E : Env) where
  open E use {Sv, undef, malloc, sv_ok, sv_readonly, sv_iok, sv_iv, sv_uv, sv_pv, array_of}

  -- An explicit undef is marshalled to NULL, and NULL is read as undef, for every type; neither
  -- changes the heap.
  undef_null :
      (t : AffixType) (sv : Sv) (ret fuel : ℕ) (h : Heap Sv)
      → sv_ok sv ≡ false
      → sv_readonly sv ≡ true
      → (sv2ptr E t sv ret h ≡ ok (0, h)) × (ptr2sv E fuel t 0 h ≡ ok (undef, h))
  unfolding sv2ptr ptr2sv
  undef_null (affix_type s sub args) sv ret fuel h o r = (ground arith, refl)

  store_array_lem :
      (size : ℕ) (conv : Sv → ℕ) (a : ℕ) (xs : List Sv) (h : Heap Sv)
      → store_array E size conv a xs h ≡ ok (tt, written E a (image size conv xs) h)
  unfolding store_array store write_bytes
  store_array_lem size conv a [] h = refl
  store_array_lem size conv a (x ∷ xs) h =
      store_array_lem size conv (a + size) xs (written E a (encode size (conv x)) h)
      ∙ ap (λ m. ok (tt, record h { bytes = m }))
          (ap
              (λ n.
                write_bytes (a + n) (image size conv xs)
                  (write_bytes a (encode size (conv x)) h.bytes))
              (sym (length-encode size (conv x)))
            ∙ write_bytes-append a (encode size (conv x)) (image size conv xs) h.bytes)

  -- The integer that an element gives; an unsigned long long element goes through `SvIV`.
  abbrev pub element : Flag → Sv → ℕ
  element ushort_flag sv = sv_uv sv
  element uint_flag sv = sv_uv sv
  element _ sv = sv_iv sv

  put_number-array :
      (s : Slots) (size : ℕ) (is_scalar : Sv → Bool) (conv elem : Sv → ℕ) (sv : Sv) (xs : List Sv)
      (ret : ℕ) (h : Heap Sv)
      → sv_ok sv ≡ true
      → is_scalar sv ≡ false
      → array_of sv ≡ some xs
      → put_number E s size is_scalar conv elem sv ret h
        ≡ put_array E (length xs * size) size elem xs ret h
  unfolding put_number
  put_number-array s size is_scalar conv elem sv xs ret h o k a = rw (o, k, a)

  sv2ptr-array_with :
      (f : Flag) (s : Slots) (sub args : TypeList) (sv : Sv) (xs : List Sv) (h : Heap Sv)
      → IsInteger f
      → s.numeric ≡ f
      → sv_ok sv ≡ true
      → sv_iok sv ≡ false
      → array_of sv ≡ some xs
      → sv2ptr E (affix_type s sub args) sv 0 h
        ≡ put_array E (length xs * sizeof f) (sizeof f) (element f) xs 0 h
  unfolding sv2ptr sizeof put_number put_array
  sv2ptr-array_with short_flag s sub args sv xs h i e o k a =
      rw (o, e, put_number-array s 2 sv_iok sv_iv sv_iv sv xs 0 h o k a)
  sv2ptr-array_with ushort_flag s sub args sv xs h i e o k a =
      rw (o, e, put_number-array s 2 sv_iok sv_uv sv_uv sv xs 0 h o k a)
  sv2ptr-array_with int_flag s sub args sv xs h i e o k a =
      rw (o, e, put_number-array s 4 sv_iok sv_iv sv_iv sv xs 0 h o k a)
  sv2ptr-array_with uint_flag s sub args sv xs h i e o k a =
      rw (o, e, put_number-array s 4 sv_iok sv_uv sv_uv sv xs 0 h o k a)
  sv2ptr-array_with long_flag s sub args sv xs h i e o k a =
      rw (o, e, put_number-array s 8 sv_iok sv_iv sv_iv sv xs 0 h o k a)
  sv2ptr-array_with ulong_flag s sub args sv xs h i e o k a =
      rw (o, e, put_number-array s 8 sv_iok sv_iv sv_iv sv xs 0 h o k a)
  sv2ptr-array_with longlong_flag s sub args sv xs h i e o k a =
      rw (o, e, put_number-array s 8 sv_iok sv_iv sv_iv sv xs 0 h o k a)
  sv2ptr-array_with ulonglong_flag s sub args sv xs h i e o k a =
      rw (o, e, put_number-array s 8 sv_iok sv_iv sv_iv sv xs 0 h o k a)
  sv2ptr-array_with _ s sub args sv xs h i e o k a = absurd i

  put_array_lem :
      (block size : ℕ) (conv : Sv → ℕ) (xs : List Sv) (ret : ℕ) (h : Heap Sv)
      → put_array E block size conv xs ret h
        ≡ ok (
          place E ret block h,
          written E (place E ret block h) (image size conv xs) (ready E ret block h),
        )
  unfolding put_array
  put_array_lem block size conv xs ret h = rw (
    provide_lem E ret block h,
    ◌>>=◌,
    store_array_lem size conv (place E ret block h) xs (ready E ret block h),
  )

  -- For each integer type, an array of integers goes to one fresh block of its exact size, which then
  -- holds the elements' C representations in order.
  pub sv2ptr-array :
      (f : Flag) (s : Slots) (sub args : TypeList) (sv : Sv) (xs : List Sv) (h : Heap Sv)
      → IsInteger f
      → s.numeric ≡ f
      → sv_ok sv ≡ true
      → sv_iok sv ≡ false
      → array_of sv ≡ some xs
      → (h' : Heap Sv) × (sv2ptr E (affix_type s sub args) sv 0 h
          ≡ ok (malloc h (length xs * sizeof f), h'))
        × (h'.blocks ≡ (malloc h (length xs * sizeof f), length xs * sizeof f) ∷ h.blocks)
        × (read_bytes (malloc h (length xs * sizeof f)) (length xs * sizeof f) h'.bytes
            ≡ image (sizeof f) (element f) xs)
  sv2ptr-array f s sub args sv xs h i e o k a =
      let n = length xs * sizeof f in
      let h₁ = ready E 0 n h in
      (
        written E (malloc h n) (image (sizeof f) (element f) xs) h₁,
        sv2ptr-array_with f s sub args sv xs h i e o k a
            ∙ put_array_lem n (sizeof f) (element f) xs 0 h,
        refl,
        rw length-image at (read-write (malloc h n) (image (sizeof f) (element f) xs) h₁.bytes),
      )

  -- A fault of the code: a text of two or more bytes that is marshalled at the address of a Char, such
  -- as a struct's field, is copied whole, and its second byte overwrites the byte behind the Char.
  pub char_overrun :
      (s : Slots) (sub args : TypeList) (sv : Sv) (c d : ℕ) (cs : Text) (ret : ℕ) (h : Heap Sv)
      → s.numeric ≡ char_flag
      → sv_ok sv ≡ true
      → array_of sv ≡ none
      → sv_pv sv ≡ c ∷ d ∷ cs
      → ret ≢ 0
      → (h' : Heap Sv) × (sv2ptr E (affix_type s sub args) sv ret h ≡ ok (ret, h'))
        × (h'.bytes (ret + sizeof char_flag) ≡ d)
  unfolding sv2ptr put_chars store write_bytes write_byte sizeof
  char_overrun s sub args sv c d cs ret h e o a p n =
      let m = write_bytes ret (c ∷ d ∷ cs) h.bytes in
      (
        record h { bytes = m },
        ground (arith, provide_lem E ret (length (sv_pv sv) + 1) h),
        ground (
          arith,
          write_bytes-outside (ret + 1 + 1) cs (write_byte (ret + 1) d (write_byte ret c h.bytes))
              (ret + 1),
        ),
      )
