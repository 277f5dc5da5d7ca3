-- ===== src/Marshal/Numbers.antt =====
-- Numbers written by `sv2ptr` and read by `ptr2sv`.
use fiction.Prelude.{
  ℕ, ◌%◌, ◌^◌, ◌<◌, ◌≡◌, ◌≢◌, ◌∙◌, true, false, List, ◌∷◌, arith, ◌==◌, if◌then◌else◌,
}
use fiction.Flags.{
  Flag, short_flag, ushort_flag, int_flag, uint_flag, long_flag, ulong_flag, longlong_flag,
  ulonglong_flag,
}
use fiction.Types.{affix_type, TypeList, Slots}
use fiction.Memory.{
  Bytes, Heap, ok, ◌>>=◌, store, calloc, encode, decode, peek, read_bytes, write_bytes, zeros,
}
use fiction.Memory.Bytes.{length-encode, decode-encode, read-write}
use fiction.Env.{Env, sizeof}
use fiction.Marshal.Cases.{provide, put_scalar, put_number}
use fiction.Marshal.{sv2ptr}
use fiction.Unmarshal.Cases.{sign_extend, get_iv}
use fiction.Unmarshal.{ptr2sv}

pub read-encode :
    (n v a : ℕ) (m : Bytes) → read_bytes a n (write_bytes a (encode n v) m) ≡ encode n v
read-encode n v a m = rw length-encode at (read-write a (encode n v) m)

module _ (E : Env) where
  open E use {Sv, malloc, sv_ok, sv_iok, sv_iv, new_iv}

  -- Where a value goes, and the heap before it is written.
  abbrev pub place : ℕ → ℕ → Heap Sv → ℕ
  place ret size h = if ret == 0 then malloc h size else ret

  abbrev pub ready : ℕ → ℕ → Heap Sv → Heap Sv
  ready ret size h =
      if ret == 0
      then record h {
        bytes = write_bytes (malloc h size) (zeros size) h.bytes;
        blocks = (malloc h size, size) ∷ h.blocks;
      }
      else h

  pub provide_lem :
      (ret size : ℕ) (h : Heap Sv) → provide E ret size h ≡ ok (place ret size h, ready ret size h)
  unfolding provide calloc
  provide_lem ret size h = ground arith

  abbrev pub written : ℕ → List ℕ → Heap Sv → Heap Sv
  written a bs h = record h { bytes = write_bytes a bs h.bytes }

  pub put_scalar_lem :
      (size v ret : ℕ) (h : Heap Sv)
      → put_scalar E size v ret h
        ≡ ok (place ret size h, written (place ret size h) (encode size v) (ready ret size h))
  unfolding put_scalar store
  put_scalar_lem size v ret h = rw (provide_lem ret size h, ◌>>=◌)

  pub peek-written :
      (size v a : ℕ) (h : Heap Sv)
      → peek a size (written a (encode size v) h)
        ≡ ok (decode (encode size v), written a (encode size v) h)
  unfolding peek
  peek-written size v a h = rw (read-encode size v a h.bytes)

-- The C types whose values `sv2ptr` takes from an integer scalar.
abbrev pub IsInteger : Flag → Type 0
IsInteger short_flag = Unit
IsInteger ushort_flag = Unit
IsInteger int_flag = Unit
IsInteger uint_flag = Unit
IsInteger long_flag = Unit
IsInteger ulong_flag = Unit
IsInteger longlong_flag = Unit
IsInteger ulonglong_flag = Unit
IsInteger _ = ⊥

-- C's conversion of a 64-bit pattern to the type, widened back to 64 bits.
abbrev pub wrap : Flag → ℕ → ℕ
wrap short_flag v = sign_extend (2 ^ 15) (v % 2 ^ 16)
wrap ushort_flag v = v % 2 ^ 16
wrap int_flag v = sign_extend (2 ^ 31) (v % 2 ^ 32)
wrap uint_flag v = v % 2 ^ 32
wrap _ v = v

read_ushort : (v : ℕ) → decode (encode 2 v) ≡ v % 2 ^ 16
unfolding encode decode
read_ushort v = omega arith

read_uint : (v : ℕ) → decode (encode 4 v) ≡ v % 2 ^ 32
unfolding encode decode
read_uint v = omega arith

read_ulong : (v : ℕ) → v < 2 ^ 64 → decode (encode 8 v) ≡ v
read_ulong v h = decode-encode 8 v h

module _ (E : Env) where
  open E use {Sv, malloc, sv_ok, sv_iok, sv_iv, sv_uv, new_iv, new_uv}

  -- The integer that the type reads from a scalar, and the scalar that it is read back into.
  abbrev pub taken : Flag → Sv → ℕ
  taken ushort_flag sv = sv_uv sv
  taken uint_flag sv = sv_uv sv
  taken _ sv = sv_iv sv

  abbrev pub given : Flag → ℕ → Sv
  given ushort_flag v = new_uv v
  given _ v = new_iv v

  -- What `sv2ptr` does with an integer scalar, into a block of its own or at `ret`.
  pub sv2ptr-integer :
      (f : Flag) (s : Slots) (sub args : TypeList) (sv : Sv) (ret : ℕ) (h : Heap Sv)
      → IsInteger f
      → s.numeric ≡ f
      → sv_ok sv ≡ true
      → sv_iok sv ≡ true
      → sv2ptr E (affix_type s sub args) sv ret h ≡ put_scalar E (sizeof f) (taken f sv) ret h
  unfolding sv2ptr put_number sizeof
  sv2ptr-integer short_flag s sub args sv ret h i e o k = ground arith
  sv2ptr-integer ushort_flag s sub args sv ret h i e o k = ground arith
  sv2ptr-integer int_flag s sub args sv ret h i e o k = ground arith
  sv2ptr-integer uint_flag s sub args sv ret h i e o k = ground arith
  sv2ptr-integer long_flag s sub args sv ret h i e o k = ground arith
  sv2ptr-integer ulong_flag s sub args sv ret h i e o k = ground arith
  sv2ptr-integer longlong_flag s sub args sv ret h i e o k = ground arith
  sv2ptr-integer ulonglong_flag s sub args sv ret h i e o k = ground arith
  sv2ptr-integer _ s sub args sv ret h i e o k = absurd i

  pub ptr2sv-integer :
      (f : Flag) (fuel : ℕ) (s : Slots) (sub args : TypeList) (v a : ℕ) (h : Heap Sv)
      → IsInteger f
      → s.numeric ≡ f
      → (a == 0) ≡ false
      → v < 2 ^ 64
      → peek a (sizeof f) h ≡ ok (decode (encode (sizeof f) v), h)
      → ptr2sv E fuel (affix_type s sub args) a h ≡ ok (given f (wrap f v), h)
  unfolding ptr2sv get_iv sizeof
  ptr2sv-integer short_flag fuel s sub args v a h i e o b p = ground (arith, read_ushort v)
  ptr2sv-integer ushort_flag fuel s sub args v a h i e o b p = ground (arith, read_ushort v)
  ptr2sv-integer int_flag fuel s sub args v a h i e o b p = ground (arith, read_uint v)
  ptr2sv-integer uint_flag fuel s sub args v a h i e o b p = ground (arith, read_uint v)
  ptr2sv-integer long_flag fuel s sub args v a h i e o b p = ground (arith, read_ulong v)
  ptr2sv-integer ulong_flag fuel s sub args v a h i e o b p = ground (arith, read_ulong v)
  ptr2sv-integer longlong_flag fuel s sub args v a h i e o b p = ground (arith, read_ulong v)
  ptr2sv-integer ulonglong_flag fuel s sub args v a h i e o b p = ground (arith, read_ulong v)
  ptr2sv-integer _ fuel s sub args v a h i e o b p = absurd i

  -- An integer scalar that `sv2ptr` writes to fresh memory is read back by `ptr2sv` as its value
  -- converted to the C type. Both run without an error. The address that malloc gives is not NULL.
  pub sv2ptr-ptr2sv :
      (f : Flag) (fuel : ℕ) (s : Slots) (sub args : TypeList) (sv : Sv) (h : Heap Sv)
      → IsInteger f
      → s.numeric ≡ f
      → sv_ok sv ≡ true
      → sv_iok sv ≡ true
      → taken f sv < 2 ^ 64
      → malloc h (sizeof f) ≢ 0
      → (h' : Heap Sv) × (sv2ptr E (affix_type s sub args) sv 0 h ≡ ok (malloc h (sizeof f), h'))
        × (ptr2sv E fuel (affix_type s sub args) (malloc h (sizeof f)) h'
            ≡ ok (given f (wrap f (taken f sv)), h'))
  sv2ptr-ptr2sv f fuel s sub args sv h i e o k b n =
      let a = malloc h (sizeof f) in
      let h' = written E a (encode (sizeof f) (taken f sv)) (ready E 0 (sizeof f) h) in
      (
        h',
        sv2ptr-integer f s sub args sv 0 h i e o k ∙ put_scalar_lem E (sizeof f) (taken f sv) 0 h,
        ptr2sv-integer f fuel s sub args (taken f sv) a h' i e (ground arith) b
            (peek-written E (sizeof f) (taken f sv) a (ready E 0 (sizeof f) h)),
      )
