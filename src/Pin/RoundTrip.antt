-- ===== src/Pin/RoundTrip.antt =====
-- A pinned variable of an integer type: assigned in Perl, read back, and the C memory around it.
use fiction.Prelude.{ℕ, ◌^◌, ◌<◌, ◌≡◌, ◌≢◌, refl, ◌∙◌, arith, true}
use fiction.Flags.{Flag}
use fiction.Types.{affix_type, TypeList, Slots}
use fiction.Memory.{Heap, ok, store, encode, safefree, drop_block, write_bytes, zeros}
use fiction.Memory.Bytes.{length-encode, length-zeros, write_bytes-outside}
use fiction.Env.{Env, sizeof}
use fiction.Marshal.Nested.{IsBeside}
use fiction.Marshal.Numbers.{
  IsInteger, wrap, taken, given, ready, put_scalar_lem, sv2ptr-integer, ptr2sv-integer, read-encode,
  peek-written,
}
use fiction.Pin.{VarPtr, get_pin, set_pin, move}

module _ (E : Env) where
  open E use {Sv, malloc, sv_ok, sv_iok}

  -- The heap after the assignment: the marshalled bytes stand in the freed block and at the variable.
  abbrev pub assigned : ℕ → ℕ → ℕ → Heap Sv → Heap Sv
  assigned size v ptr h =
      let block = malloc h size in
      let bs = encode size v in
      record h {
        bytes = write_bytes ptr bs (write_bytes block bs (write_bytes block (zeros size) h.bytes));
      }

  pub set_pin-assigned :
      (f : Flag) (s : Slots) (sub args : TypeList) (ptr : ℕ) (sv : Sv) (h : Heap Sv)
      → IsInteger f
      → s.numeric ≡ f
      → s.sizeof ≡ sizeof f
      → sv_ok sv ≡ true
      → sv_iok sv ≡ true
      → set_pin E (record { ptr = ptr; type_sv = affix_type s sub args }) sv h
        ≡ ok (tt, assigned (sizeof f) (taken E f sv) ptr h)
  unfolding set_pin move store safefree drop_block
  set_pin-assigned f s sub args ptr sv h i e z o k = ground (
    arith,
    sv2ptr-integer E f s sub args sv 0 h i e o k,
    put_scalar_lem E (sizeof f) (taken E f sv) 0 h,
    read-encode (sizeof f) (taken E f sv) (malloc h (sizeof f)) (ready E 0 (sizeof f) h).bytes,
  )

  -- An integer assigned to a pinned variable of an integer type is read back from it converted to the
  -- C type; the block used on the way is live no more; and no byte outside that block and the variable
  -- changes. The variable's address is not NULL and its type's size is that of the C type.
  pub set_pin-get_pin :
      (f : Flag) (fuel : ℕ) (s : Slots) (sub args : TypeList) (ptr : ℕ) (sv : Sv) (h : Heap Sv)
      → IsInteger f
      → s.numeric ≡ f
      → s.sizeof ≡ sizeof f
      → sv_ok sv ≡ true
      → sv_iok sv ≡ true
      → taken E f sv < 2 ^ 64
      → ptr ≢ 0
      → let p : VarPtr = record { ptr = ptr; type_sv = affix_type s sub args } in
        (h' : Heap Sv) × (set_pin E p sv h ≡ ok (tt, h'))
        × (get_pin E fuel p h' ≡ ok (given E f (wrap f (taken E f sv)), h'))
        × (h'.blocks ≡ h.blocks)
        × ((q : ℕ)
            → IsBeside (malloc h (sizeof f)) (sizeof f) q
            → IsBeside ptr (sizeof f) q
            → h'.bytes q ≡ h.bytes q)
  unfolding get_pin
  set_pin-get_pin f fuel s sub args ptr sv h i e z o k b n =
      let size = sizeof f in
      let v = taken E f sv in
      let block = malloc h size in
      let m = write_bytes block (zeros size) h.bytes in
      let m' = write_bytes block (encode size v) m in
      (
        assigned size v ptr h,
        set_pin-assigned f s sub args ptr sv h i e z o k,
        ptr2sv-integer E f fuel s sub args v ptr (assigned size v ptr h) i e (ground arith) b
            (peek-written E size v ptr (record h { bytes = m' })),
        refl,
        λ q a c.
            write_bytes-outside ptr (encode size v) m' q (ground (arith, length-encode size v))
            ∙ write_bytes-outside block (encode size v) m q (ground (arith, length-encode size v))
            ∙ write_bytes-outside block (zeros size) h.bytes q (ground (arith, length-zeros size)),
      )
