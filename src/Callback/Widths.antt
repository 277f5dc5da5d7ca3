-- ===== src/Callback/Widths.antt =====
-- The integers that a callback takes and gives back.
use fiction.Prelude.{ℕ, ◌+◌, ◌-◌, ◌^◌, ◌<◌, ◌≤◌, ◌≡◌, refl, [], ◌∷◌, arith}
use fiction.Flags.{
  Flag, short_flag, ushort_flag, int_flag, uint_flag, long_flag, ulong_flag, longlong_flag,
  ulonglong_flag,
}
use fiction.Types.{AffixType, nil, cons}
use fiction.Memory.{CodeRef, Heap, ok}
use fiction.Env.{Env}
use fiction.Call.{
  CbValue, val_short, val_ushort, val_int, val_uint, val_long, val_ulong, val_longlong,
  val_ulonglong,
}
use fiction.Marshal.Numbers.{IsInteger}
use fiction.Unmarshal.Cases.{sign_extend}
use fiction.Callback.{callback_arg, callback_args, callback_result, callback}

-- The member of DCValue that an integer type is returned in.
abbrev pub member : Flag → ℕ → CbValue
member short_flag v = val_short v
member ushort_flag v = val_ushort v
member int_flag v = val_int v
member uint_flag v = val_uint v
member long_flag v = val_long v
member ulong_flag v = val_ulong v
member longlong_flag v = val_longlong v
member _ v = val_ulonglong v

-- The character of the member.
abbrev pub member_code : Flag → ℕ
member_code short_flag = b's'
member_code ushort_flag = b'S'
member_code int_flag = b'i'
member_code uint_flag = b'I'
member_code long_flag = b'j'
member_code ulong_flag = b'J'
member_code longlong_flag = b'l'
member_code _ = b'L'

-- The number of patterns of an integer type.
abbrev pub patterns : Flag → ℕ
patterns short_flag = 2 ^ 16
patterns ushort_flag = 2 ^ 16
patterns int_flag = 2 ^ 32
patterns uint_flag = 2 ^ 32
patterns _ = 2 ^ 64

module _ (E : Env) where
  open E use {Sv, new_iv, new_uv, sv_iv, call_sv}

  -- The scalar that an integer argument becomes: each unsigned short or int goes through the signed type.
  abbrev pub passed : Flag → ℕ → Sv
  passed short_flag v = new_iv (sign_extend (2 ^ 15) v)
  passed ushort_flag v = new_uv (sign_extend (2 ^ 15) v)
  passed int_flag v = new_iv (sign_extend (2 ^ 31) v)
  passed uint_flag v = new_uv (sign_extend (2 ^ 31) v)
  passed ulong_flag v = new_uv v
  passed ulonglong_flag v = new_uv v
  passed _ v = new_iv v

  callback_args-integer :
      (f : Flag) (fuel : ℕ) (t : AffixType) (v : ℕ) (h : Heap Sv)
      → IsInteger f
      → callback_args E fuel (f ∷ []) (cons t nil) (v ∷ []) h ≡ ok (passed f v ∷ [], h)
  unfolding callback_args callback_arg
  callback_args-integer short_flag fuel t v h i = refl
  callback_args-integer ushort_flag fuel t v h i = refl
  callback_args-integer int_flag fuel t v h i = refl
  callback_args-integer uint_flag fuel t v h i = refl
  callback_args-integer long_flag fuel t v h i = refl
  callback_args-integer ulong_flag fuel t v h i = refl
  callback_args-integer longlong_flag fuel t v h i = refl
  callback_args-integer ulonglong_flag fuel t v h i = refl
  callback_args-integer _ fuel t v h i = absurd i

  callback_result-passed :
      (f : Flag) (t : AffixType) (v : ℕ) (h : Heap Sv)
      → IsInteger f
      → v < patterns f
      → ((n : ℕ) → n < 2 ^ 64 → sv_iv (new_iv n) ≡ n)
      → ((n : ℕ) → n < 2 ^ 64 → sv_iv (new_uv n) ≡ n)
      → callback_result E f t (passed f v) h ≡ ok ((member f v, member_code f), h)
  unfolding callback_result sign_extend
  callback_result-passed short_flag t v h i b si su = ground (arith, si (sign_extend (2 ^ 15) v))
  callback_result-passed ushort_flag t v h i b si su = ground (arith, su (sign_extend (2 ^ 15) v))
  callback_result-passed int_flag t v h i b si su = ground (arith, si (sign_extend (2 ^ 31) v))
  callback_result-passed uint_flag t v h i b si su = ground (arith, su (sign_extend (2 ^ 31) v))
  callback_result-passed long_flag t v h i b si su = ground (arith, si v)
  callback_result-passed ulong_flag t v h i b si su = ground (arith, su v)
  callback_result-passed longlong_flag t v h i b si su = ground (arith, si v)
  callback_result-passed ulonglong_flag t v h i b si su = ground (arith, su v)
  callback_result-passed _ t v h i b si su = absurd i

  callback-run :
      (f : Flag) (fuel : ℕ) (c : CodeRef Sv) (t : AffixType) (v : ℕ) (sv : Sv) (out : CbValue × ℕ)
      (h h' : Heap Sv)
      → IsInteger f
      → c.signature ≡ f ∷ []
      → c.argtypes ≡ cons t nil
      → c.restype_c ≡ f
      → call_sv c.cv (passed f v ∷ []) h ≡ ok (sv, h')
      → callback_result E f c.restype sv h' ≡ ok (out, h')
      → callback E fuel c (v ∷ []) h ≡ ok (out, h')
  unfolding callback
  callback-run short_flag fuel c t v sv out h h' i s a r e q =
      ground (arith, callback_args-integer short_flag fuel t v h i)
  callback-run ushort_flag fuel c t v sv out h h' i s a r e q =
      ground (arith, callback_args-integer ushort_flag fuel t v h i)
  callback-run int_flag fuel c t v sv out h h' i s a r e q =
      ground (arith, callback_args-integer int_flag fuel t v h i)
  callback-run uint_flag fuel c t v sv out h h' i s a r e q =
      ground (arith, callback_args-integer uint_flag fuel t v h i)
  callback-run long_flag fuel c t v sv out h h' i s a r e q =
      ground (arith, callback_args-integer long_flag fuel t v h i)
  callback-run ulong_flag fuel c t v sv out h h' i s a r e q =
      ground (arith, callback_args-integer ulong_flag fuel t v h i)
  callback-run longlong_flag fuel c t v sv out h h' i s a r e q =
      ground (arith, callback_args-integer longlong_flag fuel t v h i)
  callback-run ulonglong_flag fuel c t v sv out h h' i s a r e q =
      ground (arith, callback_args-integer ulonglong_flag fuel t v h i)
  callback-run _ fuel c t v sv out h h' i s a r e q = absurd i

  -- A Perl callback of one integer argument that returns it gives back the value that C passed, for
  -- each integer type, signed or not. The interpreter keeps 64-bit integers as they are.
  pub callback-echo :
      (f : Flag) (fuel : ℕ) (c : CodeRef Sv) (t : AffixType) (v : ℕ) (h h' : Heap Sv)
      → IsInteger f
      → v < patterns f
      → c.signature ≡ f ∷ []
      → c.argtypes ≡ cons t nil
      → c.restype_c ≡ f
      → ((n : ℕ) → n < 2 ^ 64 → sv_iv (new_iv n) ≡ n)
      → ((n : ℕ) → n < 2 ^ 64 → sv_iv (new_uv n) ≡ n)
      → ((sv : Sv) → call_sv c.cv (sv ∷ []) h ≡ ok (sv, h'))
      → callback E fuel c (v ∷ []) h ≡ ok ((member f v, member_code f), h')
  callback-echo f fuel c t v h h' i b s a r si su e =
      callback-run f fuel c t v (passed f v) (member f v, member_code f) h h' i s a r
        (e (passed f v)) (callback_result-passed f c.restype v h' i b si su)

  -- A fault of the code: an unsigned short of 2^15 or more that C passes to a callback reaches Perl
  -- sign-extended, and so does an unsigned int of 2^31 or more.
  pub callback_args-unsigned :
      (fuel : ℕ) (t : AffixType) (v w : ℕ) (h : Heap Sv)
      → (2 ^ 15 ≤ v) × (v < 2 ^ 16)
      → (2 ^ 31 ≤ w) × (w < 2 ^ 32)
      → callback_args E fuel (ushort_flag ∷ uint_flag ∷ []) (cons t (cons t nil)) (v ∷ w ∷ []) h
        ≡ ok (new_uv (v + (2 ^ 64 - 2 ^ 16)) ∷ new_uv (w + (2 ^ 64 - 2 ^ 32)) ∷ [], h)
  unfolding callback_args callback_arg sign_extend
  callback_args-unsigned fuel t v w h b c = ground arith
