-- ===== src/Marshal/Texts.antt =====
-- Texts written by `sv2ptr` and read by `ptr2sv`.
use fiction.Prelude.{
  ℕ, zero, suc, ◌+◌, ◌<◌, ◌≡◌, ◌≢◌, ◌∙◌, true, false, none, [], ◌∷◌, arith, ◌==◌, length, Text, inr,
}
use fiction.Flags.{Flag, schar_flag, char_flag, uchar_flag}
use fiction.Types.{affix_type, TypeList, Slots}
use fiction.Memory.{Bytes, Heap, ok, store, c_string, read_bytes, write_bytes, zeros, write_byte}
use fiction.Memory.Bytes.{read-write, write_bytes-outside}
use fiction.Env.{Env}
use fiction.Marshal.Cases.{put_chars}
use fiction.Marshal.{sv2ptr}
use fiction.Marshal.Numbers.{ready, written, provide_lem}
use fiction.Memory.{c_text}
use fiction.Unmarshal.Cases.{get_text}
use fiction.Unmarshal.{ptr2sv}

abbrev pub IsChar : Flag → Type 0
IsChar char_flag = Unit
IsChar schar_flag = Unit
IsChar uchar_flag = Unit
IsChar _ = ⊥

-- The last byte of a block of zeros is zero.
last_zero : (n a : ℕ) (m : Bytes) → write_bytes a (zeros (n + 1)) m (a + n) ≡ 0
unfolding write_bytes write_byte zeros
last_zero zero a m = ground arith
last_zero (suc n) a m = ground (arith, last_zero n (a + 1) (write_byte a 0 m))

-- `strlen` stops at the text's own first zero or at the terminator: fuel above the length is enough.
pub c_string_lem :
    {Sv : Type 0} (s : Text) (fuel a : ℕ) (h : Heap Sv)
    → length s < fuel
    → read_bytes a (length s) h.bytes ≡ s
    → h.bytes (a + length s) ≡ 0
    → c_string fuel a h ≡ ok (c_text s, h)
unfolding c_string c_text read_bytes
c_string_lem [] zero a h f r z = absurd (omega arith)
c_string_lem [] (suc fuel) a h f r z = ground arith
c_string_lem (c ∷ s) zero a h f r z = absurd (omega arith)
c_string_lem (c ∷ s) (suc fuel) a h f r z = ground (arith, c_string_lem s fuel (a + 1) h)

module _ (E : Env) where
  open E use {Sv, malloc, sv_ok, sv_pv, array_of, new_pvn_utf8, is_utf8_string}

  abbrev block_of : Sv → Heap Sv → ℕ
  block_of sv h = malloc h (length (sv_pv sv) + 1)

  abbrev after : Sv → Heap Sv → Heap Sv
  after sv h = written E (block_of sv h) (sv_pv sv) (ready E 0 (length (sv_pv sv) + 1) h)

  sv2ptr-text :
      (f : Flag) (s : Slots) (sub args : TypeList) (sv : Sv) (h : Heap Sv)
      → IsChar f
      → s.numeric ≡ f
      → sv_ok sv ≡ true
      → array_of sv ≡ none
      → sv2ptr E (affix_type s sub args) sv 0 h ≡ ok (block_of sv h, after sv h)
  unfolding sv2ptr put_chars store
  sv2ptr-text char_flag s sub args sv h i e o k =
      ground (arith, provide_lem E 0 (length (sv_pv sv) + 1) h)
  sv2ptr-text schar_flag s sub args sv h i e o k =
      ground (arith, provide_lem E 0 (length (sv_pv sv) + 1) h)
  sv2ptr-text uchar_flag s sub args sv h i e o k =
      ground (arith, provide_lem E 0 (length (sv_pv sv) + 1) h)
  sv2ptr-text _ s sub args sv h i e o k = absurd i

  ptr2sv-text :
      (f : Flag) (fuel : ℕ) (s : Slots) (sub args : TypeList) (t : Text) (a : ℕ) (h : Heap Sv)
      → IsChar f
      → s.numeric ≡ f
      → (a == 0) ≡ false
      → c_string fuel a h ≡ ok (t, h)
      → ptr2sv E fuel (affix_type s sub args) a h ≡ ok (new_pvn_utf8 t (is_utf8_string t), h)
  unfolding ptr2sv get_text
  ptr2sv-text char_flag fuel s sub args t a h i e n r = ground arith
  ptr2sv-text schar_flag fuel s sub args t a h i e n r = ground arith
  ptr2sv-text uchar_flag fuel s sub args t a h i e n r = ground arith
  ptr2sv-text _ fuel s sub args t a h i e n r = absurd i

  -- A text that `sv2ptr` copies to fresh memory as one of the character types is read back by
  -- `ptr2sv` up to its first zero byte, so whole if it has none: the zeroed block ends it. Both run
  -- without an error, where `strlen` is given more rounds than the text is long and the address that
  -- malloc gives is not NULL.
  pub text_round_trip :
      (f : Flag) (fuel : ℕ) (s : Slots) (sub args : TypeList) (sv : Sv) (h : Heap Sv)
      → IsChar f
      → s.numeric ≡ f
      → sv_ok sv ≡ true
      → array_of sv ≡ none
      → length (sv_pv sv) < fuel
      → malloc h (length (sv_pv sv) + 1) ≢ 0
      → (h' : Heap Sv) × (sv2ptr E (affix_type s sub args) sv 0 h
          ≡ ok (malloc h (length (sv_pv sv) + 1), h'))
        × (ptr2sv E fuel (affix_type s sub args) (malloc h (length (sv_pv sv) + 1)) h'
            ≡ ok (new_pvn_utf8 (c_text (sv_pv sv)) (is_utf8_string (c_text (sv_pv sv))), h'))
  text_round_trip f fuel s sub args sv h i e o k l n =
      let a = block_of sv h in
      let t = sv_pv sv in
      let h₁ = ready E 0 (length t + 1) h in
      (
        after sv h,
        sv2ptr-text f s sub args sv h i e o k,
        ptr2sv-text f fuel s sub args (c_text t) a (after sv h) i e (ground arith) (
            c_string_lem t fuel a (after sv h) l (read-write a t h₁.bytes) (
              write_bytes-outside a t h₁.bytes (a + length t) (inr (omega arith))
              ∙ last_zero (length t) a h.bytes)),
      )
