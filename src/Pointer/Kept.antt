-- ===== src/Pointer/Kept.antt =====
-- What `realloc` and `strdup` keep.
use fiction.Prelude.{
  ℕ, ◌+◌, ◌≤◌, ◌<◌, ◌≡◌, ◌≢◌, refl, sym, ap, ◌∙◌, ◌⊎◌, inl, inr, true, false, Bool-cases, some, [],
  ◌∷◌, ◌++◌, ◌==◌, length, arith, Text,
}
use fiction.Memory.{
  Bytes, write_byte, Heap, ok, safemalloc, store, drop_block, read_bytes, write_bytes, c_string,
  ◌>>=◌,
}
use fiction.Memory.Bytes.{read-write, read-write_disjoint, write_bytes-append, write_bytes-outside}
use fiction.Env.{Env}
use fiction.Memory.{c_text}
use fiction.Marshal.Texts.{c_string_lem}
use fiction.Pointer.{unmanaged}
use fiction.Pointer.Memory.{length-read_bytes}
use fiction.Pointer.Blocks.{
  block_size, lesser, move_block, saferealloc, affix_realloc, affix_strdup,
}

c_text_idem : (s : Text) → c_text (c_text s) ≡ c_text s
unfolding c_text
c_text_idem [] = refl
c_text_idem (c ∷ s) = elim (Bool-cases (c == 0)) [
  | inl end ↦ rw end refl
  | inr more ↦ rw (more, c_text, more) (ap (λ t. c ∷ t) (c_text_idem s))
]

one_zero : (a : ℕ) (m : Bytes) → write_bytes a (0 ∷ []) m a ≡ 0
unfolding write_bytes write_byte
one_zero a m = ground arith

module _ (E : Env) where
  open E use {Sv, sv_uv, sv_pv, sv_derived_from, object_addr, new_object, malloc, realloc}

  -- realloc of a live block, to a size that is not 0, answers the address that the allocator chose: the
  -- bytes that fit stand there as they stood in the old block, the old block is live no more and the new
  -- one is, and no byte outside those that were moved changes.
  pub affix_realloc-keeps :
      (sv size : Sv) (n : ℕ) (h : Heap Sv)
      → sv_derived_from sv "Affix::Pointer" ≡ true
      → object_addr sv ≢ 0
      → sv_uv size ≢ 0
      → block_size (object_addr sv) h.blocks ≡ some n
      → let a = realloc h (object_addr sv) (sv_uv size) in
        let k = lesser n (sv_uv size) in
        (h' : Heap Sv) × (affix_realloc E sv size h
          ≡ ok ((new_object (some "Affix::Pointer:Unmanaged") a, unmanaged E a), h'))
        × (read_bytes a k h'.bytes ≡ read_bytes (object_addr sv) k h.bytes)
        × (h'.blocks ≡ (a, sv_uv size) ∷ drop_block (object_addr sv) h.blocks)
        × ((q : ℕ) → (q < a) ⊎ (a + k ≤ q) → h'.bytes q ≡ h.bytes q)
  unfolding affix_realloc saferealloc move_block
  affix_realloc-keeps sv size n h isa live some_size block =
      let p = object_addr sv in
      let a = realloc h p (sv_uv size) in
      let k = lesser n (sv_uv size) in
      let bs = read_bytes p k h.bytes in
      let no_null : (p == 0) ≡ false = ground (arith, live) in
      let no_free : (sv_uv size == 0) ≡ false = ground (arith, some_size) in
      (
        record h {
          bytes = write_bytes a bs h.bytes;
          blocks = (a, sv_uv size) ∷ drop_block p h.blocks;
        },
        rw (isa, no_free, no_null, ◌>>=◌, block) refl,
        rw (length-read_bytes p k h.bytes) at (read-write a bs h.bytes),
        refl,
        λ q out. write_bytes-outside a bs h.bytes q (rw (length-read_bytes p k h.bytes) out),
      )

  -- strdup answers a block that holds the text up to its first zero byte, and ends it: strlen reads the
  -- same there, given more rounds than that text is long.
  pub affix_strdup-c_string :
      (sv : Sv) (fuel : ℕ) (h : Heap Sv)
      → length (c_text (sv_pv sv)) < fuel
      → let a = malloc h (length (c_text (sv_pv sv)) + 1) in
        (h' : Heap Sv) × (affix_strdup E sv h ≡ ok (unmanaged E a, h'))
        × (c_string fuel a h' ≡ ok (c_text (sv_pv sv), h'))
        × (h'.blocks ≡ (a, length (c_text (sv_pv sv)) + 1) ∷ h.blocks)
  unfolding affix_strdup safemalloc store
  affix_strdup-c_string sv fuel h enough =
      let t = c_text (sv_pv sv) in
      let a = malloc h (length t + 1) in
      let h' : Heap Sv = record h {
        bytes = write_bytes a (t ++ (0 ∷ [])) h.bytes;
        blocks = (a, length t + 1) ∷ h.blocks;
      } in
      let m = write_bytes a t h.bytes in
      let two = write_bytes-append a t (0 ∷ []) h.bytes in
      let text : read_bytes a (length t) h'.bytes ≡ t =
        ap (read_bytes a (length t)) (sym two)
        ∙ read-write_disjoint a (length t) (a + length t) (0 ∷ []) m (inl (omega arith))
        ∙ read-write a t h.bytes in
      let end : h'.bytes (a + length t) ≡ 0 =
        ap (λ w. w (a + length t)) (sym two) ∙ one_zero (a + length t) m in
      (
        h',
        refl,
        c_string_lem t fuel a h' enough text end ∙ ap (λ s. ok (s, h')) (c_text_idem (sv_pv sv)),
        refl,
      )
