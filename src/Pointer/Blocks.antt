-- ===== src/Pointer/Blocks.antt =====
-- `Affix_realloc`, `Affix_strdup` and `Affix_Pointer_DESTROY` of lib/Affix/Type/Pointer.cxx.
use fiction.Prelude.{
  ℕ, ◌+◌, ◌&&◌, Option, none, some, List, [], ◌∷◌, ◌++◌, ◌==◌, ltb, if◌then◌else◌, is_some, length,
}
use fiction.Memory.{
  ok, plain, M, pure, ◌>>=◌, ◌>>◌, fail, undefined_behaviour, store, safemalloc, safefree,
  drop_block, read_bytes, write_bytes,
}
use fiction.Env.{Env}
use fiction.Memory.{c_text}
use fiction.Pointer.{unmanaged}

-- The size of the live block at an address.
unfoldable pub block_size : ℕ → List (ℕ × ℕ) → Option ℕ
block_size a [] = none
block_size a ((b, n) ∷ bs) = if a == b then some n else block_size a bs

abbrev pub lesser : ℕ → ℕ → ℕ
lesser a b = if ltb a b then a else b

module _ (E : Env) where
  open E use {Sv, sv_uv, sv_pv, sv_derived_from, object_addr, new_object, malloc, realloc}

  -- What `saferealloc` is documented to do with a live block: the new address is the allocator's, and
  -- the bytes that fit move along.
  unfoldable pub move_block : (ptr n size : ℕ) → M Sv ℕ
  move_block ptr n size h =
      let a = realloc h ptr size in
      ok (
        a,
        record h {
          bytes = write_bytes a (read_bytes ptr (lesser n size) h.bytes) h.bytes;
          blocks = (a, size) ∷ drop_block ptr h.blocks;
        },
      )

  -- Of NULL it is malloc, to no size it is free.
  unfoldable pub saferealloc : (ptr size : ℕ) → M Sv ℕ
  unfolding move_block block_size drop_block
  saferealloc ptr size =
      if size == 0
      then (if ptr == 0 then pure 0 else (do safefree ptr; pure 0))
      else if ptr == 0
      then safemalloc malloc size
      else λ h. elim (block_size ptr h.blocks) [
        | none ↦ undefined_behaviour h
        | some n ↦ move_block ptr n size h
      ]

  -- What the argument is set to, of a class named with one colon, and the answer.
  unfoldable pub affix_realloc : Sv → Sv → M Sv (Sv × Sv)
  unfolding saferealloc
  affix_realloc sv size =
      if sv_derived_from sv "Affix::Pointer"
      then (do
        a ← saferealloc (object_addr sv) (sv_uv size)
        pure (new_object (some "Affix::Pointer:Unmanaged") a, unmanaged E a))
      else fail (plain "ptr is not of type Affix::Pointer")

  -- `strdup`: the bytes up to the first zero, and a zero.
  unfoldable pub affix_strdup : Sv → M Sv Sv
  unfolding c_text
  affix_strdup sv = do
    a ← safemalloc malloc (length (c_text (sv_pv sv)) + 1)
    store a (c_text (sv_pv sv) ++ (0 ∷ []))
    pure (unmanaged E a)

  -- `Affix_Pointer_DESTROY` checks its argument, and frees nothing.
  unfoldable pub pointer_destroy : Sv → M Sv (Unit {0})
  pointer_destroy sv =
      if is_some (E.deref sv) && sv_derived_from sv "Affix::Pointer"
      then pure tt
      else fail (plain "ptr is not of type Affix::Pointer")
