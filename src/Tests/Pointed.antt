-- ===== src/Tests/Pointed.antt =====
-- Examples of pointers and the memory functions.
use fiction.Prelude.{
  ℕ, ◌+◌, ◌-◌, ◌^◌, ◌≤◌, ◌<◌, ◌≡◌, ◌⊎◌, refl, false, none, [], ◌∷◌, arith, str_eq,
}
use fiction.Flags.{int_flag, pointer_flag}
use fiction.Types.{nil}
use fiction.Memory.{
  AffixPointer, Heap, ok, read_bytes, write_bytes, write_byte, drop_block, c_string,
}
use fiction.Memory.{c_text}
use fiction.Unmarshal.Cases.{sign_extend}
use fiction.Pointer.{
  affix_memmove, affix_free, affix_malloc, affix_sv2ptr, pointer_sv, dest_addr, src_addr,
}
use fiction.Pointer.Memory.{affix_memmove-moves}
use fiction.Pointer.Blocks.{affix_realloc, affix_strdup, block_size}
use fiction.Pointer.Kept.{affix_realloc-keeps, affix_strdup-c_string}
use fiction.Pointer.Access.{IsKept, affix_malloc-affix_free, affix_sv2ptr-pointer_sv}
use fiction.Tests.Toy.{
  Val, undef_val, int_val, text_val, object_val, toy, empty, slots_of, int_slots,
}

-- The bytes 1, 2, 3 at 64
abbrev some_bytes : Heap Val
some_bytes = record empty { bytes = write_bytes 64 (1 ∷ 2 ∷ 3 ∷ []) (λ a. 0) }

dest_at : (a : ℕ) → dest_addr toy (object_val a) some_bytes ≡ ok (a, some_bytes)
unfolding dest_addr
dest_at a = refl

src_at : (a : ℕ) → src_addr toy (object_val a) some_bytes ≡ ok (a, some_bytes)
unfolding src_addr
src_at a = refl

affix_memmove-moves_example :
    (h : Heap Val) × (affix_memmove toy (object_val 65) (object_val 64) (int_val 3) some_bytes
      ≡ ok (object_val 65, h))
    × (read_bytes 65 3 h.bytes ≡ 1 ∷ 2 ∷ 3 ∷ [])
    × ((p : ℕ) → (p < 65) ⊎ (65 + 3 ≤ p) → h.bytes p ≡ write_bytes 64 (1 ∷ 2 ∷ 3 ∷ []) (λ a. 0) p)
unfolding read_bytes write_bytes write_byte
affix_memmove-moves_example =
    affix_memmove-moves toy (object_val 65) (object_val 64) (int_val 3) 65 64 some_bytes
      (dest_at 65) (src_at 64)

kept : (p : AffixPointer) → IsKept toy p
kept p = record { kept_pointer = refl; kept_addr = refl; kept_subtype = refl; kept_position = refl }

affix_malloc-affix_free_example :
    (sv : Val) × (h : Heap Val) × (affix_malloc toy (int_val 16) empty ≡ ok (sv, h))
    × (h.blocks ≡ (4096, 16) ∷ [])
    × (affix_free toy sv h ≡ ok (undef_val false, empty))
affix_malloc-affix_free_example = affix_malloc-affix_free toy (int_val 16) empty (omega arith) kept

affix_sv2ptr-pointer_sv_example :
    (made : Val) × (h : Heap Val) × (affix_sv2ptr toy (object_val 1) (int_val (2 ^ 32 - 1)) empty
      ≡ ok (made, h))
    × (pointer_sv toy 1 made h ≡ ok (int_val (2 ^ 64 - 1), h))
unfolding sign_extend str_eq
affix_sv2ptr-pointer_sv_example =
    affix_sv2ptr-pointer_sv toy int_flag 1 (object_val 1) (int_val (2 ^ 32 - 1))
      (slots_of pointer_flag 8 0 none) int_slots nil nil nil nil empty tt refl refl refl refl refl
      refl refl refl refl refl (omega arith) (omega arith) kept

-- the same bytes as a block, which shrinks
abbrev in_block : Heap Val
in_block = record some_bytes { blocks = (64, 3) ∷ [] }

affix_realloc-keeps_example :
    (h : Heap Val) × (affix_realloc toy (object_val 64) (int_val 2) in_block
      ≡ ok ((object_val 4160, object_val 4160), h))
    × (read_bytes 4160 2 h.bytes ≡ 1 ∷ 2 ∷ [])
    × (h.blocks ≡ (4160, 2) ∷ [])
    × ((q : ℕ) → (q < 4160) ⊎ (4160 + 2 ≤ q) → h.bytes q ≡ some_bytes.bytes q)
unfolding block_size drop_block read_bytes write_bytes write_byte
affix_realloc-keeps_example =
    affix_realloc-keeps toy (object_val 64) (int_val 2) 3 in_block refl (λ e. omega (arith, e))
      (λ e. omega (arith, e)) refl

affix_strdup-c_string_example :
    (h : Heap Val) × (affix_strdup toy (text_val (1 ∷ 2 ∷ 0 ∷ 3 ∷ [])) empty
      ≡ ok (object_val 4096, h))
    × (c_string 3 4096 h ≡ ok (1 ∷ 2 ∷ [], h))
    × (h.blocks ≡ (4096, 3) ∷ [])
unfolding c_text
affix_strdup-c_string_example =
    affix_strdup-c_string toy (text_val (1 ∷ 2 ∷ 0 ∷ 3 ∷ [])) 3 empty (omega arith)
