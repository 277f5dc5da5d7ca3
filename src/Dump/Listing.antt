-- ===== src/Dump/Listing.antt =====
-- A whole dump of `_DumpHex` and of Affix::Pointer's DumpHex is the listing of its lines.
use fiction.Prelude.{
  ℕ, ◌*◌, ◌≤◌, ◌≡◌, ◌≢◌, refl, ap, ◌∙◌, true, false, none, some, Option, ◌∷◌, ◌++◌, ◌==◌, length,
  arith, Text,
}
use fiction.Memory.{Heap, ok, read_bytes, write_bytes, zeros, calloc, store}
use fiction.Memory.Bytes.{length-zeros, write_bytes-outside, read_bytes_congr}
use fiction.Marshal.Nested.{IsBeside}
use fiction.Pin.Store.{IsApart}
use fiction.Env.{Env}
use fiction.Pointer.{is_pointer}
use fiction.Pointer.Memory.{length-read_bytes}
use fiction.Dump.{Dump, dump_loops, buff_bytes, dump_head, dump_hex, pointer_dump_hex}
use fiction.Dump.Rows.{listing}
use fiction.Dump.Lines.{dump_lines-listing}

module _ (E : Env) where
  open E use {Sv, sv_uv, pointer_addr, malloc}

  -- the heap with a fresh block of zeros for `buff`
  abbrev buffered : Heap Sv → Heap Sv
  buffered h = record h {
    bytes = write_bytes (malloc h 17) (zeros 17) h.bytes;
    blocks = (malloc h 17, 17) ∷ h.blocks;
  }

  length-buff_bytes : (d : Option Dump) → length (buff_bytes d) ≤ 17
  length-buff_bytes none = omega arith
  length-buff_bytes (some d) = omega (arith, length-read_bytes 0 17 d.buff)

  dump_hex-listing :
      (show_pointer : ℕ → Text) (file : Text) (line ptr size n : ℕ) (h : Heap Sv)
      → size ≢ 0
      → size ≤ 16 * n
      → (h' : Heap Sv) × (dump_hex E show_pointer file line ptr size h
          ≡ ok (
            some (
                dump_head size (show_pointer ptr) file line
                ++ listing n 0 (read_bytes ptr size (buffered h).bytes)),
            h',
          ))
        × (h'.blocks ≡ (malloc h 17, 17) ∷ h.blocks)
        × ((q : ℕ) → IsBeside (malloc h 17) 17 q → h'.bytes q ≡ h.bytes q)
  unfolding dump_hex calloc store
  dump_hex-listing show_pointer file line ptr size n h some_size fits =
      let a = malloc h 17 in
      let head = dump_head size (show_pointer ptr) file line in
      let bs = read_bytes ptr size (buffered h).bytes in
      let last = buff_bytes (dump_loops bs head) in
      let no_zero : (size == 0) ≡ false = ground (arith, some_size) in
      let h' : Heap Sv = record (buffered h) { bytes = write_bytes a last (buffered h).bytes } in
      (
        h',
        rw no_zero (
            ap (λ t. ok (t, h'))
              (dump_lines-listing bs size n head (length-read_bytes ptr size (buffered h).bytes)
                some_size fits)),
        refl,
        λ q c.
            write_bytes-outside a last (buffered h).bytes q
              (ground (arith, c, length-buff_bytes (dump_loops bs head)))
            ∙ write_bytes-outside a (zeros 17) h.bytes q (ground (arith, c, length-zeros 17)),
      )

  -- DumpHex of a live pointer and a size that is not 0 ends and prints the head line and the listing of
  -- the bytes there, sixteen to a line: each line has the offset of its first byte, the bytes in
  -- hexadecimal, blanks for those that a short line lacks, and the characters, with a point for those that
  -- are not printable. It leaves the block of 17 bytes for the characters of a line live, and changes no
  -- byte outside it. The block that malloc gives lies apart from the bytes.
  pub pointer_dump_hex-listing :
      (show_pointer : ℕ → Text) (file : Text) (line : ℕ) (sv size : Sv) (ptr n : ℕ) (h : Heap Sv)
      → is_pointer E sv ≡ true
      → pointer_addr sv ≡ some ptr
      → sv_uv size ≢ 0
      → sv_uv size ≤ 16 * n
      → IsApart (malloc h 17) 17 ptr (sv_uv size)
      → (h' : Heap Sv) × (pointer_dump_hex E show_pointer file line sv size h
          ≡ ok (
            some (
                dump_head (sv_uv size) (show_pointer ptr) file line
                ++ listing n 0 (read_bytes ptr (sv_uv size) h.bytes)),
            h',
          ))
        × (h'.blocks ≡ (malloc h 17, 17) ∷ h.blocks)
        × ((q : ℕ) → IsBeside (malloc h 17) 17 q → h'.bytes q ≡ h.bytes q)
  unfolding pointer_dump_hex
  pointer_dump_hex-listing show_pointer file line sv size ptr n h isa addr some_size fits apart =
      let (h', run, live, same) =
        dump_hex-listing show_pointer file line ptr (sv_uv size) n h some_size fits in
      let unread : read_bytes ptr (sv_uv size) (buffered h).bytes
          ≡ read_bytes ptr (sv_uv size) h.bytes =
        read_bytes_congr ptr (sv_uv size) (buffered h).bytes h.bytes (λ p l u.
          write_bytes-outside (malloc h 17) (zeros 17) h.bytes p
            (ground (arith, apart, length-zeros 17))) in
      (h', rw (isa, addr) (rw unread at run), live, same)
