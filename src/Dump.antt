-- ===== src/Dump.antt =====
-- The hex dump of memory: `_DumpHex` of lib/Affix/Utils.cxx, and Affix::Pointer's DumpHex. What they print
-- is a value here.
pub mod Digits
pub mod Rows
pub mod Lines
pub mod Listing
use fiction.Prelude.{
  ℕ, zero, suc, ◌+◌, ◌*◌, ◌/◌, ◌%◌, String, ◌||◌, ◌&&◌, Option, none, some, List, [], ◌∷◌, ◌++◌,
  ◌==◌, ltb, if◌then◌else◌, not, length, Text, codes,
}
use fiction.Memory.{Bytes, write_byte, plain, M, pure, ◌>>=◌, ◌>>◌, fail, read_bytes, calloc, store}
use fiction.Env.{Env}
use fiction.Pointer.{is_pointer}

-- `%lu` and `%zu`: the decimal digits of a number, before those already there; a number has fewer digits
-- than it has units, or one.
unfoldable pub digits : (fuel n : ℕ) → Text → Text
digits zero n later = later
digits (suc fuel) n later =
    let front = digits fuel (n / 10) ((b'0' + n % 10) ∷ later) in
    if ltb n 10 then (b'0' + n) ∷ later else front

unfoldable pub decimal : ℕ → Text
unfolding digits
decimal n = digits (n + 1) n []

-- `%03zu`
unfoldable pub decimal3 : ℕ → Text
unfolding decimal
decimal3 n =
    if ltb n 10 then b'0' ∷ b'0' ∷ decimal n else if ltb n 100 then b'0' ∷ decimal n else decimal n

unfoldable pub hex_digit : ℕ → ℕ
hex_digit d = if ltb d 10 then b'0' + d else b'W' + d

-- `%02x` of a byte
unfoldable pub hex2 : ℕ → Text
unfolding hex_digit
hex2 c = hex_digit (c / 16) ∷ hex_digit (c % 16) ∷ []

-- The character that stands for a byte in the column of text.
unfoldable pub shown : ℕ → ℕ
shown c = if ltb c b' ' || ltb b'~' c then b'.' else c

-- What `printf("%s")` takes from a buffer of `fuel` bytes: those up to the first zero.
unfoldable pub until_zero : (fuel a : ℕ) → Bytes → Text
until_zero zero a m = []
until_zero (suc fuel) a m = if m a == 0 then [] else m a ∷ until_zero fuel (a + 1) m

-- What has been printed, and the buffer `buff` of 17 bytes.
pub record Dump : Type 0 where
  pub printed : Text
  pub buff : Bytes

abbrev pub print : Text → Dump → Dump
print t d = record d { printed = d.printed ++ t }

-- `printf(" | %s\n", buff)`
unfoldable pub print_buff : Dump → Dump
unfolding until_zero
print_buff d = print (codes " | " ++ (until_zero 17 0 d.buff ++ (b'\n' ∷ []))) d

-- what is printed before the byte at offset `i`, where that begins a line
unfoldable pub begin_line : ℕ → Dump → Dump
unfolding print_buff decimal3
begin_line i d =
    if i % 16 == 0
    then print (codes "#  " ++ (decimal3 i ++ codes " ")) (if i == 0 then d else print_buff d)
    else d

-- The body of the loop over the bytes `pc[i]`.
unfoldable pub dump_byte : ℕ → ℕ → Dump → Dump
unfolding begin_line hex2 shown write_byte
dump_byte c i d =
    let e = begin_line i d in
    record {
      printed = e.printed ++ (b' ' ∷ hex2 c);
      buff = write_byte (i % 16 + 1) 0 (write_byte (i % 16) (shown c) e.buff);
    }

unfoldable pub dump_bytes : List ℕ → ℕ → Dump → Dump
unfolding dump_byte
dump_bytes [] i d = d
dump_bytes (c ∷ cs) i d = dump_bytes cs (i + 1) (dump_byte c i d)

-- `while ((i % perLine) != 0)`; `none` if the rounds do not do.
unfoldable pub pad : (fuel i : ℕ) → Dump → Option Dump
pad zero i d = if i % 16 == 0 then some d else none
pad (suc fuel) i d =
    let later = pad fuel (i + 1) (print (codes "   ") d) in if i % 16 == 0 then some d else later

-- The first line, with the address as `%p` prints it and the file's name and line.
unfoldable pub dump_head : (len : ℕ) (address file : Text) (line : ℕ) → Text
unfolding decimal
dump_head len address file line =
    codes "Dumping "
    ++ (decimal len
        ++ (codes " bytes from "
            ++ (address
                ++ (codes " at " ++ (file ++ (codes " line " ++ (decimal line ++ (b'\n' ∷ []))))))))

abbrev pub finish_dump : Option Dump → Option Text
finish_dump none = none
finish_dump (some d) = some (print_buff d).printed

-- The two loops. `buff` is fresh, filled with zeros.
unfoldable pub dump_loops : List ℕ → Text → Option Dump
unfolding dump_bytes pad
dump_loops bs head = pad 15 (length bs) (dump_bytes bs 0 (record { printed = head; buff = λ a. 0 }))

-- The lines behind the first.
unfoldable pub dump_lines : List ℕ → Text → Option Text
unfolding dump_loops print_buff
dump_lines bs head = finish_dump (dump_loops bs head)

abbrev pub buff_bytes : Option Dump → List ℕ
buff_bytes none = []
buff_bytes (some d) = read_bytes 0 17 d.buff

module _ (E : Env) where
  open E use {Sv, sv_uv, pointer_addr, malloc}

  -- `_DumpHex`, with `%p` and the caller's place as parameters; `none` if padding never ended. The block
  -- of `buff` is never freed. The bytes are all read before the loops write it, which is the same where
  -- it lies apart from them.
  unfoldable pub dump_hex :
      (show_pointer : ℕ → Text) (file : Text) (line addr len : ℕ) → M Sv (Option Text)
  unfolding dump_loops dump_lines dump_head
  dump_hex show_pointer file line addr len = do
    buff ← calloc malloc 17
    λ h.
        let head = dump_head len (show_pointer addr) file line in
        let bs = read_bytes addr len h.bytes in
        if len == 0
        then fail (plain "ZERO LENGTH") h
        else (store buff (buff_bytes (dump_loops bs head)) >> pure (dump_lines bs head)) h

  -- DumpHex; it answers nothing, and prints nothing for a pointer without an address.
  unfoldable pub pointer_dump_hex :
      (show_pointer : ℕ → Text) (file : Text) (line : ℕ) (sv size : Sv) → M Sv (Option Text)
  unfolding dump_hex
  pointer_dump_hex show_pointer file line sv size =
      if not (is_pointer E sv)
      then fail (plain "ptr is not of type Affix::Pointer")
      else elim (pointer_addr sv) [
        | none ↦ pure (some [])
        | some ptr ↦ dump_hex show_pointer file line ptr (sv_uv size)
      ]
