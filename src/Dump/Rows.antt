-- ===== src/Dump/Rows.antt =====
-- The lines of a dump, by what a reader of it expects: sixteen bytes to a line.
use fiction.Prelude.{
  ℕ, zero, suc, ◌+◌, ◌-◌, ◌%◌, ◌≤◌, ◌<◌, ◌≡◌, ◌≢◌, refl, sym, ap, ◌∙◌, false, some, List, [], ◌∷◌,
  ◌++◌, ◌==◌, length, length-append, map, arith, Text, codes,
}
use mathlib.Core.List.{append_assoc, append-nil}
use fiction.Memory.{Bytes, write_byte}
use fiction.Dump.{
  decimal3, hex2, shown, until_zero, Dump, print, begin_line, dump_byte, dump_bytes, pad,
}

abbrev pub hexes : List ℕ → Text
hexes [] = []
hexes (c ∷ cs) = (b' ' ∷ hex2 c) ++ hexes cs

abbrev pub blanks : ℕ → Text
blanks zero = []
blanks (suc n) = codes "   " ++ blanks n

abbrev pub take_bytes : ℕ → List ℕ → List ℕ
take_bytes zero xs = []
take_bytes (suc n) [] = []
take_bytes (suc n) (x ∷ xs) = x ∷ take_bytes n xs

abbrev pub drop_bytes : ℕ → List ℕ → List ℕ
drop_bytes zero xs = xs
drop_bytes (suc n) [] = []
drop_bytes (suc n) (x ∷ xs) = drop_bytes n xs

-- The line of at most sixteen bytes that begins at offset `i`.
unfoldable pub row : ℕ → List ℕ → Text
row i bs =
    codes "#  "
    ++ (decimal3 i ++ codes " ")
    ++ hexes bs
    ++ blanks (16 - length bs)
    ++ (codes " | " ++ (map shown bs ++ (b'\n' ∷ [])))

-- The lines of the bytes from offset `i`, at most `n` lines.
unfoldable pub listing : (n i : ℕ) → List ℕ → Text
unfolding row
listing zero i bs = []
listing (suc n) i [] = []
listing (suc n) i (c ∷ cs) =
    row i (take_bytes 16 (c ∷ cs)) ++ listing n (i + 16) (drop_bytes 16 (c ∷ cs))

-- The buffer holds a text, from an address, and a zero behind it.
abbrev pub Holds : Bytes → ℕ → Text → Type 0
Holds m a [] = m a ≡ 0
Holds m a (c ∷ s) = (m a ≡ c) × (c ≢ 0) × Holds m (a + 1) s

pub Holds-until_zero :
    (fuel a : ℕ) (s : Text) (m : Bytes) → length s < fuel → Holds m a s → until_zero fuel a m ≡ s
unfolding until_zero
Holds-until_zero zero a s m n h = ground arith
Holds-until_zero (suc fuel) a [] m n h = rw h refl
Holds-until_zero (suc fuel) a (c ∷ s) m n h =
    ground (arith, Holds-until_zero fuel (a + 1) s m (omega (arith, n)) h.2)

push : Bytes → ℕ → ℕ → Bytes
push m j c = write_byte (j + 1) 0 (write_byte j c m)

Holds-push :
    (a j : ℕ) (s : Text) (m : Bytes) (c : ℕ)
    → c ≢ 0
    → a + length s ≡ j
    → Holds m a s
    → Holds (push m j c) a (s ++ (c ∷ []))
unfolding push write_byte
Holds-push a j [] m c some_c e h = (ground arith, some_c, ground arith)
Holds-push a j (x ∷ s) m c some_c e h =
    (ground arith, h.1, Holds-push (a + 1) j s m c some_c (omega (arith, e)) h.2)

shown-nonzero : (c : ℕ) → shown c ≢ 0
unfolding shown
shown-nonzero c = ground arith

print-print : (s t : Text) (d : Dump) → print t (print s d) ≡ print (s ++ t) d
print-print s t d = ap (λ x. record d { printed = x }) (append_assoc d.printed s t)

print-nothing : (d : Dump) → print [] d ≡ d
print-nothing d = ap (λ x. record d { printed = x }) (append-nil d.printed)

pad_stop : (fuel i : ℕ) (d : Dump) → i % 16 ≡ 0 → pad fuel i d ≡ some d
unfolding pad
pad_stop zero i d e = rw e refl
pad_stop (suc fuel) i d e = rw e refl

pad_step :
    (fuel i : ℕ) (d : Dump)
    → (i % 16 == 0) ≡ false
    → pad (suc fuel) i d ≡ pad fuel (i + 1) (print (codes "   ") d)
unfolding pad
pad_step fuel i d e = rw e refl

pub pad_lem :
    (g fuel i : ℕ) (d : Dump)
    → g ≤ fuel
    → g < 16
    → (i + g) % 16 ≡ 0
    → pad fuel i d ≡ some (print (blanks g) d)
pad_lem zero fuel i d n l e = pad_stop fuel i d (omega (arith, e)) ∙ ap some (sym (print-nothing d))
pad_lem (suc g) zero i d n l e = ground arith
pad_lem (suc g) (suc fuel) i d n l e =
    pad_step fuel i d (ground (arith, e, l))
    ∙ pad_lem g fuel (i + 1) (print (codes "   ") d) (omega (arith, n)) (omega (arith, l))
        (omega (arith, e))
    ∙ ap some (print-print (codes "   ") (blanks g) d)

begin_line-inside : (i : ℕ) (d : Dump) → (i % 16 == 0) ≡ false → begin_line i d ≡ d
unfolding begin_line
begin_line-inside i d e = rw e refl

-- what a byte inside a line leaves
dump_byte-inside :
    (c i : ℕ) (d : Dump)
    → (i % 16 == 0) ≡ false
    → dump_byte c i d
      ≡ record { printed = d.printed ++ (b' ' ∷ hex2 c); buff = push d.buff (i % 16) (shown c) }
unfolding dump_byte push
dump_byte-inside c i d e = rw (begin_line-inside i d e) refl

-- The bytes of a line behind its first.
dump_bytes-inside :
    (cs : List ℕ) (first i : ℕ) (s t : Text) (m : Bytes)
    → first % 16 ≡ 0
    → i ≡ first + length s
    → 1 ≤ length s
    → length s + length cs ≤ 16
    → Holds m 0 s
    → (m' : Bytes) × (dump_bytes cs i (record { printed = t; buff = m })
        ≡ record { printed = t ++ hexes cs; buff = m' })
      × Holds m' 0 (s ++ map shown cs)
unfolding dump_bytes
dump_bytes-inside [] first i s t m z e pos fits h = (m, rw (append-nil t) refl, rw (append-nil s) h)
dump_bytes-inside (c ∷ cs) first i s t m z e pos fits h =
    let d : Dump = record { printed = t; buff = m } in
    let inside : (i % 16 == 0) ≡ false = ground (arith, e, z, pos, fits) in
    let longer = length-append {0} s (shown c ∷ []) in
    let (m', run, held) =
      dump_bytes-inside cs first (i + 1) (s ++ (shown c ∷ [])) (t ++ (b' ' ∷ hex2 c))
        (push m (i % 16) (shown c)) z (omega (arith, longer, e)) (omega (arith, longer))
        (omega (arith, longer, fits))
        (Holds-push 0 (i % 16) s m (shown c) (shown-nonzero c) (omega (arith, e, z, fits)) h) in
    (
      m',
      ap (dump_bytes cs (i + 1)) (dump_byte-inside c i d inside)
          ∙ run
          ∙ ap (λ x. record { printed = x; buff = m' }) (append_assoc t (b' ' ∷ hex2 c) (hexes cs)),
      rw (append_assoc s (shown c ∷ []) (map shown cs)) at held,
    )

first_shown : (j c : ℕ) (m : Bytes) → j ≡ 0 → Holds (push m j (shown c)) 0 (shown c ∷ [])
unfolding push write_byte
first_shown j c m e = rw e (refl, shown-nonzero c, refl)

-- A whole line, whose first byte prints the offset behind whatever ends the line before.
pub dump_bytes-row :
    (c : ℕ) (cs : List ℕ) (i : ℕ) (d : Dump)
    → i % 16 ≡ 0
    → length cs < 16
    → (m : Bytes) × (dump_bytes (c ∷ cs) i d
        ≡ record { printed = (begin_line i d).printed ++ hexes (c ∷ cs); buff = m })
      × Holds m 0 (map shown (c ∷ cs))
unfolding dump_bytes dump_byte push
dump_bytes-row c cs i d e fits =
    let t = (begin_line i d).printed in
    let m = push (begin_line i d).buff (i % 16) (shown c) in
    let held : Holds m 0 (shown c ∷ []) = first_shown (i % 16) c (begin_line i d).buff e in
    let (m', run, after) =
      dump_bytes-inside cs i (i + 1) (shown c ∷ []) (t ++ (b' ' ∷ hex2 c)) m e refl (omega arith)
        (omega (arith, fits)) held in
    (
      m',
      run ∙ ap (λ x. record { printed = x; buff = m' }) (append_assoc t (b' ' ∷ hex2 c) (hexes cs)),
      after,
    )
