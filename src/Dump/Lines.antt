-- ===== src/Dump/Lines.antt =====
-- The lines that `_DumpHex` of lib/Affix/Utils.cxx prints, by the loops over the bytes.
use fiction.Prelude.{
  ℕ, zero, suc, ◌+◌, ◌-◌, ◌*◌, ◌%◌, ◌≤◌, ◌<◌, ◌≡◌, ◌≢◌, refl, sym, ap, ◌∙◌, false, some, List, [],
  ◌∷◌, ◌++◌, ◌==◌, if◌then◌else◌, length, length-map, map, arith, Text, codes,
}
use native.Mathlib.Decide.{dec_le}
use mathlib.Core.List.{append_assoc, append-nil}
use fiction.Memory.{Bytes}
use fiction.Dump.{
  decimal3, shown, Dump, print, print_buff, begin_line, dump_byte, dump_bytes, pad, finish_dump,
  dump_loops, dump_lines,
}
use fiction.Dump.Rows.{
  hexes, blanks, take_bytes, drop_bytes, row, listing, Holds, Holds-until_zero, pad_lem,
  dump_bytes-row,
}

-- what stands before the line at offset `i`
before : ℕ → Dump → Dump
before i d = if i == 0 then d else print_buff d

begin_line-before :
    (i : ℕ) (d : Dump)
    → i % 16 ≡ 0
    → begin_line i d ≡ print (codes "#  " ++ (decimal3 i ++ codes " ")) (before i d)
unfolding begin_line before
begin_line-before i d e = rw e refl

print_buff-Holds :
    (t s : Text) (m : Bytes)
    → length s ≤ 16
    → Holds m 0 s
    → print_buff (record { printed = t; buff = m })
      ≡ record { printed = t ++ (codes " | " ++ (s ++ (b'\n' ∷ []))); buff = m }
unfolding print_buff
print_buff-Holds t s m fits h = rw (Holds-until_zero 17 0 s m (omega (arith, fits)) h) refl

-- the line without its end, behind a text
open_row : Text → ℕ → List ℕ → Text
open_row t i bs = (t ++ (codes "#  " ++ (decimal3 i ++ codes " "))) ++ hexes bs

row-open_row :
    (t : Text) (i : ℕ) (bs : List ℕ)
    → (open_row t i bs ++ blanks (16 - length bs))
        ++ (codes " | " ++ (map shown bs ++ (b'\n' ∷ [])))
      ≡ t ++ row i bs
unfolding open_row row
row-open_row t i bs =
    let a = codes "#  " ++ (decimal3 i ++ codes " ") in
    let b = blanks (16 - length bs) in
    let c = codes " | " ++ (map shown bs ++ (b'\n' ∷ [])) in
    ap (λ x. (x ++ b) ++ c) (append_assoc t a (hexes bs))
    ∙ ap (λ x. x ++ c) (append_assoc t (a ++ hexes bs) b)
    ∙ append_assoc t ((a ++ hexes bs) ++ b) c

-- a whole line, run
run_row :
    (c : ℕ) (cs : List ℕ) (i : ℕ) (d : Dump)
    → i % 16 ≡ 0
    → length cs < 16
    → (m : Bytes) × (dump_bytes (c ∷ cs) i d
        ≡ record { printed = open_row (before i d).printed i (c ∷ cs); buff = m })
      × Holds m 0 (map shown (c ∷ cs))
unfolding open_row
run_row c cs i d e fits =
    let (m, run, held) = dump_bytes-row c cs i d e fits in
    (m, rw (begin_line-before i d e) at run, held)

last_row :
    (c : ℕ) (cs : List ℕ) (i : ℕ) (d : Dump)
    → i % 16 ≡ 0
    → length cs < 16
    → finish_dump (pad 15 (i + length (c ∷ cs)) (dump_bytes (c ∷ cs) i d))
      ≡ some ((before i d).printed ++ row i (c ∷ cs))
last_row c cs i d e fits =
    let bs = c ∷ cs in
    let (m, run, held) = run_row c cs i d e fits in
    let t = open_row (before i d).printed i bs in
    let g = 16 - length bs in
    let at_end =
      pad_lem g 15 (i + length bs) (record { printed = t; buff = m }) (omega arith) (omega arith)
        (omega (arith, e, fits)) in
    ap (λ x. finish_dump (pad 15 (i + length bs) x)) run
    ∙ ap finish_dump at_end
    ∙ ap (λ x. some x.printed)
        (print_buff-Holds (t ++ blanks g) (map shown bs) m
          (omega (arith, length-map bs shown, fits)) held)
    ∙ ap some (row-open_row (before i d).printed i bs)

take_bytes-append-drop_bytes : (n : ℕ) (xs : List ℕ) → take_bytes n xs ++ drop_bytes n xs ≡ xs
take_bytes-append-drop_bytes zero xs = refl
take_bytes-append-drop_bytes (suc n) [] = refl
take_bytes-append-drop_bytes (suc n) (x ∷ xs) = ap (λ l. x ∷ l) (take_bytes-append-drop_bytes n xs)

length-take_bytes : (n : ℕ) (xs : List ℕ) → n ≤ length xs → length (take_bytes n xs) ≡ n
length-take_bytes zero xs h = refl
length-take_bytes (suc n) [] h = ground arith
length-take_bytes (suc n) (x ∷ xs) h = ap suc (length-take_bytes n xs (omega (arith, h)))

take_bytes-all : (n : ℕ) (xs : List ℕ) → length xs ≤ n → take_bytes n xs ≡ xs
take_bytes-all zero [] h = refl
take_bytes-all zero (x ∷ xs) h = ground arith
take_bytes-all (suc n) [] h = refl
take_bytes-all (suc n) (x ∷ xs) h = ap (λ l. x ∷ l) (take_bytes-all n xs (omega (arith, h)))

drop_bytes-all : (n : ℕ) (xs : List ℕ) → length xs ≤ n → drop_bytes n xs ≡ []
drop_bytes-all zero [] h = refl
drop_bytes-all zero (x ∷ xs) h = ground arith
drop_bytes-all (suc n) [] h = refl
drop_bytes-all (suc n) (x ∷ xs) h = drop_bytes-all n xs (omega (arith, h))

dump_bytes-append :
    (xs ys : List ℕ) (i : ℕ) (d : Dump)
    → dump_bytes (xs ++ ys) i d ≡ dump_bytes ys (i + length xs) (dump_bytes xs i d)
unfolding dump_bytes
dump_bytes-append [] ys i d = ap (λ n. dump_bytes ys n d) (omega arith)
dump_bytes-append (x ∷ xs) ys i d =
    dump_bytes-append xs ys (i + 1) (dump_byte x i d)
    ∙ ap (λ n. dump_bytes ys n (dump_bytes xs (i + 1) (dump_byte x i d))) (omega arith)

listing-nil : (n i : ℕ) → listing n i [] ≡ []
unfolding listing
listing-nil zero i = refl
listing-nil (suc n) i = refl

-- what the first sixteen bytes of more leave
first_row :
    (c : ℕ) (cs : List ℕ) (i : ℕ) (d : Dump)
    → i % 16 ≡ 0
    → 15 ≤ length cs
    → (m : Bytes) × (dump_bytes (c ∷ cs) i d
        ≡ dump_bytes (drop_bytes 15 cs) (i + 16) (record {
          printed = open_row (before i d).printed i (take_bytes 16 (c ∷ cs));
          buff = m;
        }))
      × Holds m 0 (map shown (take_bytes 16 (c ∷ cs)))
first_row c cs i d e more =
    let size = length-take_bytes 15 cs more in
    let (m, run, held) = run_row c (take_bytes 15 cs) i d e (omega (arith, size)) in
    (
      m,
      ap (λ l. dump_bytes (c ∷ l) i d) (sym (take_bytes-append-drop_bytes 15 cs))
          ∙ dump_bytes-append (c ∷ take_bytes 15 cs) (drop_bytes 15 cs) i d
          ∙ ap (dump_bytes (drop_bytes 15 cs) (i + length (c ∷ take_bytes 15 cs))) run
          ∙ ap
              (λ n. dump_bytes (drop_bytes 15 cs) n (record {
                printed = open_row (before i d).printed i (take_bytes 16 (c ∷ cs));
                buff = m;
              }))
              (omega (arith, size)),
      held,
    )

-- the text before the line that follows a whole one
before-after :
    (t : Text) (i : ℕ) (bs : List ℕ) (m : Bytes)
    → length bs ≡ 16
    → Holds m 0 (map shown bs)
    → (before (i + 16) (record { printed = open_row t i bs; buff = m })).printed ≡ t ++ row i bs
unfolding before
before-after t i bs m size held =
    let later : (i + 16 == 0) ≡ false = ground arith in
    let none_left : 16 - length bs ≡ 0 = omega (arith, size) in
    let p = row-open_row t i bs in
    let ended : before (i + 16) (record { printed = open_row t i bs; buff = m }) ≡ record {
      printed = open_row t i bs ++ (codes " | " ++ (map shown bs ++ (b'\n' ∷ [])));
      buff = m;
    } =
      (rw later (
        print_buff-Holds (open_row t i bs) (map shown bs) m
          (omega (arith, length-map bs shown, size)) held)) in
    ap (λ (x : Dump). x.printed) ended
    ∙ ap (λ x. x ++ (codes " | " ++ (map shown bs ++ (b'\n' ∷ []))))
        (sym (append-nil (open_row t i bs)) ∙ ap (λ k. open_row t i bs ++ blanks k) (sym none_left))
    ∙ p

drop_bytes-more :
    (n : ℕ) (xs : List ℕ)
    → n < length xs
    → (e : ℕ) × (es : List ℕ) × (drop_bytes n xs ≡ e ∷ es) × (length es + suc n ≡ length xs)
drop_bytes-more n [] h = ground arith
drop_bytes-more zero (x ∷ xs) h = (x, xs, refl, omega arith)
drop_bytes-more (suc n) (x ∷ xs) h =
    let (e, es, p, q) = drop_bytes-more n xs (omega (arith, h)) in (e, es, p, omega (arith, q))

listing_last :
    (n c : ℕ) (cs : List ℕ) (i : ℕ) → length cs ≤ 15 → listing (suc n) i (c ∷ cs) ≡ row i (c ∷ cs)
unfolding listing
listing_last n c cs i h =
    ap (λ l. row i (c ∷ l) ++ listing n (i + 16) (drop_bytes 15 cs)) (take_bytes-all 15 cs h)
    ∙ ap (λ l. row i (c ∷ cs) ++ l)
        (ap (listing n (i + 16)) (drop_bytes-all 15 cs h) ∙ listing-nil n (i + 16))
    ∙ append-nil (row i (c ∷ cs))

listing_step :
    (n c e : ℕ) (cs es : List ℕ) (i : ℕ)
    → drop_bytes 15 cs ≡ e ∷ es
    → listing (suc n) i (c ∷ cs) ≡ row i (take_bytes 16 (c ∷ cs)) ++ listing n (i + 16) (e ∷ es)
unfolding listing
listing_step n c e cs es i p = ap (λ l. row i (take_bytes 16 (c ∷ cs)) ++ listing n (i + 16) l) p

listing_lem :
    (n c : ℕ) (cs : List ℕ) (i : ℕ) (d : Dump)
    → i % 16 ≡ 0
    → length (c ∷ cs) ≤ 16 * n
    → finish_dump (pad 15 (i + length (c ∷ cs)) (dump_bytes (c ∷ cs) i d))
      ≡ some ((before i d).printed ++ listing n i (c ∷ cs))
listing_lem zero c cs i d z fits = ground arith
listing_lem (suc n) c cs i d z fits = elim (dec_le (length cs) 15) [
  | yes short ↦
      last_row c cs i d z (omega (arith, short))
      ∙ ap (λ l. some ((before i d).printed ++ l)) (sym (listing_last n c cs i short))
  | no long ↦
      let (e, es, split, size) = drop_bytes-more 15 cs (omega (arith, long)) in
      let (m, run, held) = first_row c cs i d z (omega (arith, long)) in
      let t = (before i d).printed in
      let bs = take_bytes 16 (c ∷ cs) in
      let d' : Dump = record { printed = open_row t i bs; buff = m } in
      let bs_size : length bs ≡ 16 = ap suc (length-take_bytes 15 cs (omega (arith, long))) in
      ap finish_dump (
        ap (λ k. pad 15 k (dump_bytes (c ∷ cs) i d)) (omega (arith, size))
        ∙ ap (pad 15 (i + 16 + length (e ∷ es))) (run ∙ ap (λ l. dump_bytes l (i + 16) d') split))
      ∙ listing_lem n e es (i + 16) d' (omega (arith, z)) (omega (arith, size, fits))
      ∙ ap (λ x. some (x ++ listing n (i + 16) (e ∷ es))) (before-after t i bs m bs_size held)
      ∙ ap some (append_assoc t (row i bs) (listing n (i + 16) (e ∷ es)))
      ∙ ap (λ l. some (t ++ l)) (sym (listing_step n c e cs es i split))
]

dump_lines-some :
    (c : ℕ) (cs : List ℕ) (n : ℕ) (head : Text)
    → length (c ∷ cs) ≤ 16 * n
    → dump_lines (c ∷ cs) head ≡ some (head ++ listing n 0 (c ∷ cs))
unfolding dump_lines dump_loops before
dump_lines-some c cs n head fits =
    let same : length (c ∷ cs) ≡ 0 + length (c ∷ cs) = omega arith in
    ap
      (λ k.
        finish_dump (pad 15 k (dump_bytes (c ∷ cs) 0 (record { printed = head; buff = λ a. 0 }))))
      same
    ∙ listing_lem n c cs 0 (record { printed = head; buff = λ a. 0 }) refl fits

pub dump_lines-listing :
    (bs : List ℕ) (size n : ℕ) (head : Text)
    → length bs ≡ size
    → size ≢ 0
    → size ≤ 16 * n
    → dump_lines bs head ≡ some (head ++ listing n 0 bs)
dump_lines-listing [] size n head e some_size fits = ground arith
dump_lines-listing (c ∷ cs) size n head e some_size fits =
    dump_lines-some c cs n head (omega (arith, e, fits))
