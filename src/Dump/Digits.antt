-- ===== src/Dump/Digits.antt =====
-- The decimal numbers of a dump: the fuel of `digits` is enough.
use fiction.Prelude.{
  ℕ, zero, suc, ◌+◌, ◌-◌, ◌*◌, ◌/◌, ◌%◌, ◌<◌, ◌≡◌, ap, ◌∙◌, [], ◌∷◌, ltb, inl, inr, Bool-cases,
  Text, arith,
}
use fiction.Dump.{digits, decimal}

-- the number that digits stand for, behind one that was read before
abbrev read_decimal : ℕ → Text → ℕ
read_decimal n [] = n
read_decimal n (c ∷ cs) = read_decimal (n * 10 + (c - b'0')) cs

digits_lem :
    (fuel n : ℕ) (later : Text)
    → n < fuel
    → read_decimal 0 (digits fuel n later) ≡ read_decimal n later
unfolding digits
digits_lem zero n later h = ground arith
digits_lem (suc fuel) n later h = elim (Bool-cases (ltb n 10)) [
  | inl one ↦ rw one (ap (λ k. read_decimal k later) (omega arith))
  | inr more ↦
      let small : n / 10 < fuel = ground (arith, h, more) in
      rw more (
        digits_lem fuel (n / 10) ((b'0' + n % 10) ∷ later) small
        ∙ ap (λ k. read_decimal k later) (omega arith))
]

-- What `%lu` prints stands for the number.
decimal_lem : (n : ℕ) → read_decimal 0 (decimal n) ≡ n
unfolding decimal
decimal_lem n = digits_lem (n + 1) n [] (omega arith)
