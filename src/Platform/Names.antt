-- ===== src/Platform/Names.antt =====
-- The `#if` chains: which macro stands behind a name.
use fiction.Prelude.{
  ℕ, zero, suc, ◌&&◌, ◌||◌, not, ◌≡◌, ◌≢◌, refl, sym, inl, inr, String, Bool, true, false,
  Bool-cases, Option, none, some, List, [], ◌∷◌, if◌then◌else◌, arith,
}
use text.Mathlib.Text.{◌==◌}
use text.Mathlib.TextEquality.{eq_iff}
use fiction.Platform.{first_defined}
use fiction.Platform.Macros.{architecture_names}

abbrev names : String → List (String × String) → Bool
names n [] = false
names n ((macro, m) ∷ rest) = n == m || names n rest

-- no name twice
abbrev distinct : List (String × String) → Bool
distinct [] = true
distinct ((macro, m) ∷ rest) = not (names m rest) && distinct rest

-- the first macro that stands for a name
abbrev pub macro_of : String → List (String × String) → Option String
macro_of n [] = none
macro_of n ((macro, m) ∷ rest) = if n == m then some macro else macro_of n rest

abbrev pub has_macro : String → List (String × String) → Bool
has_macro n [] = false
has_macro n ((macro, m) ∷ rest) = n == macro || has_macro n rest

abbrev drop : ℕ → List (String × String) → List (String × String)
drop zero table = table
drop (suc n) [] = []
drop (suc n) (x ∷ table) = drop n table

-- the chain of architectures behind its first tests
abbrev behind : ℕ → List (String × String)
behind n = drop n architecture_names

module _ (defined : String → Bool) where
  -- a name that no macro of the table stands for is not the result
  first_defined-absent :
      (table : List (String × String)) (n : String)
      → names n table ≡ false
      → n ≢ "Unknown"
      → first_defined defined table ≢ n
  unfolding first_defined
  first_defined-absent [] n h k e = k (sym e)
  first_defined-absent ((macro, m) ∷ rest) n h k e = elim (Bool-cases (defined macro)) [
    | inl this ↦ ground (arith, eq_iff n m, rw this at e, h)
    | inr later ↦ first_defined-absent rest n (ground (arith, h)) k (rw later at e)
  ]

  pub first_defined-macro_of :
      (table : List (String × String)) (n macro : String)
      → distinct table ≡ true
      → first_defined defined table ≡ n
      → n ≢ "Unknown"
      → macro_of n table ≡ some macro
      → defined macro ≡ true
  unfolding first_defined
  first_defined-macro_of [] n macro d e k h = ground arith
  first_defined-macro_of ((m, name) ∷ rest) n macro d e k h = elim (Bool-cases (defined m)) [
    | inl this ↦ ground (arith, eq_iff n name, rw this at e, h)
    | inr later ↦ elim (Bool-cases (n == name)) [
      | inl here ↦
          absurd
            (first_defined-absent rest n (ground (arith, d, eq_iff n name, here)) k (rw later at e))
      | inr there ↦
          first_defined-macro_of rest n macro (ground (arith, d)) (rw later at e) k (rw there at h)
    ]
  ]

  -- where no name is found, no macro of the table is defined
  pub first_defined-unknown :
      (table : List (String × String)) (macro : String)
      → names "Unknown" table ≡ false
      → first_defined defined table ≡ "Unknown"
      → has_macro macro table ≡ true
      → defined macro ≡ false
  unfolding first_defined
  first_defined-unknown [] macro n e h = ground arith
  first_defined-unknown ((m, name) ∷ rest) macro n e h = elim (Bool-cases (defined m)) [
    | inl this ↦ ground (arith, eq_iff "Unknown" name, rw this at e, n)
    | inr later ↦ elim (Bool-cases (macro == m)) [
      | inl here ↦ ground (arith, eq_iff macro m, here, later)
      | inr there ↦
          first_defined-unknown rest macro (ground (arith, n)) (rw later at e)
            (ground (arith, h, there))
    ]
  ]

  first_defined-skip :
      (macro name n : String) (rest : List (String × String))
      → first_defined defined ((macro, name) ∷ rest) ≡ n
      → (n == name) ≡ false
      → (defined macro ≡ false) × (first_defined defined rest ≡ n)
  unfolding first_defined
  first_defined-skip macro name n rest e k = elim (Bool-cases (defined macro)) [
    | inl this ↦ ground (arith, eq_iff n name, rw this at e, k)
    | inr later ↦ (later, rw later at e)
  ]

  -- The macro of PPC32 is tested for PPC64 before.
  pub chain-ppc32 : first_defined defined architecture_names ≢ "PPC32"
  unfolding first_defined
  chain-ppc32 e =
      let (n0, a) = first_defined-skip "DC__Arch_AMD64" "x86_64" "PPC32" (behind 1) e refl in
      let (n1, b) = first_defined-skip "DC__Arch_Intel_x86" "x86" "PPC32" (behind 2) a refl in
      let (n2, c) = first_defined-skip "DC__Arch_Itanium" "Itanium" "PPC32" (behind 3) b refl in
      let (n3, d) = first_defined-skip "DC__Arch_PPC64" "PPC64" "PPC32" (behind 4) c refl in
      first_defined-absent (behind 5) "PPC32" refl
        (λ k. ground (arith, k, eq_iff "PPC32" "Unknown")) (rw n3 at d)
