-- ===== src/Memory/Runs.antt =====
-- Inversion of a run that returned.
use fiction.Prelude.{◌≡◌, refl}
use fiction.Memory.{Heap, Result, ok, croak, fault, out_of_fuel, M, ◌>>=◌}

module _ {Sv A B : Type 0} where
  then_ok :
      (r : Result (A × Heap Sv)) (k : A → M Sv B) {b : B} {h' : Heap Sv}
      → (m : M Sv A) (h : Heap Sv) → m h ≡ r
      → (m >>= k) h ≡ ok (b, h')
      → (a : A) × (g : Heap Sv) × (m h ≡ ok (a, g)) × (k a g ≡ ok (b, h'))
  then_ok (ok (a, g)) k m h s e = (a, g, s, cc)
  then_ok (croak c) k m h s e = absurd (cc)
  then_ok fault k m h s e = absurd (cc)
  then_ok out_of_fuel k m h s e = absurd (cc)

  -- A sequence that returned ran its first part and its second.
  pub bind_ok :
      (m : M Sv A) (k : A → M Sv B) (h : Heap Sv) {b : B} {h' : Heap Sv}
      → (m >>= k) h ≡ ok (b, h')
      → (a : A) × (g : Heap Sv) × (m h ≡ ok (a, g)) × (k a g ≡ ok (b, h'))
  bind_ok m k h e = then_ok (m h) k m h refl e
