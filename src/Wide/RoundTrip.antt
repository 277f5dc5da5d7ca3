-- ===== src/Wide/RoundTrip.antt =====
-- Wide characters marshalled and read back.
use fiction.Prelude.{
  ℕ, zero, suc, ◌+◌, ◌*◌, ◌^◌, ◌<◌, ◌≡◌, ◌≢◌, refl, sym, ap, ◌∙◌, inl, false, some, List, [], ◌∷◌,
  ◌++◌, ◌==◌, length, length-append, arith,
}
use mathlib.Core.Path.{subst}
use mathlib.Core.List.{append_assoc}
use fiction.Memory.{Bytes, Heap, ok, ◌>>=◌, read_bytes, write_bytes, encode, decode}
use fiction.Memory.Bytes.{
  length-encode, decode-encode, read-write, read-write_disjoint, write_bytes-append,
}
use fiction.Wide.{wide_bytes, wide_at, wide_length, wcslen}

-- Characters that are not zero and have an UTF-8 encoding of at most four bytes.
abbrev pub AreWide : List ℕ → Type 0
AreWide [] = Unit {0}
AreWide (w ∷ ws) = (w ≢ 0) × (w < 2 ^ 21) × AreWide ws

-- what stands at an address
abbrev pub WideAt : Bytes → ℕ → List ℕ → Type 0
WideAt m a [] = Unit {0}
WideAt m a (w ∷ ws) = (decode (read_bytes a 4 m) ≡ w) × WideAt m (a + 4) ws

pub length-wide_bytes : (ws : List ℕ) → length (wide_bytes ws) ≡ 4 * length ws
unfolding wide_bytes
length-wide_bytes [] = refl
length-wide_bytes (w ∷ ws) =
    length-append (encode 4 w) (wide_bytes ws)
    ∙ omega (arith, length-encode 4 w, length-wide_bytes ws)

pub wide_bytes-append : (ws vs : List ℕ) → wide_bytes (ws ++ vs) ≡ wide_bytes ws ++ wide_bytes vs
unfolding wide_bytes
wide_bytes-append [] vs = refl
wide_bytes-append (w ∷ ws) vs =
    ap (λ l. encode 4 w ++ l) (wide_bytes-append ws vs)
    ∙ sym (append_assoc (encode 4 w) (wide_bytes ws) (wide_bytes vs))

pub write-WideAt :
    (ws : List ℕ) (a : ℕ) (m : Bytes) → AreWide ws → WideAt (write_bytes a (wide_bytes ws) m) a ws
unfolding wide_bytes
write-WideAt [] a m wide = tt
write-WideAt (w ∷ ws) a m wide =
    let e = encode 4 w in
    let m' = write_bytes a e m in
    let size : length e ≡ 4 = length-encode 4 w in
    let split : write_bytes a (e ++ wide_bytes ws) m ≡ write_bytes (a + 4) (wide_bytes ws) m' =
      sym (write_bytes-append a e (wide_bytes ws) m)
      ∙ ap (λ n. write_bytes (a + n) (wide_bytes ws) m') size in
    let first : decode (read_bytes a 4 (write_bytes (a + 4) (wide_bytes ws) m')) ≡ w =
      ap decode (
        read-write_disjoint a 4 (a + 4) (wide_bytes ws) m' (inl (omega arith))
        ∙ rw size at (read-write a e m))
      ∙ decode-encode 4 w (omega (arith, wide.1)) in
    subst (λ x. WideAt x a (w ∷ ws)) (sym split) (first, write-WideAt ws (a + 4) m' wide.2)

pub WideAt-wide_at :
    (ws : List ℕ) (a : ℕ) (m : Bytes) → WideAt m a ws → wide_at a (length ws) m ≡ ws
unfolding wide_at
WideAt-wide_at [] a m h = refl
WideAt-wide_at (w ∷ ws) a m h = rw (h.0) (ap (λ l. w ∷ l) (WideAt-wide_at ws (a + 4) m h.1))

pub wide_length-terminated :
    (ws : List ℕ) → AreWide ws → wide_length (ws ++ (0 ∷ [])) ≡ some (length ws)
unfolding wide_length
wide_length-terminated [] wide = refl
wide_length-terminated (w ∷ ws) wide = ground (arith, wide_length-terminated ws wide.2, wide.0)

module _ {Sv : Type 0} where
  pub wcslen-WideAt :
      (ws : List ℕ) (fuel a : ℕ) (h : Heap Sv)
      → AreWide ws
      → length ws < fuel
      → WideAt h.bytes a ws
      → decode (read_bytes (a + 4 * length ws) 4 h.bytes) ≡ 0
      → wcslen fuel a h ≡ ok (length ws, h)
  unfolding wcslen
  wcslen-WideAt ws zero a h wide n here end = ground (arith, n)
  wcslen-WideAt [] (suc fuel) a h wide n here end =
      let start : a + 4 * 0 ≡ a = omega arith in
      let zero_there : decode (read_bytes a 4 h.bytes) ≡ 0 = rw start at end in rw zero_there refl
  wcslen-WideAt (w ∷ ws) (suc fuel) a h wide n here end =
      let next : a + 4 * length (w ∷ ws) ≡ a + 4 + 4 * length ws = omega arith in
      let later =
        wcslen-WideAt ws fuel (a + 4) h wide.2 (omega (arith, n)) here.1 (rw next at end) in
      let some_w : (w == 0) ≡ false = ground (arith, wide.0) in
      rw (here.0, some_w, ◌>>=◌, later) refl
