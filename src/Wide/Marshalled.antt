-- ===== src/Wide/Marshalled.antt =====
-- A text marshalled as wide characters and read back.
use fiction.Prelude.{
  String, ℕ, ◌+◌, ◌*◌, ◌^◌, ◌≤◌, ◌<◌, ◌≡◌, ◌≢◌, refl, sym, ap, ◌∙◌, ◌⊎◌, inl, inr, true, false,
  Bool-cases, List, [], ◌∷◌, ◌++◌, ◌==◌, ltb, length, length-append, arith,
}
use fiction.Memory.{
  Bytes, Heap, ok, c_text, warn, store, calloc, safemalloc, safefree, read_bytes, write_bytes,
  decode, zeros,
}
use fiction.Memory.Bytes.{
  drop_block-first, read-write_prefix, write_bytes-outside, read_bytes_congr, length-zeros,
}
use fiction.Env.{Env}
use fiction.Wide.{convert, wide_bytes, utf8_of, wchar2utf, utf2wchar, put_wchar}
use fiction.Wide.RoundTrip.{
  AreWide, WideAt, length-wide_bytes, wide_bytes-append, write-WideAt, WideAt-wide_at,
  wide_length-terminated,
}

length-wide_terminated : (ws : List ℕ) → length (wide_bytes (ws ++ (0 ∷ []))) ≡ 4 * length ws + 4
length-wide_terminated ws =
    length-wide_bytes (ws ++ (0 ∷ [])) ∙ omega (arith, length-append ws (0 ∷ []))

-- the wide characters alone, from the buffer that they and a terminator were written to
copied :
    (a : ℕ) (ws : List ℕ) (m : Bytes)
    → read_bytes a (4 * length ws) (write_bytes a (wide_bytes (ws ++ (0 ∷ []))) m) ≡ wide_bytes ws
copied a ws m =
    ap (λ bs. read_bytes a (4 * length ws) (write_bytes a bs m)) (wide_bytes-append ws (0 ∷ []))
    ∙ ap (λ n. read_bytes a n (write_bytes a (wide_bytes ws ++ wide_bytes (0 ∷ [])) m))
        (sym (length-wide_bytes ws))
    ∙ read-write_prefix a (wide_bytes ws) (wide_bytes (0 ∷ [])) m

module _ (E : Env) where
  open E use {Sv, sv_utf8, sv_pvutf8, uvchr_to_utf8, mbstowcs, new_utf8_decoded, malloc}

  -- No block that malloc gives out covers a byte of the `n` from an address on.
  abbrev pub IsKeptFrom : ℕ → ℕ → Type 0
  IsKeptFrom a n =
      (g : Heap Sv) (k p : ℕ) → a ≤ p → p < a + n → (p < malloc g k) ⊎ (malloc g k + k ≤ p)

  -- what has been marshalled: the bytes
  unfoldable pub Written : (ret : ℕ) (ws : List ℕ) (h h' : Heap Sv) → Type 0
  Written ret ws h h' =
      WideAt h'.bytes ret ws
      × ((p : ℕ) → ret + 4 * length ws ≤ p → p < ret + 4 * length ws + 4 → h'.bytes p ≡ h.bytes p)

  pub put_wchar-Written :
      (sv : Sv) (ret : ℕ) (ws : List ℕ) (h : Heap Sv)
      → sv_utf8 sv ≡ true
      → mbstowcs (sv_pvutf8 sv) ≡ ws ++ (0 ∷ [])
      → length ws ≤ length (sv_pvutf8 sv)
      → AreWide ws
      → ret ≢ 0
      → IsKeptFrom ret (4 * length ws + 4)
      → (h' : Heap Sv) × (put_wchar E sv ret h ≡ ok (ret, h')) × Written ret ws h h'
  unfolding put_wchar utf2wchar Written warn store safemalloc
  put_wchar-Written sv ret ws h utf8 decoded room wide live kept =
      let line : String = "line %d" in
      let n = (length (sv_pvutf8 sv) + 1 + 1) * 4 in
      let g : Heap Sv = record h { warnings = line ∷ line ∷ h.warnings } in
      let a = malloc g n in
      let size = length-wide_terminated ws in
      let m = write_bytes a (wide_bytes (ws ++ (0 ∷ []))) h.bytes in
      let no_null : (ret == 0) ≡ false = ground (arith, live) in
      (
        record h {
          bytes = write_bytes ret (wide_bytes ws) m;
          blocks = (a, n) ∷ h.blocks;
          warnings =
              line ∷ line ∷ "line %d [len: %d]" ∷ "line %d [value: %s]" ∷ line ∷ line ∷ h.warnings;
        },
        rw (utf8, decoded, wide_length-terminated ws wide, no_null, copied a ws h.bytes) refl,
        (
          write-WideAt ws ret m wide,
          λ p lo hi.
              write_bytes-outside ret (wide_bytes ws) m p
                (inr (omega (arith, length-wide_bytes ws, lo)))
              ∙ elim (kept g n p (omega (arith, lo)) (omega (arith, hi))) [
                | inl under ↦
                    write_bytes-outside a (wide_bytes (ws ++ (0 ∷ []))) h.bytes p (inl under)
                | inr over ↦
                    write_bytes-outside a (wide_bytes (ws ++ (0 ∷ []))) h.bytes p
                      (inr (omega (arith, over, size, room)))
              ],
        ),
      )

  WideAt-congr :
      (ws : List ℕ) (a : ℕ) (m m' : Bytes)
      → ((p : ℕ) → a ≤ p → p < a + 4 * length ws → m p ≡ m' p)
      → WideAt m' a ws
      → WideAt m a ws
  WideAt-congr [] a m m' same h = tt
  WideAt-congr (w ∷ ws) a m m' same h = (
    ap decode (read_bytes_congr a 4 m m' (λ p lo hi. same p lo (omega (arith, hi)))) ∙ h.0,
    WideAt-congr ws (a + 4) m m' (λ p lo hi. same p (omega (arith, lo)) (omega (arith, hi))) h.1,
  )

  utf8_of-fits :
      (ws : List ℕ)
      → ((w : ℕ) → w < 2 ^ 21 → length (uvchr_to_utf8 w) ≤ 4)
      → AreWide ws
      → length (utf8_of E ws) ≤ 4 * length ws
  unfolding utf8_of
  utf8_of-fits [] short wide = omega arith
  utf8_of-fits (w ∷ ws) short wide = elim (Bool-cases (ltb w 128)) [
    | inl ascii ↦ rw ascii (omega (arith, utf8_of-fits ws short wide.2))
    | inr other ↦ rw other (
        omega (
          arith,
          utf8_of-fits ws short wide.2,
          short w wide.1,
          length-append {0} (uvchr_to_utf8 w) (utf8_of E ws),
        ))
  ]

  -- the buffer of `wchar2utf` covers none of the characters that it reads
  pub wchar2utf_lem :
      (src : ℕ) (ws : List ℕ) (h : Heap Sv)
      → ((w : ℕ) → w < 2 ^ 21 → length (uvchr_to_utf8 w) ≤ 4)
      → AreWide ws
      → WideAt h.bytes src ws
      → IsKeptFrom src (4 * length ws)
      → (h' : Heap Sv) × (wchar2utf E src (length ws) h
          ≡ ok (new_utf8_decoded (c_text (utf8_of E ws)), h'))
        × (h'.blocks ≡ h.blocks)
  unfolding wchar2utf convert calloc store safefree
  wchar2utf_lem src ws h short wide there kept =
      let n = (length ws + 1) * 4 in
      let a = malloc h n in
      let m = write_bytes a (zeros n) h.bytes in
      let read = WideAt-wide_at ws src m (
        WideAt-congr ws src m h.bytes
          (λ p lo hi. elim (kept h n p lo hi) [
            | inl under ↦ write_bytes-outside a (zeros n) h.bytes p (inl under)
            | inr over ↦
                write_bytes-outside a (zeros n) h.bytes p
                  (inr (omega (arith, over, length-zeros n)))
          ])
          there) in
      let fits : ltb (length (utf8_of E ws)) n ≡ true =
        ground (arith, utf8_of-fits ws short wide) in
      (
        record h { bytes = write_bytes a (utf8_of E ws) m },
        rw (read, fits, drop_block-first a n h.blocks) refl,
        refl,
      )
