-- ===== src/Wide.antt =====
-- Wide characters: lib/Affix/wchar_t.cxx, and the WCHAR_FLAG cases of `sv2ptr` and `ptr2sv` in
-- lib/Affix/marshal.cxx. A wchar_t has four bytes.
pub mod RoundTrip
pub mod Marshalled
use fiction.Prelude.{
  ℕ, zero, suc, ◌+◌, ◌*◌, Option, none, some, List, [], ◌∷◌, ◌++◌, ◌==◌, ltb, if◌then◌else◌, length,
  Text,
}
use fiction.Memory.{
  Bytes, out_of_fuel, c_text, M, pure, ◌>>=◌, ◌>>◌, undefined_behaviour, warn, store, calloc,
  safemalloc, safefree, read_bytes, encode, decode,
}
use fiction.Env.{Env}

unfoldable pub wide_bytes : List ℕ → List ℕ
unfolding encode
wide_bytes [] = []
wide_bytes (w ∷ ws) = encode 4 w ++ wide_bytes ws

-- the `n` wide characters at an address
unfoldable pub wide_at : (a n : ℕ) → Bytes → List ℕ
wide_at a zero m = []
wide_at a (suc n) m = decode (read_bytes a 4 m) ∷ wide_at (a + 4) n m

abbrev next : Option ℕ → Option ℕ
next none = none
next (some n) = some (suc n)

-- `wcslen` of what was written to a buffer: nothing, if that has no terminator
unfoldable pub wide_length : List ℕ → Option ℕ
wide_length [] = none
wide_length (w ∷ ws) = let rest = next (wide_length ws) in if w == 0 then some 0 else rest

module _ {Sv : Type 0} where
  unfoldable pub wcslen : (fuel a : ℕ) → M Sv ℕ
  wcslen zero a h = out_of_fuel
  wcslen (suc fuel) a h =
      let rest = (do n ← wcslen fuel (a + 4); pure (suc n)) h in
      if decode (read_bytes a 4 h.bytes) == 0 then pure 0 h else rest

module _ (E : Env) where
  open E use {Sv, sv_utf8, sv_pvutf8, uvchr_to_utf8, mbstowcs, new_utf8_decoded, malloc}

  -- An ASCII character is copied, any other goes through `uvchr_to_utf8`.
  unfoldable pub utf8_of : List ℕ → Text
  utf8_of [] = []
  utf8_of (w ∷ ws) = (if ltb w 128 then w ∷ [] else uvchr_to_utf8 w) ++ utf8_of ws

  -- `wchar2utf`, but for Windows: the bytes are written to a buffer of `len + 1` wide characters, which is
  -- freed. The scalar gets them up to the first zero.
  unfoldable pub convert : (read : Bytes → List ℕ) (len : ℕ) → M Sv Sv
  unfolding utf8_of c_text
  convert read len = do
    dst ← calloc malloc ((len + 1) * 4)
    λ h.
        let t = utf8_of (read h.bytes) in
        if ltb (length t) ((len + 1) * 4)
        then (store dst t >> (safefree dst >> pure (new_utf8_decoded (c_text t)))) h
        else undefined_behaviour h

  unfoldable pub wchar2utf : (src len : ℕ) → M Sv Sv
  unfolding wide_at convert
  wchar2utf src len = convert (wide_at src len) len

  -- the same, of one character in a local array
  unfoldable pub wide_sv : ℕ → M Sv Sv
  unfolding convert
  wide_sv w = convert (λ m. w ∷ []) 1

  -- `wchar2utf` of the whole string at an address
  unfoldable pub wide_string : (fuel ptr : ℕ) → M Sv Sv
  unfolding wchar2utf wcslen
  wide_string fuel ptr = do len ← wcslen fuel ptr; wchar2utf ptr len

  -- `utf2wchar`: the buffer, and the wide characters that `mbstowcs` wrote to it, none unless the scalar
  -- is flagged as UTF-8.
  unfoldable pub utf2wchar : Sv → (len : ℕ) → M Sv (ℕ × List ℕ)
  unfolding wide_bytes
  utf2wchar sv len = do
    a ← safemalloc malloc ((len + 1) * 4)
    let written = if sv_utf8 sv then mbstowcs (sv_pvutf8 sv) else []
    store a (wide_bytes written)
    pure (a, written)

  -- `utf2wchar(...)[0]`, of which nothing may have been written
  unfoldable pub utf2wchar_head : Sv → (len : ℕ) → M Sv (ℕ × ℕ)
  unfolding utf2wchar
  utf2wchar_head sv len = do
    (a, written) ← utf2wchar sv len
    elim written [ [] ↦ undefined_behaviour | w ∷ ws ↦ pure (a, w) ]

  -- WCHAR_FLAG of `sv2ptr`. It dumps 16 bytes from `ret` on, copies the wide characters there without a
  -- terminator, and does not free its buffer.
  unfoldable pub put_wchar : Sv → (ret : ℕ) → M Sv ℕ
  unfolding utf2wchar wide_length
  put_wchar sv ret = do
    warn "line %d"
    warn "line %d"
    (value, written) ← utf2wchar sv (length (sv_pvutf8 sv) + 1)
    warn "line %d [value: %s]"
    elim (wide_length written) [
      | none ↦ undefined_behaviour
      | some len ↦ do
        warn "line %d [len: %d]"
        (if ret == 0 then undefined_behaviour else warn "line %d")
        λ h. (store ret (read_bytes value (4 * len) h.bytes) >> (warn "line %d" >> pure ret)) h
    ]

  -- WCHAR_FLAG of `ptr2sv`, also behind a pointer: of an empty string `ret` is left unset.
  unfoldable pub get_wchar : (fuel ptr : ℕ) → M Sv Sv
  unfolding wchar2utf wcslen
  get_wchar fuel ptr = do
    len ← wcslen fuel ptr
    if len == 0 then undefined_behaviour else wchar2utf ptr len
