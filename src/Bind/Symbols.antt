-- ===== src/Bind/Symbols.antt =====
-- What a library says of itself: `Affix_list_symbols` of lib/Affix.cxx, `Affix_Lib_path` and
-- `Affix_Lib_list_unmangled_symbols` of lib/Affix/Lib.cxx.
use fiction.Prelude.{
  ◌&&◌, zero, suc, ◌==◌, ℕ, ◌+◌, ◌-◌, ◌<◌, ◌≡◌, refl, ap, ◌∙◌, inl, inr, Option, none, some, List,
  [], ◌∷◌, ◌++◌, leb, is_some, not, if◌then◌else◌, length, length-append, arith, Text, Bool-cases,
  Bool, true, false,
}
use mathlib.Core.List.{append_assoc}
use fiction.Memory.{
  Bytes, Heap, ok, plain, M, pure, ◌>>=◌, ◌>>◌, fail, store, calloc, safefree, read_bytes,
  write_bytes, zeros,
}
use fiction.Memory.Bytes.{drop_block-first, read-write, read-write_prefix}
use fiction.Memory.{c_text}
use fiction.Env.{Env}

c_text-append : (t rest : Text) → c_text (t ++ (0 ∷ rest)) ≡ c_text t
unfolding c_text
c_text-append [] rest = refl
c_text-append (c ∷ t) rest = elim (Bool-cases (c == 0)) [
  | inl end ↦ rw end refl
  | inr more ↦ rw more (ap (λ s. c ∷ s) (c_text-append t rest))
]

read_bytes_split :
    (a n k : ℕ) (m : Bytes) → read_bytes a (n + k) m ≡ read_bytes a n m ++ read_bytes (a + n) k m
unfolding read_bytes
read_bytes_split a zero k m =
    let e : 0 + k ≡ k = omega arith in let f : a + 0 ≡ a = omega arith in rw (e, f) refl
read_bytes_split a (suc n) k m =
    let e : suc n + k ≡ suc (n + k) = omega arith in
    let f : a + suc n ≡ a + 1 + n = omega arith in
    rw (e, f) (ap (λ l. m a ∷ l) (read_bytes_split (a + 1) n k m))

-- what a buffer that begins with a text and its terminator is read as
c_text-buffer :
    (a n : ℕ) (path : Text) (m : Bytes)
    → length path < n
    → c_text path ≡ path
    → c_text (read_bytes a n (write_bytes a (path ++ (0 ∷ [])) m)) ≡ path
c_text-buffer a n path m fits whole =
    let w = write_bytes a (path ++ (0 ∷ [])) m in
    let k = length (path ++ (0 ∷ [])) in
    let size : k ≡ length path + 1 = length-append path (0 ∷ []) in
    let rest = read_bytes (a + k) (n - k) w in
    let parts : n ≡ k + (n - k) = omega (arith, size, fits) in
    ap (λ x. c_text (read_bytes a x w)) parts
    ∙ ap c_text (
        read_bytes_split a k (n - k) w
        ∙ ap (λ l. l ++ rest) (read-write a (path ++ (0 ∷ [])) m)
        ∙ append_assoc path (0 ∷ []) rest)
    ∙ c_text-append path rest
    ∙ whole

module _ (E : Env) where
  open E use {Sv, new_pvn, new_rv_av, sv_derived_from, deref, object_addr, library_path, malloc}

  -- The buffer of 1024 bytes that `dlGetLibraryPath` writes the path to, and the length it answers: that of
  -- the path and its terminator, or 0. A path that does not fit is not written.
  unfoldable pub library_name : ℕ → M Sv (ℕ × ℕ)
  library_name lib = do
    name ← calloc malloc 1024
    let path = library_path lib
    let len = if length path == 0 then 0 else length path + 1
    if leb len 1024 && not (len == 0) then store name (path ++ (0 ∷ [])) else pure tt
    if len == 0 then fail (plain "Failed to get library name") else pure (name, len)

  -- The object of Affix::Lib; it frees the buffer.
  unfoldable pub lib_path : Sv → M Sv Sv
  unfolding library_name
  lib_path lib =
      if not (sv_derived_from lib "Affix::Lib")
      then fail (plain "lib is not of type Affix::Lib")
      else (do
        (name, len) ← library_name (object_addr lib)
        λ h. (safefree name >> pure (new_pvn (read_bytes name (len - 1) h.bytes))) h)

  abbrev is_named : Text → Bool
  is_named [] = false
  is_named (_ ∷ _) = true

  abbrev pub named_symbols : List Text → List Sv
  named_symbols [] = []
  named_symbols (s ∷ rest) =
      let later = named_symbols rest in if length s == 0 then later else new_pvn s ∷ later

  -- `dlSymsInit`, `dlSymsCount` and `dlSymsName` of the file with the path in the buffer: a parameter
  unfoldable pub list_symbols : (symbols : Text → List Text) → Sv → M Sv Sv
  unfolding library_name c_text
  list_symbols symbols lib =
      if not (is_some (deref lib)) then fail (plain "lib is not of type Affix::Lib") else (do
        (name, len) ← library_name (object_addr lib)
        λ h.
            (safefree name
                >> pure
                    (new_rv_av (named_symbols (symbols (c_text (read_bytes name 1024 h.bytes))))))
              h)

  -- The values of the hash Affix::Cache::Symbol::<path>, if there is one; the buffer is not freed.
  unfoldable pub list_unmangled_symbols : (cache : Text → Option (List Sv)) → Sv → M Sv Sv
  unfolding library_name c_text
  list_unmangled_symbols cache lib =
      if not (sv_derived_from lib "Affix::Lib")
      then fail (plain "lib is not of type Affix::Lib")
      else (do
        (name, len) ← library_name (object_addr lib)
        λ h. elim (cache (c_text (read_bytes name 1024 h.bytes))) [
          | none ↦ fail (plain "Bad hash") h
          | some svs ↦ pure (new_rv_av svs) h
        ])

  -- the bytes behind a path that fits in the buffer
  abbrev named : Heap Sv → ℕ → Heap Sv
  named h lib =
      let a = malloc h 1024 in
      record h {
        bytes = write_bytes a (library_path lib ++ (0 ∷ [])) (write_bytes a (zeros 1024) h.bytes);
        blocks = (a, 1024) ∷ h.blocks;
      }

  library_name_lem :
      (lib : ℕ) (h : Heap Sv)
      → 0 < length (library_path lib)
      → length (library_path lib) < 1024
      → library_name lib h ≡ ok ((malloc h 1024, length (library_path lib) + 1), named h lib)
  unfolding library_name store calloc
  library_name_lem lib h found fits =
      let no_zero : (length (library_path lib) == 0) ≡ false = ground (arith, found) in
      let some_len : (length (library_path lib) + 1 == 0) ≡ false = ground arith in
      let does_fit : leb (length (library_path lib) + 1) 1024 ≡ true = ground (arith, fits) in
      rw (no_zero, some_len, does_fit) refl

  read-named :
      (h : Heap Sv) (lib : ℕ)
      → read_bytes (malloc h 1024) (length (library_path lib) + 1 - 1) (named h lib).bytes
        ≡ library_path lib
  read-named h lib =
      let m = write_bytes (malloc h 1024) (zeros 1024) h.bytes in
      let path = library_path lib in
      let e : length path + 1 - 1 ≡ length path = omega arith in
      rw e (read-write_prefix (malloc h 1024) path (0 ∷ []) m)

  -- Where the path of a library is found, is shorter than the buffer and has no zero byte: `path` answers it
  -- and list_symbols the names that the file has, less the empty ones, and both leave the blocks as they
  -- were; list_unmangled_symbols answers what the cache has for the path, and leaves its buffer behind.
  pub lib_path-list_symbols :
      (symbols : Text → List Text) (cache : Text → Option (List Sv)) (lib : Sv) (svs : List Sv)
      (h : Heap Sv)
      → let path = library_path (object_addr lib) in
        sv_derived_from lib "Affix::Lib" ≡ true
        → is_some (deref lib) ≡ true
        → 0 < length path
        → length path < 1024
        → c_text path ≡ path
        → cache path ≡ some svs
        → (a b c : Heap Sv) × (lib_path lib h ≡ ok (new_pvn path, a))
          × (a.blocks ≡ h.blocks)
          × (list_symbols symbols lib h ≡ ok (new_rv_av (named_symbols (symbols path)), b))
          × (b.blocks ≡ h.blocks)
          × (list_unmangled_symbols cache lib h ≡ ok (new_rv_av svs, c))
          × (c.blocks ≡ (malloc h 1024, 1024) ∷ h.blocks)
  unfolding lib_path list_symbols list_unmangled_symbols safefree
  lib_path-list_symbols symbols cache lib svs h isa isref found fits whole cached =
      let l = object_addr lib in
      let name = library_name_lem l h found fits in
      let read =
        c_text-buffer (malloc h 1024) 1024 (library_path l)
          (write_bytes (malloc h 1024) (zeros 1024) h.bytes) fits whole in
      let freed = drop_block-first (malloc h 1024) 1024 h.blocks in
      (
        record (named h l) { blocks = h.blocks },
        record (named h l) { blocks = h.blocks },
        named h l,
        rw (isa, ◌>>=◌, name, freed, read-named h l) refl,
        refl,
        rw (isref, ◌>>=◌, name, freed, read) refl,
        refl,
        rw (isa, ◌>>=◌, name, read, cached) refl,
        refl,
      )
