-- ===== src/Unmarshal/Pointers.antt =====
-- A NULL-terminated table of pointers read by `ptr2sv`.
use fiction.Prelude.{
  ℕ, zero, suc, ◌+◌, ◌<◌, ◌≡◌, ◌≢◌, refl, List, [], ◌∷◌, ◌++◌, map, arith, length,
}
use fiction.Flags.{pointer_flag}
use fiction.Types.{AffixType, affix_type, TypeList, cons, Slots, slots}
use fiction.Memory.{Heap, ok, M, peek}
use fiction.Env.{Env, sizeof_intptr}
use fiction.Unmarshal.Cases.{get_pointers, get_pointer}
use fiction.Unmarshal.{ptr2sv}

module _ (E : Env) where
  open E use {Sv, undef, new_rv_av}

  -- The addresses `ps` stand at `a`, one behind the other, and a NULL behind them. None is NULL, and
  -- `get` reads each as `f` says.
  abbrev pub IsTable : (ℕ → M Sv Sv) → (ℕ → Sv) → Heap Sv → ℕ → List ℕ → Type 0
  IsTable get f h a [] = peek a sizeof_intptr h ≡ ok (0, h)
  IsTable get f h a (p ∷ ps) =
      (peek a sizeof_intptr h ≡ ok (p, h))
      × (p ≢ 0)
      × (get p h ≡ ok (f p, h))
      × IsTable get f h (a + sizeof_intptr) ps

  get_pointers-table :
      (get : ℕ → M Sv Sv) (f : ℕ → Sv) (h : Heap Sv) (last : Sv) (ps : List ℕ) (fuel a : ℕ)
      → length ps < fuel
      → get 0 h ≡ ok (last, h)
      → IsTable get f h a ps
      → get_pointers E get fuel a h ≡ ok (map f ps ++ (last ∷ []), h)
  unfolding get_pointers
  get_pointers-table get f h last [] zero a l z t = absurd (omega arith)
  get_pointers-table get f h last [] (suc fuel) a l z t = ground arith
  get_pointers-table get f h last (p ∷ ps) zero a l z t = absurd (omega arith)
  get_pointers-table get f h last (p ∷ ps) (suc fuel) a l z t =
      ground
        (arith, get_pointers-table get f h last ps fuel (a + sizeof_intptr) (omega arith) z t.3)

  -- A NULL-terminated table of pointers is read as an array of what they point to with one undef more
  -- at its end, for the NULL: the loop stops, where it is given more rounds than there are pointers.
  pub ptr2sv-table :
      (s : Slots) (t : AffixType) (ts args : TypeList) (f : ℕ → Sv) (ps : List ℕ) (fuel a : ℕ)
      (h : Heap Sv)
      → s.numeric ≡ pointer_flag
      → (slots t).numeric ≡ pointer_flag
      → a ≢ 0
      → length ps < fuel
      → IsTable (ptr2sv E fuel t) f h a ps
      → ptr2sv E fuel (affix_type s (cons t ts) args) a h
        ≡ ok (new_rv_av (map f ps ++ (undef ∷ [])), h)
  unfolding ptr2sv get_pointer
  ptr2sv-table s (affix_type u sub uargs) ts args f ps fuel a h e p n l w = ground (
    arith,
    get_pointers-table (ptr2sv E fuel (affix_type u sub uargs)) f h undef ps fuel a l refl w,
  )
