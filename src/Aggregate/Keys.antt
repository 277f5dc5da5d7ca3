-- ===== src/Aggregate/Keys.antt =====
-- The tied-hash methods of lib/Affix/Aggregate.cxx, over the list of (name, type) pairs that the
-- "fields" entry of the type holds.
use fiction.Prelude.{
  ℕ, zero, suc, ◌+◌, ◌≡◌, refl, ap, ◌∙◌, inl, inr, Bool, true, false, Bool-cases, Option, none,
  some, List, [], ◌∷◌, arith, if◌then◌else◌, map, Text, str_eq, str_eq_refl, length,
}
use fiction.Types.{AffixType, slots}
use fiction.Memory.{c_text}

-- `strcmp(a, b) == 0`, which compares up to the first zero
unfoldable pub is_strcmp : Text → Text → Bool
unfolding c_text
is_strcmp a b = str_eq (c_text a) (c_text b)

abbrev pub Fields : Type 0
Fields = List (Text × AffixType)

-- FETCH: the first field of that name, `get` at its offset; undef if there is none.
unfoldable pub fetch : {Sv : Type 0} → (AffixType → ℕ → Sv) → Sv → ℕ → Fields → Text → Sv
fetch get undef ptr [] key = undef
fetch get undef ptr ((name, t) ∷ fs) key =
    if is_strcmp key name then get t (ptr + (slots t).offset) else fetch get undef ptr fs key

unfoldable pub exists : Fields → Text → Bool
exists [] key = false
exists ((name, t) ∷ fs) key = if is_strcmp key name then true else exists fs key

unfoldable pub first_key : Fields → Option Text
first_key [] = none
first_key ((name, t) ∷ fs) = some name

-- NEXTKEY: the name after the first field that has the key and is not the last.
unfoldable pub next_key : Fields → Text → Option Text
next_key [] key = none
next_key ((name, t) ∷ []) key = none
next_key ((name, t) ∷ (name', t') ∷ fs) key =
    if is_strcmp key name then some name' else next_key ((name', t') ∷ fs) key

is_strcmp_refl : (a : Text) → is_strcmp a a ≡ true
unfolding is_strcmp
is_strcmp_refl a = str_eq_refl (c_text a)

abbrev pub names : Fields → List Text
names [] = []
names ((name, t) ∷ fs) = name ∷ names fs

-- What Perl does to iterate: FIRSTKEY, then NEXTKEY of the last key until there is none, for `n`
-- steps at most.
abbrev pub walk : ℕ → Fields → Option Text → List Text
walk zero fs o = []
walk (suc n) fs none = []
walk (suc n) fs (some key) = key ∷ walk n fs (next_key fs key)

abbrev pub IsAbsent : Text → Fields → Type 0
IsAbsent key [] = Unit
IsAbsent key ((name, t) ∷ fs) = (is_strcmp name key ≡ false) × IsAbsent key fs

abbrev pub IsDistinct : Fields → Type 0
IsDistinct [] = Unit
IsDistinct ((name, t) ∷ fs) = IsAbsent name fs × IsDistinct fs

abbrev Differs : Text → Option Text → Type 0
Differs m none = Unit
Differs m (some key) = is_strcmp key m ≡ false

first_key-Differs : (m : Text) (fs : Fields) → IsAbsent m fs → Differs m (first_key fs)
unfolding first_key
first_key-Differs m [] a = tt
first_key-Differs m ((name, t) ∷ fs) a = a.0

next_key-tail :
    (m : Text) (t : AffixType) (fs : Fields) (key : Text)
    → is_strcmp key m ≡ false
    → next_key ((m, t) ∷ fs) key ≡ next_key fs key
unfolding next_key
next_key-tail m t [] key d = refl
next_key-tail m t (f ∷ fs) key d = rw d

next_key-Differs :
    (m : Text) (fs : Fields) (key : Text) → IsAbsent m fs → Differs m (next_key fs key)
unfolding next_key
next_key-Differs m [] key a = tt
next_key-Differs m (f ∷ []) key a = tt
next_key-Differs m ((name, t) ∷ (name', t') ∷ fs) key a = elim (Bool-cases (is_strcmp key name)) [
  | inl same ↦ rw same (a.1.0)
  | inr other ↦ rw other (next_key-Differs m ((name', t') ∷ fs) key a.1)
]

walk-tail :
    (n : ℕ) (m : Text) (t : AffixType) (fs : Fields) (o : Option Text)
    → IsAbsent m fs
    → Differs m o
    → walk n ((m, t) ∷ fs) o ≡ walk n fs o
walk-tail zero m t fs o a d = refl
walk-tail (suc n) m t fs none a d = refl
walk-tail (suc n) m t fs (some key) a d =
    ap (λ o. key ∷ walk n ((m, t) ∷ fs) o) (next_key-tail m t fs key d)
    ∙ ap (λ ks. key ∷ ks) (walk-tail n m t fs (next_key fs key) a (next_key-Differs m fs key a))

next_key-here :
    (name : Text) (t : AffixType) (fs : Fields) → next_key ((name, t) ∷ fs) name ≡ first_key fs
unfolding next_key first_key
next_key-here name t [] = refl
next_key-here name t (f ∷ fs) = rw (is_strcmp_refl name)

walk-none : (n : ℕ) → walk n [] none ≡ []
walk-none zero = refl
walk-none (suc n) = refl

-- Where the field names are distinct up to their first zeros, FIRSTKEY and NEXTKEY give every name once, in the order of the
-- fields, and then end: more steps than there are fields change nothing.
pub walk-names :
    (fs : Fields) (extra : ℕ)
    → IsDistinct fs
    → walk (length fs + extra) fs (first_key fs) ≡ names fs
unfolding first_key
walk-names [] extra d = walk-none (0 + extra)
walk-names ((name, t) ∷ fs) extra d =
    ap (λ n. walk n ((name, t) ∷ fs) (some name)) (step (length fs) extra)
    ∙ ap (λ o. name ∷ walk (length fs + extra) ((name, t) ∷ fs) o) (next_key-here name t fs)
    ∙ ap (λ ks. name ∷ ks)
        (walk-tail (length fs + extra) name t fs (first_key fs) d.0 (first_key-Differs name fs d.0)
          ∙ walk-names fs extra d.1)
  where
    step : (n m : ℕ) → suc n + m ≡ suc (n + m)
    step n m = omega arith

-- The fields' own values.
abbrev pub values_at : {Sv : Type 0} → (AffixType → ℕ → Sv) → ℕ → Fields → List Sv
values_at get ptr [] = []
values_at get ptr ((name, t) ∷ fs) = get t (ptr + (slots t).offset) ∷ values_at get ptr fs

module _ {Sv : Type 0} (get : AffixType → ℕ → Sv) (undef : Sv) (ptr : ℕ) where
  fetch-tail :
      (m : Text) (t : AffixType) (fs gs : Fields)
      → IsAbsent m gs
      → map (fetch get undef ptr ((m, t) ∷ fs)) (names gs) ≡ map (fetch get undef ptr fs) (names gs)
  unfolding fetch
  fetch-tail m t fs [] a = refl
  fetch-tail m t fs ((name, u) ∷ gs) a = rw (a.0, fetch-tail m t fs gs a.1)

  -- Where the field names are distinct up to their first zeros, FETCH of the names in order reads each field with its own
  -- type at its own offset.
  pub fetch-names :
      (fs : Fields) → IsDistinct fs → map (fetch get undef ptr fs) (names fs) ≡ values_at get ptr fs
  unfolding fetch
  fetch-names [] d = refl
  fetch-names ((name, t) ∷ fs) d =
      rw (is_strcmp_refl name, fetch-tail name t fs fs d.0, fetch-names fs d.1)

  -- FETCH of a name for which EXISTS answers no is undef.
  fetch-missing :
      (fs : Fields) (key : Text) → exists fs key ≡ false → fetch get undef ptr fs key ≡ undef
  unfolding fetch exists
  fetch-missing [] key e = refl
  fetch-missing ((name, t) ∷ fs) key e = ground (arith, fetch-missing fs key)
