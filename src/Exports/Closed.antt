-- ===== src/Exports/Closed.antt =====
-- What is exported is defined.
use fiction.Prelude.{
  ◌&&◌, ◌||◌, ◌≡◌, refl, ap, ◌⊎◌, inl, inr, String, Bool, true, false, Bool-cases, is_some, List,
  [], ◌∷◌, ◌++◌, if◌then◌else◌, arith,
}
use text.Mathlib.Text.{◌==◌}
use text.Mathlib.TextEquality.{eq_iff}
use fiction.Exports.{
  nv, Sub, constant, xsub, Tag, array, no_array, Symbols, same, find_sub, exported, push_tag,
  define, Registration, new_xs, new_constant, new_export, new_constant_export, new_isa,
  register_one, register_all, export_function, export_constant, set_isa,
}
use fiction.Exports.Boot.{booting, boot}

abbrev pub contains : String → List String → Bool
contains n [] = false
contains n (m ∷ names) = n == m || contains n names

abbrev pub is_defined : (pkg name : String) → Symbols → Bool
is_defined p n s = is_some (find_sub p n s.subs)

-- the names that a row of registrations has defined so far
abbrev has : (pkg name : String) → List (String × String) → Bool
has p n [] = false
has p n ((q, m) ∷ seen) = same p n q m || has p n seen

-- Each exported function is defined before.
unfoldable closed : List (String × String) → List Registration → Bool
closed seen [] = true
closed seen (new_xs p n f t ∷ rs) = closed ((p, n) ∷ seen) rs
closed seen (new_constant p n v ∷ rs) = closed ((p, n) ∷ seen) rs
closed seen (new_export p what t ∷ rs) = has p what seen && closed seen rs
closed seen (new_constant_export p n t v ∷ rs) = closed ((p, n) ∷ seen) rs
closed seen (new_isa k parent ∷ rs) = closed seen rs

same_eq : (p n q m : String) → same p n q m ≡ true → (p ≡ q) × (n ≡ m)
same_eq p n q m h = (ground (arith, eq_iff p q), ground (arith, eq_iff n m))

pub contains-append :
    (n what : String) (names : List String)
    → contains n (names ++ (what ∷ [])) ≡ contains n names || n == what
contains-append n what [] = ground arith
contains-append n what (m ∷ names) = ground (arith, contains-append n what names)

pub exported-push_tag :
    (p t q u what : String) (tags : List (String × String × Tag))
    → exported p t (push_tag q u what tags)
      ≡ (if same p t q u then exported p t tags ++ (what ∷ []) else exported p t tags)
unfolding push_tag exported
exported-push_tag p t q u what [] = ground arith
exported-push_tag p t q u what ((r, v, array names) ∷ rest) = ground (
  arith,
  eq_iff p q,
  eq_iff t u,
  eq_iff p r,
  eq_iff t v,
  eq_iff q r,
  eq_iff u v,
  exported-push_tag p t q u what rest,
)
exported-push_tag p t q u what ((r, v, no_array) ∷ rest) = ground (
  arith,
  eq_iff p q,
  eq_iff t u,
  eq_iff p r,
  eq_iff t v,
  eq_iff q r,
  eq_iff u v,
  exported-push_tag p t q u what rest,
)

contains-push_tag :
    (p t n q u what : String) (tags : List (String × String × Tag))
    → contains n (exported p t (push_tag q u what tags)) ≡ true
    → (contains n (exported p t tags) ≡ true) ⊎ ((p ≡ q) × (n ≡ what))
contains-push_tag p t n q u what tags h =
    let e = ap (contains n) (exported-push_tag p t q u what tags) in
    elim (Bool-cases (same p t q u)) [
      | inl this ↦ elim (Bool-cases (contains n (exported p t tags))) [
        | inl old ↦ inl old
        | inr new ↦
            let added = contains-append n what (exported p t tags) in
            inr ((same_eq p t q u this).0, ground (arith, e, this, h, new, added, eq_iff n what))
      ]
      | inr another ↦ inl (ground (arith, e, another, h))
    ]

is_defined-define :
    (p n q m : String) (v : Sub) (s : Symbols)
    → is_defined p n s ≡ true
    → is_defined p n (define q m v s) ≡ true
unfolding find_sub
is_defined-define p n q m v s h = ground arith

is_defined-register_one :
    (p n : String) (r : Registration) (s : Symbols)
    → is_defined p n s ≡ true
    → is_defined p n (register_one r s) ≡ true
unfolding register_one export_function export_constant set_isa
is_defined-register_one p n (new_xs q m f t) s h = is_defined-define p n q m _ s h
is_defined-register_one p n (new_constant q m v) s h = is_defined-define p n q m _ s h
is_defined-register_one p n (new_export q what t) s h = h
is_defined-register_one p n (new_constant_export q m t v) s h = is_defined-define p n q m _ s h
is_defined-register_one p n (new_isa k parent) s h = h

is_defined-register_all :
    (p n : String) (rs : List Registration) (s : Symbols)
    → is_defined p n s ≡ true
    → is_defined p n (register_all rs s) ≡ true
unfolding register_all
is_defined-register_all p n [] s h = h
is_defined-register_all p n (r ∷ rs) s h =
    is_defined-register_all p n rs (register_one r s) (is_defined-register_one p n r s h)

is_defined-defined : (p n : String) (v : Sub) (s : Symbols) → is_defined p n (define p n v s) ≡ true
unfolding find_sub
is_defined-defined p n v s = ground (arith, eq_iff p p, eq_iff n n)

-- what a row of registrations has defined is defined
abbrev Seen : List (String × String) → Symbols → Type 0
Seen seen s = (p n : String) → has p n seen ≡ true → is_defined p n s ≡ true

Seen-define :
    (q m : String) (v : Sub) (seen : List (String × String)) (s : Symbols)
    → Seen seen s
    → Seen ((q, m) ∷ seen) (define q m v s)
Seen-define q m v seen s old p n h = elim (Bool-cases (same p n q m)) [
  | inl this ↦ let (e, e') = same_eq p n q m this in rw (e, e') (is_defined-defined q m v s)
  | inr another ↦ is_defined-define p n q m v s (old p n (ground (arith, h, another)))
]

-- The names behind a row that is closed were there before it, or are defined behind it.
Accounted : Symbols → Symbols → Type 0
Accounted s s' =
    (p t n : String)
    → contains n (exported p t s'.export_tags) ≡ true
    → (contains n (exported p t s.export_tags) ≡ true) ⊎ (is_defined p n s' ≡ true)

after :
    (r : Registration) (rs : List Registration) (s : Symbols)
    → ((p t n : String)
        → contains n (exported p t (register_one r s).export_tags) ≡ true
        → (contains n (exported p t s.export_tags) ≡ true)
          ⊎ (is_defined p n (register_one r s) ≡ true))
    → Accounted (register_one r s) (register_all (r ∷ rs) s)
    → Accounted s (register_all (r ∷ rs) s)
unfolding Accounted register_all
after r rs s step later p t n h = elim (later p t n h) [
  | inr defined ↦ inr defined
  | inl there ↦ elim (step p t n there) [
    | inl before ↦ inl before
    | inr defined ↦ inr (is_defined-register_all p n rs (register_one r s) defined)
  ]
]

same-defined :
    (p n q m : String) (v : Sub) (s : Symbols)
    → (p ≡ q) × (n ≡ m)
    → is_defined p n (define q m v s) ≡ true
same-defined p n q m v s e = rw (e.0, e.1) (is_defined-defined q m v s)

register_all-Accounted :
    (rs : List Registration) (seen : List (String × String)) (s : Symbols)
    → Seen seen s
    → closed seen rs ≡ true
    → Accounted s (register_all rs s)
unfolding closed register_one register_all export_function export_constant set_isa Accounted
register_all-Accounted [] seen s old c = λ p t n h. inl h
register_all-Accounted (new_xs q m f t ∷ rs) seen s old c =
    after (new_xs q m f t) rs s (λ p u n h. inl h)
      (register_all-Accounted rs ((q, m) ∷ seen) (define q m (xsub f t) s)
        (Seen-define q m (xsub f t) seen s old) c)
register_all-Accounted (new_constant q m v ∷ rs) seen s old c =
    after (new_constant q m v) rs s (λ p u n h. inl h)
      (register_all-Accounted rs ((q, m) ∷ seen) (define q m (constant v) s)
        (Seen-define q m (constant v) seen s old) c)
register_all-Accounted (new_export q what t ∷ rs) seen s old c =
    after (new_export q what t) rs s
      (λ p u n h. elim (contains-push_tag p u n q t what s.export_tags h) [
        | inl before ↦ inl before
        | inr (e, e') ↦ inr (rw (e, e') (old q what (ground (arith, c))))
      ])
      (register_all-Accounted rs seen (export_function q what t s) old (ground (arith, c)))
register_all-Accounted (new_constant_export q m t v ∷ rs) seen s old c =
    after (new_constant_export q m t v) rs s
      (λ p u n h. elim (contains-push_tag p u n q t m s.export_tags h) [
        | inl before ↦ inl before
        | inr e ↦ inr (same-defined p n q m (constant (nv v)) s e)
      ])
      (register_all-Accounted rs ((q, m) ∷ seen) (export_constant q m t v s)
        (Seen-define q m (constant (nv v)) seen s old) c)
register_all-Accounted (new_isa k parent ∷ rs) seen s old c =
    after (new_isa k parent) rs s (λ p u n h. inl h)
      (register_all-Accounted rs seen (set_isa k parent s) old c)

-- Whatever the symbol table holds before: each name that booting adds to an export tag of a package is a
-- function or a constant of that package behind it.
pub boot-is_defined :
    (s : Symbols) (p t n : String)
    → contains n (exported p t (boot s).export_tags) ≡ true
    → (contains n (exported p t s.export_tags) ≡ true) ⊎ (is_defined p n (boot s) ≡ true)
unfolding boot Accounted closed
boot-is_defined s = register_all-Accounted booting [] s (λ p n h. ground (arith, h)) refl
