-- ===== src/Bind/Libraries.antt =====
-- The libraries that lib/Affix.cxx opens and closes: `Affix_load_library`, `Affix_free_library`,
-- `Affix_fiction` and `Affix_DESTROY`.
use fiction.Prelude.{
  Text, ℕ, suc, ◌+◌, ◌-◌, ◌≡◌, refl, sym, ap, ◌∙◌, Bool, true, not, ◌&&◌, ◌||◌, Option, none, some,
  List, [], ◌∷◌, ◌++◌, ◌==◌, if◌then◌else◌, arith,
}
use fiction.Memory.{Fiction, Heap, ok, croak, Croak, plain, usage, M, pure, fail}
use fiction.Env.{Env}
use fiction.Bind.{is_explicit_undef, open_library, symbol_library, bind, non_null}
use fiction.Bind.Lookup.{bind-resolves}

module _ (E : Env) where
  open E use {Sv, sv_isobject, sv_derived_from, object_addr, deref}

  -- Whether `Affix_fiction` opens the library itself, where it is not handed an Affix::Lib object.
  unfoldable pub opens_itself : Sv → Bool
  opens_itself sv =
      is_explicit_undef E sv || not (sv_isobject sv && sv_derived_from sv "Affix::Lib")

  -- `Affix_free_library`: the handle that is closed, if it is not NULL.
  unfoldable pub affix_free_library : List Sv → M Sv (Option ℕ)
  affix_free_library (lib ∷ []) = elim (deref lib) [
    | none ↦ fail (plain "lib is not of type Affix::Lib")
    | some address ↦ pure (non_null (object_addr lib))
  ]
  affix_free_library _ = fail (usage "lib")

  -- `Affix_DESTROY` of a fiction: the handle that is closed.
  unfoldable pub affix_destroy : Fiction Sv → Option ℕ
  affix_destroy a = a.lib

-- What the loader holds: how often each handle is open, as `dlopen` and `dlclose` count.
abbrev pub Refs : Type 0
Refs = ℕ → ℕ

unfoldable pub opened : ℕ → Refs → Refs
opened lib refs x = if x == lib then suc (refs x) else refs x

unfoldable pub closed : Option ℕ → Refs → Refs
closed none refs x = refs x
closed (some lib) refs x = if x == lib then refs x - 1 else refs x

abbrev pub is_handle : ℕ → Option ℕ → ℕ
is_handle x none = 0
is_handle x (some lib) = if x == lib then 1 else 0

module _ (E : Env) where
  open E use {Sv, load_library, sv_pv}

  -- The open libraries, the functions bound, the handles behind the objects that were loaded and not yet
  -- freed, and those that are open though neither a function nor an object keeps them.
  pub record Libraries : Type 0 where
    pub refs : Refs
    pub fictions : List (Fiction Sv)
    pub objects : List ℕ
    pub lost : List ℕ

  abbrev pub holding : ℕ → List (Fiction Sv) → ℕ
  holding x [] = 0
  holding x (a ∷ as_) = is_handle x (affix_destroy E a) + holding x as_

  abbrev pub occurrences : ℕ → List ℕ → ℕ
  occurrences x [] = 0
  occurrences x (l ∷ ls) = is_handle x (some l) + occurrences x ls

  -- A function is bound to a library that is named, or dies; an object is loaded, or freed; a binding
  -- croaks once its library is open, or a symbol is looked up or a variable pinned in a library that is
  -- named, or an Affix object is made (of lib/Affix.cxx and pin.cxx, only `Affix_free_library` and
  -- `Affix_DESTROY` close a library), which nothing closes then. Each may happen at any time, and in any order. The code lets an object that was freed be
  -- freed again, and functions be bound through an object: these are no steps here.
  pub data Step (s : Libraries) : Libraries → Type 0 where
    bound :
        (named : Bool) (lib symbol : Sv) (types : List Sv) (a : Fiction Sv) (sub : Sv)
        (h h' : Heap Sv) (handle : ℕ)
        → opens_itself E lib ≡ true
        → bind E named lib symbol types h ≡ ok ((a, sub), h')
        → open_library E lib ≡ some handle
        → Step s (record s { refs = opened handle s.refs; fictions = a ∷ s.fictions })
    bind_failed :
        (named : Bool) (lib symbol : Sv) (types : List Sv) (e : Croak) (h : Heap Sv) (handle : ℕ)
        → opens_itself E lib ≡ true
        → bind E named lib symbol types h ≡ croak e
        → open_library E lib ≡ some handle
        → Step s (record s { refs = opened handle s.refs; lost = handle ∷ s.lost })
    looked_up :
        (lib : Sv) (handle : ℕ)
        → opens_itself E lib ≡ true
        → symbol_library E lib ≡ some handle
        → Step s (record s { refs = opened handle s.refs; lost = handle ∷ s.lost })
    pinned :
        (lib : Sv) (handle : ℕ)
        → opens_itself E lib ≡ true
        → open_library E lib ≡ some handle
        → Step s (record s { refs = opened handle s.refs; lost = handle ∷ s.lost })
    affixed :
        (name : Option Text) (handle : ℕ)
        → load_library name ≡ some handle
        → Step s (record s { refs = opened handle s.refs; lost = handle ∷ s.lost })
    died :
        (before : List (Fiction Sv)) (a : Fiction Sv) (rest : List (Fiction Sv))
        → s.fictions ≡ before ++ (a ∷ rest)
        → Step s (record s { refs = closed (affix_destroy E a) s.refs; fictions = before ++ rest })
    loaded :
        (name : Option Text) (handle : ℕ)
        → load_library name ≡ some handle
        → Step s (record s { refs = opened handle s.refs; objects = handle ∷ s.objects })
    freed :
        (before : List ℕ) (handle : ℕ) (rest : List ℕ)
        → s.objects ≡ before ++ (handle ∷ rest)
        → Step s (record s { refs = closed (some handle) s.refs; objects = before ++ rest })

  -- Each handle is open once for every function and every object that holds it, and every time it was lost.
  abbrev pub IsBalanced : Libraries → Type 0
  IsBalanced s =
      (x : ℕ) → s.refs x ≡ holding x s.fictions + occurrences x s.objects + occurrences x s.lost

  pub holding-append :
      (x : ℕ) (before : List (Fiction Sv)) (a : Fiction Sv) (rest : List (Fiction Sv))
      → holding x (before ++ (a ∷ rest))
        ≡ is_handle x (affix_destroy E a) + holding x (before ++ rest)
  holding-append x [] a rest = refl
  holding-append x (b ∷ before) a rest = omega (arith, holding-append x before a rest)

  occurrences-append :
      (x : ℕ) (before : List ℕ) (a : ℕ) (rest : List ℕ)
      → occurrences x (before ++ (a ∷ rest)) ≡ is_handle x (some a) + occurrences x (before ++ rest)
  occurrences-append x [] a rest = refl
  occurrences-append x (b ∷ before) a rest = omega (arith, occurrences-append x before a rest)

  opened-is_handle : (x lib : ℕ) (refs : Refs) → opened lib refs x ≡ is_handle x (some lib) + refs x
  unfolding opened
  opened-is_handle x lib refs = ground arith

  closed-is_handle :
      (x : ℕ) (lib : Option ℕ) (refs : Refs) → closed lib refs x ≡ refs x - is_handle x lib
  unfolding closed
  closed-is_handle x none refs = omega arith
  closed-is_handle x (some lib) refs = ground arith

  Step-IsBalanced : (s t : Libraries) → Step s t → IsBalanced s → IsBalanced t
  unfolding affix_destroy
  Step-IsBalanced s t (bound named lib symbol types a sub h h' handle itself b o) balanced = λ x.
      let r = bind-resolves E named lib symbol types a sub h h' b in
      let held : a.lib ≡ some handle = r.2 ∙ sym r.1 ∙ o in
      omega (arith, opened-is_handle x handle s.refs, balanced x, ap (is_handle x) held)
  Step-IsBalanced s t (bind_failed named lib symbol types e h handle itself b o) balanced =
      λ x. omega (arith, opened-is_handle x handle s.refs, balanced x)
  Step-IsBalanced s t (looked_up lib handle itself o) balanced =
      λ x. omega (arith, opened-is_handle x handle s.refs, balanced x)
  Step-IsBalanced s t (pinned lib handle itself o) balanced =
      λ x. omega (arith, opened-is_handle x handle s.refs, balanced x)
  Step-IsBalanced s t (affixed name handle o) balanced =
      λ x. omega (arith, opened-is_handle x handle s.refs, balanced x)
  Step-IsBalanced s t (died before a rest e) balanced = λ x. omega (
    arith,
    closed-is_handle x (affix_destroy E a) s.refs,
    balanced x,
    ap (holding x) e ∙ holding-append x before a rest,
  )
  Step-IsBalanced s t (loaded name handle e) balanced =
      λ x. omega (arith, opened-is_handle x handle s.refs, balanced x)
  Step-IsBalanced s t (freed before handle rest e) balanced = λ x. omega (
    arith,
    closed-is_handle x (some handle) s.refs,
    balanced x,
    ap (occurrences x) e ∙ occurrences-append x before handle rest,
  )

  pub data Steps (s : Libraries) : Libraries → Type 0 where
    here : Steps s s
    next : {t u : Libraries} → Steps s t → Step t u → Steps s u

  pub Steps-IsBalanced : (s t : Libraries) → Steps s t → IsBalanced s → IsBalanced t
  Steps-IsBalanced s t here b = b
  Steps-IsBalanced s u (next {t = m} r step) b = Step-IsBalanced m u step (Steps-IsBalanced s m r b)

  -- Nothing is bound, loaded or open.
  abbrev pub nothing : Libraries
  nothing = record { refs = λ x. 0; fictions = []; objects = []; lost = [] }

  pub Steps-nothing-IsBalanced : (s : Libraries) → Steps nothing s → IsBalanced s
  Steps-nothing-IsBalanced s r = Steps-IsBalanced nothing s r (λ x. refl)
