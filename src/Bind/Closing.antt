-- ===== src/Bind/Closing.antt =====
-- When the libraries that functions are bound to are open, and when they are closed.
use fiction.Prelude.{
  ℕ, ◌-◌, ◌≤◌, ◌≡◌, refl, ap, ◌∙◌, Bool, true, false, ◌&&◌, some, List, ◌∷◌, ◌++◌, ◌==◌, arith,
}
use fiction.Memory.{Fiction, Heap, ok}
use fiction.Env.{Env}
use fiction.Bind.{is_explicit_undef, open_library, bind}
use fiction.Bind.Lookup.{bind-resolves}
use fiction.Bind.Libraries.{
  opens_itself, affix_destroy, Refs, closed, Libraries, Steps, nothing, Steps-nothing-IsBalanced,
  holding-append, is_handle, holding,
}

module _ (E : Env) where
  open E use {Sv, object_addr, sv_isobject, sv_derived_from}

  -- However functions are bound to libraries that are named, or fail to be, and die, symbols are looked
  -- up, variables pinned and Affix objects made, and libraries are loaded and freed, where each object is freed at most once and no function is
  -- bound through one: the library of a function that lives is open, so that closing it when the
  -- function dies closes what is open.
  pub fiction-library_open :
      (s : Libraries E) (before : List (Fiction Sv)) (a : Fiction Sv) (rest : List (Fiction Sv))
      (lib : ℕ)
      → Steps E (nothing E) s
      → s.fictions ≡ before ++ (a ∷ rest)
      → a.lib ≡ some lib
      → 1 ≤ s.refs lib
  unfolding affix_destroy
  fiction-library_open s before a rest lib r e l =
      let itself : is_handle lib (some lib) ≡ 1 = ground arith in
      omega (
        arith,
        Steps-nothing-IsBalanced E s r lib,
        ap (holding E lib) e ∙ holding-append E lib before a rest,
        ap (is_handle lib) l,
        itself,
      )

  -- A function bound through an Affix::Lib object closes the object's library when it dies, although
  -- binding it opened no library: an object that holds the only reference is left with a closed one.
  pub bind-closes_object :
      (named : Bool) (lib symbol : Sv) (types : List Sv) (a : Fiction Sv) (sub : Sv)
      (h h' : Heap Sv) (refs : Refs)
      → opens_itself E lib ≡ false
      → bind E named lib symbol types h ≡ ok ((a, sub), h')
      → closed (affix_destroy E a) refs (object_addr lib) ≡ refs (object_addr lib) - 1
  unfolding opens_itself open_library affix_destroy closed
  bind-closes_object named lib symbol types a sub h h' refs o b =
      let r = bind-resolves E named lib symbol types a sub h h' b in
      let through : (is_explicit_undef E lib ≡ false)
          × ((sv_isobject lib && sv_derived_from lib "Affix::Lib") ≡ true) =
        ground arith in
      let held : a.lib ≡ some (object_addr lib) = ground (arith, r.1, r.2, through) in
      let itself : (object_addr lib == object_addr lib) ≡ true = ground arith in
      rw (held, closed, itself) refl
