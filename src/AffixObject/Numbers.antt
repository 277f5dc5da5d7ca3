-- ===== src/AffixObject/Numbers.antt =====
-- The two calls of lib/Affix.cxx, `Affix_trigger` and `Fiction_trigger`, hand over numbers alike.
use fiction.Prelude.{
  ℕ, suc, ◌+◌, ◌%◌, ◌^◌, ◌≡◌, refl, sym, ap, ◌∙◌, Bool, true, false, ◌&&◌, Bool-cases, inl, inr,
  Option, none, some, List, [], ◌∷◌, ◌++◌, ltb, if◌then◌else◌, length, length-append, get_elem?,
  arith, String,
}
use mathlib.Core.List.{append-nil, append_assoc}
use fiction.Flags.{
  Flag, void_flag, bool_flag, schar_flag, char_flag, uchar_flag, short_flag, ushort_flag, int_flag,
  uint_flag, long_flag, ulong_flag, longlong_flag, ulonglong_flag, float_flag, double_flag, other,
}
use fiction.Types.{AffixType, TypeList, nil, cons, slots, count, signature_of}
use fiction.Memory.{Heap, ok, warn, M, pure, ◌>>=◌}
use fiction.Memory.Runs.{bind_ok}
use fiction.Call.{CallArg, arg_char}
use fiction.Env.{Env}
use fiction.Trigger.Args.{first_byte, char_arg, trigger_arg, trigger_args, add}
use fiction.AffixObject.{Affix, convention_of}
use fiction.AffixObject.Args.{Loop, affix_arg, affix_step, affix_loop, is_void}

-- The flags of C's numbers and characters that both calls know, all but wchar_t.
abbrev pub is_number : Flag → Bool
is_number bool_flag = true
is_number schar_flag = true
is_number char_flag = true
is_number uchar_flag = true
is_number short_flag = true
is_number ushort_flag = true
is_number int_flag = true
is_number uint_flag = true
is_number long_flag = true
is_number ulong_flag = true
is_number longlong_flag = true
is_number ulonglong_flag = true
is_number float_flag = true
is_number double_flag = true
is_number _ = false

abbrev pub are_numbers : TypeList → Bool
are_numbers nil = true
are_numbers (cons t ts) = is_number (slots t).numeric && are_numbers ts

-- The argument types as an Affix holds them.
abbrev pub typed : TypeList → List (Flag × AffixType)
typed nil = []
typed (cons t ts) = ((slots t).numeric, t) ∷ typed ts

module _ (E : Env) where
  open E use {Sv, sv_iok, sv_iv, sv_pvbyte}

  -- char_arg hands the same over whatever the heap.
  abbrev char_value : Sv → CallArg
  char_value sv =
      if sv_iok sv then arg_char (sv_iv sv % 2 ^ 8) else arg_char (first_byte (sv_pvbyte sv))

  char_arg-value :
      (w : String) (sv : Sv) (h : Heap Sv)
      → (h' : Heap Sv) × (char_arg E w sv h ≡ ok (char_value sv, h'))
  unfolding char_arg warn
  char_arg-value w sv h = elim (Bool-cases (sv_iok sv)) [
    | inl number ↦ (h, rw number refl)
    | inr text ↦ elim (Bool-cases (ltb 1 (length (sv_pvbyte sv)))) [
      | inl long ↦ (record h { warnings = w ∷ h.warnings }, rw (text, long) refl)
      | inr short ↦ (h, rw (text, short) refl)
    ]
  ]

  abbrev Agrees :
      (a : Affix) (i j : ℕ) → Flag → AffixType → Sv → (h' g : Heap Sv) → Option CallArg → Type 0
  Agrees a i j f t sv h' g o =
      (c : CallArg) × (g' : Heap Sv) × (o ≡ some c)
      × (affix_arg E a i j f t sv g ≡ ok ((c, none), g'))

  abbrev unkept : CallArg → M Sv (CallArg × Option ℕ)
  unkept c = pure (c, none)

  char_arg-agrees :
      (a : Affix) (w : String) (sv : Sv) (h h' g : Heap Sv) (o : Option CallArg)
      → (char_arg E w sv >>= λ c. pure (some c)) h ≡ ok (o, h')
      → (c : CallArg) × (g' : Heap Sv) × (o ≡ some c)
        × ((char_arg E w sv >>= unkept) g ≡ ok ((c, none), g'))
  char_arg-agrees a w sv h h' g o e =
      let here = char_arg-value w sv h in
      let there = char_arg-value w sv g in
      (char_value sv, there.0, ground (arith, here.1), rw (◌>>=◌, there.1) refl)

  arg-Agrees :
      (a : Affix) (i j : ℕ) (f : Flag) (t : AffixType) (sv : Sv) (h h' g : Heap Sv)
      (o : Option CallArg)
      → is_number f ≡ true
      → trigger_arg E f t sv h ≡ ok (o, h')
      → Agrees a i j f t sv h' g o
  unfolding trigger_arg affix_arg
  arg-Agrees a i j bool_flag t sv h h' g o n e = (_, g, ground arith, refl)
  arg-Agrees a i j short_flag t sv h h' g o n e = (_, g, ground arith, refl)
  arg-Agrees a i j ushort_flag t sv h h' g o n e = (_, g, ground arith, refl)
  arg-Agrees a i j int_flag t sv h h' g o n e = (_, g, ground arith, refl)
  arg-Agrees a i j uint_flag t sv h h' g o n e = (_, g, ground arith, refl)
  arg-Agrees a i j long_flag t sv h h' g o n e = (_, g, ground arith, refl)
  arg-Agrees a i j ulong_flag t sv h h' g o n e = (_, g, ground arith, refl)
  arg-Agrees a i j longlong_flag t sv h h' g o n e = (_, g, ground arith, refl)
  arg-Agrees a i j ulonglong_flag t sv h h' g o n e = (_, g, ground arith, refl)
  arg-Agrees a i j float_flag t sv h h' g o n e = (_, g, ground arith, refl)
  arg-Agrees a i j double_flag t sv h h' g o n e = (_, g, ground arith, refl)
  arg-Agrees a i j schar_flag t sv h h' g o n e =
      char_arg-agrees a "Expected a single character; found %ld" sv h h' g o e
  arg-Agrees a i j char_flag t sv h h' g o n e =
      char_arg-agrees a "Expected a single character; found %ld" sv h h' g o e
  arg-Agrees a i j uchar_flag t sv h h' g o n e =
      char_arg-agrees a "Expected a single unsigned character; found %ld" sv h h' g o e
  arg-Agrees a i j _ t sv h h' g o n e = absurd (cc)

  get_elem-append :
      (before : List Sv) (sv : Sv) (rest : List Sv)
      → get_elem? (before ++ (sv ∷ rest)) (length before) ≡ some sv
  get_elem-append [] sv rest = refl
  get_elem-append (b ∷ bs) sv rest = get_elem-append bs sv rest

  number-typed : (f : Flag) → is_number f ≡ true → (convention_of f ≡ none) × (is_void f ≡ false)
  unfolding convention_of is_void
  number-typed (other n) e = absurd (cc)
  number-typed void_flag e = absurd (cc)
  number-typed _ e = (refl, refl)

  -- The arguments `args` handed over, one for each of the `n` scalars.
  abbrev pub advance : Loop → List CallArg → ℕ → Loop
  advance l args n = record l { handed = l.handed ++ args; st_pos = l.st_pos + n }

  advance-eq :
      (l : Loop) (cs ds : List CallArg) (n m : ℕ)
      → l.handed ++ cs ≡ ds
      → l.st_pos + n ≡ m
      → advance l cs n ≡ record l { handed = ds; st_pos = m }
  advance-eq l cs ds n m p q = rw (p, q) refl

  advance-none : (l : Loop) → advance l [] 0 ≡ l
  advance-none l = advance-eq l [] l.handed 0 l.st_pos (append-nil l.handed) (omega arith)

  advance-advance :
      (l : Loop) (c : CallArg) (cs : List CallArg) (n : ℕ)
      → advance (advance l (c ∷ []) 1) cs n ≡ advance l (c ∷ cs) (suc n)
  advance-advance l c cs n =
      advance-eq (advance l (c ∷ []) 1) cs (l.handed ++ (c ∷ cs)) n (l.st_pos + suc n)
        (append_assoc l.handed (c ∷ []) cs) (omega arith)

  step-agrees :
      (a : Affix) (svs : List Sv) (sv : Sv) (j : ℕ) (f : Flag) (t : AffixType) (l : Loop)
      (h h' g : Heap Sv) (o : Option CallArg)
      → is_number f ≡ true
      → get_elem? svs l.st_pos ≡ some sv
      → trigger_arg E f t sv h ≡ ok (o, h')
      → (c : CallArg) × (g' : Heap Sv) × (o ≡ some c)
        × (affix_step E a svs j f t l g ≡ ok (advance l (c ∷ []) 1, g'))
  unfolding affix_step
  step-agrees a svs sv j f t l h h' g o n found e =
      let one = arg-Agrees a l.st_pos j f t sv h h' g o n e in
      let flags = number-typed f n in
      (one.0, one.1, one.2, rw (affix_step, flags.0, flags.1, found, ◌>>=◌, one.3) refl)

  -- One round of the loop, and the rounds behind it.
  loop-more :
      (a : Affix) (svs : List Sv) (j : ℕ) (t : AffixType) (ts : TypeList) (l : Loop)
      (g g₁ g₂ : Heap Sv) (c : CallArg) (cs args : List CallArg)
      → ltb l.st_pos a.num_args ≡ true
      → affix_step E a svs j
          (slots t).numeric
          t
          l
          (record g { warnings = "!!! affix->arg_types[arg_pos] == %d" ∷ g.warnings })
        ≡ ok (advance l (c ∷ []) 1, g₁)
      → affix_loop E a svs (suc j) (typed ts) (advance l (c ∷ []) 1) g₁
        ≡ ok (advance (advance l (c ∷ []) 1) cs (count ts), g₂)
      → args ≡ c ∷ cs
      → affix_loop E a svs j (typed (cons t ts)) l g ≡ ok (advance l args (suc (count ts)), g₂)
  unfolding affix_loop warn
  loop-more a svs j t ts l g g₁ g₂ c cs args going step behind e =
      rw (going, ◌>>=◌, step, e) (behind ∙ ap (λ x. ok (x, g₂)) (advance-advance l c cs (count ts)))

  pub numbers-agree :
      (a : Affix) (ts : TypeList) (svs before rest : List Sv) (j : ℕ) (l : Loop) (h h' g : Heap Sv)
      (args : List CallArg)
      → are_numbers ts ≡ true
      → a.num_args ≡ l.st_pos + count ts
      → svs ≡ before ++ rest
      → l.st_pos ≡ length before
      → trigger_args E (signature_of ts) ts rest h ≡ ok (args, h')
      → (g' : Heap Sv) × (affix_loop E a svs j (typed ts) l g ≡ ok (advance l args (count ts), g'))
  unfolding affix_loop trigger_args signature_of count
  numbers-agree a nil svs before rest j l h h' g args n c q p e =
      let none_left : args ≡ [] = ground arith in
      let at_end : ltb l.st_pos a.num_args ≡ false = ground (arith, c) in
      (g, rw (none_left, at_end, advance-none l) refl)
  numbers-agree a (cons t ts) svs before [] j l h h' g args n c q p e = absurd (ground arith)
  numbers-agree a (cons t ts) svs before (sv ∷ rest) j l h h' g args n c q p e =
      let numbers : (is_number (slots t).numeric ≡ true) × (are_numbers ts ≡ true) = ground arith in
      let one =
        bind_ok (trigger_arg E (slots t).numeric t sv)
          (λ o. trigger_args E (signature_of ts) ts rest >>= λ cs. pure (add E o cs)) h e in
      let others =
        bind_ok (trigger_args E (signature_of ts) ts rest) (λ cs. pure (add E one.0 cs)) one.1
          one.3 in
      let g₁ = record g { warnings = "!!! affix->arg_types[arg_pos] == %d" ∷ g.warnings } in
      let found : get_elem? svs l.st_pos ≡ some sv = rw (q, p) (get_elem-append before sv rest) in
      let step =
        step-agrees a svs sv j (slots t).numeric t l h one.1 g₁ one.0 numbers.0 found one.2 in
      let behind =
        numbers-agree a ts svs (before ++ (sv ∷ [])) rest (suc j) (advance l (step.0 ∷ []) 1) one.1
          others.1 step.1 others.0 numbers.1 (omega (arith, c))
          (q ∙ sym (append_assoc before (sv ∷ []) rest))
          (omega (arith, length-append before (sv ∷ []), p)) others.2 in
      let handed : args ≡ step.0 ∷ others.0 = ground (arith, others.3, step.2) in
      let going : ltb l.st_pos a.num_args ≡ true = ground (arith, c) in
      (
        behind.0,
        loop-more a svs j t ts l g step.1 behind.0 step.0 others.0 args going step.3 behind.1
            handed,
      )
