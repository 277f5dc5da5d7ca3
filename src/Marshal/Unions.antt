-- ===== src/Marshal/Unions.antt =====
-- Which members a union needs.
use fiction.Prelude.{
  ℕ, ◌≡◌, ◌∙◌, ◌⊎◌, inl, inr, Bool, true, false, Option, some, Option-cases, arith, Text,
  if◌then◌else◌,
}
use fiction.Flags.{union_flag}
use fiction.Types.{affix_type, TypeList, nil, cons, Slots, slots}
use fiction.Memory.{Heap, ok, plain, fail, M, pure, ◌>>=◌}
use fiction.Memory.Runs.{bind_ok}
use fiction.Env.{Env}
use fiction.Marshal.Cases.{put_member}
use fiction.Marshal.{sv2ptr, put_members}
use fiction.Marshal.Numbers.{place, ready, provide_lem}

module _ (E : Env) where
  open E use {Sv, sv_ok, hash_of}

  -- The hash has an entry under the name of the type.
  abbrev pub IsPresent : Slots → (Text → Option Sv) → Type 0
  IsPresent s hv = (name : Text) × (sv : Sv) × (s.field ≡ some name) × (hv name ≡ some sv)

  -- Some member of the list has an entry in the hash.
  abbrev pub HasMember : TypeList → (Text → Option Sv) → Type 0
  HasMember nil hv = ⊥
  HasMember (cons t ts) hv = IsPresent (slots t) hv ⊎ HasMember ts hv

  put_member-found :
      (s : Slots) (put : Sv → ℕ → M Sv ℕ) (hv : Text → Option Sv) (ret : ℕ) (okay found : Bool)
      (h h' : Heap Sv)
      → put_member E s put hv ret okay h ≡ ok (found, h')
      → IsPresent s hv ⊎ (found ≡ okay)
  unfolding put_member
  put_member-found s put hv ret okay found h h' e = elim (Option-cases s.field) [
    | inl unnamed ↦ absurd (ground arith)
    | inr (name, named) ↦ elim (Option-cases (hv name)) [
      | inl missing ↦ inr (ground arith)
      | inr (sv, present) ↦ inl (name, sv, named, present)
    ]
  ]

  put_members-found :
      (ts : TypeList) (hv : Text → Option Sv) (ret : ℕ) (okay found : Bool) (h h' : Heap Sv)
      → put_members E ts hv ret okay h ≡ ok (found, h')
      → HasMember ts hv ⊎ (found ≡ okay)
  unfolding put_members
  put_members-found nil hv ret okay found h h' e = inr (ground arith)
  put_members-found (cons t ts) hv ret okay found h h' e =
      let step =
        bind_ok (put_member E (slots t) (sv2ptr E t) hv ret okay) (λ b. put_members E ts hv ret b) h
          e in
      elim (put_members-found ts hv ret step.0 found step.1 h' step.3) [
        | inl later ↦ inl (inr later)
        | inr same ↦
            elim (put_member-found (slots t) (sv2ptr E t) hv ret okay step.0 h step.1 step.2) [
              | inl here ↦ inl (inl here)
              | inr kept ↦ inr (same ∙ kept)
            ]
      ]

  -- `put_union` after the loop
  abbrev finish : ℕ → Bool → M Sv ℕ
  finish a okay =
      if okay then pure a else fail (plain "Malformed Union[...] field; missing defined field")

  finish-okay :
      (a b : ℕ) (okay : Bool) (h h' : Heap Sv) → finish a okay h ≡ ok (b, h') → okay ≡ true
  finish-okay a b okay h h' e = ground arith

  -- If `sv2ptr` marshals a hash into a union type, of members of whatever types, then the hash has an
  -- entry for some member: with none it does not return.
  pub union_needs_member :
      (s : Slots) (ts args : TypeList) (sv : Sv) (hv : Text → Option Sv) (ret a : ℕ)
      (h h' : Heap Sv)
      → s.numeric ≡ union_flag
      → sv_ok sv ≡ true
      → hash_of sv ≡ some hv
      → sv2ptr E (affix_type s ts args) sv ret h ≡ ok (a, h')
      → HasMember ts hv
  unfolding sv2ptr
  union_needs_member s ts args sv hv ret a h h' e o k r =
      let start = ready E ret s.sizeof h in
      let at = place E ret s.sizeof h in
      let ran : (put_members E ts hv at false >>= finish at) start ≡ ok (a, h') =
        ground (arith, provide_lem E ret s.sizeof h) in
      let loop = bind_ok (put_members E ts hv at false) (finish at) start ran in
      elim (put_members-found ts hv at false loop.0 start loop.1 loop.2) [
        | inl found ↦ found
        | inr same ↦ absurd (ground (arith, finish-okay at a loop.0 loop.1 h' loop.3))
      ]
