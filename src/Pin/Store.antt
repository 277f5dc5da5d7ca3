-- ===== src/Pin/Store.antt =====
-- Variables pinned to distinct C variables of integer types, as a store: any sequence of assignments.
use fiction.Prelude.{
  ℕ, ◌+◌, ◌^◌, ◌<◌, ◌≤◌, ◌≡◌, ◌≢◌, refl, ap, ◌∙◌, ◌⊎◌, inl, inr, arith, true, Bool-cases, List, [],
  ◌∷◌, ◌==◌, ==_iff, if◌then◌else◌,
}
use fiction.Flags.{Flag}
use fiction.Types.{affix_type, nil, Slots}
use fiction.Memory.{
  Heap, ok, M, pure, ◌>>=◌, ◌>>◌, encode, decode, read_bytes, write_bytes, zeros, peek,
}
use fiction.Memory.Bytes.{length-encode, length-zeros, read-write_disjoint}
use fiction.Env.{Env, sizeof}
use fiction.Marshal.Numbers.{IsInteger, wrap, taken, given, ptr2sv-integer, read-encode}
use fiction.Pin.{VarPtr, get_pin, set_pin}
use fiction.Pin.RoundTrip.{assigned, set_pin-assigned}

-- The variables, by number: the C type and the address of each.
pub record Vars : Type 0 where
  pub flag : ℕ → Flag
  pub slots : ℕ → Slots
  pub addr : ℕ → ℕ

abbrev pub size_of : Vars → ℕ → ℕ
size_of vs k = sizeof (vs.flag k)

abbrev pub var_ptr : Vars → ℕ → VarPtr
var_ptr vs k = record { ptr = vs.addr k; type_sv = affix_type (vs.slots k) nil nil }

-- `n` bytes at `a` and `m` bytes at `b` have no byte in common.
abbrev pub IsApart : (a n b m : ℕ) → Type 0
IsApart a n b m = (a + n ≤ b) ⊎ (b + m ≤ a)

-- The first `n` variables are of integer types, none is at NULL, and no two overlap.
pub record IsStore (vs : Vars) (n : ℕ) : Type 0 where
  pub integer : (k : ℕ) → k < n → IsInteger (vs.flag k)
  pub typed : (k : ℕ) → k < n → (vs.slots k).numeric ≡ vs.flag k
  pub sized : (k : ℕ) → k < n → (vs.slots k).sizeof ≡ size_of vs k
  pub no_null : (k : ℕ) → k < n → vs.addr k ≢ 0
  pub apart :
      (j k : ℕ)
      → j < n
      → k < n
      → j ≢ k
      → IsApart (vs.addr j) (size_of vs j) (vs.addr k) (size_of vs k)

-- The abstract store, and the value of one variable replaced.
abbrev pub update : ℕ → ℕ → (ℕ → ℕ) → ℕ → ℕ
update k v values j = if j == k then v else values j

module _ (E : Env) where
  open E use {Sv, malloc, sv_ok, sv_iok}

  -- Assignments in Perl: the variable and the scalar.
  unfoldable pub run : Vars → List (ℕ × Sv) → M Sv (Unit {0})
  run vs [] = pure tt
  run vs ((k, sv) ∷ ops) = set_pin E (var_ptr vs k) sv >> run vs ops

  -- the same on the abstract store
  abbrev pub replay : Vars → List (ℕ × Sv) → (ℕ → ℕ) → ℕ → ℕ
  replay vs [] values = values
  replay vs ((k, sv) ∷ ops) values = replay vs ops (update k (taken E (vs.flag k) sv) values)

  -- Each assignment is of an integer to one of the first `n` variables.
  abbrev pub AreIntegers : Vars → ℕ → List (ℕ × Sv) → Type 0
  AreIntegers vs n [] = Unit {0}
  AreIntegers vs n ((k, sv) ∷ ops) =
      (k < n)
      × (sv_ok sv ≡ true)
      × (sv_iok sv ≡ true)
      × (taken E (vs.flag k) sv < 2 ^ 64)
      × AreIntegers vs n ops

  -- malloc's blocks are no part of the library's variables.
  abbrev pub IsOutside : Vars → ℕ → Type 0
  IsOutside vs n =
      (h : Heap Sv) (m k : ℕ) → k < n → IsApart (vs.addr k) (size_of vs k) (malloc h m) m

  -- The variables hold the representations of the abstract store's values.
  abbrev pub Holds : Vars → ℕ → (ℕ → ℕ) → Heap Sv → Type 0
  Holds vs n values h =
      (k : ℕ)
      → k < n
      → (values k < 2 ^ 64)
        × (read_bytes (vs.addr k) (size_of vs k) h.bytes ≡ encode (size_of vs k) (values k))

  -- The assignment to one variable, seen at another.
  read-assigned_apart :
      (a n size v ptr : ℕ) (h : Heap Sv)
      → IsApart a n ptr size
      → IsApart a n (malloc h size) size
      → read_bytes a n (assigned E size v ptr h).bytes ≡ read_bytes a n h.bytes
  read-assigned_apart a n size v ptr h var block =
      let p = malloc h size in
      let m = write_bytes p (zeros size) h.bytes in
      read-write_disjoint a n ptr (encode size v) (write_bytes p (encode size v) m)
        (rw (length-encode size v) var)
      ∙ read-write_disjoint a n p (encode size v) m (rw (length-encode size v) block)
      ∙ read-write_disjoint a n p (zeros size) h.bytes (rw (length-zeros size) block)

  set_pin-Holds :
      (vs : Vars) (n k : ℕ) (sv : Sv) (values : ℕ → ℕ) (h : Heap Sv)
      → IsStore vs n
      → IsOutside vs n
      → k < n
      → taken E (vs.flag k) sv < 2 ^ 64
      → Holds vs n values h
      → Holds vs n
          (update k (taken E (vs.flag k) sv) values)
          (assigned E (size_of vs k) (taken E (vs.flag k) sv) (vs.addr k) h)
  set_pin-Holds vs n k sv values h s outside below bound holds = λ j in_store.
      elim (Bool-cases (j == k)) [
        | inl same ↦
            let is_k = (==_iff j k).0 same in
            let v = taken E (vs.flag k) sv in
            let p = malloc h (size_of vs k) in
            let m = write_bytes p (zeros (size_of vs k)) h.bytes in
            (
              rw same bound,
              rw (same, is_k)
                  (read-encode (size_of vs k) v (vs.addr k)
                    (write_bytes p (encode (size_of vs k) v) m)),
            )
        | inr differ ↦
            let j_not_k : j ≢ k = ground arith in
            let old = holds j in_store in
            (
              rw differ old.0,
              rw differ (
                  read-assigned_apart (vs.addr j) (size_of vs j) (size_of vs k)
                    (taken E (vs.flag k) sv) (vs.addr k) h (s.apart j k in_store below j_not_k)
                    (outside h (size_of vs k) j in_store)
                  ∙ old.1),
            )
      ]

  -- What a pinned variable reads as.
  abbrev pub Reads : Vars → ℕ → (ℕ → ℕ) → Heap Sv → Type 0
  Reads vs n values h =
      (k fuel : ℕ)
      → k < n
      → get_pin E fuel (var_ptr vs k) h ≡ ok (given E (vs.flag k) (wrap (vs.flag k) (values k)), h)

  Holds-Reads :
      (vs : Vars) (n : ℕ) (values : ℕ → ℕ) (h : Heap Sv)
      → IsStore vs n
      → Holds vs n values h
      → Reads vs n values h
  unfolding get_pin peek
  Holds-Reads vs n values h s holds = λ k fuel below.
      ptr2sv-integer E (vs.flag k) fuel (vs.slots k) nil nil (values k) (vs.addr k) h
        (s.integer k below) (s.typed k below) (ground (arith, s.no_null k below)) (holds k below).0
        (ap (λ bs. ok (decode bs, h)) (holds k below).1)

  -- Any sequence of integers assigned to pinned variables of integer types runs to its end, and then
  -- each variable reads as the last integer assigned to it, or as what it held before, converted to its
  -- C type: the variables behave as a store of separate cells. No block is left behind. The variables
  -- lie apart from one another and from the blocks that malloc gives.
  pub run-refines :
      (vs : Vars) (n : ℕ) (ops : List (ℕ × Sv)) (values : ℕ → ℕ) (h : Heap Sv)
      → IsStore vs n
      → IsOutside vs n
      → AreIntegers vs n ops
      → Holds vs n values h
      → (h' : Heap Sv) × (run vs ops h ≡ ok (tt, h'))
        × Reads vs n (replay vs ops values) h'
        × (h'.blocks ≡ h.blocks)
  unfolding run
  run-refines vs n [] values h s outside integers holds =
      (h, refl, Holds-Reads vs n values h s holds, refl)
  run-refines vs n ((k, sv) ∷ ops) values h s outside (below, defined, integer, bound, rest) holds =
      let v = taken E (vs.flag k) sv in
      let h₁ = assigned E (size_of vs k) v (vs.addr k) h in
      let step =
        set_pin-assigned E (vs.flag k) (vs.slots k) nil nil (vs.addr k) sv h (s.integer k below)
          (s.typed k below) (s.sized k below) defined integer in
      let others =
        run-refines vs n ops (update k v values) h₁ s outside rest
          (set_pin-Holds vs n k sv values h s outside below bound holds) in
      (others.0, rw (◌>>=◌, step) others.1, others.2, others.3)
