-- ===== src/Tests/Held.antt =====
-- Examples of libraries and of several pinned variables.
use fiction.Prelude.{
  ℕ, zero, suc, ◌<◌, ◌≤◌, ◌≡◌, ◌≢◌, refl, true, false, none, List, [], ◌∷◌, arith, codes, str_eq,
  inl, inr,
}
use fiction.Flags.{Flag, int_flag, short_flag}
use fiction.Memory.{Fiction, Heap, ok, encode, read_bytes}
use fiction.Env.{sizeof}
use fiction.Bind.{bind, open_library, symbol_names, with_types}
use fiction.Bind.Libraries.{
  opens_itself, affix_destroy, Libraries, nothing, Steps, here, next, bound, opened, closed,
}
use fiction.Bind.Closing.{fiction-library_open, bind-closes_object}
use fiction.Marshal.Numbers.{IsInteger}
use fiction.Pin.Store.{Vars, IsStore, IsOutside, run, run-refines, Reads, Holds, replay, IsApart}
use fiction.Tests.Toy.{
  Val, undef_val, int_val, text_val, object_val, toy, empty, slots_of, next_block,
}

-- wrap( undef, 'add' )
by_name :
    (out : Fiction Val × Val) × (h : Heap Val) × (bind toy false
        (undef_val true)
        (text_val (codes "add"))
        []
        empty
      ≡ ok (out, h))
unfolding bind open_library symbol_names with_types str_eq
by_name = (_, _, refl)

abbrev one_bound : Libraries toy
one_bound = record {
  refs = opened 256 (λ x. 0);
  fictions = by_name.0.0 ∷ [];
  objects = [];
  lost = [];
}

binding : Steps toy (nothing toy) one_bound
unfolding opens_itself open_library
binding = next here (
    bound false (undef_val true) (text_val (codes "add")) [] by_name.0.0 by_name.0.1 empty by_name.1
      256 refl by_name.2 refl)

fiction-library_open_example : 1 ≤ one_bound.refs 256
unfolding by_name
fiction-library_open_example =
    fiction-library_open toy one_bound [] by_name.0.0 [] 256 binding refl refl

-- the same through an object, of a library that is open once
by_object :
    (out : Fiction Val × Val) × (h : Heap Val) × (bind toy false
        (object_val 256)
        (text_val (codes "add"))
        []
        empty
      ≡ ok (out, h))
unfolding bind open_library symbol_names with_types str_eq
by_object = (_, _, refl)

bind-closes_object_example : closed (affix_destroy toy by_object.0.0) (λ lib. 1) 256 ≡ 0
unfolding opens_itself
bind-closes_object_example =
    bind-closes_object toy false (object_val 256) (text_val (codes "add")) [] by_object.0.0
      by_object.0.1 empty by_object.1 (λ lib. 1) refl by_object.2

-- An int at 64 and a short at 72
abbrev flag_of : ℕ → Flag
flag_of zero = int_flag
flag_of (suc k) = short_flag

abbrev addr_of : ℕ → ℕ
addr_of zero = 64
addr_of (suc k) = 72

abbrev two : Vars
two = record {
  flag = flag_of;
  slots = λ k. slots_of (flag_of k) (sizeof (flag_of k)) 0 none;
  addr = addr_of;
}

two-IsStore : IsStore two 2
unfolding sizeof
two-IsStore = record {
  integer = integer;
  typed = λ k b. refl;
  sized = λ k b. refl;
  no_null = no_null;
  apart = apart;
}
  where
    integer : (k : ℕ) → k < 2 → IsInteger (flag_of k)
    integer zero b = tt
    integer (suc k) b = tt

    no_null : (k : ℕ) → k < 2 → addr_of k ≢ 0
    no_null zero b = λ e. omega (arith, e)
    no_null (suc k) b = λ e. omega (arith, e)

    apart :
        (j k : ℕ)
        → j < 2
        → k < 2
        → j ≢ k
        → IsApart (addr_of j) (sizeof (flag_of j)) (addr_of k) (sizeof (flag_of k))
    apart zero zero a b n = absurd (n refl)
    apart zero (suc k) a b n = inl (omega arith)
    apart (suc j) zero a b n = inr (omega arith)
    apart (suc j) (suc k) a b n = absurd (n (omega (arith, a, b)))

high : (bs : List (ℕ × ℕ)) → 4096 ≤ next_block bs
high [] = omega arith
high (b ∷ bs) = omega (arith, high bs)

two-IsOutside : IsOutside toy two 2
unfolding sizeof
two-IsOutside h m zero b = inl (omega (arith, high h.blocks))
two-IsOutside h m (suc k) b = inl (omega (arith, high h.blocks))

zeros_held : Holds toy two 2 (λ k. 0) empty
unfolding sizeof read_bytes encode
zeros_held zero b = (omega arith, refl)
zeros_held (suc k) b = (omega arith, refl)

abbrev assignments : List (ℕ × Val)
assignments = (0, int_val 5) ∷ (1, int_val 65541) ∷ (0, int_val 7) ∷ []

run-refines_example :
    (h : Heap Val) × (run toy two assignments empty ≡ ok (tt, h))
    × Reads toy two 2 (replay toy two assignments (λ k. 0)) h
    × (h.blocks ≡ [])
run-refines_example =
    run-refines toy two 2 assignments (λ k. 0) empty two-IsStore two-IsOutside
      (
        omega arith,
        refl,
        refl,
        omega arith,
        (omega arith, refl, refl, omega arith, (omega arith, refl, refl, omega arith, tt)),
      )
      zeros_held
