-- ===== src/Tests/Printed.antt =====
-- Examples of what is printed, of booting and of type objects.
use fiction.Prelude.{
  ℕ, ◌≡◌, ◌≢◌, ◌⊎◌, refl, String, Bool, true, false, some, none, inr, [], ◌∷◌, ◌++◌, arith, codes,
}
use text.Mathlib.Text.{◌==◌}
use fiction.Flags.{Flag, int_flag, flag_code}
use fiction.AffixObject.{Convention, convention_code}
use fiction.Memory.{Heap, ok, read_bytes, write_bytes, write_byte, c_string}
use fiction.Dump.{dump_loops, dump_lines, dump_head, pointer_dump_hex}
use fiction.Marshal.Nested.{IsBeside}
use fiction.Dump.Rows.{listing}
use fiction.Dump.Listing.{pointer_dump_hex-listing}
use fiction.Exports.{constant, bool, pv, Symbols, exported}
use fiction.Exports.Boot.{boot}
use fiction.Exports.Closed.{contains, is_defined, boot-is_defined}
use fiction.Exports.Constants.{flag_name, convention_name, IsNamed, IsFlag, boot-flags}
use fiction.Platform.{boot_platform}
use fiction.Platform.Systems.{Each, systems, value_of, platform-names}
use fiction.TypeObject.{
  Types, find_type, type_new, type_stringify, type_alignment, type_destroy, type_sizeof,
}
use fiction.TypeObject.Flagged.{set_pointer, set_const, set_all, type_new-settings}
use fiction.Tests.Toy.{
  Val, undef_val, int_val, text_val, object_val, pointer_val, toy, empty, plain_type,
}

-- eighteen bytes: two lines, and the short one padded
dumped :
    dump_lines
      (65 ∷ 66 ∷ 0 ∷ 67 ∷ 68 ∷ 69 ∷ 70 ∷ 71 ∷ 72 ∷ 73 ∷ 74 ∷ 75 ∷ 76 ∷ 77 ∷ 78 ∷ 127 ∷ 126 ∷ 10
        ∷ [])
      []
    ≡ some (
        codes "#  000  41 42 00 43 44 45 46 47 48 49 4a 4b 4c 4d 4e 7f | AB.CDEFGHIJKLMN."
        ++ (10
            ∷ (codes "#  016  7e 0a                                           | ~." ++ (10 ∷ []))))
unfolding dump_lines dump_loops
dumped = refl

-- a pointer to 64, where three bytes stand
abbrev to_bytes : Val
to_bytes =
    pointer_val (record {
      address = some 64;
      subtype = plain_type int_flag 4 0 none;
      count = 1;
      position = 0;
    })

abbrev three_bytes : Heap Val
three_bytes = record empty { bytes = write_bytes 64 (1 ∷ 2 ∷ 3 ∷ []) (λ a. 0) }

pointer_dump_hex-listing_example :
    (h : Heap Val) × (pointer_dump_hex toy
        (λ a. codes "0x40")
        (codes "t/dump.t")
        7
        to_bytes
        (int_val 3)
        three_bytes
      ≡ ok (
        some (dump_head 3 (codes "0x40") (codes "t/dump.t") 7 ++ listing 1 0 (1 ∷ 2 ∷ 3 ∷ [])),
        h,
      ))
    × (h.blocks ≡ (4096, 17) ∷ [])
    × ((q : ℕ) → IsBeside 4096 17 q → h.bytes q ≡ three_bytes.bytes q)
unfolding read_bytes write_bytes write_byte
pointer_dump_hex-listing_example =
    pointer_dump_hex-listing toy (λ a. codes "0x40") (codes "t/dump.t") 7 to_bytes (int_val 3) 64 1
      three_bytes refl refl (λ e. omega (arith, e)) (omega arith) (inr (omega arith))

abbrev no_symbols : Symbols
no_symbols = record { subs = []; export_tags = []; isa = [] }

boot-is_defined_example :
    (contains "malloc" [] ≡ true) ⊎ (is_defined "Affix" "malloc" (boot no_symbols) ≡ true)
unfolding exported boot
boot-is_defined_example = boot-is_defined no_symbols "Affix" "memory" "malloc" refl

boot-flags_example :
    ((f : Flag) → IsNamed (boot no_symbols) (flag_name f) (flag_code f))
    × ((c : Convention) → IsFlag (boot no_symbols) (convention_name c) (convention_code c))
boot-flags_example = boot-flags no_symbols

-- a build on Linux
abbrev on_linux : String → Bool
on_linux macro = macro == "DC__OS_Linux"

abbrev linux_symbols : Symbols
linux_symbols = boot_platform on_linux (λ t. 8) 4367 no_symbols

platform-names_example :
    Each
      (λ name c.
        value_of "OS" linux_symbols ≡ some (constant (pv name))
        → value_of c linux_symbols ≡ some (constant (bool true)))
      systems
    × (value_of "OS" linux_symbols ≡ some (constant (pv "Unknown"))
        → Each (λ name c. value_of c linux_symbols ≡ some (constant (bool false))) systems)
platform-names_example = platform-names on_linux (λ t. 8) 4367 no_symbols

-- `Int`, of 4 bytes, at which the flag for pointers is set and that for const set and taken back
type_new-settings_example :
    (first last : Types) × (type_new toy
        (λ types. 512)
        (text_val (codes "Affix::Type") ∷ text_val [] ∷ int_val 105 ∷ int_val 4 ∷ int_val 4 ∷ [])
        []
      ≡ ok (some (object_val 512), first))
    × (set_all toy
          (object_val 512)
          (set_const (int_val 1) ∷ set_pointer (int_val 1) ∷ set_const (undef_val false) ∷ [])
          first
        ≡ ok last)
    × (type_stringify toy 1 empty (object_val 512) last
        ≡ ok (some (text_val (codes "Pointer[  ]")), last))
    × (type_alignment toy (object_val 512) last ≡ ok (some (int_val 8), last))
    × (type_sizeof toy (object_val 512) last ≡ ok (some (int_val 4), last))
    × ((b : ℕ) → b ≢ 512 → find_type b last ≡ find_type b [])
    × (type_destroy toy (object_val 512) last ≡ ok (none, []))
unfolding c_string
type_new-settings_example =
    type_new-settings toy (λ types. 512) (text_val (codes "Affix::Type")) (text_val [])
      (int_val 105) (int_val 4) (int_val 4)
      (set_const (int_val 1) ∷ set_pointer (int_val 1) ∷ set_const (undef_val false) ∷ []) [] 1 []
      empty (λ e. omega (arith, e)) refl refl
