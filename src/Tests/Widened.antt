-- ===== src/Tests/Widened.antt =====
-- Examples of wide characters and library paths.
use fiction.Prelude.{◌≡◌, refl, some, [], ◌∷◌, arith}
use fiction.Memory.{Heap, ok, c_text}
use fiction.Env.{Env}
use fiction.Bind.Symbols.{lib_path, list_symbols, list_unmangled_symbols, lib_path-list_symbols}
use fiction.Tests.Toy.{Val, int_val, text_val, object_val, toy, empty}

-- a library at "/a", with a nameless symbol and one other
abbrev at_path : Env
at_path = record toy { library_path = λ lib. 47 ∷ 97 ∷ [] }

lib_path-list_symbols_example :
    (a b c : Heap Val) × (lib_path at_path (object_val 256) empty ≡ ok (text_val (47 ∷ 97 ∷ []), a))
    × (a.blocks ≡ [])
    × (list_symbols at_path (λ path. [] ∷ path ∷ []) (object_val 256) empty
        ≡ ok (at_path.new_rv_av (text_val (47 ∷ 97 ∷ []) ∷ []), b))
    × (b.blocks ≡ [])
    × (list_unmangled_symbols at_path (λ path. some (int_val 1 ∷ [])) (object_val 256) empty
        ≡ ok (at_path.new_rv_av (int_val 1 ∷ []), c))
    × (c.blocks ≡ (4096, 1024) ∷ [])
unfolding c_text
lib_path-list_symbols_example =
    lib_path-list_symbols at_path (λ path. [] ∷ path ∷ []) (λ path. some (int_val 1 ∷ []))
      (object_val 256) (int_val 1 ∷ []) empty refl refl (omega arith) (omega arith) refl refl
