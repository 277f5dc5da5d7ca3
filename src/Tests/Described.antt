-- ===== src/Tests/Described.antt =====
-- Examples of types and their descriptions.
use fiction.Prelude.{◌≡◌, refl, none, [], ◌∷◌}
use fiction.Flags.{int_flag, struct_flag, sigchar_int}
use fiction.Types.{affix_type, TypeList, nil, cons, count}
use fiction.Memory.{ok}
use fiction.Aggregate.{aggr, close, field, field_kind, aggregate, build, add_field, is_aggregate}
use fiction.Aggregate.Described.{aggregate-offsets, recorded}
use fiction.Tests.Toy.{slots_of, plain_type}

abbrev members : TypeList
members = cons (plain_type int_flag 4 0 none) (cons (plain_type int_flag 4 4 none) nil)

described :
    aggregate (affix_type (slots_of struct_flag 8 0 none) members nil)
    ≡ ok (aggr 2 8 (field sigchar_int 0 (field sigchar_int 4 close)))
unfolding aggregate build add_field is_aggregate field_kind count
described = refl

aggregate-offsets_example :
    (2 ≡ count members)
    × (8 ≡ (slots_of struct_flag 8 0 none).sizeof)
    × (recorded (field sigchar_int 0 (field sigchar_int 4 close)) ≡ 0 ∷ 4 ∷ [])
aggregate-offsets_example =
    aggregate-offsets (slots_of struct_flag 8 0 none) members nil 2 8
      (field sigchar_int 0 (field sigchar_int 4 close)) described
