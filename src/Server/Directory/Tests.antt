-- ===== src/Server/Directory/Tests.antt =====
-- A new directory, and one with an entry "a".
use ortd.Prelude.{◌≡◌, ◌≢◌, refl, true, false, none, some, [], ◌∷◌}
use ortd.Server.Directory.{
  Name, Entry, before, find, insert, up, new_leaf, get_entry, add_entry, is_null, delete_file,
}
use ortd.Server.Directory.Refine.{
  IsValid, Sets, new_entry, add_entry_lem, delete_file_lem, new_leaf-IsValid,
}

abbrev a : Name
a = 97 ∷ []

abbrev b : Name
b = 98 ∷ []

not_up : a ≢ up
not_up e = cc

a_free : get_entry a new_leaf ≡ none
unfolding get_entry find insert before
a_free = refl

with_a-IsValid : IsValid (add_entry a 7 0 1 new_leaf).1
with_a-IsValid = ((add_entry_lem a 7 0 1 new_leaf new_leaf-IsValid not_up).0 a_free).1.valid

-- Names are kept in their order, and one that is there is refused.
sorted_run :
    (add_entry b 7 0 2 (add_entry a 7 0 1 new_leaf).1).1
    ≡ (up, none) ∷ (a, some (new_entry 7 0 1)) ∷ (b, some (new_entry 7 0 2)) ∷ []
unfolding add_entry is_null get_entry find insert before
sorted_run = refl

add_entry_example :
    (get_entry a new_leaf ≡ none
      → ((add_entry a 7 0 1 new_leaf).0 ≡ true)
        × Sets a (some (new_entry 7 0 1)) new_leaf (add_entry a 7 0 1 new_leaf).1)
    × ((e : Entry) → get_entry a new_leaf ≡ some e → add_entry a 7 0 1 new_leaf ≡ (false, new_leaf))
add_entry_example = add_entry_lem a 7 0 1 new_leaf new_leaf-IsValid not_up

delete_file_example :
    (get_entry a (add_entry a 7 0 1 new_leaf).1 ≡ none
      → delete_file a (add_entry a 7 0 1 new_leaf).1 ≡ (false, (add_entry a 7 0 1 new_leaf).1))
    × ((e : Entry)
        → get_entry a (add_entry a 7 0 1 new_leaf).1 ≡ some e
        → ((delete_file a (add_entry a 7 0 1 new_leaf).1).0 ≡ true)
          × Sets a none
              (add_entry a 7 0 1 new_leaf).1
              (delete_file a (add_entry a 7 0 1 new_leaf).1).1)
delete_file_example = delete_file_lem a (add_entry a 7 0 1 new_leaf).1 with_a-IsValid not_up
