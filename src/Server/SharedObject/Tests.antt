-- ===== src/Server/SharedObject/Tests.antt =====
-- An object at the address 5, registered as "a" in a new directory.
use ortd.Prelude.{ℕ, ◌<◌, ◌≡◌, ◌≢◌, refl, none, some, [], ◌∷◌, arith}
use ortd.Server.Directory.{Name, Entries, before, find, insert, up, new_leaf, get_entry}
use ortd.Server.Directory.Refine.{IsValid, new_leaf-IsValid}
use ortd.Server.SharedObject.{constructor, destructor, register_times, unregister_times}
use ortd.Server.SharedObject.Life.{Registers, constructor_lem, life_lem}

abbrev a : Name
a = 97 ∷ []

not_up : a ≢ up
not_up e = cc

a_free : get_entry a new_leaf ≡ none
unfolding get_entry find insert before
a_free = refl

a_Registers : Registers 5 a new_leaf (constructor 5 a (some (some new_leaf)))
a_Registers = (constructor_lem 5 a new_leaf new_leaf-IsValid not_up).0 a_free

life_example :
    (0 < 1
      → destructor (unregister_times 2 (register_times 3 a_Registers.object)) a_Registers.entries
        ≡ none)
    × (◌≡◌ {A = ℕ} 1 0
        → (fs : Entries) × ((destructor
                (unregister_times 2 (register_times 3 a_Registers.object))
                a_Registers.entries
              ≡ some fs)
            × (IsValid fs × ((k : Name) → get_entry k fs ≡ get_entry k new_leaf))))
life_example = life_lem 5 a new_leaf new_leaf-IsValid not_up a_free a_Registers 1 2 (omega arith)
