-- ===== src/Server/Directory.antt =====
-- modules/rt_server/directory.cpp: `directory_leaf` and `directory_tree`. A `std::string` is the
-- list of its bytes, a `std::map` a list that is sorted by them, a null pointer `none`.
pub mod Name
pub mod Sorted
pub mod Refine
mod Tests
use ortd.Prelude.{
  ℕ, zero, suc, Bool, true, false, Option, none, some, List, [], ◌∷◌, ltb, ◌==◌, if◌then◌else◌,
}

abbrev pub Name : Type 0
Name = List ℕ

-- `operator<` of `std::string`.
unfoldable pub before : Name → Name → Bool
before [] [] = false
before [] (b ∷ t) = true
before (a ∷ s) [] = false
before (a ∷ s) (b ∷ t) =
    let rest = before s t in if ltb a b then true else if ltb b a then false else rest

-- `directory_entry::direntry`; its `name` points into a string that `add_entry` gives up when it
-- returns, and is left out.
pub record Entry : Type 0 where
  pub userptr : ℕ
  pub belonges_to_class : ℕ
  pub type : ℕ

-- `entry_map_t`
abbrev pub Entries : Type 0
Entries = List (Name × Option Entry)

-- `std::map::find`: `none` is `end()`.
unfoldable pub find : Name → Entries → Option (Option Entry)
find n [] = none
find n ((m, e) ∷ es) =
    let rest = find n es in if before m n then rest else if before n m then none else some e

-- `std::map::insert`, which keeps an entry that is there.
unfoldable pub insert : Name → Option Entry → Entries → Entries
insert n v [] = (n, v) ∷ []
insert n v ((m, e) ∷ es) =
    let rest = insert n v es in
    if before m n then (m, e) ∷ rest else if before n m then (n, v) ∷ (m, e) ∷ es else (m, e) ∷ es

-- `std::map::erase` at the iterator that `find` has given.
unfoldable pub erase : Name → Entries → Entries
erase n [] = []
erase n ((m, e) ∷ es) =
    let rest = erase n es in
    if before m n then (m, e) ∷ rest else if before n m then (m, e) ∷ es else es

-- The name "..".
abbrev pub up : Name
up = 46 ∷ 46 ∷ []

-- The constructor of `directory_leaf`.
abbrev pub new_leaf : Entries
new_leaf = insert up none []

-- A pointer that is read from the map: NULL where nothing is found.
abbrev pub or_null : Option (Option Entry) → Option Entry
or_null none = none
or_null (some e) = e

unfoldable pub get_entry : Name → Entries → Option Entry
get_entry n es = or_null (find n es)

pub is_null : Option Entry → Bool
is_null none = true
is_null (some e) = false

-- `directory_leaf::add_entry`
pub add_entry : Name → ℕ → ℕ → ℕ → Entries → Bool × Entries
unfolding get_entry is_null
add_entry name type class userptr es =
    if is_null (get_entry name es)
    then (
      true,
      insert name (some (record { userptr = userptr; belonges_to_class = class; type = type })) es,
    )
    else (false, es)

-- What `get_and_delete_entry` does with the iterator that it has found.
pub delete_found : Option (Option Entry) → Name → Entries → Option Entry × Entries
delete_found none n es = (none, es)
delete_found (some e) n es = (e, erase n es)

-- `directory_leaf::get_and_delete_entry`
pub get_and_delete_entry : Name → Entries → Option Entry × Entries
get_and_delete_entry n es = delete_found (find n es) n es

-- `directory_leaf::delete_file`: the pointer as a truth value.
pub delete_file : Name → Entries → Bool × Entries
unfolding get_and_delete_entry is_null
delete_file n es =
    let (e, rest) = get_and_delete_entry n es in (if is_null e then false else true, rest)

-- The test of `directory_leaf::access2` for the class, where 0 is NULL.
unfoldable pub of_class : ℕ → Option Entry → Option Entry
of_class class none = none
of_class class (some e) =
    if class == 0 then some e else if e.belonges_to_class == class then some e else none

unfoldable pub access2 : Name → ℕ → Entries → Option Entry
access2 path class es = of_class class (get_entry path es)

-- A pointer to an entry, followed to its `userptr`.
unfoldable pub userptr_of : Option Entry → ℕ
userptr_of none = 0
userptr_of (some e) = e.userptr

-- `directory_tree::access_userptr`, where 0 is NULL.
unfoldable pub access_userptr : Name → ℕ → Entries → ℕ
access_userptr path class es = userptr_of (access2 path class es)
