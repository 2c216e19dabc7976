-- ===== src/Server/Tree/Tests.antt =====
-- A directory with one entry "a" beside "..", while it is listed.
use ortd.Prelude.{false, none, some, [], ◌∷◌}
use ortd.Server.Directory.{Name, up}
use ortd.Server.Directory.Refine.{new_entry}
use ortd.Server.Tree.{Tree}

abbrev a : Name
a = 97 ∷ []

abbrev tree : Tree
tree = record {
  root = (up, none) ∷ (a, some (new_entry 7 0 5)) ∷ [];
  list_iterator = [];
  locked = false;
}
