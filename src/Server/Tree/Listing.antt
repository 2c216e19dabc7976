-- ===== src/Server/Tree/Listing.antt =====
-- The listing of the directory, and what it excludes.
use ortd.Prelude.{
  ℕ, zero, suc, ◌<◌, ◌≡◌, refl, inl, inr, Bool-cases, true, false, none, some, List, [], ◌∷◌, arith,
}
use ortd.Server.Directory.{Name, Entry, Entries}
use ortd.Server.Tree.{
  Tree, lock, unlock, tree_add, tree_delete, tree_access, begin_list, next_entry, get_list_next,
  send_answer, send_entries, callback_list_dir,
}

-- The entries that are there, in the order of their names.
abbrev pub visible : Entries → List Entry
visible [] = []
visible ((m, none) ∷ es) = visible es
visible ((m, some e) ∷ es) = e ∷ visible es

abbrev size : Entries → ℕ
size [] = 0
size (x ∷ es) = suc (size es)

abbrev pub at_iterator : Entries → Entries → Tree
at_iterator root es = record { root = root; list_iterator = es; locked = true }

send_all :
    (n : ℕ) (root es : Entries)
    → size es < n
    → send_entries n (at_iterator root es) ≡ some (visible es, at_iterator root [])
unfolding send_entries get_list_next next_entry send_answer
send_all zero root es h = elim h [ ]
send_all (suc n) root [] h = refl
send_all (suc n) root ((m, none) ∷ es) h = send_all (suc n) root es (omega arith)
send_all (suc n) root ((m, some e) ∷ es) h = rw (send_all n root es (omega arith)) refl

begin_list_busy : (t : Tree) → t.locked ≡ true → begin_list t ≡ none
unfolding begin_list lock
begin_list_busy t e = rw e refl

begin_list_free : (t : Tree) → t.locked ≡ false → begin_list t ≡ some (at_iterator t.root t.root)
unfolding begin_list lock
begin_list_free t e = rw e refl

begin_list-locked : (t u : Tree) → begin_list t ≡ some u → u.locked ≡ true
begin_list-locked t u e = elim (Bool-cases t.locked) [
  | inl l ↦ cc (begin_list_busy t l, e)
  | inr l ↦ cc (begin_list_free t l, e)
]

-- With fuel beyond the number of entries, the listing of a tree whose mutex is free sends each entry
-- that is there once, in the order of the names, leaves the directory as it is, and gives back the
-- mutex.
pub callback_list_dir_lem :
    (n : ℕ) (t : Tree)
    → size t.root < n
    → t.locked ≡ false
    → callback_list_dir n t
      ≡ some (visible t.root, record { root = t.root; list_iterator = []; locked = false })
unfolding callback_list_dir unlock
callback_list_dir_lem n t h e = rw (begin_list_free t e, send_all n t.root t.root h) refl

waits : (t : Tree) → t.locked ≡ true → lock t ≡ none
unfolding lock
waits t e = rw e refl

-- From `begin_list` to `end_list` every other operation waits, a second listing included, also those
-- of the thread that lists: it may not touch the directory in between.
pub begin_list-waits :
    (t u : Tree) (name : Name) (type class userptr : ℕ)
    → begin_list t ≡ some u
    → (tree_add name type class userptr u ≡ none)
      × ((tree_delete name u ≡ none) × ((tree_access name class u ≡ none) × (begin_list u ≡ none)))
unfolding begin_list tree_add tree_delete tree_access
begin_list-waits t u name type class userptr e =
    let l = waits u (begin_list-locked t u e) in (rw l refl, (rw l refl, (rw l refl, rw l refl)))
