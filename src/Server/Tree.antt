-- ===== src/Server/Tree.antt =====
-- modules/rt_server/directory.cpp: `directory_tree`, the interface to the directory. All of its
-- operations take one mutex, and the listing keeps it from `begin_list` to `end_list`.
pub mod Listing
mod Tests
use ortd.Prelude.{
  ◌>>=◌, ℕ, zero, suc, Bool, true, false, Option, none, some, List, [], ◌∷◌, if◌then◌else◌,
}
use ortd.Server.Directory.{Name, Entry, Entries, add_entry, delete_file, access2, new_leaf}

-- `root`, which `pwd` always is, what `list_iterator` has still to visit, and whether
-- `list_process_mutex` is held.
pub record Tree : Type 0 where
  pub root : Entries
  pub list_iterator : Entries
  pub locked : Bool

abbrev pub new_tree : Tree
new_tree = record { root = new_leaf; list_iterator = []; locked = false }

-- `none` where the call waits for the mutex.
pub lock : Tree → Option Tree
lock t = if t.locked then none else some (record t { locked = true })

pub unlock : Tree → Tree
unlock t = record t { locked = false }

pub tree_add : Name → ℕ → ℕ → ℕ → Tree → Option (Bool × Tree)
tree_add name type class userptr t = do
  t' ← lock t
  let (ret, es) = add_entry name type class userptr t'.root
  some (ret, unlock (record t' { root = es }))

pub tree_delete : Name → Tree → Option (Bool × Tree)
tree_delete name t = do
  t' ← lock t
  let (ret, es) = delete_file name t'.root
  some (ret, unlock (record t' { root = es }))

pub tree_access : Name → ℕ → Tree → Option (Option Entry × Tree)
tree_access path class t = do t' ← lock t; some (access2 path class t'.root, unlock t')

pub begin_list : Tree → Option Tree
begin_list t = do t' ← lock t; some (record t' { list_iterator = t'.root })

-- `directory_leaf::get_list_next`
pub next_entry : Entries → Option Entry × Entries
next_entry [] = (none, [])
next_entry ((m, none) ∷ es) = next_entry es
next_entry ((m, some e) ∷ es) = (some e, es)

pub get_list_next : Tree → Option Entry × Tree
get_list_next t = let (e, es) = next_entry t.list_iterator in (e, record t { list_iterator = es })

-- One round of the loop of `callback_list_dir`, with what the rest of it sends.
pub send_answer : Option Entry → Tree → Option (List Entry × Tree) → Option (List Entry × Tree)
send_answer none t rest = some ([], t)
send_answer (some e) t none = none
send_answer (some e) t (some (sent, u)) = some (e ∷ sent, u)

-- The loop: the entries that are sent, with fuel for its rounds.
pub send_entries : ℕ → Tree → Option (List Entry × Tree)
send_entries zero t = none
send_entries (suc n) t =
    let (e, t') = get_list_next t in let rest = send_entries n t' in send_answer e t' rest

-- `directory_tree::callback_list_dir`
pub callback_list_dir : ℕ → Tree → Option (List Entry × Tree)
callback_list_dir n t = do
  t' ← begin_list t
  (sent, t'') ← send_entries n t'
  some (sent, unlock t'')
