-- ===== src/Server/Directory/Refine.antt =====
-- A directory as a finite map from names to entries.
use ortd.Prelude.{
  ℕ, ◌≡◌, ◌≢◌, refl, sym, ap, ◌∙◌, inl, inr, ◌⊎◌, true, false, Option, none, some, [], ◌∷◌,
  Bool-cases, Option-cases,
}
use ortd.Server.Directory.{
  Name, Entry, Entries, before, find, insert, erase, up, new_leaf, or_null, get_entry, is_null,
  add_entry, delete_found, get_and_delete_entry, delete_file,
}
use ortd.Server.Directory.Name.{before_irrefl, before_connected}
use ortd.Server.Directory.Sorted.{
  IsSorted, insert-IsSorted, erase-IsSorted, find_later, find_absent, find-insert,
  find-insert_other, find-erase, find-erase_other,
}

-- Sorted by name, and without a null pointer but that of "..".
pub record IsValid (es : Entries) : Type 0 where
  pub sorted : IsSorted es
  pub null : (n : Name) → find n es ≡ some none → n ≡ up
  pub has_up : find up es ≡ some none

abbrev pub new_entry : ℕ → ℕ → ℕ → Entry
new_entry type class userptr = record { userptr = userptr; belonges_to_class = class; type = type }

-- What an operation that changes at most `name` makes of a directory: `v` is there, and nothing
-- else has changed.
pub record Sets (name : Name) (v : Option Entry) (es fs : Entries) : Type 0 where
  pub valid : IsValid fs
  pub value : get_entry name fs ≡ v
  pub others : (k : Name) → k ≢ name → get_entry k fs ≡ get_entry k es

pub same_name : (k n : Name) → (k ≡ n) ⊎ (k ≢ n)
same_name k n = elim (Bool-cases (before k n)) [
  | inl p ↦ inr (λ e. cc (ap (λ x. before x n) e, before_irrefl n, p))
  | inr p ↦ elim (Bool-cases (before n k)) [
    | inl q ↦ inr (λ e. cc (ap (λ x. before n x) e, before_irrefl n, q))
    | inr q ↦ inl (before_connected k n p q)
  ]
]

absent : (n : Name) (es : Entries) → IsValid es → n ≢ up → get_entry n es ≡ none → find n es ≡ none
unfolding get_entry
absent n es v ne h = elim (Option-cases (find n es)) [
  | inl e ↦ e
  | inr (none, e) ↦ elim (ne (v.null n e)) [ ]
  | inr (some x, e) ↦ cc (ap or_null e, h)
]

present :
    (n : Name) (x : Entry) (es : Entries) → get_entry n es ≡ some x → find n es ≡ some (some x)
unfolding get_entry
present n x es h = elim (Option-cases (find n es)) [
  | inl e ↦ cc (ap or_null e, h)
  | inr (y, e) ↦ e ∙ ap some (sym (ap or_null e) ∙ h)
]

-- A key that is there keeps its entry.
insert_there :
    (n : Name) (v x : Option Entry) (es : Entries) → find n es ≡ some x → insert n v es ≡ es
unfolding find insert
insert_there n v x [] h = cc
insert_there n v x ((m, e) ∷ es) h = elim (Bool-cases (before m n)) [
  | inl a ↦ rw a (ap (λ r. (m, e) ∷ r) (insert_there n v x es (sym (find_later n m e es a) ∙ h)))
  | inr a ↦ elim (Bool-cases (before n m)) [
    | inl b ↦ cc (find_absent n m e es b, h)
    | inr b ↦ rw (a, b) refl
  ]
]

insert-Sets :
    (name : Name) (x : Entry) (es : Entries)
    → IsValid es
    → name ≢ up
    → find name es ≡ none
    → Sets name (some x) es (insert name (some x) es)
unfolding get_entry
insert-Sets name x es v ne h = record {
  valid = record {
    sorted = insert-IsSorted name (some x) es v.sorted;
    null = λ n e. elim (same_name n name) [
      | inl p ↦ cc (find-insert name (some x) es h, ap (λ k. find k (insert name (some x) es)) p, e)
      | inr q ↦ v.null n (sym (find-insert_other n name (some x) es v.sorted q) ∙ e)
    ];
    has_up = find-insert_other up name (some x) es v.sorted (λ e. ne (sym e)) ∙ v.has_up;
  };
  value = ap or_null (find-insert name (some x) es h);
  others = λ k q. ap or_null (find-insert_other k name (some x) es v.sorted q);
}

erase-Sets :
    (name : Name) (es : Entries) → IsValid es → name ≢ up → Sets name none es (erase name es)
unfolding get_entry
erase-Sets name es v ne = record {
  valid = record {
    sorted = erase-IsSorted name es v.sorted;
    null = λ n e. elim (same_name n name) [
      | inl p ↦ cc (find-erase name es v.sorted, ap (λ k. find k (erase name es)) p, e)
      | inr q ↦ v.null n (sym (find-erase_other n name es v.sorted q) ∙ e)
    ];
    has_up = find-erase_other up name es v.sorted (λ e. ne (sym e)) ∙ v.has_up;
  };
  value = ap or_null (find-erase name es v.sorted);
  others = λ k q. ap or_null (find-erase_other k name es v.sorted q);
}

-- In a valid directory and for a name other than "..": a name that is free is added, the entry is
-- then found under it, and nothing else has changed; a name that is taken is refused, and the
-- directory is as before. It stays valid in both cases.
pub add_entry_lem :
    (name : Name) (type class userptr : ℕ) (es : Entries)
    → IsValid es
    → name ≢ up
    → (get_entry name es ≡ none
        → ((add_entry name type class userptr es).0 ≡ true)
          × Sets name
              (some (new_entry type class userptr))
              es
              (add_entry name type class userptr es).1)
      × ((e : Entry)
          → get_entry name es ≡ some e
          → add_entry name type class userptr es ≡ (false, es))
unfolding add_entry is_null
add_entry_lem name type class userptr es v ne = (
  λ h. rw h (refl, insert-Sets name (new_entry type class userptr) es v ne (absent name es v ne h)),
  λ e h. rw h refl,
)

-- In a valid directory and for a name other than "..": the deletion of a name that is there
-- succeeds, the name is then not found and nothing else has changed; of a name that is not there it
-- fails, and the directory is as before. It stays valid in both cases.
pub delete_file_lem :
    (name : Name) (es : Entries)
    → IsValid es
    → name ≢ up
    → (get_entry name es ≡ none → delete_file name es ≡ (false, es))
      × ((e : Entry)
          → get_entry name es ≡ some e
          → ((delete_file name es).0 ≡ true) × Sets name none es (delete_file name es).1)
unfolding delete_file get_and_delete_entry delete_found is_null
delete_file_lem name es v ne = (
  λ h. rw (absent name es v ne h) refl,
  λ e h. rw (present name e es h) (refl, erase-Sets name es v ne),
)

-- A new directory is valid.
pub new_leaf-IsValid : IsValid new_leaf
unfolding find insert before
new_leaf-IsValid = record {
  sorted = (tt, tt);
  null = λ n e. elim (same_name n up) [
    | inl p ↦ p
    | inr q ↦ cc (find-insert_other n up none [] tt q, e)
  ];
  has_up = refl;
}

-- A valid directory has "..", with a null pointer, which counts as free: `add_entry` for this name
-- reports success, but the directory is as before and the entry is not found.
pub add_up :
    (type class userptr : ℕ) (es : Entries)
    → IsValid es
    → (add_entry up type class userptr es ≡ (true, es)) × (get_entry up es ≡ none)
unfolding add_entry is_null get_entry
add_up type class userptr es v =
    let g = ap or_null v.has_up in
    (rw (g, insert_there up (some (new_entry type class userptr)) none es v.has_up) refl, g)
