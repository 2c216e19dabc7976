-- ===== src/Server/Directory/Sorted.antt =====
-- The entries of a directory are sorted by name, and so `find`, `insert` and `erase` are those of
-- a finite map.
use ortd.Prelude.{
  ◌≡◌, ◌≢◌, refl, sym, ap, ◌∙◌, inl, inr, ◌⊎◌, true, false, Option, none, some, [], ◌∷◌, All,
  All-map, Bool-cases,
}
use ortd.Server.Directory.{Name, Entry, Entries, before, find, insert, erase}
use ortd.Server.Directory.Name.{before_irrefl, before_trans, before_connected, before_asym}

-- Every name in the list comes after `n`.
abbrev pub AllAfter : Name → Entries → Type 0
AllAfter n es = All (λ x. before n x.0 ≡ true) es

abbrev pub IsSorted : Entries → Type 0
IsSorted [] = Unit
IsSorted ((m, e) ∷ es) = AllAfter m es × IsSorted es

AllAfter-trans : (n m : Name) (es : Entries) → before n m ≡ true → AllAfter m es → AllAfter n es
AllAfter-trans n m es p h = All-map es (λ x q. before_trans n m x.0 p q) h

find-AllAfter : (n : Name) (es : Entries) → AllAfter n es → find n es ≡ none
unfolding find
find-AllAfter n [] h = refl
find-AllAfter n ((m, e) ∷ es) (p, h) = rw (p, before_asym n m p) refl

-- The three ways in which two names are ordered.
pub order :
    (m n : Name)
    → (before m n ≡ true)
      ⊎ ((before m n ≡ false) × (before n m ≡ true))
      ⊎ ((before m n ≡ false) × ((before n m ≡ false) × (m ≡ n)))
order m n = elim (Bool-cases (before m n)) [
  | inl p ↦ inl p
  | inr p ↦ elim (Bool-cases (before n m)) [
    | inl q ↦ inr (inl (p, q))
    | inr q ↦ inr (inr (p, (q, before_connected m n p q)))
  ]
]

insert-AllAfter :
    (k n : Name) (v : Option Entry) (es : Entries)
    → before k n ≡ true
    → AllAfter k es
    → AllAfter k (insert n v es)
unfolding insert
insert-AllAfter k n v [] p h = (p, tt)
insert-AllAfter k n v ((m, e) ∷ es) p (q, h) = elim (order m n) [
  | inl a ↦ rw a (q, insert-AllAfter k n v es p h)
  | inr (inl (a, b)) ↦ rw (a, b) (p, (q, h))
  | inr (inr (a, (b, c))) ↦ rw (a, b) (q, h)
]

pub insert-IsSorted :
    (n : Name) (v : Option Entry) (es : Entries) → IsSorted es → IsSorted (insert n v es)
unfolding insert
insert-IsSorted n v [] s = (tt, tt)
insert-IsSorted n v ((m, e) ∷ es) (h, s) = elim (order m n) [
  | inl a ↦ rw a (insert-AllAfter m n v es a h, insert-IsSorted n v es s)
  | inr (inl (a, b)) ↦ rw (a, b) ((b, AllAfter-trans n m es b h), (h, s))
  | inr (inr (a, (b, c))) ↦ rw (a, b) (h, s)
]

erase-AllAfter : (k n : Name) (es : Entries) → AllAfter k es → AllAfter k (erase n es)
unfolding erase
erase-AllAfter k n [] h = tt
erase-AllAfter k n ((m, e) ∷ es) (q, h) = elim (order m n) [
  | inl a ↦ rw a (q, erase-AllAfter k n es h)
  | inr (inl (a, b)) ↦ rw (a, b) (q, h)
  | inr (inr (a, (b, c))) ↦ rw (a, b) h
]

pub erase-IsSorted : (n : Name) (es : Entries) → IsSorted es → IsSorted (erase n es)
unfolding erase
erase-IsSorted n [] s = tt
erase-IsSorted n ((m, e) ∷ es) (h, s) = elim (order m n) [
  | inl a ↦ rw a (erase-AllAfter m n es h, erase-IsSorted n es s)
  | inr (inl (a, b)) ↦ rw (a, b) (h, s)
  | inr (inr (a, (b, c))) ↦ rw (a, b) s
]

-- The three cases of `find`.
pub find_later :
    (n m : Name) (e : Option Entry) (es : Entries)
    → before m n ≡ true
    → find n ((m, e) ∷ es) ≡ find n es
unfolding find
find_later n m e es a = rw a refl

pub find_absent :
    (n m : Name) (e : Option Entry) (es : Entries) → before n m ≡ true → find n ((m, e) ∷ es) ≡ none
unfolding find
find_absent n m e es b = rw (b, before_asym n m b) refl

find_here : (n : Name) (e : Option Entry) (es : Entries) → find n ((n, e) ∷ es) ≡ some e
unfolding find
find_here n e es = rw (before_irrefl n) refl

-- What `find` gives for a list depends on its tail by `find` only.
find_cons :
    (k m : Name) (e : Option Entry) (es fs : Entries)
    → find k es ≡ find k fs
    → find k ((m, e) ∷ es) ≡ find k ((m, e) ∷ fs)
unfolding find
find_cons k m e es fs h = rw h refl

-- An entry for another name does not matter, if the rest comes after it.
find_other :
    (k n : Name) (e : Option Entry) (es : Entries)
    → k ≢ n
    → AllAfter n es
    → find k ((n, e) ∷ es) ≡ find k es
find_other k n e es ne h = elim (order n k) [
  | inl a ↦ find_later k n e es a
  | inr (inl (a, b)) ↦ find_absent k n e es b ∙ sym (find-AllAfter k es (AllAfter-trans k n es b h))
  | inr (inr (a, (b, c))) ↦ elim (ne (sym c)) [ ]
]

pub find-insert :
    (n : Name) (v : Option Entry) (es : Entries)
    → find n es ≡ none
    → find n (insert n v es) ≡ some v
unfolding insert
find-insert n v [] h = find_here n v []
find-insert n v ((m, e) ∷ es) h = elim (order m n) [
  | inl a ↦
      rw a
        (find_later n m e (insert n v es) a ∙ find-insert n v es (sym (find_later n m e es a) ∙ h))
  | inr (inl (a, b)) ↦ rw (a, b) (find_here n v ((m, e) ∷ es))
  | inr (inr (a, (b, c))) ↦ cc (ap (λ x. find x ((m, e) ∷ es)) c, find_here m e es, h)
]

pub find-insert_other :
    (k n : Name) (v : Option Entry) (es : Entries)
    → IsSorted es
    → k ≢ n
    → find k (insert n v es) ≡ find k es
unfolding insert
find-insert_other k n v [] s ne = find_other k n v [] ne tt
find-insert_other k n v ((m, e) ∷ es) (h, s) ne = elim (order m n) [
  | inl a ↦ rw a (find_cons k m e (insert n v es) es (find-insert_other k n v es s ne))
  | inr (inl (a, b)) ↦ rw (a, b) (find_other k n v ((m, e) ∷ es) ne (b, AllAfter-trans n m es b h))
  | inr (inr (a, (b, c))) ↦ rw (a, b) refl
]

pub find-erase : (n : Name) (es : Entries) → IsSorted es → find n (erase n es) ≡ none
unfolding erase
find-erase n [] s = find-AllAfter n [] tt
find-erase n ((m, e) ∷ es) (h, s) = elim (order m n) [
  | inl a ↦ rw a (find_later n m e (erase n es) a ∙ find-erase n es s)
  | inr (inl (a, b)) ↦ rw (a, b) (find_absent n m e es b)
  | inr (inr (a, (b, c))) ↦ rw (a, b) (ap (λ x. find x es) (sym c) ∙ find-AllAfter m es h)
]

pub find-erase_other :
    (k n : Name) (es : Entries) → IsSorted es → k ≢ n → find k (erase n es) ≡ find k es
unfolding erase
find-erase_other k n [] s ne = refl
find-erase_other k n ((m, e) ∷ es) (h, s) ne = elim (order m n) [
  | inl a ↦ rw a (find_cons k m e (erase n es) es (find-erase_other k n es s ne))
  | inr (inl (a, b)) ↦ rw (a, b) refl
  | inr (inr (a, (b, c))) ↦ rw (a, b) (sym (find_other k m e es (λ q. ne (q ∙ c)) h))
]
