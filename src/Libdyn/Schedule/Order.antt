-- ===== src/Libdyn/Schedule/Order.antt =====
-- What a good execution list is, and how it grows at its end.
use ortd.Prelude.{ℕ, ◌<◌, ◌≡◌, ◌⊎◌, inl, inr, List, [], ◌∷◌, ◌++◌, InList, here, there}
use ortd.Libdyn.{Network, extern, direct}
use ortd.Libdyn.Wiring.{IsPure}

-- The input is fed by memory of the caller, or connected to an output of a block of the list.
abbrev pub Fed : Network → List ℕ → ℕ → ℕ → Type 0
Fed net d c i =
    ((net.in_port c i).intype ≡ extern)
    ⊎ (((net.in_port c i).intype ≡ direct) × InList (net.in_port c i).pre d)

-- Block `c` may follow the blocks of `d`.
abbrev pub Ready : Network → List ℕ → ℕ → Type 0
Ready net d c = IsPure net c ⊎ ((i : ℕ) → i < (net.block c).nin → Fed net d c i)

-- Each block of the list may follow those before it, the blocks of `d` among them.
abbrev pub Ordered : Network → List ℕ → List ℕ → Type 0
Ordered net d [] = Unit
Ordered net d (c ∷ l) = Ready net d c × Ordered net (c ∷ d) l

-- The list backwards, in front of `d`.
abbrev before : List ℕ → List ℕ → List ℕ
before [] d = d
before (c ∷ l) d = before l (c ∷ d)

InList-before_rest : {a : ℕ} (l d : List ℕ) → InList a d → InList a (before l d)
InList-before_rest [] d m = m
InList-before_rest (c ∷ l) d m = InList-before_rest l (c ∷ d) (there m)

InList-before : {a : ℕ} (l d : List ℕ) → InList a l → InList a (before l d)
InList-before [] d m = elim m [ ]
InList-before (c ∷ l) d (here e) = InList-before_rest l (c ∷ d) (here e)
InList-before (c ∷ l) d (there m) = InList-before l (c ∷ d) m

Fed-map :
    (net : Network) {d d' : List ℕ} (c i : ℕ)
    → ((a : ℕ) → InList a d → InList a d')
    → Fed net d c i
    → Fed net d' c i
Fed-map net c i f (inl e) = inl e
Fed-map net c i f (inr m) = inr (m.0, f _ m.1)

Ready-before : (net : Network) (l d : List ℕ) (c : ℕ) → Ready net l c → Ready net (before l d) c
Ready-before net l d c (inl p) = inl p
Ready-before net l d c (inr h) = inr (λ i k. Fed-map net c i (λ a. InList-before l d) (h i k))

Ordered-snoc_before :
    (net : Network) (l d : List ℕ) (c : ℕ)
    → Ready net (before l d) c
    → Ordered net d l
    → Ordered net d (l ++ c ∷ [])
Ordered-snoc_before net [] d c r o = (r, tt)
Ordered-snoc_before net (x ∷ l) d c r o = (o.0, Ordered-snoc_before net l (x ∷ d) c r o.1)

-- A block that may follow the whole list may be added at its end.
pub Ordered-snoc :
    (net : Network) (l : List ℕ) (c : ℕ)
    → Ready net l c
    → Ordered net [] l
    → Ordered net [] (l ++ c ∷ [])
Ordered-snoc net l c r o = Ordered-snoc_before net l [] c (Ready-before net l [] c r) o
