-- ===== src/Nested/Slots/Current.antt =====
-- The current simulation over the life of the slots, and the operations that lose it.
use mathlib.Core.Path.{subst}
use ortd.Prelude.{
  ℕ, ◌<◌, ◌≡◌, refl, sym, Bool, true, false, Option, none, some, ℤ, pos, update, arith,
}
use ortd.Nested.Slots.{
  Nest, is_free, delete, slotindex_ok, allocate_slots, add_next, add_at, is_current_simulation,
  remove, del_simulation, del_and_switch, set_current_simulation, reset_slot,
}
use ortd.Nested.Slots.Invariant.{
  IsValid, IsNew, Keeps, add_next-IsValid, del_simulation-IsValid, set_current_simulation-IsValid,
}

module _ {W : Type 0} where
  -- One operation on the slots.
  pub data Step : Nest W → Nest W → Type 0 where
    added : (s : Nest W) (sim : ℕ) → IsNew sim s → Step s (add_next sim s).1
    deleted : (s t : Nest W) (slot : ℕ) (r : ℤ) → del_simulation slot s ≡ some (r, t) → Step s t
    switched :
        (s t : Nest W) (slot : ℤ) (r : Option Bool)
        → set_current_simulation slot s ≡ some (r, t)
        → Step s t

  pub data Reach (s : Nest W) : Nest W → Type 0 where
    start : Reach s s
    next : {t u : Nest W} → Reach s t → Step t u → Reach s u

  Keeps-IsValid :
      {A : Type 0} (s : Nest W) (o : Option (A × Nest W)) (r : A) (t : Nest W)
      → Keeps s o
      → o ≡ some (r, t)
      → IsValid t
  unfolding Keeps
  Keeps-IsValid s o r t k e = (subst (Keeps s) e k).0

  Step-IsValid : {s t : Nest W} → IsValid s → Step s t → IsValid t
  Step-IsValid v (added s sim n) = add_next-IsValid sim s v n
  Step-IsValid v (deleted s t slot r e) =
      Keeps-IsValid s (del_simulation slot s) r t (del_simulation-IsValid slot s v) e
  Step-IsValid v (switched s t slot r e) =
      Keeps-IsValid s (set_current_simulation slot s) r t (set_current_simulation-IsValid slot s v)
        e

  pub Reach-IsValid : {s t : Nest W} → IsValid s → Reach s t → IsValid t
  Reach-IsValid v start = v
  Reach-IsValid v (next r st) = Step-IsValid (Reach-IsValid v r) st

  current_of :
      (s : Nest W) (o : Option ℕ)
      → o ≡ s.sim s.current_slot_nr
      → is_free (s.sim s.current_slot_nr) ≡ false
      → ((i c : ℕ) → s.sim i ≡ some c → s.alive c ≡ true)
      → (c : ℕ) × ((o ≡ some c) × (s.alive c ≡ true))
  unfolding is_free
  current_of s none e f l = cc
  current_of s (some c) e f l = (c, (refl, l s.current_slot_nr c (sym e)))

  pub allocated-IsValid :
      (s : Nest W) (n : ℕ)
      → s.configured ≡ false
      → s.current_sim ≡ none
      → IsValid (allocate_slots n s)
  unfolding allocate_slots
  allocated-IsValid s n e f = rw e (record {
    configured = refl;
    unlocked = refl;
    counted = refl;
    within = omega arith;
    current = f;
    slot = λ h. elim h [ ];
    in_use = λ h. elim h [ ];
    in_range = λ h. elim h [ ];
    living = λ i c g. cc;
    distinct = λ i j c g h. cc;
  })

  -- From slots that have just been allocated, after any additions of new simulations to the next slot,
  -- deletions of a slot and switches, and as soon as a simulation was added: there is a current
  -- simulation, it stands in a slot, and it has not been deleted.
  pub current_lives :
      (s t : Nest W) (n : ℕ)
      → s.configured ≡ false
      → s.current_sim ≡ none
      → Reach (allocate_slots n s) t
      → 0 < t.used_slots
      → (c : ℕ) × ((t.current_sim ≡ some c) × (t.alive c ≡ true))
  current_lives s t n e f r h =
      let v = Reach-IsValid (allocated-IsValid s n e f) r in
      current_of t t.current_sim v.current (v.in_use h) v.living

  -- `add_simulation` to a slot that was freed makes the new simulation the current one, but takes the
  -- number of the next free slot for its number: the deletion of this slot is then carried out, not
  -- refused, and the current simulation is a deleted one.
  pub add_at_loses :
      (s : Nest W) (slot sim : ℕ)
      → IsValid s
      → IsNew sim s
      → slot < s.used_slots
      → s.sim slot ≡ none
      → (t : Nest W) × ((add_at slot sim s ≡ some (pos 1, t))
          × ((u : Nest W) × ((del_simulation slot t ≡ some (pos 1, u))
                × ((u.current_sim ≡ some sim) × (u.alive sim ≡ false)))))
  unfolding add_at del_simulation remove delete is_current_simulation slotindex_ok is_free
  add_at_loses s slot sim v n h e =
      let t = record s {
        sim = update s.sim slot (some sim);
        initialised = update s.initialised slot false;
        current_sim = some sim;
        current_slot = slot;
        current_slot_nr = s.add_pointer;
      } in
      (t, (ground arith, (remove slot t, (ground arith, (refl, ground arith)))))

  -- `del_simulation` with a slot to switch to, given the same slot twice, makes the simulation that
  -- it deletes the current one.
  pub del_and_switch_self :
      (s : Nest W) (slot c : ℕ)
      → IsValid s
      → slot < s.used_slots
      → s.sim slot ≡ some c
      → (t : Nest W) × ((del_and_switch slot slot s ≡ some (pos 1, t))
          × ((t.current_sim ≡ some c) × (t.alive c ≡ false)))
  unfolding del_and_switch remove delete slotindex_ok is_free
  del_and_switch_self s slot c v h e =
      let t = record (remove slot s) { current_sim = s.sim slot } in
      (t, (ground arith, (e, ground arith)))

  -- `reset_blocks` of the slot of the current simulation is refused with the mutex held: every later
  -- switch, deletion or reset of a slot in use waits for ever.
  pub reset_slot_blocks :
      (reset : ℕ → W → W) (s : Nest W)
      → IsValid s
      → 0 < s.used_slots
      → (t : Nest W) × ((reset_slot reset s.current_slot_nr s ≡ some t)
          × ((slot : ℕ)
              → slot < s.used_slots
              → (set_current_simulation (pos slot) t ≡ none)
                × ((del_simulation slot t ≡ none) × (reset_slot reset slot t ≡ none))))
  unfolding reset_slot set_current_simulation del_simulation slotindex_ok
  reset_slot_blocks reset s v h =
      let t = record s { locked = true } in
      (t, (ground arith, λ slot k. (ground arith, (ground arith, ground arith))))
