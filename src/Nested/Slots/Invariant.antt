-- ===== src/Nested/Slots/Invariant.antt =====
-- What holds of the slots between two operations, and which operations keep it.
use ortd.Prelude.{
  ℕ, ◌≤◌, ◌<◌, ◌≡◌, ◌≢◌, refl, inl, inr, true, false, Option, none, some, ℤ, pos, negsuc, arith,
  Option-cases,
}
use ortd.Nested.Slots.{
  Nest, is_free, delete, slotindex_ok, add_next, is_current_simulation, remove, del_simulation,
  switch_to, set_current_simulation,
}

module _ {W : Type 0} where
  -- The current simulation is that of the slot `current_slot_nr`, which is in use; no simulation
  -- stands in two slots, and none that is deleted stands in any.
  pub record IsValid (s : Nest W) : Type 0 where
    pub configured : s.configured ≡ true
    pub unlocked : s.locked ≡ false
    pub counted : s.used_slots ≡ s.add_pointer
    pub within : s.add_pointer ≤ s.num_slots
    pub current : s.current_sim ≡ s.sim s.current_slot_nr
    pub slot : 0 < s.used_slots → s.current_slot ≡ s.current_slot_nr
    pub in_use : 0 < s.used_slots → is_free (s.sim s.current_slot_nr) ≡ false
    pub in_range : 0 < s.used_slots → s.current_slot_nr < s.used_slots
    pub living : (i c : ℕ) → s.sim i ≡ some c → s.alive c ≡ true
    pub distinct : (i j c : ℕ) → s.sim i ≡ some c → s.sim j ≡ some c → i ≡ j

  -- A simulation that exists and stands in no slot.
  pub record IsNew (sim : ℕ) (s : Nest W) : Type 0 where
    pub exists : s.alive sim ≡ true
    pub nowhere : (i : ℕ) → s.sim i ≢ some sim

  pub add_next-IsValid :
      (sim : ℕ) (s : Nest W) → IsValid s → IsNew sim s → IsValid (add_next sim s).1
  unfolding add_next is_free
  add_next-IsValid sim s v n = record {
    configured = ground arith;
    unlocked = ground arith;
    counted = ground arith;
    within = ground arith;
    current = ground arith;
    slot = λ h. ground arith;
    in_use = λ h. ground arith;
    in_range = λ h. ground arith;
    living = λ i c e. ground (arith, v.living i c);
    distinct = λ i j c e f. ground (arith, v.distinct i j c, n.nowhere i, n.nowhere j);
  }

  remove-IsValid :
      (slot c : ℕ) (s : Nest W)
      → IsValid s
      → s.sim slot ≡ some c
      → slot ≢ s.current_slot_nr
      → IsValid (remove slot s)
  unfolding remove delete
  remove-IsValid slot c s v e ne = record {
    configured = v.configured;
    unlocked = v.unlocked;
    counted = v.counted;
    within = v.within;
    current = ground (arith, v.current);
    slot = v.slot;
    in_use = λ h. ground (arith, v.in_use h);
    in_range = v.in_range;
    living = λ i d f. ground (arith, v.living i d, v.distinct i slot d);
    distinct = λ i j d f g. ground (arith, v.distinct i j d);
  }

  used-remove : (slot : ℕ) (s : Nest W) → (remove slot s).used_slots ≡ s.used_slots
  unfolding remove
  used-remove slot s = refl

  used-switch_to : (slot : ℕ) (s : Nest W) → (switch_to slot s).used_slots ≡ s.used_slots
  unfolding switch_to
  used-switch_to slot s = refl

  switch_to-IsValid :
      (slot c : ℕ) (s : Nest W)
      → IsValid s
      → s.sim slot ≡ some c
      → slot < s.used_slots
      → IsValid (switch_to slot s)
  unfolding switch_to is_free
  switch_to-IsValid slot c s v e h = record {
    configured = v.configured;
    unlocked = v.unlocked;
    counted = v.counted;
    within = v.within;
    current = refl;
    slot = λ k. refl;
    in_use = λ k. rw e refl;
    in_range = λ k. h;
    living = v.living;
    distinct = v.distinct;
  }

  -- The operation ends, in a valid state with as many slots in use.
  unfoldable pub Keeps {ℓ} : {A : Type ℓ} → Nest W → Option (A × Nest W) → Type 0
  Keeps s none = ⊥
  Keeps s (some (r, t)) = IsValid t × (t.used_slots ≡ s.used_slots)

  pub del_simulation-IsValid : (slot : ℕ) (s : Nest W) → IsValid s → Keeps s (del_simulation slot s)
  unfolding del_simulation is_current_simulation slotindex_ok is_free Keeps
  del_simulation-IsValid slot s v = elim (Option-cases (s.sim slot)) [
    | inl e ↦ ground (arith, e, v)
    | inr (c, e) ↦ ground (arith, e, v, remove-IsValid slot c s v e, used-remove slot s)
  ]

  pub set_current_simulation-IsValid :
      (slot : ℤ) (s : Nest W) → IsValid s → Keeps s (set_current_simulation slot s)
  unfolding set_current_simulation slotindex_ok is_free Keeps
  set_current_simulation-IsValid (negsuc n) s v = (v, refl)
  set_current_simulation-IsValid (pos slot) s v = elim (Option-cases (s.sim slot)) [
    | inl e ↦ ground (arith, e, v)
    | inr (c, e) ↦ ground (arith, e, v, switch_to-IsValid slot c s v e, used-switch_to slot s)
  ]

  -- Steps of the simulations do not change the slots.
  pub world-IsValid : (s : Nest W) (w : W) → IsValid s → IsValid (record s { world = w })
  world-IsValid s w v = record {
    configured = v.configured;
    unlocked = v.unlocked;
    counted = v.counted;
    within = v.within;
    current = v.current;
    slot = v.slot;
    in_use = v.in_use;
    in_range = v.in_range;
    living = v.living;
    distinct = v.distinct;
  }
