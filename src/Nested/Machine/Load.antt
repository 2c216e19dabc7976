-- ===== src/Nested/Machine/Load.antt =====
-- The loop that loads the schematics of a nest.
use ortd.Prelude.{
  ℕ, zero, suc, ◌+◌, ◌≤◌, ◌<◌, ◌≡◌, ◌≢◌, refl, ap, ◌∙◌, true, Option, some, pos, ◌==◌,
  if◌then◌else◌, arith,
}
use ortd.Nested.Slots.{Nest, add_next}
use ortd.Nested.Slots.Invariant.{IsValid, IsNew, add_next-IsValid}
use ortd.Nested.Machine.{if_added, load_schematics}

module _ {W : Type 0} (make : ℕ → ℕ) (once : (i j : ℕ) → make i ≡ make j → i ≡ j) where
  -- The simulations for the schematics from `first` on exist, and stand in no slot yet.
  pub record IsReady (first : ℕ) (s : Nest W) : Type 0 where
    pub exists : (k : ℕ) → first ≤ k → s.alive (make k) ≡ true
    pub nowhere : (k i : ℕ) → first ≤ k → s.sim i ≢ some (make k)

  -- Slot `used_slots` of `s` and those after it hold the n schematics from `first` on.
  pub record IsLoaded (first n : ℕ) (s t : Nest W) : Type 0 where
    pub valid : IsValid t
    pub used : t.used_slots ≡ s.used_slots + n
    pub loaded : (i : ℕ) → i < n → t.sim (s.used_slots + i) ≡ some (make (first + i))
    pub kept : (i : ℕ) → i < s.used_slots → t.sim i ≡ s.sim i

  record Added (first : ℕ) (s t : Nest W) : Type 0 where
    result : add_next (make first) s ≡ (pos 1, t)
    valid : IsValid t
    used : t.used_slots ≡ s.used_slots + 1
    num : t.num_slots ≡ s.num_slots
    sim : (i : ℕ) → t.sim i ≡ (if i == s.used_slots then some (make first) else s.sim i)
    ready : IsReady (suc first) t

  add_one :
      (first : ℕ) (s : Nest W)
      → IsValid s
      → IsReady first s
      → s.used_slots < s.num_slots
      → Added first s (add_next (make first) s).1
  unfolding add_next
  add_one first s v r h =
      let n : IsNew (make first) s = record {
        exists = r.exists first (omega arith);
        nowhere = λ i. r.nowhere first i (omega arith);
      } in
      record {
        result = ground (arith, v.configured, v.counted);
        valid = add_next-IsValid (make first) s v n;
        used = ground (arith, v.configured, v.counted);
        num = ground (arith, v.configured, v.counted);
        sim = λ i. ground (arith, v.configured, v.counted);
        ready = record {
          exists = λ k g. ground (arith, v.configured, r.exists k (omega arith));
          nowhere = λ k i g e. ground (arith, v.configured, v.counted, r.nowhere k i, once first k);
        };
      }

  load_step :
      (setup : ℕ → Option ℕ) (first n c r : ℕ) (s t : Nest W)
      → setup first ≡ some c
      → add_next c s ≡ (pos r, t)
      → load_schematics setup first (suc n) s ≡ load_schematics setup (suc first) n t
  unfolding load_schematics if_added
  load_step setup first n c r s t e f = rw (e, f) refl

  loaded_at :
      (first n i : ℕ) (s s' t : Nest W)
      → Added first s s'
      → IsLoaded (suc first) n s' t
      → i < suc n
      → t.sim (s.used_slots + i) ≡ some (make (first + i))
  loaded_at first n zero s s' t a l h =
      ap t.sim (omega arith)
      ∙ l.kept s.used_slots (omega (arith, a.used))
      ∙ a.sim s.used_slots
      ∙ ground arith
  loaded_at first n (suc j) s s' t a l h =
      ap t.sim (omega (arith, a.used))
      ∙ l.loaded j (omega arith)
      ∙ ap (λ k. some (make k)) (omega arith)

  loads :
      (first n : ℕ) (s s' t : Nest W)
      → Added first s s'
      → IsLoaded (suc first) n s' t
      → IsLoaded first (suc n) s t
  loads first n s s' t a l = record {
    valid = l.valid;
    used = omega (arith, l.used, a.used);
    loaded = λ i k. loaded_at first n i s s' t a l k;
    kept = λ i k. l.kept i (omega (arith, a.used)) ∙ a.sim i ∙ ground arith;
  }

  -- Where the set-up of each schematic succeeds with a new simulation, and there are slots enough, the
  -- loop succeeds too: the slots are valid, the schematics stand in the next slots in their order, and
  -- the slots in use before are as they were.
  pub load_schematics_lem :
      (setup : ℕ → Option ℕ) (first n : ℕ) (s : Nest W)
      → IsValid s
      → IsReady first s
      → ((k : ℕ) → first ≤ k → setup k ≡ some (make k))
      → s.used_slots + n ≤ s.num_slots
      → (t : Nest W) × ((load_schematics setup first n s ≡ some t) × IsLoaded first n s t)
  unfolding load_schematics
  load_schematics_lem setup first zero s v r g h = (
    s,
    (
      refl,
      record { valid = v; used = omega arith; loaded = λ i k. elim k [ ]; kept = λ i k. refl },
    ),
  )
  load_schematics_lem setup first (suc n) s v r g h =
      let a = add_one first s v r (omega arith) in
      let s' = (add_next (make first) s).1 in
      let (t, (e, l)) =
        load_schematics_lem setup (suc first) n s' a.valid a.ready (λ k m. g k (omega arith))
          (omega (arith, a.used, a.num)) in
      (
        t,
        (
          load_step setup first n (make first) 1 s s' (g first (omega arith)) a.result ∙ e,
          loads first n s s' t a l,
        ),
      )
