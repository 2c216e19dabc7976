-- ===== src/Libdyn/Init/Life.antt =====
-- The life of a simulation: `libdyn_simulation_init`, then `libdyn_del_simulation`.
use ortd.Prelude.{
  ℕ, suc, ◌<◌, ◌≡◌, refl, sym, ap, ◌∙◌, inl, inr, Bool, true, false, Option, none, some, List, ◌++◌,
  leb, arith, Bool-cases, dec_lt,
}
use ortd.Libdyn.Init.{
  Flag, preinit, init, postinit, destructor, postdestructor, Simulation, callinitflag,
  simulation_init, del_simulation, has_destructor,
}
use ortd.Libdyn.Init.Undo.{NoErrors, result_at}
use ortd.Libdyn.Init.Calls.{deletion, deletion-cong, deletion_none, calls, every, run, run-append}
use ortd.Libdyn.Init.Callinit.{Succeeded, Failed, CallinitDid, callinitflag_lem}
use ortd.Libdyn.Init.Delete.{del_simulation_lem}

lt_trans_eq : {a b c : ℕ} → a ≡ b → c < a → c < b
lt_trans_eq e h = omega arith

module _ {W : Type 0} (comp_func : Flag → ℕ → W → Bool × W) where
  success :
      (flag : Flag) (dtor : Option Flag) (s : Simulation W) (r : Bool × Simulation W)
      → CallinitDid comp_func flag dtor s r
      → r.0 ≡ true
      → Succeeded comp_func flag dtor s r.1
  unfolding CallinitDid
  success flag dtor s (true, t) d e = d
  success flag dtor s (false, t) d e = cc

  never_fails :
      (flag : Flag) (s : Simulation W) (r : Bool × Simulation W)
      → CallinitDid comp_func flag none s r
      → Succeeded comp_func flag none s r.1
  unfolding CallinitDid
  never_fails flag s (true, t) d = d
  never_fails flag s (false, t) d = elim d [ ]

  -- What the deletion adds to the calls so far.
  delete_after :
      (n : ℕ) (cs : List (Flag × ℕ)) (f : ℕ → Bool) (w : W) (t : Simulation W)
      → t.num_blocks ≡ n
      → t.world ≡ run comp_func cs w
      → ((b : ℕ) → b < n → t.block_initialised b ≡ f b)
      → (del_simulation comp_func t).world ≡ run comp_func (cs ++ deletion n f) w
  delete_after n cs f w t k e h =
      (del_simulation_lem comp_func t).0
      ∙ ap (λ m. run comp_func (deletion m t.block_initialised) t.world) k
      ∙ ap (λ d. run comp_func d t.world) (deletion-cong n t.block_initialised f h)
      ∙ ap (run comp_func (deletion n f)) e
      ∙ sym (run-append comp_func cs (deletion n f) w)

  after :
      (cs ds : List (Flag × ℕ)) (u v w : W)
      → u ≡ run comp_func cs w
      → v ≡ run comp_func ds u
      → v ≡ run comp_func (cs ++ ds) w
  after cs ds u v w e h = h ∙ ap (run comp_func ds) e ∙ sym (run-append comp_func cs ds w)

  unmarked :
      (s : Simulation W) {t : Simulation W}
      → ((b : ℕ) → b < s.num_blocks → s.block_initialised b ≡ false)
      → (u : Failed comp_func preinit postdestructor s t) → (c : ℕ) → c < s.num_blocks
      → t.block_initialised c ≡ false
  unmarked s fresh u c k = elim (Bool-cases (leb u.abort_at c)) [
    | inl e ↦ u.kept c (ground arith) ∙ fresh c k
    | inr e ↦ u.cleared c (ground arith)
  ]

  marked :
      (s t : Simulation W) (n : ℕ)
      → (v : Failed comp_func init destructor s t)
      → ((c : ℕ) → c < n → s.block_initialised c ≡ true)
      → (c : ℕ) → c < n
      → t.block_initialised c ≡ leb v.abort_at c
  marked s t n v set c k = elim (Bool-cases (leb v.abort_at c)) [
    | inl e ↦ v.kept c (ground arith) ∙ set c k ∙ sym e
    | inr e ↦ v.cleared c (ground arith) ∙ sym e
  ]

  for_blocks :
      (flag : Flag) (s : Simulation W) (n : ℕ) {w : W}
      → w ≡ run comp_func (calls flag every s.num_blocks) s.world
      → s.num_blocks ≡ n
      → w ≡ run comp_func (calls flag every n) s.world
  for_blocks flag s n e h = e ∙ ap (λ m. run comp_func (calls flag every m) s.world) h

  abbrev pub preinit_stage : Simulation W → Bool × Simulation W
  preinit_stage s = callinitflag comp_func preinit (some postdestructor) s

  abbrev pub init_stage : Simulation W → Bool × Simulation W
  init_stage s = callinitflag comp_func init (some destructor) (preinit_stage s).1

  postinit_stage : Simulation W → Bool × Simulation W
  postinit_stage s = callinitflag comp_func postinit none (init_stage s).1

  after_preinit :
      (s : Simulation W)
      → (preinit_stage s).0 ≡ false
      → simulation_init comp_func s ≡ (false, (preinit_stage s).1)
  unfolding simulation_init
  after_preinit s p = rw p refl

  after_init :
      (s : Simulation W)
      → (preinit_stage s).0 ≡ true
      → (init_stage s).0 ≡ false
      → simulation_init comp_func s ≡ (false, (init_stage s).1)
  unfolding simulation_init
  after_init s p q = rw (p, q) refl

  after_postinit :
      (s : Simulation W)
      → (preinit_stage s).0 ≡ true
      → (init_stage s).0 ≡ true
      → simulation_init comp_func s ≡ (true, (postinit_stage s).1)
  unfolding simulation_init postinit_stage
  after_postinit s p q = rw (p, q) refl

  simulation_init-ok :
      (s : Simulation W)
      → (simulation_init comp_func s).0 ≡ true
      → ((preinit_stage s).0 ≡ true) × ((init_stage s).0 ≡ true)
  simulation_init-ok s e = elim (Bool-cases (preinit_stage s).0) [
    | inl p ↦ elim (Bool-cases (init_stage s).0) [
      | inl q ↦ (p, q)
      | inr q ↦ cc (ap (λ r. r.0) (after_init s p q))
    ]
    | inr p ↦ cc (ap (λ r. r.0) (after_preinit s p))
  ]

  preinit_did :
      (s : Simulation W) → CallinitDid comp_func preinit (some postdestructor) s (preinit_stage s)
  preinit_did s = callinitflag_lem comp_func preinit (some postdestructor) s

  init_did :
      (s : Simulation W)
      → CallinitDid comp_func init (some destructor) (preinit_stage s).1 (init_stage s)
  init_did s = callinitflag_lem comp_func init (some destructor) (preinit_stage s).1

  postinit_did :
      (s : Simulation W) → Succeeded comp_func postinit none (init_stage s).1 (postinit_stage s).1
  unfolding postinit_stage
  postinit_did s =
      never_fails postinit (init_stage s).1 (postinit_stage s)
        (callinitflag_lem comp_func postinit none (init_stage s).1)

  -- Where the initialisation succeeds, the life of a simulation with n blocks is, whatever the blocks
  -- do: the pre-init flag of the blocks 0 to n - 1, then their init flag, their post-init flag, and at
  -- the deletion their destructor and then their late destructor, each exactly once and in order.
  pub simulation_init-deletion :
      (s : Simulation W)
      → (simulation_init comp_func s).0 ≡ true
      → (del_simulation comp_func (simulation_init comp_func s).1).world
        ≡ run comp_func
            (((calls preinit every s.num_blocks ++ calls init every s.num_blocks)
                ++ calls postinit every s.num_blocks)
              ++ deletion s.num_blocks every)
            s.world
  simulation_init-deletion s e =
      let n = s.num_blocks in
      let (p, q) = simulation_init-ok s e in
      let u = success preinit (some postdestructor) s (preinit_stage s) (preinit_did s) p in
      let v = success init (some destructor) (preinit_stage s).1 (init_stage s) (init_did s) q in
      let w = postinit_did s in
      rw (after_postinit s p q) (
        delete_after n ((calls preinit every n ++ calls init every n) ++ calls postinit every n)
          every s.world (postinit_stage s).1 (w.num_blocks ∙ v.num_blocks ∙ u.num_blocks)
          (after (calls preinit every n ++ calls init every n) (calls postinit every n)
            (init_stage s).1.world (postinit_stage s).1.world s.world
            (after (calls preinit every n) (calls init every n) (preinit_stage s).1.world
              (init_stage s).1.world s.world u.world
              (for_blocks init (preinit_stage s).1 n v.world u.num_blocks))
            (for_blocks postinit (init_stage s).1 n w.world (v.num_blocks ∙ u.num_blocks)))
          (λ b k. w.set b (rw (v.num_blocks ∙ u.num_blocks) k)))

  -- Block p is the first one that returns an error to the flag, in this world.
  abbrev pub FirstError : Flag → ℕ → W → ℕ → Type 0
  FirstError flag n w p =
      (p < n) × NoErrors comp_func flag p w × (result_at comp_func flag w p ≡ true)

  first_unique :
      (flag : Flag) (n m : ℕ) (w : W) (p q : ℕ)
      → FirstError flag n w p
      → FirstError flag m w q
      → p ≡ q
  first_unique flag n m w p q (hp, np, ep) (hq, nq, errs) = elim (dec_lt p q) [
    | yes k ↦ cc (sym (nq p k) ∙ ep)
    | no k ↦ elim (dec_lt q p) [ yes l ↦ cc (sym (np q l) ∙ errs) | no l ↦ omega arith ]
  ]

  -- With a first error, the stage fails there.
  fails_at :
      (flag d : Flag) (s : Simulation W) (r : Bool × Simulation W) (p : ℕ)
      → FirstError flag s.num_blocks s.world p
      → CallinitDid comp_func flag (some d) s r
      → (r.0 ≡ false) × ((u : Failed comp_func flag d s r.1) × (u.abort_at ≡ p))
  unfolding CallinitDid has_destructor
  fails_at flag d s (true, t) p f c = cc (sym (c.no_errors refl p f.0) ∙ f.2)
  fails_at flag d s (false, t) p f u = (
    refl,
    (
      u,
      first_unique flag s.num_blocks s.num_blocks s.world u.abort_at p
          (u.abort_lt, u.first, u.error) f,
    ),
  )

  succeeds :
      (flag d : Flag) (s : Simulation W) (r : Bool × Simulation W)
      → NoErrors comp_func flag s.num_blocks s.world
      → CallinitDid comp_func flag (some d) s r
      → r.0 ≡ true
  unfolding CallinitDid
  succeeds flag d s (true, t) f c = refl
  succeeds flag d s (false, t) f u = cc (sym (f u.abort_at u.abort_lt) ∙ u.error)

  -- Where no block was marked before and block p is the first one that returns an error to the pre-init
  -- flag, the life of the simulation, its deletion included, is: the pre-init flag of the blocks 0 to p,
  -- then the late destructor of the blocks 0 to p - 1. So the blocks whose pre-init flag succeeded are
  -- undone exactly once, and the others are left alone.
  pub preinit_error :
      (s : Simulation W) (p : ℕ)
      → ((b : ℕ) → b < s.num_blocks → s.block_initialised b ≡ false)
      → FirstError preinit s.num_blocks s.world p
      → (del_simulation comp_func (simulation_init comp_func s).1).world
        ≡ run comp_func (calls preinit every (suc p) ++ calls postdestructor every p) s.world
  unfolding run
  preinit_error s p fresh f =
      let (e, (u, at)) = fails_at preinit postdestructor s (preinit_stage s) p f (preinit_did s) in
      rw⁻¹ at (
        rw (after_preinit s e) (
          (del_simulation_lem comp_func (preinit_stage s).1).0
          ∙ ap (λ d. run comp_func d (preinit_stage s).1.world)
              (deletion_none (preinit_stage s).1.num_blocks (preinit_stage s).1.block_initialised
                (λ c k. unmarked s fresh u c (lt_trans_eq u.num_blocks k)))
          ∙ u.world))

  -- Where no block returns an error to the pre-init flag, and block p is the first one that returns an
  -- error to the init flag after it, the blocks 0 to p - 1 get the destructor at once. The deletion then
  -- calls the destructor of the blocks p to n - 1, none of which has been initialised, and the late
  -- destructor of these blocks only: the blocks 0 to p - 1, whose pre-init flag had succeeded, never
  -- get it.
  pub init_error :
      (s : Simulation W) (p : ℕ)
      → NoErrors comp_func preinit s.num_blocks s.world
      → FirstError init s.num_blocks (run comp_func (calls preinit every s.num_blocks) s.world) p
      → (del_simulation comp_func (simulation_init comp_func s).1).world
        ≡ run comp_func
            ((calls preinit every s.num_blocks
                ++ (calls init every (suc p) ++ calls destructor every p))
              ++ deletion s.num_blocks (leb p))
            s.world
  init_error s p none_ f =
      let n = s.num_blocks in
      let e = succeeds preinit postdestructor s (preinit_stage s) none_ (preinit_did s) in
      let u = success preinit (some postdestructor) s (preinit_stage s) (preinit_did s) e in
      let (h, (v, at)) =
        fails_at init destructor (preinit_stage s).1 (init_stage s) p (rw (u.num_blocks, u.world) f)
          (init_did s) in
      rw⁻¹ at (
        rw (after_init s e h) (
          delete_after n
            (calls preinit every n
              ++ (calls init every (suc v.abort_at) ++ calls destructor every v.abort_at))
            (leb v.abort_at) s.world (init_stage s).1 (v.num_blocks ∙ u.num_blocks)
            (after (calls preinit every n)
              (calls init every (suc v.abort_at) ++ calls destructor every v.abort_at)
              (preinit_stage s).1.world (init_stage s).1.world s.world u.world v.world)
            (marked (preinit_stage s).1 (init_stage s).1 n v (λ c k. u.set c k))))
