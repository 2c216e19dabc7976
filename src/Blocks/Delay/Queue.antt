-- ===== src/Blocks/Delay/Queue.antt =====
-- The rotating buffer is a queue: what is put out is the input of as many steps ago as it is long.
use mathlib.Core.List.{append_assoc, append-nil}
use ortd.Prelude.{
  ℕ, zero, suc, ◌+◌, ◌-◌, ◌<◌, ◌≡◌, refl, sym, ap, ◌∙◌, some, List, [], ◌∷◌, ◌++◌, lt→ltb,
  lt→leb_false, le→leb, pos, dec_lt, set, get_elem?, replicate, length, length-set,
  length-replicate, take, drop, arith,
}
use ortd.Blocks.Delay.{Delay, delay_init, delay_outputs, delay_update, delay_run, cleared}

module _ {A : Type 0} where
  get_elem?-drop :
      (xs : List A) (i : ℕ)
      → i < length xs
      → (x : A) × (get_elem? xs i ≡ some x) × (drop i xs ≡ x ∷ drop (suc i) xs)
  get_elem?-drop [] i h = elim h [ ]
  get_elem?-drop (x ∷ xs) zero h = (x, refl, refl)
  get_elem?-drop (x ∷ xs) (suc i) h = get_elem?-drop xs i (omega arith)

  drop-set : (xs : List A) (i : ℕ) (v : A) → drop (suc i) (set xs i v) ≡ drop (suc i) xs
  drop-set [] i v = refl
  drop-set (x ∷ xs) zero v = refl
  drop-set (x ∷ xs) (suc i) v = drop-set xs i v

  take-set :
      (xs : List A) (i : ℕ) (v : A)
      → i < length xs
      → take (suc i) (set xs i v) ≡ take i xs ++ v ∷ []
  take-set [] i v h = elim h [ ]
  take-set (x ∷ xs) zero v h = refl
  take-set (x ∷ xs) (suc i) v h = ap (λ ys. x ∷ ys) (take-set xs i v (omega arith))

  take_all : (xs : List A) → take (length xs) xs ≡ xs
  take_all [] = refl
  take_all (x ∷ xs) = ap (λ ys. x ∷ ys) (take_all xs)

  drop_all : (xs : List A) → drop (length xs) xs ≡ []
  drop_all [] = refl
  drop_all (x ∷ xs) = drop_all xs

  -- The elements in the order in which they come out.
  pub queue : Delay A → List A
  queue d = drop d.buf_position_read d.rot_buf ++ take d.buf_position_read d.rot_buf

  pub record IsValid (n : ℕ) (d : Delay A) : Type 0 where
    pub size : length d.rot_buf ≡ n
    pub inside : d.buf_position_read < n

  -- One step of a valid delay.
  record Stepped (n : ℕ) (x : A) (d : Delay A) : Type 0 where
    out : A
    next : Delay A
    put_out : delay_outputs d ≡ some out
    updated : delay_update n x d ≡ some next
    valid : IsValid n next
    order : queue d ++ x ∷ [] ≡ out ∷ queue next

  -- The reader goes on to the next place.
  stepped_on :
      (n : ℕ) (x : A) (d : Delay A) → IsValid n d → d.buf_position_read + 1 < n → Stepped n x d
  unfolding delay_outputs delay_update queue
  stepped_on n x d v h =
      let p = d.buf_position_read in
      let inside : p < length d.rot_buf = omega (arith, v.size, v.inside) in
      let (y, e, split) = get_elem?-drop d.rot_buf p inside in
      let p1 : p + 1 ≡ suc p = omega arith in
      record {
        out = y;
        next = record { buf_position_read = p + 1; rot_buf = set d.rot_buf p x };
        put_out = e;
        updated =
            rw (lt→ltb p (length d.rot_buf) inside, lt→leb_false {a = n - 1} {b = p} (omega arith));
        valid = omega (arith, v.size, length-set d.rot_buf p x);
        order =
            rw (p1, drop-set, take-set d.rot_buf p x inside, split)
              (append_assoc (y ∷ drop (suc p) d.rot_buf) (take p d.rot_buf) (x ∷ []));
      }

  -- The reader goes back to the beginning.
  stepped_round :
      (n : ℕ) (x : A) (d : Delay A) → IsValid n d → d.buf_position_read + 1 ≡ n → Stepped n x d
  unfolding delay_outputs delay_update queue
  stepped_round n x d v h =
      let p = d.buf_position_read in
      let inside : p < length d.rot_buf = omega (arith, v.size, v.inside) in
      let (y, e, split) = get_elem?-drop d.rot_buf p inside in
      let last : suc p ≡ length d.rot_buf = omega (arith, v.size) in
      let last' : suc p ≡ length (set d.rot_buf p x) =
        omega (arith, v.size, length-set d.rot_buf p x) in
      record {
        out = y;
        next = record { buf_position_read = 0; rot_buf = set d.rot_buf p x };
        put_out = e;
        updated = rw (lt→ltb p (length d.rot_buf) inside, le→leb (n - 1) p (omega arith));
        valid = omega (arith, v.size, length-set d.rot_buf p x);
        order =
            rw (split, ap (λ k. drop k d.rot_buf) last, drop_all, append-nil)
              (ap (λ ys. y ∷ ys)
                (sym (take-set d.rot_buf p x inside)
                  ∙ ap (λ k. take k (set d.rot_buf p x)) last'
                  ∙ take_all (set d.rot_buf p x)));
      }

  stepped : (n : ℕ) (x : A) (d : Delay A) → IsValid n d → Stepped n x d
  stepped n x d v = elim (dec_lt (d.buf_position_read + 1) n) [
    | yes h ↦ stepped_on n x d v h
    | no h ↦ stepped_round n x d v (omega (arith, v.inside))
  ]

  -- The outputs of a valid delay, and what stands in its buffer then.
  delay_run-queue :
      (n : ℕ) (xs : List A) (d : Delay A)
      → IsValid n d
      → (outs : List A) × (d' : Delay A) × (delay_run n xs d ≡ some (outs, d'))
        × (length outs ≡ length xs)
        × (outs ++ queue d' ≡ queue d ++ xs)
  unfolding delay_run
  delay_run-queue n [] d v = ([], d, refl, refl, sym (append-nil (queue d)))
  delay_run-queue n (x ∷ xs) d v =
      let s = stepped n x d v in
      let (outs, d', run, size, order) = delay_run-queue n xs s.next s.valid in
      (
        s.out ∷ outs,
        d',
        rw (s.put_out, s.updated, run),
        ap suc size,
        ap (λ ys. s.out ∷ ys) order
            ∙ ap (λ ys. ys ++ xs) (sym s.order)
            ∙ append_assoc (queue d) (x ∷ []) xs,
      )

take-append_left {ℓ} :
    {A : Type ℓ} (xs ys : List A) (n : ℕ) → length xs ≡ n → take n (xs ++ ys) ≡ xs
take-append_left [] ys zero h = refl
take-append_left [] ys (suc n) h = absurd (omega arith)
take-append_left (x ∷ xs) ys zero h = absurd (omega arith)
take-append_left (x ∷ xs) ys (suc n) h = ap (λ zs. x ∷ zs) (take-append_left xs ys n (omega arith))

-- A delay block of length n + 1 is initialised, each step is free of accesses outside of its buffer,
-- and the outputs of the first steps are n + 1 zeros, followed by the inputs in their order.
pub delay_run-init :
    {A : Type 0} (nought : A) (n : ℕ) (xs : List A)
    → (d d' : Delay A) × (delay_init nought (pos (suc n)) ≡ some d)
      × (delay_run (suc n) xs d ≡ some (take (length xs) (replicate (suc n) nought ++ xs), d'))
unfolding delay_init queue
delay_run-init {A} nought n xs =
    let start = cleared nought (suc n) in
    let (outs, d', run, size, order) =
      delay_run-queue (suc n) xs start (omega (arith, length-replicate (suc n) nought)) in
    (
      start,
      d',
      ground arith,
      run
          ∙ ap (λ ys. some (ys, d'))
              (sym (take-append_left outs (queue d') (length xs) size)
                ∙ ap (λ ys. take (length xs) ys)
                    (order ∙ ap (λ ys. ys ++ xs) (append-nil (replicate (suc n) nought)))),
    )
