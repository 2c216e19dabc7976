-- ===== src/Libdyn/Schedule/Reset.antt =====
-- The first pass of the scheduling algorithm, for the inputs of one block.
use native.Mathlib.Decide.{ℕ_discrete}
use ortd.Prelude.{
  ℕ, zero, suc, ◌+◌, ◌-◌, ◌≤◌, ◌<◌, ◌^◌, ◌≡◌, ◌≢◌, refl, sym, ap, ◌∙◌, inl, inr, Bool, true, false,
  ◌&&◌, failing, failing-cong, failing-le, arith, Bool-cases, if◌then◌else◌,
}
use ortd.Libdyn.{Network, InType, undef, direct, extern}
use ortd.Libdyn.Schedule.{Schedule, reset_input, reset_inputs, set_and_check_avail, is_extern}

-- What the loop over the first `i` inputs of block `b` has done.
pub record Reset (net : Network) (b i : ℕ) (s : Schedule) (out : Bool × Schedule) : Type 0 where
  pub exec : out.1.exec ≡ s.exec
  pub executed : out.1.executed ≡ s.executed
  pub other_inputs : (c j : ℕ) → c ≢ b → out.1.available c j ≡ s.available c j
  pub other_counts : (c : ℕ) → c ≢ b → out.1.remaining c ≡ s.remaining c
  pub cause : (j : ℕ) → j < i → out.1.available b j ≡ true → (net.in_port b j).intype ≡ extern
  pub attached : (j : ℕ) → j < i → (net.in_port b j).intype ≡ extern → out.1.available b j ≡ true
  pub count : out.1.remaining b + i ≡ s.remaining b + failing i (out.1.available b)
  pub complete : out.0 ≡ true → failing i (out.1.available b) ≡ 0
  pub incomplete : out.0 ≡ false → 0 < failing i (out.1.available b)

-- One input: available exactly if the memory of the caller feeds it.
record ResetOne (net : Network) (b i : ℕ) (s : Bool × Schedule) (out : Bool × Schedule)
    : Type 0 where
  exec : out.1.exec ≡ s.1.exec
  executed : out.1.executed ≡ s.1.executed
  other_blocks : (c j : ℕ) → c ≢ b → out.1.available c j ≡ s.1.available c j
  other_inputs : (j : ℕ) → j ≢ i → out.1.available b j ≡ s.1.available b j
  other_counts : (c : ℕ) → c ≢ b → out.1.remaining c ≡ s.1.remaining c
  cause : out.1.available b i ≡ true → (net.in_port b i).intype ≡ extern
  attached : (net.in_port b i).intype ≡ extern → out.1.available b i ≡ true
  count : out.1.remaining b + 1 ≡ s.1.remaining b + (if out.1.available b i then 0 else 1)
  flag : out.0 ≡ (s.0 && out.1.available b i)

extern_of : (t : InType) → is_extern t ≡ true → t ≡ extern
unfolding is_extern
extern_of undef e = cc
extern_of direct e = cc
extern_of extern e = refl

reset_input-extern :
    (net : Network) (b i n : ℕ) (s : Bool × Schedule)
    → s.1.remaining b ≡ suc n
    → n < 2 ^ 31
    → is_extern (net.in_port b i).intype ≡ true
    → ResetOne net b i s (reset_input net b i s)
unfolding reset_input set_and_check_avail
reset_input-extern net b i n s r h e = rw e (record {
  exec = refl;
  executed = refl;
  other_blocks = λ c j ne. ground arith;
  other_inputs = λ j ne. ground arith;
  other_counts = λ c ne. ground arith;
  cause = λ k. extern_of (net.in_port b i).intype e;
  attached = λ k. ground arith;
  count = ground arith;
  flag = refl;
})

reset_input-none :
    (net : Network) (b i : ℕ) (s : Bool × Schedule)
    → is_extern (net.in_port b i).intype ≡ false
    → ResetOne net b i s (reset_input net b i s)
unfolding reset_input is_extern
reset_input-none net b i s e = rw e (record {
  exec = refl;
  executed = refl;
  other_blocks = λ c j ne. ground arith;
  other_inputs = λ j ne. ground arith;
  other_counts = λ c ne. refl;
  cause = λ k. ground arith;
  attached = λ k. cc (sym e ∙ ap is_extern k);
  count = ground arith;
  flag = refl;
})

reset_input-ResetOne :
    (net : Network) (b i : ℕ) (s : Bool × Schedule)
    → 0 < s.1.remaining b
    → s.1.remaining b < 2 ^ 31
    → ResetOne net b i s (reset_input net b i s)
reset_input-ResetOne net b i s pos h = elim (Bool-cases (is_extern (net.in_port b i).intype)) [
  | inl e ↦ reset_input-extern net b i (s.1.remaining b - 1) s (omega arith) (omega arith) e
  | inr e ↦ reset_input-none net b i s e
]

-- The flag of a block tells whether one of the inputs is missing.
flag_complete :
    (all have : Bool) (n : ℕ)
    → (all ≡ true → n ≡ 0)
    → (all && have) ≡ true
    → (if have then 0 else 1) + n ≡ 0
flag_complete true true n h e = omega (arith, h refl)
flag_complete true false n h e = cc
flag_complete false have n h e = cc

flag_incomplete :
    (all have : Bool) (n : ℕ)
    → (all ≡ false → 0 < n)
    → (all && have) ≡ false
    → 0 < (if have then 0 else 1) + n
flag_incomplete true true n h e = cc
flag_incomplete true false n h e = omega arith
flag_incomplete false true n h e = omega (arith, h refl)
flag_incomplete false false n h e = omega arith

pub reset_inputs-Reset :
    (net : Network) (b n i : ℕ) (s : Schedule)
    → s.remaining b ≡ n
    → n < 2 ^ 31
    → i ≤ n
    → Reset net b i s (reset_inputs net b i s)
unfolding reset_inputs failing
reset_inputs-Reset net b n zero s r h le = record {
  exec = refl;
  executed = refl;
  other_inputs = λ c j ne. refl;
  other_counts = λ c ne. refl;
  cause = λ j k. elim k [ ];
  attached = λ j k. elim k [ ];
  count = refl;
  complete = λ e. refl;
  incomplete = λ e. cc;
}
reset_inputs-Reset net b n (suc i) s r h le =
    let old = reset_inputs-Reset net b n i s r h (omega arith) in
    let before = reset_inputs net b i s in
    let one =
      reset_input-ResetOne net b i before (omega (arith, old.count))
        (omega (arith, old.count, failing-le i (before.1.available b))) in
    let after = reset_input net b i before in
    let same : failing i (after.1.available b) ≡ failing i (before.1.available b) =
      failing-cong i (after.1.available b) (before.1.available b)
        (λ j k. one.other_inputs j (omega arith)) in
    record {
      exec = one.exec ∙ old.exec;
      executed = one.executed ∙ old.executed;
      other_inputs = λ c j ne. one.other_blocks c j ne ∙ old.other_inputs c j ne;
      other_counts = λ c ne. one.other_counts c ne ∙ old.other_counts c ne;
      cause = λ j k e. elim (ℕ_discrete j i) [
        | yes p ↦ rw p (one.cause (rw p at e))
        | no p ↦ old.cause j (omega arith) (sym (one.other_inputs j p) ∙ e)
      ];
      attached = λ j k e. elim (ℕ_discrete j i) [
        | yes p ↦ rw p (one.attached (rw p at e))
        | no p ↦ one.other_inputs j p ∙ old.attached j (omega arith) e
      ];
      count = omega (arith, one.count, old.count, same);
      complete = λ e. rw same (
          flag_complete before.0 (after.1.available b i) (failing i (before.1.available b))
            old.complete (sym one.flag ∙ e));
      incomplete = λ e. rw same (
          flag_incomplete before.0 (after.1.available b i) (failing i (before.1.available b))
            old.incomplete (sym one.flag ∙ e));
    }
