-- ===== src/Blocks/Counters/Limits.antt =====
-- The limits of the limited counter.
use ortd.Prelude.{◌≡◌, true, false, Bool-cases, inl, inr}
use ortd.Blocks.{Floating}
use ortd.Blocks.Counters.{constrain, limitedcounter_update}

module _ (d : Floating) where
  open d use {F, less, above_half}

  -- Neither above the upper bound nor below the lower one.
  pub record IsWithin (lower_b upper_b x : F) : Type 0 where
    pub not_above : less upper_b x ≡ false
    pub not_below : less x lower_b ≡ false

  -- Where the bounds are in order and comparable with themselves, the limited counter stays within
  -- them whatever it counts, as long as it is reset to values within them.
  pub limitedcounter_update-IsWithin :
      (lower_b upper_b incount inreset inresetto state : F)
      → IsWithin lower_b upper_b lower_b
      → IsWithin lower_b upper_b upper_b
      → (above_half inreset ≡ true → IsWithin lower_b upper_b inresetto)
      → IsWithin lower_b upper_b
          (limitedcounter_update d lower_b upper_b incount inreset inresetto state)
  unfolding limitedcounter_update
  limitedcounter_update-IsWithin lower_b upper_b incount inreset inresetto state l u r =
      elim (Bool-cases (above_half inreset)) [
        | inl e ↦ rw e (r e)
        | inr e ↦ rw e (constrained (d.plus state incount))
      ]
    where
      constrained : (x : F) → IsWithin lower_b upper_b (constrain d lower_b upper_b x)
      constrained x = elim (Bool-cases (less upper_b x)) [
        | inl e ↦ rw e u
        | inr e ↦ elim (Bool-cases (less x lower_b)) [
          | inl f ↦ rw (e, f) l
          | inr f ↦ rw (e, f) (record { not_above = e; not_below = f })
        ]
      ]
