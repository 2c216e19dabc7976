-- ===== src/Irpar/Combine.antt =====
-- scilab/ld_toolbox/initialrun/irpar.sci: the sets of parameters and how they are merged. The
-- numbers are those that end up in the two vectors.
use ortd.Prelude.{ℕ, List, [], ◌∷◌, ◌++◌, length}
use ortd.Irpar.{irpar_rvec, irpar_rmat, irpar_tf, irpar_ivec}

-- A `struct( 'id', 'typ', 'ipar', 'rpar' )`; `R` is the type of a real number.
pub record Entry (R : Type 0) : Type 0 where
  pub id : ℕ
  pub typ : ℕ
  pub ipar : List ℕ
  pub rpar : List R

-- The variables of the first loop of `combine_irparam`.
pub record Merged (R : Type 0) : Type 0 where
  pub ipar_ptr : List ℕ
  pub rpar_ptr : List ℕ
  pub iparges : List ℕ
  pub rparges : List R

module _ {R : Type 0} where
  -- `new_irparam_elemet_rvec`, `_ivec`, `_rmat`, `_tf` and `new_irparam_container`: the new entry.
  unfoldable pub rvec : List R → ℕ → Entry R
  rvec v id = record { id = id; typ = irpar_rvec; ipar = length v ∷ []; rpar = v }

  unfoldable pub ivec : List ℕ → ℕ → Entry R
  ivec v id = record { id = id; typ = irpar_ivec; ipar = length v ∷ v; rpar = [] }

  -- The rows, the columns and the entries of a matrix.
  unfoldable pub rmat : ℕ → ℕ → List R → ℕ → Entry R
  rmat m n a id = record { id = id; typ = irpar_rmat; ipar = m ∷ n ∷ []; rpar = a }

  -- The degrees and the coefficients of numerator and denominator.
  unfoldable pub tf : ℕ → ℕ → List R → List R → ℕ → Entry R
  tf degnum degden num den id = record {
    id = id;
    typ = irpar_tf;
    ipar = degnum ∷ degden ∷ [];
    rpar = num ++ den;
  }

  unfoldable pub container : List ℕ × List R → ℕ → Entry R
  container irparlist id = record { id = id; typ = 10; ipar = irparlist.0; rpar = irparlist.1 }

  -- The loop over the entries that merges their vectors and notes where each begins.
  unfoldable pub merge : List (Entry R) → Merged R → Merged R
  merge [] m = m
  merge (p ∷ ps) m = merge ps (record {
    ipar_ptr = m.ipar_ptr ++ length m.iparges ∷ [];
    iparges = m.iparges ++ p.ipar;
    rpar_ptr = m.rpar_ptr ++ length m.rparges ∷ [];
    rparges = m.rparges ++ p.rpar;
  })

  -- The loop that adds a row to the header for each entry.
  unfoldable pub add_rows : List (Entry R) → List ℕ → List ℕ → List ℕ → List ℕ
  add_rows [] is rs header = header
  add_rows (p ∷ ps) [] rs header = header
  add_rows (p ∷ ps) (i ∷ is) [] header = header
  add_rows (p ∷ ps) (i ∷ is) (r ∷ rs) header =
      add_rows ps is rs (header ++ p.id ∷ p.typ ∷ i ∷ r ∷ length p.ipar ∷ length p.rpar ∷ [])

  -- `combine_irparam`: the integer and the real vector.
  unfoldable pub combine_irparam : List (Entry R) → List ℕ × List R
  combine_irparam parlist =
      let m = merge parlist (record { ipar_ptr = []; rpar_ptr = []; iparges = []; rparges = [] }) in
      let header = add_rows parlist m.ipar_ptr m.rpar_ptr (1 ∷ length parlist ∷ []) in
      (header ++ m.iparges, m.rparges)
