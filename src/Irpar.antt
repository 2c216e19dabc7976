-- ===== src/Irpar.antt =====
-- irpar.c and irpar.h: parameter sets in an integer vector and a real vector, as the C code reads
-- them; and irpar.sci under scilab/ld_toolbox/initialrun, which writes them.
--
-- An `int` is its bit pattern below 2 ^ 32. A pointer into a vector is an offset, and a vector is
-- the list of what stands from the base pointer on; a read past its end gives none.
mod Combine
mod Layout
mod Find
mod RoundTrip
mod Tests
use ortd.Prelude.{
  ℕ, zero, suc, ◌+◌, ◌*◌, ◌%◌, ℤ, pos, negsuc, List, [], ◌∷◌, ◌++◌, Option, none, some, ◌>>=◌,
  if◌then◌else◌, ◌==◌, get_elem?, length, word, add32, slt32,
}

-- `struct irpar_header_element_t`
pub record Element : Type 0 where
  pub id : ℕ
  pub typ : ℕ
  pub ipar_ptr : ℕ
  pub rpar_ptr : ℕ
  pub rpar_len : ℕ
  pub ipar_len : ℕ
  pub setindex : ℕ

-- IRPAR_HEADER_ELEMENT_LEN and the types of an element
abbrev pub header_element_len : ℕ
header_element_len = 6

abbrev pub irpar_rvec : ℕ
irpar_rvec = 1

abbrev pub irpar_rmat : ℕ
irpar_rmat = 2

abbrev pub irpar_tf : ℕ
irpar_tf = 3

abbrev pub irpar_ivec : ℕ
irpar_ivec = 4

-- The offset behind the header rows of `n` elements.
unfoldable pub rows_len : ℕ → ℕ
rows_len n = (2 + n * header_element_len) % word

-- `irpar_get_nele`
unfoldable pub get_nele : List ℕ → Option ℕ
get_nele ipar = get_elem? ipar 1

-- `irpar_get_element`, on the caller's structure `ret`
unfoldable pub get_element : Element → List ℕ → ℕ → Option Element
get_element ret ipar n = do
  n_ele ← get_nele ipar
  id ← get_elem? ipar (rows_len n + 0)
  typ ← get_elem? ipar (rows_len n + 1)
  ipar_pos ← get_elem? ipar (rows_len n + 2)
  rpar_pos ← get_elem? ipar (rows_len n + 3)
  rpar_len ← get_elem? ipar (rows_len n + 4)
  ipar_len ← get_elem? ipar (rows_len n + 5)
  some (record ret {
    id = id;
    typ = typ;
    ipar_ptr = add32 ipar_pos (rows_len n_ele);
    rpar_ptr = rpar_pos;
    rpar_len = rpar_len;
    ipar_len = ipar_len;
  })

-- The `do` loop of `irpar_get_element_by_id` from index `i` on: the result and the structure.
unfoldable pub find_id : ℕ → Element → List ℕ → ℕ → ℕ → Option (ℕ × Element)
find_id zero ret ipar id i = none
find_id (suc fuel) ret ipar id i = do
  e ← get_element ret ipar i
  n_ele ← get_nele ipar
  let next = find_id fuel e ipar id (suc i) in
      if e.id == id
      then some (1, record e { setindex = i })
      else (if slt32 (suc i) n_ele then next else some (0, record e { typ = 0 }))

-- `irpar_get_element_by_id`; no vector has more rows than numbers.
unfoldable pub get_element_by_id : Element → List ℕ → ℕ → Option (ℕ × Element)
get_element_by_id ret ipar id = find_id (suc (length ipar)) ret ipar id 0

-- The first lines of the functions below: what the id stands for, when it is there with this type.
unfoldable pub typed : ℕ → ℕ × Element → Option Element
typed typ (err, e) = if err == 1 then (if e.typ == typ then some e else none) else none

-- `irpar_rvec_t` and `irpar_ivec_t`: the pointer to the data and the length.
pub record Vec : Type 0 where
  pub v : ℕ
  pub n : ℕ

pub record Rmat : Type 0 where
  pub v : ℕ
  pub n : ℕ
  pub m : ℕ

pub record Tf : Type 0 where
  pub num : ℕ
  pub den : ℕ
  pub degnum : ℕ
  pub degden : ℕ

-- 0 and the structure, or -1: then the caller's structure is as it was.
unfoldable pub answer {ℓ} :
    {A : Type ℓ} → A → Option Element → (Element → Option A) → Option (ℤ × A)
answer ret none fill = some (negsuc 0, ret)
answer ret (some e) fill = do filled ← fill e; some (pos 0, filled)

module _ (scratch : Element) where
  -- `irpar_get_rvec`; `scratch` is the local `ret_` before the call.
  unfoldable pub get_rvec : Vec → List ℕ → ℕ → Option (ℤ × Vec)
  get_rvec ret ipar id = do
    found ← get_element_by_id scratch ipar id
    answer ret (typed irpar_rvec found)
        (λ e. do n ← get_elem? ipar (e.ipar_ptr + 0); some (record { v = e.rpar_ptr; n = n }))

  -- `irpar_get_ivec`
  unfoldable pub get_ivec : Vec → List ℕ → ℕ → Option (ℤ × Vec)
  get_ivec ret ipar id = do
    found ← get_element_by_id scratch ipar id
    answer ret (typed irpar_ivec found)
        (λ e. do n ← get_elem? ipar (e.ipar_ptr + 0); some (record { v = e.ipar_ptr + 1; n = n }))

  -- `irpar_get_tf`
  unfoldable pub get_tf : Tf → List ℕ → ℕ → Option (ℤ × Tf)
  get_tf ret ipar id = do
    found ← get_element_by_id scratch ipar id
    answer ret (typed irpar_tf found) (λ e. do
      degnum ← get_elem? ipar (e.ipar_ptr + 0)
      degden ← get_elem? ipar (e.ipar_ptr + 1)
      some (record {
        num = e.rpar_ptr + 0;
        den = e.rpar_ptr + add32 degnum 1;
        degnum = degnum;
        degden = degden;
      }))

  -- `irpar_get_rmat`
  unfoldable pub get_rmat : Rmat → List ℕ → ℕ → Option (ℤ × Rmat)
  get_rmat ret ipar id = do
    found ← get_element_by_id scratch ipar id
    answer ret (typed irpar_rmat found) (λ e. do
      m ← get_elem? ipar (e.ipar_ptr + 0)
      n ← get_elem? ipar (e.ipar_ptr + 1)
      some (record { v = e.rpar_ptr; n = n; m = m }))

-- The loop of `irpar_getstr`: `len` characters from index `i` on, then the end mark.
unfoldable pub getstr : List ℕ → ℕ → ℕ → Option (List ℕ)
getstr par i zero = some (0 ∷ [])
getstr par i (suc len) = do c ← get_elem? par i; str ← getstr par (suc i) len; some (c % 256 ∷ str)
