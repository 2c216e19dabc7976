-- ===== src/Irpar/Tests.antt =====
-- Concrete parameter sets for irpar.c.
use ortd.Prelude.{
  ℕ, ◌≡◌, refl, List, [], ◌∷◌, ◌++◌, ◌+◌, ◌*◌, ◌^◌, ◌<◌, none, some, pos, arith, length, take, drop,
  suc,
}
use ortd.Irpar.{
  Element, Vec, Tf, get_element_by_id, find_id, get_element, get_nele, rows_len, get_tf, get_ivec,
  getstr,
}
use ortd.Irpar.Combine.{Entry, combine_irparam, merge, add_rows, ivec, rvec, tf, container}
use ortd.Irpar.Layout.{ints}
use ortd.Irpar.Find.{first, IsFound, get_element_by_id-combine}
use ortd.Irpar.RoundTrip.{getstr-get_ivec-combine, get_tf-combine, get_element_by_id-container}

abbrev blank : Element
blank = record {
  id = 0;
  typ = 0;
  ipar_ptr = 0;
  rpar_ptr = 0;
  rpar_len = 0;
  ipar_len = 0;
  setindex = 0;
}

abbrev no_vec : Vec
no_vec = record { v = 0; n = 0 }

abbrev no_tf : Tf
no_tf = record { num = 0; den = 0; degnum = 0; degden = 0 }

-- "abc", a vector of reals, a transfer function and a set in a container.
abbrev name : Entry ℕ
name = ivec (97 ∷ 98 ∷ 99 ∷ []) 20

abbrev others : List (Entry ℕ)
others =
    rvec (5 ∷ 6 ∷ []) 21
    ∷ tf 1 2 (1 ∷ 2 ∷ []) (3 ∷ 4 ∷ 5 ∷ []) 22
    ∷ container (combine_irparam (name ∷ rvec (8 ∷ []) 30 ∷ [])) 23
    ∷ []

merged :
    (combine_irparam (name ∷ rvec (8 ∷ []) 30 ∷ []))
    ≡ (1 ∷ 2 ∷ 20 ∷ 4 ∷ 0 ∷ 0 ∷ 4 ∷ 0 ∷ 30 ∷ 1 ∷ 4 ∷ 0 ∷ 1 ∷ 1 ∷ 3 ∷ 97 ∷ 98 ∷ 99 ∷ 1 ∷ [], 8 ∷ [])
unfolding combine_irparam merge add_rows ivec rvec
merged = refl

-- A set without entries: the row of an entry that is not there is read.
empty_set : get_element_by_id blank (1 ∷ 0 ∷ []) 5 ≡ none
unfolding get_element_by_id find_id get_element get_nele rows_len
empty_set = refl

bound_lem : 2 + suc (length others) * 6 + length (ints (name ∷ others)) < 2 ^ 31
unfolding ints ivec rvec tf container combine_irparam merge add_rows
bound_lem = omega arith

bound_inner : 2 + suc 1 * 6 + length (ints (name ∷ rvec (8 ∷ []) 30 ∷ [])) < 2 ^ 31
unfolding ints ivec rvec
bound_inner = omega arith

get_element_by_id-combine_example :
    let set = combine_irparam (name ∷ others) in
    (r : ℕ × Element) × (get_element_by_id blank (set.0 ++ []) 22 ≡ some r)
    × IsFound (set.0 ++ []) (set.1 ++ []) (first 0 22 (name ∷ others)) r
get_element_by_id-combine_example = get_element_by_id-combine name others [] [] blank 22 bound_lem

get_tf-combine_example :
    let set = combine_irparam (name ∷ others) in
    (r : Tf) × (get_tf blank no_tf (set.0 ++ []) 22 ≡ some (pos 0, r))
    × (r.degnum ≡ 1)
    × (r.degden ≡ 2)
    × (take (suc r.degnum) (drop r.num (set.1 ++ [])) ≡ 1 ∷ 2 ∷ [])
    × (take (suc r.degden) (drop r.den (set.1 ++ [])) ≡ 3 ∷ 4 ∷ 5 ∷ [])
unfolding first ivec rvec tf
get_tf-combine_example =
    get_tf-combine name others [] [] blank 22 bound_lem 2 22 1 2 (1 ∷ 2 ∷ []) (3 ∷ 4 ∷ 5 ∷ []) no_tf
      refl refl refl (omega arith)

getstr-get_ivec-combine_example :
    let set = combine_irparam (name ∷ others) in
    (r : Vec) × (get_ivec blank no_vec (set.0 ++ []) 20 ≡ some (pos 0, r))
    × (getstr (drop r.v (set.0 ++ [])) 0 r.n ≡ some (97 ∷ 98 ∷ 99 ∷ 0 ∷ []))
unfolding first ivec
getstr-get_ivec-combine_example =
    getstr-get_ivec-combine name others [] [] blank 20 bound_lem 0 20 (97 ∷ 98 ∷ 99 ∷ []) no_vec
      refl (omega arith)

get_element_by_id-container_example :
    let set = combine_irparam (name ∷ others) in
    (e : Element) × (r : ℕ × Element) × (get_element_by_id blank (set.0 ++ []) 23 ≡ some (1, e))
    × (get_element_by_id blank (drop e.ipar_ptr (set.0 ++ [])) 30 ≡ some r)
    × IsFound
        (drop e.ipar_ptr (set.0 ++ []))
        (drop e.rpar_ptr (set.1 ++ []))
        (first 0 30 (name ∷ rvec (8 ∷ []) 30 ∷ []))
        r
unfolding first ivec rvec tf container
get_element_by_id-container_example =
    get_element_by_id-container name others [] [] blank 23 bound_lem 3 23 name
      (rvec (8 ∷ []) 30 ∷ []) 30 refl bound_inner
