-- ===== src/Blocks/Vectors.antt =====
-- basic_ldblocks.c: the blocks that copy parts of vectors. `in` and `out` are what stands in the
-- memory of the ports; a place outside of it is `none`. `int` is ℤ without its bounds: the sums of the
-- indices are taken to fit. Sizes are those that COMPF_FLAG_CONFIGURE has accepted.
mod Elements
mod Windows
mod Glue
mod Collect
mod Tests
use ortd.Prelude.{
  ℕ, zero, suc, ◌+◌, ◌-◌, ◌*◌, ◌>>=◌, Bool, true, false, not, Option, none, some, List, [], ◌∷◌,
  ◌||◌, ◌&&◌, if◌then◌else◌, get_elem?, add32, replicate, ℤ, pos, pos_part, ◌+ℤ◌, ◌-ℤ◌, ltb_ℤ, hold,
  place,
}
use ortd.Prelude.Copy.{copy, fill, store}
use ortd.Blocks.{Floating}

-- `compu_func_mux` and `compu_func_demux`, and their twins for int32: the ports of one element each
-- are a list.
module _ {A : Type 0} where
  pub mux : ℕ → List A → List A → Option (List A)
  mux size ins out = copy size ins 0 out 0

  pub demux : ℕ → List A → List A → Option (List A)
  demux size inp outs = copy size inp 0 outs 0

  -- `ortd_compu_func_vectorConcatenate`
  pub vector_concatenate : ℕ → ℕ → List A → List A → List A → Option (List A)
  vector_concatenate size1 size2 in1 in2 out =
      copy size1 in1 0 out 0 >>= λ out'. copy size2 in2 0 out' size1

-- The tests of `ortd_compu_func_vectorglue` that lead to `glue_error`, for one of the vectors.
pub glue_error : ℕ → ℤ → ℤ → Bool
glue_error veclen ifrom ito = ltb_ℤ ifrom (pos 0) || not (ltb_ℤ ito (pos veclen)) || ltb_ℤ ito ifrom

-- An index from 1 on that comes as a double, in a vector of `vecsize` elements.
module _ (d : Floating) where
  open d use {F, nought, unit, minus_one, to_int, of_int}

  pub element_index : ℕ → F → ℤ
  element_index vecsize pointer = hold (pos 0) (pos vecsize -ℤ pos 1) (to_int (minus_one pointer))

  -- `compu_func_extract_element`
  pub extract_element : ℕ → List F → F → Option F
  unfolding element_index
  extract_element vecsize invec inpointer =
      place (element_index vecsize inpointer) >>= λ index. get_elem? invec index

  -- `compu_func_insert_element`: CALCOUTPUTS and RESETSTATES.
  pub insert_element : ℕ → F → F → List F → Option (List F)
  unfolding element_index
  insert_element vecsize inp inpointer out =
      place (element_index vecsize inpointer) >>= λ index. store out index inp

  pub insert_reset : ℕ → List F → Option (List F)
  insert_reset vecsize out = fill vecsize out 0 nought

  -- `ortd_compu_func_vectorextract`
  pub vector_extract : ℕ → ℕ → List F → F → List F → Option (List F)
  vector_extract size window_len inp from out =
      place (hold (pos 1) (pos size -ℤ pos window_len +ℤ pos 1) (to_int from) -ℤ pos 1) >>= λ start.
      copy window_len inp start out 0

  -- `ortd_compu_func_vectorglue`: the copies behind the tests, from the C indices and the lengths.
  pub glue_copy : ℕ → List F → ℕ → ℕ → List F → ℕ → ℕ → List F → Option (Bool × List F × F)
  glue_copy veclen in1 ifromind1 cpylen1 in2 ifromind2 cpylen2 out =
      copy cpylen1 in1 ifromind1 out 0 >>= λ out1.
      copy cpylen2 in2 ifromind2 out1 cpylen1 >>= λ out2.
      fill (2 * veclen - (cpylen1 + cpylen2 + 1)) out2 (cpylen1 + cpylen2 + 1) nought >>= λ out3.
      some (true, out3, of_int (pos (cpylen1 + cpylen2)))

  -- The number that is returned (true for 0), the elements that are put out, and their number.
  pub vector_glue : ℕ → List F → F → F → List F → F → F → List F → Option (Bool × List F × F)
  vector_glue veclen in1 fromind1 toind1 in2 fromind2 toind2 out =
      let ifromind1 = to_int fromind1 -ℤ pos 1 in
      let itoind1 = to_int toind1 -ℤ pos 1 in
      let ifromind2 = to_int fromind2 -ℤ pos 1 in
      let itoind2 = to_int toind2 -ℤ pos 1 in
      if glue_error veclen ifromind1 itoind1 || glue_error veclen ifromind2 itoind2
      then some (false, out, nought)
      else glue_copy veclen in1 (pos_part ifromind1) (pos_part (itoind1 -ℤ ifromind1)) in2
          (pos_part ifromind2) (pos_part (itoind2 -ℤ ifromind2)) out

  -- `ortd_compu_func_vectormute`: the three loops, and the range that they are given.
  pub mute_between : ℕ → ℕ → ℕ → List F → F → List F → Option (List F)
  mute_between size from to inp setto out = copy (from - 1) inp 0 out 0 >>= λ out1.
      copy (size + 1 - to) inp (to - 1) out1 (to - 1) >>= λ out2.
      fill (to + 1 - from) out2 (from - 1) setto

  pub vector_mute : ℕ → List F → F → F → F → List F → Option (List F)
  vector_mute size inp from len setto out =
      mute_between size (pos_part (hold (pos 1) (pos size) (to_int from)))
        (pos_part (hold (pos 1) (pos size) (to_int from +ℤ to_int len -ℤ pos 1))) inp setto out

-- `ortd_compu_func_ld_vector_VarExtract`: the result, the elements, and `Nvalues`.
pub var_extract_error : ℕ → ℤ → ℤ → Bool
var_extract_error vecsize from to =
    ltb_ℤ to from
    || ltb_ℤ from (pos 1)
    || ltb_ℤ to (pos 1)
    || ltb_ℤ (pos vecsize) from
    || ltb_ℤ (pos vecsize) to

module _ {A : Type 0} where
  pub var_extract : ℕ → List A → ℤ → ℤ → List A → Option (Bool × List A × ℤ)
  unfolding var_extract_error
  var_extract vecsize inp from to out =
      if var_extract_error vecsize from to
      then some (false, out, pos 0)
      else copy (pos_part (to -ℤ from +ℤ pos 1)) inp (pos_part (from -ℤ pos 1)) out 0 >>= λ out'.
          some (true, out', to -ℤ from +ℤ pos 1)

  -- `ortd_compu_func_collectValues`: CALCOUTPUTS, and INIT and RESETSTATES.
  pub collect_values : ℕ → ℕ → List A → ℤ → List A → Option (List A)
  collect_values memorysize invecsize inp write_index out =
      if ltb_ℤ write_index (pos 1)
      then some out
      else if ltb_ℤ (pos memorysize) (write_index -ℤ pos 1 +ℤ pos invecsize)
      then some out
      else copy invecsize inp 0 out (pos_part (write_index -ℤ pos 1))

  pub collect_init : ℤ → ℤ → A → List A → Option (Bool × List A)
  collect_init memorysize invecsize default_val out =
      if ltb_ℤ invecsize (pos 1)
      then some (false, out)
      else if ltb_ℤ memorysize (pos 1)
      then some (false, out)
      else fill (pos_part memorysize) out 0 default_val >>= λ out'. some (true, out')

-- `ortd_compu_func_ld_HistogramInt32`: the bins are 32-bit words; a sum that does not fit wraps.
pub histogram_outputs : ℤ → ℤ → ℤ → ℕ → List ℕ → Option (List ℕ)
histogram_outputs from to val weight out =
    if ltb_ℤ val from
    then some out
    else if ltb_ℤ to val
    then some out
    else get_elem? out (pos_part (val -ℤ from)) >>= λ x.
        store out (pos_part (val -ℤ from)) (add32 x weight)

pub histogram_init : ℤ → ℤ → List ℕ → Option (Bool × List ℕ)
histogram_init from to out =
    if ltb_ℤ to from
    then some (false, out)
    else fill (pos_part (to -ℤ from +ℤ pos 1)) out 0 0 >>= λ out'. some (true, out')

-- `ArrayInt32Block::calcOutputs` in basicCppBlocks.cpp, on an array that is not empty.
pub array_outputs : List ℕ → ℕ → ℤ → Option ℕ
array_outputs array n inp =
    place (
      let tmp = if ltb_ℤ inp (pos 0) then pos 0 else inp in
      if ltb_ℤ tmp (pos n) then tmp else pos n -ℤ pos 1)
    >>= λ index. get_elem? array index
