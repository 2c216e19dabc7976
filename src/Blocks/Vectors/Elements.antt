-- ===== src/Blocks/Vectors/Elements.antt =====
-- Elements of vectors: several ports and one vector, and single elements by their index.
use ortd.Prelude.{
  ℕ, ◌+◌, ◌<◌, ◌≡◌, ◌≢◌, ◌∙◌, some, List, length, get_elem?, set, get_elem?-set_self,
  get_elem?-set_ne, lt→ltb, arith, pos, pos_part, ◌-ℤ◌,
}
use ortd.Prelude.Copy.{IsCopied-whole, IsCopied-at, copy_lem}
use ortd.Blocks.{Floating}
use ortd.Blocks.Vectors.{
  mux, demux, vector_concatenate, element_index, extract_element, insert_element,
}

-- What a multiplexer puts out, a demultiplexer of the same size hands on to its ports: each element
-- of the inputs comes out at the port with the same number, and no access is outside.
pub demux-mux :
    {A : Type 0} (size : ℕ) (ins out outs : List A)
    → length ins ≡ size
    → length out ≡ size
    → length outs ≡ size
    → (out' outs' : List A) × (mux size ins out ≡ some out')
      × (demux size out' outs ≡ some outs')
      × ((i : ℕ) → i < size → get_elem? outs' i ≡ get_elem? ins i)
unfolding mux demux
demux-mux size ins out outs hi ho hs =
    let (out', e, c) = copy_lem size ins 0 out 0 (omega arith) (omega arith) in
    let (outs', e', c') = copy_lem size out' 0 outs 0 (omega (arith, c.size)) (omega arith) in
    (out', outs', e, e', λ i h. IsCopied-whole i c' h ∙ IsCopied-whole i c h)

-- The two vectors stand behind one another in the output.
pub vector_concatenate_lem :
    {A : Type 0} (size1 size2 : ℕ) (in1 in2 out : List A)
    → length in1 ≡ size1
    → length in2 ≡ size2
    → length out ≡ size1 + size2
    → (out' : List A) × (vector_concatenate size1 size2 in1 in2 out ≡ some out')
      × ((i : ℕ) → i < size1 → get_elem? out' i ≡ get_elem? in1 i)
      × ((i : ℕ) → i < size2 → get_elem? out' (size1 + i) ≡ get_elem? in2 i)
unfolding vector_concatenate
vector_concatenate_lem size1 size2 in1 in2 out h1 h2 ho =
    let (out1, e, c) = copy_lem size1 in1 0 out 0 (omega arith) (omega arith) in
    let (out2, e', c') = copy_lem size2 in2 0 out1 size1 (omega arith) (omega (arith, c.size)) in
    (
      out2,
      rw e e',
      λ i h. c'.before i h ∙ IsCopied-whole i c h,
      λ i h. IsCopied-at (size1 + i) i c' (omega arith) (omega arith) (omega arith),
    )

module _ (d : Floating) where
  open d use {F, minus_one, to_int}

  -- The index is always one of the vector, and the one that is asked for where that is.
  pub record IsHeldAt (vecsize : ℕ) (pointer : F) (c : ℕ) : Type 0 where
    pub result : element_index d vecsize pointer ≡ pos c
    pub inside : c < vecsize
    pub exact : (k : ℕ) → k < vecsize → to_int (minus_one pointer) ≡ pos k → c ≡ k

  element_index-IsHeldAt :
      (vecsize : ℕ) (pointer : F) → 0 < vecsize → (c : ℕ) × IsHeldAt vecsize pointer c
  unfolding element_index ◌-ℤ◌
  element_index-IsHeldAt vecsize pointer h = (
    pos_part (element_index d vecsize pointer),
    record { result = ground arith; inside = ground arith; exact = λ k l e. rw e (ground arith) },
  )

  -- With any double as the pointer, an element is inserted inside of the vector, at the index of the
  -- pointer where there is one, and is extracted again with the same pointer; the others are kept.
  pub extract_element-insert_element :
      (vecsize : ℕ) (inp pointer : F) (out : List F)
      → 0 < vecsize
      → length out ≡ vecsize
      → (c : ℕ) × (out' : List F) × IsHeldAt vecsize pointer c
        × (insert_element d vecsize inp pointer out ≡ some out')
        × (extract_element d vecsize out' pointer ≡ some inp)
        × ((i : ℕ) → c ≢ i → get_elem? out' i ≡ get_elem? out i)
  unfolding insert_element extract_element
  extract_element-insert_element vecsize inp pointer out h e =
      let (c, k) = element_index-IsHeldAt vecsize pointer h in
      let inside : c < length out = omega (arith, k.inside) in
      (
        c,
        set out c inp,
        k,
        rw (k.result, lt→ltb c (length out) inside),
        rw k.result (get_elem?-set_self out c inp inside),
        λ i ne. get_elem?-set_ne out inp ne,
      )
