-- ===== src/Blocks/Vectors/Glue.antt =====
-- `ortd_compu_func_vectorglue` copies one element less of each vector than its indices name.
use ortd.Prelude.{
  ℕ, ◌+◌, ◌-◌, ◌*◌, ◌<◌, ◌≡◌, ◌∙◌, true, false, some, List, length, get_elem?, arith, pos, ◌-ℤ◌,
}
use ortd.Prelude.Copy.{IsCopied, IsFilled, copy_lem, fill_lem, IsCopied-at}
use ortd.Blocks.{Floating}
use ortd.Blocks.Vectors.{vector_glue, glue_copy, glue_error}

c_index : (s : ℕ) → pos (s + 1) -ℤ pos 1 ≡ pos s
unfolding ◌-ℤ◌
c_index s = ground arith

span : (s n : ℕ) → pos (s + n) -ℤ pos s ≡ pos n
unfolding ◌-ℤ◌
span s n = ground arith

no_error : (veclen s n : ℕ) → s + n < veclen → glue_error veclen (pos s) (pos (s + n)) ≡ false
unfolding glue_error
no_error veclen s n h = ground arith

module _ (d : Floating) where
  open d use {F, nought, to_int, of_int}

  -- What stands in the output when n1 elements from s1 on are followed by n2 elements from s2 on.
  pub record IsGlued (veclen s1 n1 s2 n2 : ℕ) (in1 in2 out out' : List F) : Type 0 where
    pub first : (i : ℕ) → i < n1 → get_elem? out' i ≡ get_elem? in1 (s1 + i)
    pub second : (i : ℕ) → i < n2 → get_elem? out' (n1 + i) ≡ get_elem? in2 (s2 + i)
    pub kept : get_elem? out' (n1 + n2) ≡ get_elem? out (n1 + n2)
    pub zeros : (i : ℕ) → n1 + n2 < i → i < 2 * veclen → get_elem? out' i ≡ some nought

  IsGlued-of :
      (veclen s1 n1 s2 n2 : ℕ) (in1 in2 out o1 o2 o3 : List F)
      → IsCopied n1 in1 s1 out 0 o1
      → IsCopied n2 in2 s2 o1 n1 o2
      → IsFilled (2 * veclen - (n1 + n2 + 1)) nought o2 (n1 + n2 + 1) o3
      → IsGlued veclen s1 n1 s2 n2 in1 in2 out o3
  IsGlued-of veclen s1 n1 s2 n2 in1 in2 out o1 o2 o3 c1 c2 f = record {
    first = λ i h.
        f.before i (omega arith)
        ∙ c2.before i h
        ∙ IsCopied-at i (s1 + i) c1 (omega arith) (omega arith) (omega arith);
    second = λ i h. f.before (n1 + i) (omega arith) ∙ c2.copied i h;
    kept =
        f.before (n1 + n2) (omega arith)
        ∙ c2.behind (n1 + n2) (omega arith)
        ∙ c1.behind (n1 + n2) (omega arith);
    zeros = λ i h k. f.filled i (omega arith) (omega arith);
  }

  glue_copy-IsGlued :
      (veclen s1 n1 s2 n2 : ℕ) (in1 in2 out : List F)
      → length in1 ≡ veclen
      → length in2 ≡ veclen
      → length out ≡ 2 * veclen
      → s1 + n1 < veclen
      → s2 + n2 < veclen
      → (out' : List F) × (glue_copy d veclen in1 s1 n1 in2 s2 n2 out
          ≡ some (true, out', of_int (pos (n1 + n2))))
        × IsGlued veclen s1 n1 s2 n2 in1 in2 out out'
  unfolding glue_copy
  glue_copy-IsGlued veclen s1 n1 s2 n2 in1 in2 out h1 h2 ho r1 r2 =
      let (o1, e1, c1) = copy_lem n1 in1 s1 out 0 (omega arith) (omega arith) in
      let (o2, e2, c2) = copy_lem n2 in2 s2 o1 n1 (omega arith) (omega (arith, c1.size)) in
      let (o3, e3, f) =
        fill_lem (2 * veclen - (n1 + n2 + 1)) nought o2 (n1 + n2 + 1)
          (omega (arith, c1.size, c2.size)) in
      (o3, rw (e1, e2, e3), IsGlued-of veclen s1 n1 s2 n2 in1 in2 out o1 o2 o3 c1 c2 f)

  -- Where both pairs of indices name a part of a vector, from s + 1 to s + n + 1, the first n
  -- elements of the first part and of the second are put out, with their number; the element behind
  -- them is what the output held before, and the further ones are zero. So the last elements of both
  -- parts are missing.
  pub vector_glue_lem :
      (veclen s1 n1 s2 n2 : ℕ) (in1 in2 out : List F) (from1 to1 from2 to2 : F)
      → length in1 ≡ veclen
      → length in2 ≡ veclen
      → length out ≡ 2 * veclen
      → to_int from1 ≡ pos (s1 + 1)
      → to_int to1 ≡ pos (s1 + n1 + 1)
      → to_int from2 ≡ pos (s2 + 1)
      → to_int to2 ≡ pos (s2 + n2 + 1)
      → s1 + n1 < veclen
      → s2 + n2 < veclen
      → (out' : List F) × (vector_glue d veclen in1 from1 to1 in2 from2 to2 out
          ≡ some (true, out', of_int (pos (n1 + n2))))
        × IsGlued veclen s1 n1 s2 n2 in1 in2 out out'
  unfolding vector_glue
  vector_glue_lem veclen s1 n1 s2 n2 in1 in2 out from1 to1 from2 to2 h1 h2 ho f1 t1 f2 t2 r1 r2 =
      let (out', e, g) = glue_copy-IsGlued veclen s1 n1 s2 n2 in1 in2 out h1 h2 ho r1 r2 in
      (
        out',
        rw
            (
              f1,
              t1,
              f2,
              t2,
              c_index s1,
              c_index (s1 + n1),
              c_index s2,
              c_index (s2 + n2),
              no_error veclen s1 n1 r1,
              no_error veclen s2 n2 r2,
              span s1 n1,
              span s2 n2,
            )
            e,
        g,
      )
