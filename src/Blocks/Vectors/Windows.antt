-- ===== src/Blocks/Vectors/Windows.antt =====
-- Windows of vectors: the extraction of a part, and the muting of one.
use ortd.Prelude.{
  ℕ, ◌+◌, ◌-◌, ◌≤◌, ◌<◌, ◌≡◌, ◌∙◌, ◌⊎◌, inl, inr, true, false, none, some, List, length, get_elem?,
  arith, ℤ, pos, negsuc, pos_part, ◌+ℤ◌, ◌-ℤ◌, ◌≤ℤ◌, hold, Bool-cases,
}
use ortd.Prelude.Copy.{IsCopied, IsFilled, IsCopied-at, copy_lem, fill_lem}
use ortd.Blocks.{Floating}
use ortd.Blocks.Vectors.{vector_extract, vector_mute, mute_between, var_extract, var_extract_error}

last_place : (first len : ℕ) → 0 < first → pos first +ℤ pos len -ℤ pos 1 ≡ pos (first + len - 1)
unfolding ◌+ℤ◌ ◌-ℤ◌
last_place first len h = ground arith

held_at_one : (size : ℕ) → 0 < size → pos_part (hold (pos 1) (pos size) (pos 1)) ≡ 1
held_at_one size h = ground arith

module _ (d : Floating) where
  open d use {F, to_int}

  abbrev window_start : ℕ → ℕ → ℤ → ℤ
  window_start size window_len from =
      hold (pos 1) (pos size -ℤ pos window_len +ℤ pos 1) from -ℤ pos 1

  start_inside :
      (size window_len : ℕ) (from : ℤ)
      → window_len ≤ size
      → (c : ℕ) × (window_start size window_len from ≡ pos c) × (c + window_len ≤ size)
  unfolding ◌+ℤ◌ ◌-ℤ◌
  start_inside size window_len from h =
      (pos_part (window_start size window_len from), ground arith, ground arith)

  start_before :
      (size window_len : ℕ) (from : ℤ)
      → size < window_len
      → (k : ℕ) × (window_start size window_len from ≡ negsuc k)
  unfolding ◌+ℤ◌ ◌-ℤ◌
  start_before size window_len from h = (window_len - size - 1, ground arith)

  -- A window that is not longer than the vector is held inside of it, whatever `from` is, and
  -- extracted. A longer one, which the configuration does not refuse, makes an access outside.
  pub vector_extract_lem :
      (size window_len : ℕ) (inp out : List F) (from : F)
      → length inp ≡ size
      → length out ≡ window_len
      → (window_len ≤ size
          → (c : ℕ) × (out' : List F) × (c + window_len ≤ size)
            × (vector_extract d size window_len inp from out ≡ some out')
            × IsCopied window_len inp c out 0 out')
        × (size < window_len → vector_extract d size window_len inp from out ≡ none)
  unfolding vector_extract
  vector_extract_lem size window_len inp out from hi ho = (
    λ h.
        let (c, e, inside) = start_inside size window_len (to_int from) h in
        let (out', r, w) = copy_lem window_len inp c out 0 (omega arith) (omega arith) in
        (c, out', inside, rw (e, r), w),
    λ h. let (k, e) = start_before size window_len (to_int from) h in rw e,
  )

  -- The output when the places from `first` to `last`, counted from 1 on, are muted.
  pub record IsMuted (size first last : ℕ) (inp : List F) (setto : F) (out : List F) : Type 0 where
    pub muted : (i : ℕ) → first ≤ i → i ≤ last → get_elem? out (i - 1) ≡ some setto
    pub before : (i : ℕ) → 0 < i → i < first → get_elem? out (i - 1) ≡ get_elem? inp (i - 1)
    pub behind : (i : ℕ) → last < i → i ≤ size → get_elem? out (i - 1) ≡ get_elem? inp (i - 1)

  IsMuted-of :
      (size first last : ℕ) (inp out out1 out2 out3 : List F) (setto : F)
      → 0 < first
      → first ≤ last
      → IsCopied (first - 1) inp 0 out 0 out1
      → IsCopied (size + 1 - last) inp (last - 1) out1 (last - 1) out2
      → IsFilled (last + 1 - first) setto out2 (first - 1) out3
      → IsMuted size first last inp setto out3
  IsMuted-of size first last inp out out1 out2 out3 setto h k c1 c2 f = record {
    muted = λ i l u. f.filled (i - 1) (omega arith) (omega arith);
    before = λ i l u.
        f.before (i - 1) (omega arith)
        ∙ c2.before (i - 1) (omega arith)
        ∙ IsCopied-at (i - 1) (i - 1) c1 (omega arith) (omega arith) (omega arith);
    behind = λ i l u.
        f.behind (i - 1) (omega arith)
        ∙ IsCopied-at (i - 1) (i - 1) c2 (omega arith) (omega arith) (omega arith);
  }

  mute_between-IsMuted :
      (size first last : ℕ) (inp out : List F) (setto : F)
      → length inp ≡ size
      → length out ≡ size
      → 0 < first
      → first ≤ last
      → last ≤ size
      → (out' : List F) × (mute_between d size first last inp setto out ≡ some out')
        × IsMuted size first last inp setto out'
  unfolding mute_between
  mute_between-IsMuted size first last inp out setto hi ho h0 h1 h2 =
      let (out1, e1, c1) = copy_lem (first - 1) inp 0 out 0 (omega arith) (omega arith) in
      let (out2, e2, c2) =
        copy_lem (size + 1 - last) inp (last - 1) out1 (last - 1) (omega arith)
          (omega (arith, c1.size)) in
      let (out3, e3, f) =
        fill_lem (last + 1 - first) setto out2 (first - 1) (omega (arith, c1.size, c2.size)) in
      (out3, rw (e1, e2, e3), IsMuted-of size first last inp out out1 out2 out3 setto h0 h1 c1 c2 f)

  -- Where the first place and the length name a part of the vector that is not empty, this part is set
  -- to the value, and the other elements are those of the input. No access is outside.
  pub vector_mute_lem :
      (size first len : ℕ) (inp out : List F) (from len_in setto : F)
      → length inp ≡ size
      → length out ≡ size
      → to_int from ≡ pos first
      → to_int len_in ≡ pos len
      → 0 < first
      → 0 < len
      → first + len ≤ size + 1
      → (out' : List F) × (vector_mute d size inp from len_in setto out ≡ some out')
        × IsMuted size first (first + len - 1) inp setto out'
  unfolding vector_mute
  vector_mute_lem size first len inp out from len_in setto hi ho ef el h0 hl hs =
      let (out', e, m) =
        mute_between-IsMuted size first (first + len - 1) inp out setto hi ho h0 (omega arith)
          (omega arith) in
      (out', rw (ef, el, from_at, to_at) e, m)
    where
      from_at : pos_part (hold (pos 1) (pos size) (pos first)) ≡ first
      from_at = ground arith

      to_at : pos_part (hold (pos 1) (pos size) (pos first +ℤ pos len -ℤ pos 1)) ≡ first + len - 1
      to_at = rw (last_place first len h0) (ground arith)

  -- With the length 0 an element is muted all the same.
  pub vector_mute_empty :
      (size : ℕ) (inp out : List F) (from len_in setto : F)
      → length inp ≡ size
      → length out ≡ size
      → 0 < size
      → to_int from ≡ pos 1
      → to_int len_in ≡ pos 0
      → (out' : List F) × (vector_mute d size inp from len_in setto out ≡ some out')
        × (get_elem? out' 0 ≡ some setto)
  unfolding vector_mute
  vector_mute_empty size inp out from len_in setto hi ho h ef el =
      let (out', e, m) =
        mute_between-IsMuted size 1 1 inp out setto hi ho (omega arith) (omega arith) h in
      (
        out',
        rw (ef, el, last_place 1 0 (omega arith), held_at_one size h) e,
        m.muted 1 (omega arith) (omega arith),
      )

-- The two indices name a part of the vector.
abbrev pub IsPart : ℕ → ℤ → ℤ → Type 0
IsPart vecsize from to = (pos 1 ≤ℤ from) × (from ≤ℤ to) × (to ≤ℤ pos vecsize)

refused :
    (vecsize : ℕ) (from to : ℤ)
    → var_extract_error vecsize from to ≡ true
    → ¬ IsPart vecsize from to
unfolding var_extract_error
refused vecsize from to e = λ p. ground (arith, p.0, p.1, p.2)

part :
    (vecsize : ℕ) (from to : ℤ)
    → var_extract_error vecsize from to ≡ false
    → (s n : ℕ) × (from ≡ pos (s + 1)) × (to ≡ pos (s + n)) × (0 < n) × (s + n ≤ vecsize)
unfolding var_extract_error
part vecsize from to e = (
  pos_part from - 1,
  pos_part to + 1 - pos_part from,
  ground arith,
  ground arith,
  ground arith,
  ground arith,
)

part_length : (s n : ℕ) → 0 < n → pos (s + n) -ℤ pos (s + 1) +ℤ pos 1 ≡ pos n
unfolding ◌+ℤ◌ ◌-ℤ◌
part_length s n h = ground arith

part_start : (s : ℕ) → pos (s + 1) -ℤ pos 1 ≡ pos s
unfolding ◌-ℤ◌
part_start s = ground arith

-- Where the indices name a part of the vector, that part is put out with its length; otherwise -1 is
-- returned, the length is 0 and the elements of the output are kept.
pub var_extract_lem :
    {A : Type 0} (vecsize : ℕ) (inp out : List A) (from to : ℤ)
    → length inp ≡ vecsize
    → length out ≡ vecsize
    → ((¬ IsPart vecsize from to)
        × (var_extract vecsize inp from to out ≡ some (false, out, pos 0)))
      ⊎ ((s n : ℕ) × (out' : List A) × (from ≡ pos (s + 1))
          × (to ≡ pos (s + n))
          × (0 < n)
          × (s + n ≤ vecsize)
          × (var_extract vecsize inp from to out ≡ some (true, out', pos n))
          × IsCopied n inp s out 0 out')
unfolding var_extract
var_extract_lem vecsize inp out from to hi ho =
    elim (Bool-cases (var_extract_error vecsize from to)) [
      | inl e ↦ inl (refused vecsize from to e, rw e)
      | inr e ↦
          let (s, n, ef, et, hn, hs) = part vecsize from to e in
          let (out', r, c) = copy_lem n inp s out 0 (omega arith) (omega arith) in
          inr
            (s, n, out', ef, et, hn, hs, rw (e, ef, et, part_length s n hn, part_start s) (rw r), c)
    ]
