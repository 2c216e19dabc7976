-- ===== src/Blocks/Vectors/Tests.antt =====
-- Runs of the vector blocks, and their theorems at inputs that meet the hypotheses.
use ortd.Prelude.{
  ℕ, ◌+◌, ◌≤◌, ◌<◌, ◌≡◌, ◌≢◌, refl, ◌⊎◌, true, false, some, List, [], ◌∷◌, arith, ℤ, pos, negsuc,
  ◌+ℤ◌, ◌-ℤ◌, get_elem?,
}
use ortd.Prelude.Copy.{copy, fill, IsCopied}
use ortd.Blocks.Samples.{whole}
use ortd.Blocks.Vectors.{
  extract_element, insert_element, vector_glue, glue_copy, glue_error, vector_mute, mute_between,
  var_extract, collect_values, histogram_outputs, array_outputs,
}
use ortd.Blocks.Vectors.Elements.{IsHeldAt, extract_element-insert_element}
use ortd.Blocks.Vectors.Glue.{IsGlued, vector_glue_lem}
use ortd.Blocks.Vectors.Windows.{IsPart, var_extract_lem}

glues :
    vector_glue whole 3
      (pos 1 ∷ pos 2 ∷ pos 3 ∷ [])
      (pos 1)
      (pos 2)
      (pos 4 ∷ pos 5 ∷ pos 6 ∷ [])
      (pos 1)
      (pos 3)
      (pos 9 ∷ pos 9 ∷ pos 9 ∷ pos 9 ∷ pos 9 ∷ pos 9 ∷ [])
    ≡ some (true, pos 1 ∷ pos 4 ∷ pos 5 ∷ pos 9 ∷ pos 0 ∷ pos 0 ∷ [], pos 3)
unfolding vector_glue glue_copy glue_error copy fill ◌-ℤ◌
glues = refl

mutes :
    vector_mute whole 3
      (pos 1 ∷ pos 2 ∷ pos 3 ∷ [])
      (pos 2)
      (pos 1)
      (pos 7)
      (pos 0 ∷ pos 0 ∷ pos 0 ∷ [])
    ≡ some (pos 1 ∷ pos 7 ∷ pos 3 ∷ [])
unfolding vector_mute mute_between copy fill ◌-ℤ◌ ◌+ℤ◌
mutes = refl

collects :
    collect_values {A = ℕ} 4 2 (8 ∷ 9 ∷ []) (pos 3) (0 ∷ 0 ∷ 0 ∷ 0 ∷ []) ≡ some (0 ∷ 0 ∷ 8 ∷ 9 ∷ [])
unfolding collect_values copy ◌-ℤ◌ ◌+ℤ◌
collects = refl

counts : histogram_outputs (negsuc 0) (pos 1) (pos 0) 5 (1 ∷ 2 ∷ 3 ∷ []) ≡ some (1 ∷ 7 ∷ 3 ∷ [])
unfolding histogram_outputs ◌-ℤ◌
counts = refl

last_of_array : array_outputs (4 ∷ 5 ∷ []) 2 (pos 7) ≡ some 5
unfolding array_outputs ◌-ℤ◌
last_of_array = refl

extract_element-insert_element_example :
    (c : ℕ) × (out' : List ℤ) × IsHeldAt whole 2 (pos 9) c
    × (insert_element whole 2 (pos 7) (pos 9) (pos 1 ∷ pos 2 ∷ []) ≡ some out')
    × (extract_element whole 2 out' (pos 9) ≡ some (pos 7))
    × ((i : ℕ) → c ≢ i → get_elem? out' i ≡ get_elem? (pos 1 ∷ pos 2 ∷ []) i)
extract_element-insert_element_example =
    extract_element-insert_element whole 2 (pos 7) (pos 9) (pos 1 ∷ pos 2 ∷ []) (omega arith) refl

vector_glue_example :
    (out' : List ℤ) × (vector_glue whole 2
        (pos 1 ∷ pos 2 ∷ [])
        (pos 1)
        (pos 2)
        (pos 4 ∷ pos 5 ∷ [])
        (pos 1)
        (pos 2)
        (pos 9 ∷ pos 9 ∷ pos 9 ∷ pos 9 ∷ [])
      ≡ some (true, out', pos 2))
    × IsGlued whole 2 0 1 0 1
        (pos 1 ∷ pos 2 ∷ [])
        (pos 4 ∷ pos 5 ∷ [])
        (pos 9 ∷ pos 9 ∷ pos 9 ∷ pos 9 ∷ [])
        out'
vector_glue_example =
    vector_glue_lem whole 2 0 1 0 1 (pos 1 ∷ pos 2 ∷ []) (pos 4 ∷ pos 5 ∷ [])
      (pos 9 ∷ pos 9 ∷ pos 9 ∷ pos 9 ∷ []) (pos 1) (pos 2) (pos 1) (pos 2) refl refl refl refl refl
      refl refl (omega arith) (omega arith)

var_extract_example :
    ((¬ IsPart 3 (pos 2) (pos 3))
      × (var_extract {A = ℕ} 3 (5 ∷ 6 ∷ 7 ∷ []) (pos 2) (pos 3) (0 ∷ 0 ∷ 0 ∷ [])
          ≡ some (false, 0 ∷ 0 ∷ 0 ∷ [], pos 0)))
    ⊎ ((s n : ℕ) × (out' : List ℕ) × (pos 2 ≡ pos (s + 1))
        × (pos 3 ≡ pos (s + n))
        × (0 < n)
        × (s + n ≤ 3)
        × (var_extract {A = ℕ} 3 (5 ∷ 6 ∷ 7 ∷ []) (pos 2) (pos 3) (0 ∷ 0 ∷ 0 ∷ [])
            ≡ some (true, out', pos n))
        × IsCopied {A = ℕ} n (5 ∷ 6 ∷ 7 ∷ []) s (0 ∷ 0 ∷ 0 ∷ []) 0 out')
var_extract_example =
    var_extract_lem {A = ℕ} 3 (5 ∷ 6 ∷ 7 ∷ []) (0 ∷ 0 ∷ 0 ∷ []) (pos 2) (pos 3) refl refl
