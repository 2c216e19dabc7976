-- ===== src/Libdyn/Create/Cache.antt =====
-- The memory that the outputs of a new block share.
use native.Mathlib.Decide.{ℕ_discrete}
use ortd.Prelude.{ℕ, zero, suc, ◌+◌, ◌^◌, ◌≤◌, ◌<◌, ◌≡◌, refl, false, some, ap, arith, word}
use ortd.Libdyn.Create.{NewBlock, NewOutput, alloc_outputs, mem_needed, share_outdata}

-- The bytes of the first `n` outputs, without a bound.
abbrev pub bytes : (ℕ → NewOutput) → ℕ → ℕ
bytes outlist zero = 0
bytes outlist (suc i) = bytes outlist i + (outlist i).datasize

bytes-le : (outlist : ℕ → NewOutput) (i j : ℕ) → i ≤ j → bytes outlist i ≤ bytes outlist j
bytes-le outlist zero j h = omega arith
bytes-le outlist (suc i) zero h = elim h [ ]
bytes-le outlist (suc i) (suc j) h = elim (ℕ_discrete i j) [
  | yes p ↦ rw p (omega arith)
  | no p ↦ omega (arith, bytes-le outlist (suc i) j (omega arith))
]

mem_needed-bytes :
    (n : ℕ) (b : NewBlock) → bytes b.outlist n < word → mem_needed n b ≡ bytes b.outlist n
unfolding mem_needed
mem_needed-bytes zero b h = refl
mem_needed-bytes (suc i) b h = omega (arith, mem_needed-bytes i b (omega arith))

-- What the loop over the first `n` outputs has done.
record IsShared (n : ℕ) (b : NewBlock) (result : ℕ × NewBlock) : Type 0 where
  ofset : result.0 ≡ bytes b.outlist n
  sizes : (i : ℕ) → (result.1.outlist i).datasize ≡ (b.outlist i).datasize
  offsets : (i : ℕ) → i < n → (result.1.outlist i).data_offset ≡ bytes b.outlist i

share_outdata-IsShared :
    (n : ℕ) (b : NewBlock) → bytes b.outlist n < word → IsShared n b (share_outdata n b)
unfolding share_outdata
share_outdata-IsShared zero b h = record {
  ofset = refl;
  sizes = λ i. refl;
  offsets = λ i k. elim k [ ];
}
share_outdata-IsShared (suc n) b h =
    let before = share_outdata-IsShared n b (omega arith) in
    record {
      ofset = omega (arith, before.ofset, before.sizes n);
      sizes = λ i. ground (arith, before.sizes i);
      offsets = λ i k. elim (ℕ_discrete i n) [
        | yes p ↦ rw p (ground (arith, before.ofset))
        | no p ↦ ground (arith, before.offsets i (omega arith))
      ];
    }

-- Each output has its own part of the memory, and the parts lie in it.
pub record IsLaidOut (b b' : NewBlock) : Type 0 where
  pub sizes : (i : ℕ) → (b'.outlist i).datasize ≡ (b.outlist i).datasize
  pub size : b'.outdata_size ≡ some (bytes b.outlist b.nout)
  pub inside :
      (i : ℕ)
      → i < b.nout
      → (b'.outlist i).data_offset + (b'.outlist i).datasize ≤ bytes b.outlist b.nout
  pub disjoint :
      (i j : ℕ)
      → i < j
      → j < b.nout
      → (b'.outlist i).data_offset + (b'.outlist i).datasize ≤ (b'.outlist j).data_offset

-- Where the sizes of all outputs add up to less than 2 ^ 31 bytes, the memory of a block without
-- an own output cache has the size of their sum, each output keeps its size, its part lies inside
-- the memory, and the parts of two outputs do not overlap.
pub alloc_outputs_lem :
    (b : NewBlock)
    → b.own_outcache ≡ false
    → bytes b.outlist b.nout < 2 ^ 31
    → (b' : NewBlock) × (alloc_outputs b ≡ some b') × IsLaidOut b b'
unfolding alloc_outputs
alloc_outputs_lem b e h =
    let shared = share_outdata-IsShared b.nout b (omega arith) in
    (
      record (share_outdata b.nout b).1 { outdata_size = some (mem_needed b.nout b) },
      rw e,
      record {
        sizes = shared.sizes;
        size = ap some (mem_needed-bytes b.nout b (omega arith));
        inside = λ i k.
            omega (arith, shared.sizes i, shared.offsets i k, bytes-le b.outlist (suc i) b.nout k);
        disjoint = λ i j k l. omega (
          arith,
          shared.sizes i,
          shared.offsets i (omega arith),
          shared.offsets j l,
          bytes-le b.outlist (suc i) j k,
        );
      },
    )
