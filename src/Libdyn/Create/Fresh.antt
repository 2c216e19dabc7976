-- ===== src/Libdyn/Create/Fresh.antt =====
-- What `libdyn_new_block__` adds to a simulation is a block whose inputs are not connected.
use ortd.Prelude.{
  ℕ, zero, suc, ◌<◌, ◌^◌, ◌≡◌, refl, inl, inr, Option-cases, Bool, true, none, some, List, [], ◌∷◌,
  All, arith,
}
use ortd.Libdyn.Create.{
  NewBlock, ConfigCall, block, input, output, outcache, apply, config_block, config_block_input,
  config_block_output, config_outcache, configure, configure_block, check_block, alloc_outputs,
  share_outdata, new_block, finish, add_to_lists, Simulation, insert,
}
use ortd.Libdyn.Create.Insert.{IsFresh}

-- A number of ports is no negative `int`.
abbrev pub IsSmall : ConfigCall → Type 0
IsSmall (block dynamic nout nin own) = (nin < 2 ^ 31) × (nout < 2 ^ 31)
IsSmall c = Unit

apply-IsFresh :
    (c : ConfigCall) (b b' : NewBlock) → IsSmall c → IsFresh b → apply c b ≡ some b' → IsFresh b'
unfolding apply config_block config_block_input config_block_output config_outcache
apply-IsFresh (block dynamic nout nin own) b b' s f e = record {
  small = ground (arith, s.0);
  small_out = ground (arith, s.1);
  free = λ i. ground arith;
}
apply-IsFresh (input port len datatype) b b' s f e = record {
  small = ground (arith, f.small);
  small_out = ground (arith, f.small_out);
  free = λ i. ground (arith, f.free i, f.free port);
}
apply-IsFresh (output port len datatype dinput) b b' s f e = record {
  small = ground (arith, f.small);
  small_out = ground (arith, f.small_out);
  free = λ i. ground (arith, f.free i);
}
apply-IsFresh (outcache port address) b b' s f e = record {
  small = ground (arith, f.small);
  small_out = ground (arith, f.small_out);
  free = λ i. ground (arith, f.free i);
}

configure-IsFresh :
    (cs : List ConfigCall) (b b' : NewBlock)
    → All IsSmall cs
    → IsFresh b
    → configure cs b ≡ some b'
    → IsFresh b'
unfolding configure
configure-IsFresh [] b b' s f e = record {
  small = ground (arith, f.small);
  small_out = ground (arith, f.small_out);
  free = λ i. ground (arith, f.free i);
}
configure-IsFresh (c ∷ cs) b b' s f e = elim (Option-cases (apply c b)) [
  | inl a ↦ absurd (ground (arith, a))
  | inr (b1, a) ↦ configure-IsFresh cs b1 b' s.1 (apply-IsFresh c b b1 s.0 f a) (ground (arith, a))
]

share_outdata-IsFresh : (n : ℕ) (b : NewBlock) → IsFresh b → IsFresh (share_outdata n b).1
unfolding share_outdata
share_outdata-IsFresh zero b f = f
share_outdata-IsFresh (suc n) b f =
    let before = share_outdata-IsFresh n b f in
    record { small = before.small; small_out = before.small_out; free = before.free }

pub alloc_outputs-IsFresh : (b b' : NewBlock) → IsFresh b → alloc_outputs b ≡ some b' → IsFresh b'
unfolding alloc_outputs
alloc_outputs-IsFresh b b' f e =
    let shared = share_outdata-IsFresh b.nout b f in
    record {
      small = ground (arith, f.small, shared.small);
      small_out = ground (arith, f.small_out, shared.small_out);
      free = λ i. ground (arith, f.free i, shared.free i);
    }

-- What a block creation that succeeds has added.
pub new_block-insert :
    (fresh : NewBlock) (calls : List ConfigCall) (failed : Bool) (s s' : Simulation)
    → new_block fresh calls failed s ≡ some (true, s')
    → (b b' : NewBlock) × (configure_block calls (record fresh { outdata_size = none }) ≡ some b)
      × (alloc_outputs b ≡ some b')
      × (s'.net ≡ insert b' s.net)
unfolding new_block check_block finish add_to_lists
new_block-insert fresh calls failed s s' e =
    elim (Option-cases (configure_block calls (record fresh { outdata_size = none }))) [
      | inl c ↦ absurd (ground (arith, c))
      | inr (b, c) ↦ elim (Option-cases (alloc_outputs b)) [
        | inl a ↦ absurd (ground (arith, a, c))
        | inr (b', a) ↦ (b, b', c, a, ground (arith, a, c))
      ]
    ]

-- Whatever stood in the memory of the new block, `libdyn_config_block` has set its ports.
pub configure_block-IsFresh :
    (dynamic : Bool) (nout nin : ℕ) (own : Bool) (calls : List ConfigCall) (start b : NewBlock)
    → All IsSmall (block dynamic nout nin own ∷ calls)
    → configure_block (block dynamic nout nin own ∷ calls) start ≡ some b
    → IsFresh b
unfolding configure_block configure apply config_block
configure_block-IsFresh dynamic nout nin own calls start b small e =
    configure-IsFresh calls (config_block dynamic nout nin own start) b small.1
      (record { small = small.0.0; small_out = small.0.1; free = λ i. refl }) e
