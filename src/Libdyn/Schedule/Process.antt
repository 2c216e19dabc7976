-- ===== src/Libdyn/Schedule/Process.antt =====
-- The loop over the execution list, which grows while it is read.
use mathlib.Core.Path.{subst}
use mathlib.Core.List.{append-nil, append_assoc}
use ortd.Prelude.{
  ℕ, zero, suc, ◌+◌, ◌<◌, ◌≡◌, ◌≢◌, refl, sym, ap, ◌∙◌, ◌⊎◌, inl, inr, true, none, some, List, [],
  ◌∷◌, ◌++◌, InList, here, there, Distinct, All-InList, InList-left, InList-right, length,
  length-append, get_elem?, arith,
}
use ortd.Libdyn.{Network, extern, direct}
use ortd.Libdyn.Wiring.{IsWired}
use ortd.Libdyn.Schedule.{Schedule, Outcome, ok, process, mark_outputs, ◌>>=◌}
use ortd.Libdyn.Schedule.Invariant.{Inv}
use ortd.Libdyn.Schedule.Walk.{InList-grown}
use ortd.Libdyn.Schedule.Outputs.{Stage, Inv-map, Sent, mark_outputs_lem}

-- The block that feeds the input is one of `d`.
abbrev pub Done : Network → List ℕ → ℕ → ℕ → Type 0
Done net d c i = InList (net.in_port c i).pre d

-- All inputs that the blocks of `d` feed are available.
abbrev pub Delivered : Network → List ℕ → Schedule → Type 0
Delivered net d s =
    (c i : ℕ)
    → c < net.num_blocks
    → i < (net.block c).nin
    → (net.in_port c i).intype ≡ direct
    → Done net d c i
    → s.available c i ≡ true

-- The lists are set up: every block on the execution list has been dealt with.
pub record Scheduled (net : Network) (s : Schedule) (out : Outcome) : Type 0 where
  pub state : Schedule
  pub result : out ≡ ok state
  pub inv : Inv net net.num_blocks (Done net state.exec) state
  pub delivered : Delivered net state.exec state
  pub keeps : (c : ℕ) → InList c s.exec → InList c state.exec

get_elem?-end : (d : List ℕ) → get_elem? (d ++ []) (length d) ≡ none
get_elem?-end [] = refl
get_elem?-end (x ∷ d) = get_elem?-end d

get_elem?-next : (d r : List ℕ) (b : ℕ) → get_elem? (d ++ (b ∷ r)) (length d) ≡ some b
get_elem?-next [] r b = refl
get_elem?-next (x ∷ d) r b = get_elem?-next d r b

not-InList_of_Distinct : (d r : List ℕ) (b : ℕ) → Distinct (d ++ (b ∷ r)) → ¬ InList b d
not-InList_of_Distinct [] r b h m = elim m [ ]
not-InList_of_Distinct (x ∷ d) r b h (here e) =
    All-InList (λ y. x ≢ y) h.0 (InList-right d (here refl)) (sym e)
not-InList_of_Distinct (x ∷ d) r b h (there m) = not-InList_of_Distinct d r b h.1 m

-- An element of a list with one more at its end.
InList-snoc : {a b : ℕ} (d : List ℕ) → InList a (d ++ (b ∷ [])) → InList a d ⊎ (a ≡ b)
InList-snoc [] (here e) = inr e
InList-snoc [] (there m) = elim m [ ]
InList-snoc (x ∷ d) (here e) = inl (here e)
InList-snoc (x ∷ d) (there m) = elim (InList-snoc d m) [ inl k ↦ inl (there k) | inr e ↦ inr e ]

Stage-Done :
    (net : Network) (d : List ℕ) (b o c i : ℕ)
    → (net.in_port c i).intype ≡ extern ⊎ Stage net d b o c i
    → (net.in_port c i).intype ≡ extern ⊎ Done net (d ++ (b ∷ [])) c i
Stage-Done net d b o c i (inl e) = inl e
Stage-Done net d b o c i (inr p) = elim p [
  | inl m ↦ inr (InList-left (b ∷ []) m)
  | inr q ↦ inr (InList-right d (here q.0))
]

Done-Stage :
    (net : Network) (d : List ℕ) (b c i : ℕ)
    → (net.in_port c i).intype ≡ extern ⊎ Done net d c i
    → (net.in_port c i).intype ≡ extern ⊎ Stage net d b 0 c i
Done-Stage net d b c i (inl e) = inl e
Done-Stage net d b c i (inr m) = inr (inl m)

process-end :
    (net : Network) (fuel f k : ℕ) (s : Schedule)
    → get_elem? s.exec k ≡ none
    → process net fuel (suc f) k s ≡ ok s
unfolding process
process-end net fuel f k s e = rw (e, process)

process-next :
    (net : Network) (fuel f k : ℕ) (s : Schedule) (b : ℕ)
    → get_elem? s.exec k ≡ some b
    → process net fuel (suc f) k s
      ≡ (mark_outputs net fuel b (net.block b).nout s >>= process net fuel f (k + 1))
unfolding process
process-next net fuel f k s b e = rw (e, process)

module _ {net : Network} {consumers : ℕ → ℕ → List (ℕ × ℕ)} (w : IsWired net consumers) (fuel : ℕ)
    (short : (b o : ℕ) → length (consumers b o) < fuel) where
  Delivered-Sent :
      {d : List ℕ} {b : ℕ} {s : Schedule} {out : Outcome}
      (t : Sent net consumers d b (net.block b).nout s out)
      → Delivered net d s
      → Delivered net (d ++ (b ∷ [])) t.state
  Delivered-Sent {d} {b} t h c i hc hi e m = elim (InList-snoc d m) [
    | inl k ↦ t.keeps c i (h c i hc hi e k)
    | inr p ↦
        let fed = w.complete c i hc hi e in
        All-InList (λ x. t.state.available x.0 x.1 ≡ true)
          (t.delivered (net.in_port c i).out_nr
            (subst (λ a. (net.in_port c i).out_nr < (net.block a).nout) p fed.port_in))
          (subst (λ a. InList (c, i) (consumers a (net.in_port c i).out_nr)) p fed.in_list)
  ]

  -- With as much fuel as there are blocks the loop comes to the end of the list.
  pub process_lem :
      (f k : ℕ) (d r : List ℕ) (s : Schedule)
      → s.exec ≡ d ++ r
      → k ≡ length d
      → Inv net net.num_blocks (Done net d) s
      → Delivered net d s
      → net.num_blocks < f + k
      → Scheduled net s (process net fuel f k s)
  process_lem zero k d r s e ek v h bound =
      absurd (omega (arith, v.listing.measure, ap length e, length-append d r))
  process_lem (suc f) k d [] s e ek v h bound =
      let all : d ≡ s.exec = sym (e ∙ append-nil d) in
      rw (process-end net fuel f k s look) (record {
        state = s;
        result = refl;
        inv = subst (λ x. Inv net net.num_blocks (Done net x) s) all v;
        delivered = subst (λ x. Delivered net x s) all h;
        keeps = λ c m. m;
      })
    where
      look : get_elem? s.exec k ≡ none
      look = ap (λ x. get_elem? x k) e ∙ ap (get_elem? (d ++ [])) ek ∙ get_elem?-end d
  process_lem (suc f) k d (b ∷ r) s e ek v h bound =
      let sent =
        mark_outputs_lem w fuel short {d = d} {b = b} {s = s} (net.block b).nout
          (Inv-map (λ c i hc hi. Done-Stage net d b c i) v)
          (not-InList_of_Distinct d r b (subst Distinct e v.listing.distinct))
          (λ a m. rw e (InList-left (b ∷ r) m)) (rw e (InList-right d (here refl))) in
      let rest =
        process_lem f (k + 1) (d ++ (b ∷ [])) (r ++ sent.extra) sent.state
          (sent.grows ∙ ap (λ x. x ++ sent.extra) e ∙ regroup sent.extra)
          (omega (arith, length-append d (b ∷ [])))
          (Inv-map (λ c i hc hi. Stage-Done net d b (net.block b).nout c i) sent.inv)
          (Delivered-Sent sent h) (omega arith) in
      rw (process-next net fuel f k s b look, sent.result)
        (record {
          state = rest.state;
          result = rest.result;
          inv = rest.inv;
          delivered = rest.delivered;
          keeps = λ c m. rest.keeps c (InList-grown sent.extra sent.grows m);
        })
    where
      look : get_elem? s.exec k ≡ some b
      look = ap (λ x. get_elem? x k) e ∙ ap (get_elem? (d ++ (b ∷ r))) ek ∙ get_elem?-next d r b

      regroup : (x : List ℕ) → (d ++ (b ∷ r)) ++ x ≡ (d ++ (b ∷ [])) ++ (r ++ x)
      regroup x = append_assoc d (b ∷ r) x ∙ sym (append_assoc d (b ∷ []) (r ++ x))
