-- ===== src/Libdyn/Schedule/Tests.antt =====
-- A feedback loop over a block with states, and a block that feeds itself: runs of the functions on
-- this network, and the theorems at it.
use mathlib.Core.Path.{subst}
use ortd.Prelude.{
  ℕ, ◌<◌, ◌≡◌, ◌↔◌, refl, sym, ◌⊎◌, inl, true, false, none, List, [], ◌∷◌, All, InList, Distinct,
  length, arith, ◌==◌, if◌then◌else◌,
}
use ortd.Libdyn.{Network, undef, direct}
use ortd.Libdyn.Connect.{connect, connected, already_connected, link}
use ortd.Libdyn.Connect.Link.{linked, IsConnected, connect-IsWired}
use ortd.Libdyn.Wiring.{IsWired, IsPure}
use ortd.Libdyn.Schedule.{
  Schedule, Outcome, ok, no_blocks, null_head, setup_executionlist, first_pass, reset_block,
  reset_inputs, reset_input, set_and_check_avail, add_to_execution_list, second_pass, add_dynamic,
  process, mark_outputs, walk, mark,
}
use ortd.Libdyn.Schedule.Order.{Ready, Ordered}
use ortd.Libdyn.Schedule.Setup.{IsLoaded}
use ortd.Libdyn.Schedule.Correct.{setup_total, setup-Ordered, setup_complete, setup_drops_loops}

-- Block 0 has states and no feedthrough; the others have feedthrough.
abbrev blank : Network
blank = record {
  num_blocks = 3;
  block = λ b. record {
    nin = 1;
    nout = 1;
    d_feedthrough = if b == 0 then false else true;
    dynamic = if b == 0 then true else false;
  };
  in_port = λ b i. record {
    len = 1;
    datatype = 513;
    intype = undef;
    pre = 0;
    out_nr = 0;
    next_juncture = none;
  };
  out_port = λ b o. record { len = 1; datatype = 513; outtype_direct = false; post = none };
}

-- Nothing is fed by anything.
abbrev nothing : ℕ → ℕ → List (ℕ × ℕ)
nothing b o = []

blank-IsWired : IsWired blank nothing
blank-IsWired = record {
  links = λ b o. refl;
  sound = λ b o. tt;
  distinct = λ b o. tt;
  complete = λ c i h k e. cc;
  small = λ c. omega arith;
  small_out = λ c. omega arith;
}

-- 0 feeds 1, 1 feeds 0, and 2 feeds itself.
abbrev one_link : Network
one_link = link blank 0 0 1 0

abbrev two_links : Network
two_links = link one_link 1 0 0 0

abbrev three_links : Network
three_links = link two_links 2 0 2 0

abbrev wires : ℕ → ℕ → List (ℕ × ℕ)
wires = linked (linked (linked nothing 0 0 1 0) 1 0 0 0) 2 0 2 0

connects : connect two_links 2 0 2 0 ≡ (connected, three_links)
unfolding connect link
connects = refl

refuses : (connect three_links 0 0 2 0).0 ≡ already_connected
unfolding connect link
refuses = refl

connect-IsWired_example : IsWired three_links wires × IsConnected two_links 2 0 2 0 three_links
unfolding connect link
connect-IsWired_example =
    connect-IsWired 2 0 2 0
      (connect-IsWired 1 0 0 0
        (connect-IsWired 0 0 1 0 blank-IsWired (omega arith) (omega arith) (omega arith) refl).0
        (omega arith) (omega arith) (omega arith) refl).0
      (omega arith) (omega arith) (omega arith) refl

-- Whatever stands in the flags before the algorithm runs.
abbrev stale : Schedule
stale = record { remaining = λ b. 7; available = λ b i. true; executed = λ b. true; exec = [] }

wires-short : (b o : ℕ) → length (wires b o) < 2
wires-short b o = ground arith

three_links-IsWired : IsWired three_links wires
unfolding connect link
three_links-IsWired =
    (connect-IsWired 2 0 2 0
      (connect-IsWired 1 0 0 0
        (connect-IsWired 0 0 1 0 blank-IsWired (omega arith) (omega arith) (omega arith) refl).0
        (omega arith) (omega arith) (omega arith) refl).0
      (omega arith) (omega arith) (omega arith) refl).0

loaded : IsLoaded three_links wires 2 4 stale
unfolding connect link
loaded = record {
  wired = three_links-IsWired;
  short = wires-short;
  enough = omega arith;
  start = refl;
}

exec_of : Outcome → List ℕ
exec_of (ok s) = s.exec
exec_of o = 9 ∷ []

lists_two : exec_of (setup_executionlist three_links 2 4 stale) ≡ 0 ∷ 1 ∷ []
unfolding exec_of setup_executionlist first_pass reset_block reset_inputs reset_input
    set_and_check_avail add_to_execution_list second_pass add_dynamic process mark_outputs walk mark
    link
lists_two = refl

state_of : Outcome → Schedule
state_of (ok s) = s
state_of o = stale

abbrev finished : Schedule
finished = state_of (setup_executionlist three_links 2 4 stale)

ends_ok : setup_executionlist three_links 2 4 stale ≡ ok finished
unfolding state_of setup_executionlist first_pass reset_block reset_inputs reset_input
    set_and_check_avail add_to_execution_list second_pass add_dynamic process mark_outputs walk mark
    link
ends_ok = refl

setup_total_example :
    ((three_links.num_blocks ≡ 0) × (setup_executionlist three_links 2 4 stale ≡ null_head))
    ⊎ (((b : ℕ) → b < three_links.num_blocks → ¬ Ready three_links [] b)
        × (setup_executionlist three_links 2 4 stale ≡ no_blocks))
    ⊎ ((t : Schedule) × (setup_executionlist three_links 2 4 stale ≡ ok t))
setup_total_example = setup_total loaded

setup-Ordered_example :
    Ordered three_links [] finished.exec
    × Distinct finished.exec
    × All (λ c. c < three_links.num_blocks) finished.exec
setup-Ordered_example = setup-Ordered loaded ends_ok

setup_complete_example :
    InList 1 finished.exec ↔ ((1 < three_links.num_blocks) × Ready three_links finished.exec 1)
setup_complete_example = setup_complete loaded ends_ok 1

-- Block 2 waits for itself.
feeds_itself :
    (c : ℕ)
    → c ≡ 2
    → (i : ℕ) × (i < (three_links.block c).nin)
      × ((three_links.in_port c i).intype ≡ direct)
      × ((three_links.in_port c i).pre ≡ 2)
unfolding link
feeds_itself c e =
    subst
      (λ x.
        (i : ℕ) × (i < (three_links.block x).nin)
        × ((three_links.in_port x i).intype ≡ direct)
        × ((three_links.in_port x i).pre ≡ 2))
      (sym e) (0, omega arith, refl, refl)

no_states : (c : ℕ) → c ≡ 2 → ¬ IsPure three_links c
unfolding link
no_states c e p = cc (rw e at p.has_states)

has_states : IsPure three_links 0
unfolding link
has_states = record { no_feedthrough = refl; has_states = refl }

setup_drops_loops_example :
    (t : Schedule) × (setup_executionlist three_links 2 4 stale ≡ ok t)
    × ((c : ℕ) → c ≡ 2 → ¬ InList c t.exec)
unfolding link
setup_drops_loops_example =
    setup_drops_loops loaded (λ c. c ≡ 2) no_states feeds_itself 0 (omega arith) (inl has_states)
