-- ===== src/Server/Connection/Tests.antt =====
-- Runs of the buffered stream, and its theorems at inputs that meet the hypotheses.
use Prim.Native.Nat.{min}
use ortd.Prelude.{
  ℕ, suc, ◌≤◌, ◌<◌, ◌≡◌, refl, ◌⊎◌, true, false, Option, none, some, List, [], ◌∷◌, length, arith,
}
use ortd.Server.Connection.{
  Connection, newline, waitforaline, send_all, after_send, readln, new_connection,
}
use ortd.Server.Connection.Lines.{IsLine, readln_lem}
use ortd.Server.Connection.Sending.{IsSent, MakesProgress, send_all_lem}

-- A socket that takes two bytes at most, and counts the calls.
abbrev in_twos : ℕ → List ℕ → Option ℕ × ℕ
in_twos calls buf = (some (min 2 (length buf)), suc calls)

in_twos-MakesProgress : MakesProgress in_twos
in_twos-MakesProgress s [] k e h = elim h [ ]
in_twos-MakesProgress s (x ∷ buf) k e h = ground arith

three_calls :
    send_all in_twos 6 (5 ∷ 6 ∷ 7 ∷ 8 ∷ 9 ∷ []) 0
    ≡ record { ended = some true; passed = 5 ∷ 6 ∷ 7 ∷ 8 ∷ 9 ∷ []; socket = 3 }
unfolding send_all after_send
three_calls = refl

half_a_line : waitforaline (65 ∷ 66 ∷ []) [] ≡ (false, [], 65 ∷ 66 ∷ [])
unfolding waitforaline
half_a_line = refl

send_all_example : IsSent (5 ∷ 6 ∷ 7 ∷ []) (send_all in_twos 4 (5 ∷ 6 ∷ 7 ∷ []) 0)
send_all_example = send_all_lem in_twos in_twos-MakesProgress 4 (5 ∷ 6 ∷ 7 ∷ []) 0 (omega arith)

abbrev two_lines : Connection ℕ
two_lines = new_connection 0 (65 ∷ 66 ∷ newline ∷ 67 ∷ newline ∷ [])

readln_example :
    ((2 < 8)
      × (readln 8 two_lines ≡ (
        some (65 ∷ 66 ∷ []),
        record two_lines { incoming = 67 ∷ newline ∷ []; sstream_in = [] },
      )))
    ⊎ ((8 ≤ 2)
        × (readln 8 two_lines
            ≡ (none, record two_lines { incoming = 67 ∷ newline ∷ []; sstream_in = [] })))
readln_example = readln_lem 8 two_lines (65 ∷ 66 ∷ []) (67 ∷ newline ∷ []) line refl refl refl
  where
    line : IsLine (65 ∷ 66 ∷ [])
    line = ((omega arith, omega arith), ((omega arith, omega arith), tt))
