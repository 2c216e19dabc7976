-- ===== src/Server/Commands/Tests.antt =====
-- Runs of the server for one client, and its theorems at inputs that meet the hypotheses.
use ortd.Prelude.{
  ℕ, suc, ◌≡◌, refl, ◌⊎◌, true, false, Option, some, List, [], ◌∷◌, ◌++◌, length, All, ℤ, pos,
  negsuc,
}
use ortd.Server.Connection.{newline, new_connection}
use ortd.Server.Commands.{Command, Client, add_command, parse_line, run_callback, ClientList}
use ortd.Server.Commands.Dispatch.{StartsWith, parse_line_lem}

abbrev takes_all : ℕ → List ℕ → Option ℕ × ℕ
takes_all calls buf = (some (length buf), suc calls)

-- The callbacks put down which command was called with what.
abbrev Log : Type 0
Log = List (ℕ × List ℕ)

abbrev put_down : Command → List ℕ → Client ℕ Log → ℤ × Client ℕ Log
put_down command param cl = (pos 0, record cl { world = (command.command_id, param) ∷ cl.world })

-- "ls" and "set".
abbrev commands : List Command
commands =
    record { command_name = 108 ∷ 115 ∷ []; command_id = 0; callback = 0 }
    ∷ record { command_name = 115 ∷ 101 ∷ 116 ∷ []; command_id = 1; callback = 1 }
    ∷ []

added :
    (add_command (115 ∷ 101 ∷ 116 ∷ []) 1 (
      add_command
        (108 ∷ 115 ∷ [])
        0
        (record { command_map = []; command_id_counter = 0 }))).command_map
    ≡ commands
unfolding add_command
added = refl

-- "set 7", "x", "ls" and the beginning of a line that does not end.
abbrev client : Client ℕ Log
client = record {
  connection =
      new_connection 0
        (115 ∷ 101 ∷ 116 ∷ 32 ∷ 55 ∷ newline ∷ 120 ∷ newline ∷ 108 ∷ 115 ∷ newline ∷ 115 ∷ []);
  world = [];
}

parse_line_example :
    ((parse_line takes_all put_down commands (115 ∷ 101 ∷ 116 ∷ 32 ∷ 55 ∷ []) client
        ≡ some (negsuc 0, client))
      × All (λ c. ¬ StartsWith (c.command_name) (115 ∷ 101 ∷ 116 ∷ 32 ∷ 55 ∷ [])) commands)
    ⊎ ((front back : List Command) × (command : Command) × (param : List ℕ) × (parse_line takes_all
            put_down commands
            (115 ∷ 101 ∷ 116 ∷ 32 ∷ 55 ∷ [])
            client
          ≡ run_callback takes_all put_down command param client)
        × (commands ≡ front ++ (command ∷ back))
        × (115 ∷ 101 ∷ 116 ∷ 32 ∷ 55 ∷ [] ≡ command.command_name ++ param)
        × All (λ c. ¬ StartsWith (c.command_name) (115 ∷ 101 ∷ 116 ∷ 32 ∷ 55 ∷ [])) front)
parse_line_example =
    parse_line_lem takes_all put_down commands (115 ∷ 101 ∷ 116 ∷ 32 ∷ 55 ∷ []) client

abbrev two_clients : ClientList
two_clients = record {
  client_list = 4 ∷ 6 ∷ [];
  client_list_mutex = false;
  client_list_empty_mutex = true;
}
