-- ===== src/Server/Commands.antt =====
-- modules/rt_server/rt_server.cpp: the table of commands, `rt_server::parse_line`, and the thread that
-- serves one client. The callbacks are a parameter, with the program around the server as their world.
-- The flushing of buffers, which does nothing, and the signal that the thread reads and does not use
-- are left out.
pub mod Dispatch
pub mod Thread
mod Tests
use ortd.Prelude.{
  ℕ, zero, suc, ◌+◌, ◌>>=◌, Bool, true, false, Option, none, some, List, [], ◌∷◌, ◌++◌, ◌==◌, ◌&&◌,
  ◌||◌, not, if◌then◌else◌, ℤ, pos, negsuc, ltb_ℤ, sub_ℕ, pos_part, neg_part,
}
use ortd.Server.Connection.{
  Connection, register_usage, unregister_usage, destruct_wait_until_unused, readln, writeln,
}

-- `rt_server_command`; the callback goes with its user data.
pub record Command : Type 0 where
  pub command_name : List ℕ
  pub command_id : ℕ
  pub callback : ℕ

-- What `rt_server_threads_manager` keeps of the commands, in the order of their ids.
pub record Manager : Type 0 where
  pub command_map : List Command
  pub command_id_counter : ℕ

-- `add_command`
pub add_command : List ℕ → ℕ → Manager → Manager
add_command name callback m = record {
  command_map =
      m.command_map
      ++ (record { command_name = name; command_id = m.command_id_counter; callback = callback }
          ∷ []);
  command_id_counter = m.command_id_counter + 1;
}

-- Whether `strstr (line, name) == line`, and then the rest of the line.
pub parameter_part : List ℕ → List ℕ → Option (List ℕ)
parameter_part [] line = some line
parameter_part (a ∷ name) [] = none
parameter_part (a ∷ name) (b ∷ line) =
    let rest = parameter_part name line in if a == b then rest else none

-- The loop of `parse_line`.
abbrev pub or_found :
    Command → Option (List ℕ) → Option (Command × List ℕ) → Option (Command × List ℕ)
or_found command none others = others
or_found command (some param) others = some (command, param)

pub find_command : List Command → List ℕ → Option (Command × List ℕ)
find_command [] line = none
find_command (command ∷ map) line =
    or_found command (parameter_part command.command_name line) (find_command map line)

-- A client and the program.
pub record Client (S W : Type 0) : Type 0 where
  pub connection : Connection S
  pub world : W

-- The list of clients, by their numbers, and its two mutexes.
pub record ClientList : Type 0 where
  pub client_list : List ℕ
  pub client_list_mutex : Bool
  pub client_list_empty_mutex : Bool

abbrev pub find_client : ℕ → List ℕ → Bool
find_client id [] = false
find_client id (c ∷ clients) = id == c || find_client id clients

abbrev pub erase_client : ℕ → List ℕ → List ℕ
erase_client id [] = []
erase_client id (c ∷ clients) =
    let rest = erase_client id clients in if id == c then clients else c ∷ rest

abbrev pub no_client : List ℕ → Bool
no_client [] = true
no_client (c ∷ clients) = false

-- `del_from_client_list`: `none` where the mutex is held, and where the end of the map is erased.
pub del_from_client_list : ℕ → ClientList → Option ClientList
del_from_client_list id l =
    if l.client_list_mutex
    then none
    else if not (find_client id l.client_list)
    then none
    else (let rest = erase_client id l.client_list in
        some (record l {
          client_list = rest;
          client_list_empty_mutex = if no_client rest then false else l.client_list_empty_mutex;
        }))

-- "--EOR--\n" and "Command not found\n"
abbrev pub end_of_record : List ℕ
end_of_record = 45 ∷ 45 ∷ 69 ∷ 79 ∷ 82 ∷ 45 ∷ 45 ∷ 10 ∷ []

abbrev pub not_found : List ℕ
not_found =
    67 ∷ 111 ∷ 109 ∷ 109 ∷ 97 ∷ 110 ∷ 100 ∷ 32 ∷ 110 ∷ 111 ∷ 116 ∷ 32 ∷ 102 ∷ 111 ∷ 117 ∷ 110 ∷ 100
    ∷ 10 ∷ []

module _ {S W : Type 0} (send : S → List ℕ → Option ℕ × S)
    (callback : Command → List ℕ → Client S W → ℤ × Client S W) where
  -- `rt_server_command::run_callback`
  pub run_callback : Command → List ℕ → Client S W → Option (ℤ × Client S W)
  run_callback command param cl =
      let (calb_ret, cl1) = callback command param cl in
      writeln send end_of_record cl1.connection >>= λ (ret, c).
      some (calb_ret, record cl1 { connection = c })

  -- `rt_server::parse_line`
  pub run_found : Client S W → Option (Command × List ℕ) → Option (ℤ × Client S W)
  run_found cl none = some (negsuc 0, cl)
  run_found cl (some (command, param)) = run_callback command param cl

  pub parse_line : List Command → List ℕ → Client S W → Option (ℤ × Client S W)
  parse_line map line cl = run_found cl (find_command map line)

  -- One turn of the loop in `rt_server_thread`: whether there is a next one. `writelnff` has no return
  -- statement, so what the thread tests there is a parameter, which depends on all that it could.
  module _ (writelnff_result : Client S W → ℤ) where
    abbrev pub leave : Client S W → Option (Bool × Client S W)
    leave cl = some (false, record cl { connection = unregister_usage cl.connection })

    pub stay : ℤ → Client S W → Option (Bool × Client S W)
    stay ret cl =
        if ltb_ℤ ret (pos 0) && cl.connection.error_state
        then leave cl
        else some (true, record cl { connection = unregister_usage cl.connection })

    pub answer_line : ℤ → Client S W → Option (Bool × Client S W)
    answer_line (negsuc zero) cl = writeln send not_found cl.connection >>= λ (ret, c).
        if ltb_ℤ (writelnff_result (record cl { connection = c })) (pos 0)
        then leave (record cl { connection = c })
        else stay (negsuc zero) (record cl { connection = c })
    answer_line (negsuc (suc k)) cl = stay (negsuc (suc k)) cl
    answer_line (pos k) cl = stay (pos k) cl

    pub after_readln :
        List Command → W → Option (List ℕ) × Connection S → Option (Bool × Client S W)
    after_readln map w (none, c) = leave (record { connection = c; world = w })
    after_readln map w (some line, c) =
        parse_line map line (record { connection = c; world = w }) >>= λ (ret, cl).
        answer_line ret cl

    pub turn : List Command → Client S W → Option (Bool × Client S W)
    turn map cl = register_usage cl.connection >>= λ c. after_readln map cl.world (readln 10240 c)

    -- The loop, up to the end of its last turn; running out of turns is `none` as well.
    pub after_turn : (Client S W → Option (Client S W)) → Bool × Client S W → Option (Client S W)
    after_turn next (true, cl) = next cl
    after_turn next (false, cl) = some cl

    pub serve : ℕ → List Command → Client S W → Option (Client S W)
    serve zero map cl = none
    serve (suc n) map cl = turn map cl >>= after_turn (serve n map)

    -- The thread of the client with this number: the loop, `del_from_client_list`, and
    -- `iohelper->destruct ()`.
    pub thread : ℕ → List Command → ℕ → Client S W → ClientList → Option (Client S W × ClientList)
    unfolding del_from_client_list
    thread n map id cl clients = do
      cl1 ← serve n map cl
      clients1 ← del_from_client_list id clients
      c ← destruct_wait_until_unused cl1.connection
      some (record cl1 { connection = c }, clients1)
