-- ===== src/Server/Commands/Thread.antt =====
-- The loop for a client ends, and its connection is destructed where nobody else uses it.
use ortd.Prelude.{ℕ, suc, ◌≤◌, ◌<◌, ◌≡◌, Bool, true, Option, some, List, length, ℤ}
use ortd.Server.Connection.{Connection}
use ortd.Server.Connection.Usage.{HasUsers}
use ortd.Server.Commands.{Command, Client}

-- A turn returns, with the thread's own use of the connection given back; where there is a next turn,
-- fewer bytes are to come.
abbrev pub IsTurned : {S W : Type 0} → ℕ → Option (Bool × Client S W) → Type 0
IsTurned {S = S} {W = W} n r =
    (b : Bool) × (cl : Client S W) × (k : ℕ) × (r ≡ some (b, cl))
    × HasUsers k (cl.connection)
    × (b ≡ true → length (cl.connection.incoming) < n)

module _ {S W : Type 0} (send : S → List ℕ → Option ℕ × S)
    (callback : Command → List ℕ → Client S W → ℤ × Client S W)
    (writelnff_result : Client S W → ℤ) where
  -- A callback may write to the client, and register and unregister users of the connection, as the
  -- streams do. It reads nothing from the client and leaves the use by the thread alone.
  abbrev pub CallbackKeeps : Type 0
  CallbackKeeps =
      (command : Command) (param : List ℕ) (cl : Client S W) (k : ℕ)
      → HasUsers (suc k) (cl.connection)
      → (j : ℕ) × HasUsers (suc j) ((callback command param cl).1.connection)
        × (length ((callback command param cl).1.connection.incoming)
            ≤ length (cl.connection.incoming))
