-- ===== src/Server/Connection.antt =====
-- modules/rt_server: ortd_buffered_io.cpp and `tcp_connection` in rt_server.cpp. `send` of the
-- operating system is a parameter: the number of bytes that it takes, or `none` for an error. What
-- `recv` delivers is a list of bytes, behind which it fails or reports the end. `none` as the result
-- of an operation: it does not return.
pub mod Lines
pub mod Sending
pub mod Usage
mod Tests
use ortd.Prelude.{
  ℕ, zero, suc, ◌+◌, ◌-◌, ◌>>=◌, Bool, true, false, Option, none, some, List, [], ◌∷◌, ◌++◌, length,
  take, drop, leb, ◌==◌, if◌then◌else◌, ℤ, pos, negsuc, ◌+ℤ◌, ◌-ℤ◌,
}

abbrev pub newline : ℕ
newline = 10

-- The loop of `ortd_buffered_io::waitforaline`: true for 0, with what is left in the socket and what
-- stands in `sstream_in`.
pub waitforaline : List ℕ → List ℕ → Bool × List ℕ × List ℕ
waitforaline [] sstream_in = (false, [], sstream_in)
waitforaline (c ∷ incoming) sstream_in = elim (c == newline) [
  | true ↦ (true, incoming, sstream_in ++ (c ∷ []))
  | false ↦ waitforaline incoming (sstream_in ++ (c ∷ []))
]

-- `getline` of C++: the line without its end, and what is left in the stream.
pub getline : List ℕ → List ℕ × List ℕ
getline [] = ([], [])
getline (c ∷ s) = let (line, rest) = getline s in if c == newline then ([], s) else (c ∷ line, rest)

-- What `strlen` and `strcpy` see of a string.
pub c_str : List ℕ → List ℕ
c_str [] = []
c_str (c ∷ s) = let rest = c_str s in if c == 0 then [] else c ∷ rest

-- The loop of `ortd_buffered_io::writeln`: whether it ended, with 0 or with -1; the bytes that the
-- socket took; and the socket.
pub record Sent (S : Type 0) : Type 0 where
  pub ended : Option Bool
  pub passed : List ℕ
  pub socket : S

module _ {S : Type 0} where
  abbrev pub behind_bytes : List ℕ → Sent S → Sent S
  behind_bytes bytes r = record r { passed = bytes ++ r.passed }

  pub after_send : (List ℕ → S → Sent S) → List ℕ → Option ℕ × S → Sent S
  after_send again buf (none, s) = record { ended = some false; passed = []; socket = s }
  after_send again buf (some k, s) =
      if leb (length buf) k
      then record { ended = some true; passed = take k buf; socket = s }
      else behind_bytes (take k buf) (again (drop k buf) s)

module _ {S : Type 0} (send : S → List ℕ → Option ℕ × S) where
  pub send_all : ℕ → List ℕ → S → Sent S
  send_all zero buf s = record { ended = none; passed = []; socket = s }
  send_all (suc n) buf s = after_send (send_all n) buf (send s buf)

-- `tcp_connection`, the bytes that are still to come, and `sstream_in` of its `bufferedio`.
pub record Connection (S : Type 0) : Type 0 where
  pub socket : S
  pub incoming : List ℕ
  pub sstream_in : List ℕ
  pub error_state : Bool
  pub usage_counter : ℤ
  pub used_mutex : Bool

abbrev pub is_pos : ℕ → ℤ → Bool
is_pos k (pos n) = n == k
is_pos k (negsuc n) = false

module _ {S : Type 0} where
  -- The constructor.
  abbrev pub new_connection : S → List ℕ → Connection S
  new_connection s bytes = record {
    socket = s;
    incoming = bytes;
    sstream_in = [];
    error_state = false;
    usage_counter = pos 0;
    used_mutex = false;
  }

  -- `register_usage`, `unregister_usage` and `destruct_wait_until_unused`.
  pub register_usage : Connection S → Option (Connection S)
  register_usage c =
      let n = c.usage_counter +ℤ pos 1 in
      if is_pos 1 n
      then (if c.used_mutex then none else some (record c { usage_counter = n; used_mutex = true }))
      else some (record c { usage_counter = n })

  pub unregister_usage : Connection S → Connection S
  unregister_usage c =
      let n = c.usage_counter -ℤ pos 1 in
      if is_pos 0 n
      then record c { usage_counter = n; used_mutex = false }
      else record c { usage_counter = n }

  pub destruct_wait_until_unused : Connection S → Option (Connection S)
  destruct_wait_until_unused c =
      if c.used_mutex then none else some (record c { used_mutex = true })

  -- `readln`: the line that is copied to the caller, or `none` for -1.
  pub copy_line : ℕ → Connection S → List ℕ → Option (List ℕ) × Connection S
  copy_line nb c line = if leb nb (length (c_str line)) then (none, c) else (some (c_str line), c)

  pub after_wait : ℕ → Connection S → Bool × List ℕ × List ℕ → Option (List ℕ) × Connection S
  after_wait nb c (false, incoming, stream) =
      (none, record c { incoming = incoming; sstream_in = stream; error_state = true })
  after_wait nb c (true, incoming, stream) =
      let (line, rest) = getline stream in
      copy_line nb (record c { incoming = incoming; sstream_in = rest }) line

  pub readln : ℕ → Connection S → Option (List ℕ) × Connection S
  readln nb c =
      if c.error_state then (none, c) else after_wait nb c (waitforaline c.incoming c.sstream_in)

  -- `writeln`: 1 or -1.
  pub after_sent : Connection S → Sent S → Option (ℤ × Connection S)
  after_sent c r = r.ended >>= λ ok. some (
      if ok
      then (pos 1, record c { socket = r.socket })
      else (negsuc 0, record c { socket = r.socket; error_state = true }))

module _ {S : Type 0} (send : S → List ℕ → Option ℕ × S) where
  pub writeln : List ℕ → Connection S → Option (ℤ × Connection S)
  writeln text c =
      if c.error_state
      then some (negsuc 0, c)
      else after_sent c (send_all send (suc (length (c_str text))) (c_str text) c.socket)
