-- ===== src/Server/Connection/Usage.antt =====
-- What the operations keep of a connection, and the counter of its users with the mutex.
use ortd.Prelude.{
  ℕ, zero, suc, ◌+◌, ltb, ◌≤◌, ◌<◌, ◌≡◌, refl, ◌∙◌, inl, inr, Bool, true, false, Bool-cases, Option,
  none, some, List, [], ◌∷◌, ◌++◌, length, ◌==◌, if◌then◌else◌, ℤ, pos, negsuc, ◌+ℤ◌, ◌-ℤ◌, arith,
}
use ortd.Server.Connection.{
  Connection, waitforaline, readln, after_wait, copy_line, writeln, after_sent, register_usage,
  unregister_usage, destruct_wait_until_unused, newline, getline, c_str, send_all, Sent,
}
use ortd.Server.Connection.Sending.{MakesProgress, send_all_lem}

-- No more bytes are to come than there were, and the connection is in use as it was.
pub record IsKept {S : Type 0} (c c' : Connection S) : Type 0 where
  pub fewer : length (c'.incoming) ≤ length (c.incoming)
  pub usage : c'.usage_counter ≡ c.usage_counter
  pub mutex : c'.used_mutex ≡ c.used_mutex

-- A connection with n users; its mutex is held while there are any.
pub record HasUsers {S : Type 0} (n : ℕ) (c : Connection S) : Type 0 where
  pub usage : c.usage_counter ≡ pos n
  pub mutex : c.used_mutex ≡ ltb 0 n

pub HasUsers-kept :
    {S : Type 0} (n : ℕ) (c c' : Connection S) → IsKept c c' → HasUsers n c → HasUsers n c'
HasUsers-kept n c c' k u = record { usage = k.usage ∙ u.usage; mutex = k.mutex ∙ u.mutex }

pub IsKept-trans :
    {S : Type 0} (c c' c'' : Connection S) → IsKept c c' → IsKept c' c'' → IsKept c c''
IsKept-trans c c' c'' k l = record {
  fewer = omega (arith, k.fewer, l.fewer);
  usage = l.usage ∙ k.usage;
  mutex = l.mutex ∙ k.mutex;
}

pub register_usage-HasUsers :
    {S : Type 0} (n : ℕ) (c : Connection S)
    → HasUsers n c
    → (c' : Connection S) × (register_usage c ≡ some c')
      × HasUsers (suc n) c'
      × (c'.incoming ≡ c.incoming)
unfolding register_usage ◌+ℤ◌
register_usage-HasUsers zero c u = (
  record c { usage_counter = pos 1; used_mutex = true },
  rw (u.usage, u.mutex) refl,
  record { usage = refl; mutex = refl },
  refl,
)
register_usage-HasUsers (suc n) c u = (
  record c { usage_counter = pos (suc n + 1) },
  ground (arith, u.usage, u.mutex),
  record { usage = ground arith; mutex = ground (arith, u.mutex) },
  refl,
)

pub unregister_usage-HasUsers :
    {S : Type 0} (n : ℕ) (c : Connection S)
    → HasUsers (suc n) c
    → HasUsers n (unregister_usage c) × ((unregister_usage c).incoming ≡ c.incoming)
unfolding unregister_usage ◌-ℤ◌
unregister_usage-HasUsers zero c u = rw u.usage (record { usage = refl; mutex = refl }, refl)
unregister_usage-HasUsers (suc n) c u = (
  record { usage = ground (arith, u.usage); mutex = ground (arith, u.usage, u.mutex) },
  ground (arith, u.usage),
)

same : {S : Type 0} (c : Connection S) → IsKept c c
same c = record { fewer = omega arith; usage = refl; mutex = refl }

-- A line that is found takes bytes away.
waitforaline-length :
    (bytes s : List ℕ)
    → (length ((waitforaline bytes s).1) ≤ length bytes)
      × ((waitforaline bytes s).0 ≡ true → length ((waitforaline bytes s).1) < length bytes)
unfolding waitforaline
waitforaline-length [] s = (omega arith, λ e. cc)
waitforaline-length (c ∷ bytes) s = elim (Bool-cases (c == newline)) [
  | inl e ↦ rw (waitforaline, e) (omega arith, λ e. omega arith)
  | inr e ↦
      let (l, m) = waitforaline-length bytes (s ++ (c ∷ [])) in
      rw (waitforaline, e) (omega (arith, l), λ k. omega (arith, m k))
]

copy_line-IsKept :
    {S : Type 0} (nb : ℕ) (c : Connection S) (line : List ℕ) → (copy_line nb c line).1 ≡ c
unfolding copy_line
copy_line-IsKept nb c line = ground arith

-- What a read leaves; where it gives a line there are fewer bytes to come.
abbrev pub IsRead : {S : Type 0} → Connection S → Option (List ℕ) × Connection S → Type 0
IsRead c r =
    IsKept c (r.1)
    × ((line : List ℕ) → r.0 ≡ some line → length (r.1.incoming) < length (c.incoming))

either :
    {S : Type 0} (c : Connection S) (b : Bool) (x y : Option (List ℕ) × Connection S)
    → IsRead c x
    → IsRead c y
    → IsRead c (if b then x else y)
either c true x y h k = h
either c false x y h k = k

after_wait-IsRead :
    {S : Type 0} (nb : ℕ) (c : Connection S) (r : Bool × List ℕ × List ℕ)
    → length (r.1) ≤ length (c.incoming)
    → (r.0 ≡ true → length (r.1) < length (c.incoming))
    → IsRead c (after_wait nb c r)
unfolding after_wait
after_wait-IsRead nb c (false, incoming, stream) h k =
    (record { fewer = h; usage = refl; mutex = refl }, λ line e. cc)
after_wait-IsRead nb c (true, incoming, stream) h k =
    let (line, rest) = getline stream in
    rw (copy_line-IsKept nb (record c { incoming = incoming; sstream_in = rest }) line)
      (record { fewer = h; usage = refl; mutex = refl }, λ line' e. k refl)

pub readln-IsRead : {S : Type 0} (nb : ℕ) (c : Connection S) → IsRead c (readln nb c)
unfolding readln
readln-IsRead nb c =
    let (h, k) = waitforaline-length (c.incoming) (c.sstream_in) in
    either c (c.error_state) (none, c) (after_wait nb c (waitforaline (c.incoming) (c.sstream_in)))
      (same c, λ line e. cc) (after_wait-IsRead nb c (waitforaline (c.incoming) (c.sstream_in)) h k)

module _ {S : Type 0} where
  pub writeln-IsKept :
      (send : S → List ℕ → Option ℕ × S)
      → MakesProgress send
      → (text : List ℕ) (c : Connection S)
      → (r : ℤ) × (c' : Connection S) × (writeln send text c ≡ some (r, c')) × IsKept c c'
  unfolding writeln after_sent
  writeln-IsKept send progress text c = elim (Bool-cases (c.error_state)) [
    | inl e ↦ (negsuc 0, c, rw e refl, same c)
    | inr e ↦ elim (send_all_lem send progress (suc (length s)) s (c.socket) (omega arith)) [
      | inl (k, p) ↦ (pos 1, record c { socket = sent.socket }, rw (e, k) refl, kept sent.socket)
      | inr (k, rest, p) ↦ (
        negsuc 0,
        record c { socket = sent.socket; error_state = true },
        rw (e, k) refl,
        kept_in_error sent.socket,
      )
    ]
  ]
    where
      s : List ℕ
      s = c_str text

      sent : Sent S
      sent = send_all send (suc (length s)) s (c.socket)

      kept : (t : S) → IsKept c (record c { socket = t })
      kept t = record { fewer = omega arith; usage = refl; mutex = refl }

      kept_in_error : (t : S) → IsKept c (record c { socket = t; error_state = true })
      kept_in_error t = record { fewer = omega arith; usage = refl; mutex = refl }

-- The destruction passes where there is no user left, and then holds the mutex; else it waits.
pub destruct-unused :
    {S : Type 0} (c : Connection S)
    → HasUsers 0 c
    → destruct_wait_until_unused c ≡ some (record c { used_mutex = true })
unfolding destruct_wait_until_unused
destruct-unused c u = rw u.mutex refl

pub destruct-used :
    {S : Type 0} (n : ℕ) (c : Connection S)
    → HasUsers (suc n) c
    → destruct_wait_until_unused c ≡ none
unfolding destruct_wait_until_unused
destruct-used n c u = ground (arith, u.mutex)
