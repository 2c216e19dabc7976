-- ===== src/Server/Connection/Lines.antt =====
-- `waitforaline`, `getline` and `readln`: the lines of a peer come out one by one.
use ortd.Prelude.{
  ℕ, ◌≤◌, ◌<◌, ◌≡◌, ◌≢◌, refl, ap, ◌∙◌, ◌⊎◌, inl, inr, true, false, none, some, List, [], ◌∷◌, ◌++◌,
  length, leb, ◌==◌, All, arith, leb→le, Bool-cases,
}
use ortd.Server.Connection.{
  newline, waitforaline, getline, c_str, Connection, readln, after_wait, copy_line,
}

-- The bytes of a line: neither its end nor the end of a string.
abbrev pub IsLine : List ℕ → Type 0
IsLine = All (λ c. (c ≢ newline) × (c ≢ 0))

append_one : (xs ys : List ℕ) (c : ℕ) → (xs ++ (c ∷ [])) ++ ys ≡ xs ++ (c ∷ ys)
append_one [] ys c = refl
append_one (x ∷ xs) ys c = ap (λ l. x ∷ l) (append_one xs ys c)

not_newline : (c : ℕ) → c ≢ newline → (c == newline) ≡ false
not_newline c h = ground arith

pub waitforaline_lem :
    (line rest s : List ℕ)
    → IsLine line
    → waitforaline (line ++ (newline ∷ rest)) s ≡ (true, rest, s ++ (line ++ (newline ∷ [])))
unfolding waitforaline
waitforaline_lem [] rest s h = refl
waitforaline_lem (c ∷ line) rest s h =
    rw (waitforaline, not_newline c h.0.0)
      (waitforaline_lem line rest (s ++ (c ∷ [])) h.1
        ∙ ap (λ l. (true, rest, l)) (append_one s (line ++ (newline ∷ [])) c))

pub getline_lem :
    (line rest : List ℕ) → IsLine line → getline (line ++ (newline ∷ rest)) ≡ (line, rest)
unfolding getline
getline_lem [] rest h = refl
getline_lem (c ∷ line) rest h = rw (not_newline c h.0.0, getline_lem line rest h.1)

pub c_str_lem : (line : List ℕ) → IsLine line → c_str line ≡ line
unfolding c_str
c_str_lem [] h = refl
c_str_lem (c ∷ line) h = ground (arith, h.0.1, c_str_lem line h.1)

-- Where the connection is sound and nothing is left of earlier lines, the next line is read without
-- its end, and what follows it is left to be read. A line that does not fit into the buffer is
-- dropped, with -1.
pub readln_lem :
    {S : Type 0} (nb : ℕ) (c : Connection S) (line rest : List ℕ)
    → IsLine line
    → c.error_state ≡ false
    → c.sstream_in ≡ []
    → c.incoming ≡ line ++ (newline ∷ rest)
    → ((length line < nb)
        × (readln nb c ≡ (some line, record c { incoming = rest; sstream_in = [] })))
      ⊎ ((nb ≤ length line) × (readln nb c ≡ (none, record c { incoming = rest; sstream_in = [] })))
unfolding readln after_wait copy_line
readln_lem nb c line rest h e s i =
    rw (e, s, i, waitforaline_lem line rest [] h, getline_lem line [] h, c_str_lem line h)
      (elim (Bool-cases (leb nb (length line))) [
        | inl l ↦ rw l (inr (leb→le nb (length line) l, refl))
        | inr l ↦ rw l (inl (ground arith, refl))
      ])
