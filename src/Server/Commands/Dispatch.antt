-- ===== src/Server/Commands/Dispatch.antt =====
-- Which command answers a line.
use ortd.Prelude.{
  ℕ, ◌≡◌, refl, ap, ◌⊎◌, inl, inr, false, Bool-cases, Option, none, some, List, [], ◌∷◌, ◌++◌, ◌==◌,
  All, ℤ, negsuc, arith,
}
use ortd.Server.Commands.{
  Command, Client, parameter_part, find_command, run_callback, run_found, parse_line,
}

-- The line begins with the name.
abbrev pub StartsWith : List ℕ → List ℕ → Type 0
StartsWith name line = (param : List ℕ) × (line ≡ name ++ param)

abbrev pub head_of : List ℕ → ℕ
head_of [] = 0
head_of (a ∷ s) = a

abbrev pub tail_of : List ℕ → List ℕ
tail_of [] = []
tail_of (a ∷ s) = s

pub parameter_part_lem :
    (name line : List ℕ)
    → ((parameter_part name line ≡ none) × (¬ StartsWith name line))
      ⊎ ((param : List ℕ) × (parameter_part name line ≡ some param) × (line ≡ name ++ param))
unfolding parameter_part
parameter_part_lem [] line = inr (line, refl, refl)
parameter_part_lem (a ∷ name) [] = inl (refl, λ (param, e). cc)
parameter_part_lem (a ∷ name) (b ∷ line) = elim (Bool-cases (a == b)) [
  | inl e ↦ elim (parameter_part_lem name line) [
    | inl (n, other) ↦ inl (rw (e, n), λ (param, p). other (param, ap tail_of p))
    | inr (param, s, p) ↦
        let same : b ≡ a = ground arith in inr (param, rw (e, s), rw (same, p) refl)
  ]
  | inr e ↦ inl (rw e, λ (param, p). differ (ap head_of p) e)
]
  where
    differ : b ≡ a → (a == b) ≡ false → ⊥
    differ p e = ground arith

-- The command that is found: the first one of the table with a name that the line begins with.
pub find_command_lem :
    (map : List Command) (line : List ℕ)
    → ((find_command map line ≡ none) × All (λ c. ¬ StartsWith (c.command_name) line) map)
      ⊎ ((front back : List Command) × (command : Command) × (param : List ℕ) × (find_command map
              line
            ≡ some (command, param))
          × (map ≡ front ++ (command ∷ back))
          × (line ≡ command.command_name ++ param)
          × All (λ c. ¬ StartsWith (c.command_name) line) front)
unfolding find_command
find_command_lem [] line = inl (refl, tt)
find_command_lem (c ∷ map) line = elim (parameter_part_lem (c.command_name) line) [
  | inr (param, e, p) ↦ inr ([], map, c, param, rw e refl, refl, p, tt)
  | inl (e, other) ↦ elim (find_command_lem map line) [
    | inl (n, all) ↦ inl (rw (e, n) refl, (other, all))
    | inr (front, back, command, param, f, m, p, all) ↦
        inr (c ∷ front, back, command, param, rw (e, f) refl, ap (λ l. c ∷ l) m, p, (other, all))
  ]
]

module _ {S W : Type 0} (send : S → List ℕ → Option ℕ × S)
    (callback : Command → List ℕ → Client S W → ℤ × Client S W) where
  -- Each line is either given to the first command of the table with a name that it begins with,
  -- without this name, and to no other command; or, where there is none, -1 is returned and nothing
  -- has changed.
  pub parse_line_lem :
      (map : List Command) (line : List ℕ) (cl : Client S W)
      → ((parse_line send callback map line cl ≡ some (negsuc 0, cl))
          × All (λ c. ¬ StartsWith (c.command_name) line) map)
        ⊎ ((front back : List Command) × (command : Command) × (param : List ℕ) × (parse_line send
                callback map line cl
              ≡ run_callback send callback command param cl)
            × (map ≡ front ++ (command ∷ back))
            × (line ≡ command.command_name ++ param)
            × All (λ c. ¬ StartsWith (c.command_name) line) front)
  unfolding parse_line run_found
  parse_line_lem map line cl = elim (find_command_lem map line) [
    | inl (e, all) ↦ inl (rw e refl, all)
    | inr (front, back, command, param, e, m, p, all) ↦
        inr (front, back, command, param, rw e refl, m, p, all)
  ]
