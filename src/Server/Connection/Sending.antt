-- ===== src/Server/Connection/Sending.antt =====
-- `ortd_buffered_io::writeln`: what happens to the bytes when the socket takes them in parts.
use ortd.Prelude.{
  ℕ, zero, suc, ◌≤◌, ◌<◌, ◌≡◌, refl, ap, ◌∙◌, ◌⊎◌, inl, inr, true, false, Bool-cases, Option,
  Option-cases, some, List, [], ◌∷◌, ◌++◌, length, take, drop, leb, leb→le, arith, length-drop,
  take-append-drop,
}
use ortd.Server.Connection.{Sent, after_send, send_all, behind_bytes}

take_all {ℓ} : {A : Type ℓ} (k : ℕ) (xs : List A) → length xs ≤ k → take k xs ≡ xs
take_all zero [] h = refl
take_all zero (x ∷ xs) h = elim h [ ]
take_all (suc k) [] h = refl
take_all (suc k) (x ∷ xs) h = ap (λ ys. x ∷ ys) (take_all k xs (omega arith))

append_assoc {ℓ} : {A : Type ℓ} (xs ys zs : List A) → (xs ++ ys) ++ zs ≡ xs ++ (ys ++ zs)
append_assoc [] ys zs = refl
append_assoc (x ∷ xs) ys zs = ap (λ l. x ∷ l) (append_assoc xs ys zs)

-- All bytes have been passed on in their order and 0 is returned; or the first ones of them, and -1.
abbrev pub IsSent : {S : Type 0} → List ℕ → Sent S → Type 0
IsSent buf r =
    ((r.ended ≡ some true) × (r.passed ≡ buf))
    ⊎ ((r.ended ≡ some false) × (rest : List ℕ) × (r.passed ++ rest ≡ buf))

module _ {S : Type 0} where
  IsSent-behind :
      (k : ℕ) (buf : List ℕ) (r : Sent S)
      → IsSent (drop k buf) r
      → IsSent buf (behind_bytes (take k buf) r)
  IsSent-behind k buf r (inl (e, p)) = inl (e, rw p (take-append-drop k buf))
  IsSent-behind k buf r (inr (e, rest, p)) =
      inr (e, rest, append_assoc (take k buf) r.passed rest ∙ rw p (take-append-drop k buf))

module _ {S : Type 0} (send : S → List ℕ → Option ℕ × S) where
  -- The socket takes a byte at least where there are bytes and no error.
  abbrev pub MakesProgress : Type 0
  MakesProgress = (s : S) (buf : List ℕ) (k : ℕ) → (send s buf).0 ≡ some k → 0 < length buf → 0 < k

  -- On a socket that makes progress the loop ends, with more rounds allowed than there are bytes:
  -- with 0 and all bytes passed on in their order, or with -1 and the first ones of them.
  pub send_all_lem :
      MakesProgress
      → (n : ℕ) (buf : List ℕ) (s : S) → length buf < n
      → IsSent buf (send_all send n buf s)
  unfolding send_all after_send
  send_all_lem progress zero buf s h = elim h [ ]
  send_all_lem progress (suc n) buf s h = elim (Option-cases ((send s buf).0)) [
    | inl e ↦ rw e (inr (refl, buf, refl))
    | inr (k, e) ↦ elim (Bool-cases (leb (length buf) k)) [
      | inl l ↦ rw (e, l) (inl (refl, take_all k buf (leb→le (length buf) k l)))
      | inr l ↦
          rw (e, l)
            (IsSent-behind k buf (send_all send n (drop k buf) ((send s buf).1)) (
              send_all_lem progress n (drop k buf) ((send s buf).1)
                (shorter k l (progress s buf k e))))
    ]
  ]
    where
      shorter :
          (k : ℕ) → leb (length buf) k ≡ false → (0 < length buf → 0 < k) → length (drop k buf) < n
      shorter k l p = ground (arith, length-drop k buf)
