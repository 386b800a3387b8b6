-- ===== src/Relay/Steps.antt =====
-- Steps of a handler that check something of the request: each changes nothing, or ends the handler.
use proof_relay.Base.{◌≡◌, refl, Bool, true, false, inl, inr, ◌⊎◌, ok, err, failed, ◌>>=◌}
use proof_relay.Text.{Text}
use proof_relay.Beacon.{Reply, answer, failure}
use proof_relay.Rpbs.Decode.{Decoded, decoded, refused, panicked, running}
use proof_relay.Bids.{Board}
use proof_relay.Relay.{Outside, Response, RelayState, Handler, require, or_refuse, or_panic}

module _ {B : Board} {E : Outside B} where
  -- A step that ends the handler and leaves the board and the database alone.
  abbrev pub Stops : {A : Type 0} → Handler E A → RelayState E → Type 0
  Stops m s = ((m s).0 ≡ err failed) × ((m s).1.board ≡ s.board) × ((m s).1.db ≡ s.db)

  -- A step that gives an `a` with `P a` and changes nothing, or stops.
  abbrev pub Checks : {A : Type 0} → (A → Type 0) → Handler E A → RelayState E → Type 0
  Checks {A} P m s = ((a : A) × (m s ≡ (ok a, s)) × P a) ⊎ Stops m s

  pub Checks-bind :
      {A C : Type 0} (P : A → Type 0) (Q : C → Type 0) (m : Handler E A) (k : A → Handler E C)
      (s : RelayState E)
      → Checks P m s
      → ((a : A) → P a → Checks Q (k a) s)
      → Checks Q (m >>= k) s
  Checks-bind P Q m k s (inl (a, e, p)) next = elim (next a p) [
    | inl (c, f, q) ↦ inl (c, rw e f, q)
    | inr (r, same, db) ↦ inr (rw e (r, same, db))
  ]
  Checks-bind P Q m k s (inr (r, same, db)) next = inr (rw r (refl, same, db))

  pub Checks-map :
      {A : Type 0} {P Q : A → Type 0} (m : Handler E A) (s : RelayState E)
      → ((a : A) → P a → Q a)
      → Checks P m s
      → Checks Q m s
  Checks-map m s f (inl (a, e, p)) = inl (a, e, f a p)
  Checks-map m s f (inr stops) = inr stops

  pub Checks-or_refuse :
      {A : Type 0} (r : Reply A) (f : Text → Response E) (s : RelayState E)
      → Checks (λ a. r ≡ answer a) (or_refuse r f) s
  Checks-or_refuse (answer a) f s = inl (a, refl, refl)
  Checks-or_refuse (failure e) f s = inr (refl, refl, refl)

  pub Checks-require :
      (b : Bool) (r : Response E) (s : RelayState E) → Checks (λ _. b ≡ true) (require b r) s
  Checks-require true r s = inl (tt, refl, refl)
  Checks-require false r s = inr (refl, refl, refl)

  pub Checks-or_panic :
      (d : Decoded Bool) (f : Text → Response E) (r : Response E) (s : RelayState E)
      → Checks (λ _. d ≡ decoded true) (or_panic d f >>= λ b. require b r) s
  Checks-or_panic (decoded true) f r s = inl (tt, refl, refl)
  Checks-or_panic (decoded false) f r s = inr (refl, refl, refl)
  Checks-or_panic (refused e) f r s = inr (refl, refl, refl)
  Checks-or_panic panicked f r s = inr (refl, refl, refl)
  Checks-or_panic running f r s = inr (refl, refl, refl)
