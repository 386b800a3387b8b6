-- ===== src/Bids/Loop.antt =====
-- The loop of `AuctionBid`: it finds the highest positive bid, whatever the order in which the map
-- of bids is visited.
use proof_relay.Base.{
  ◌≡◌, true, false, Option, none, some, List, [], ◌∷◌, arith, ◌⊎◌, inl, inr, sym, ◌∙◌, All,
  Bool-cases, Option-cases,
}
use proof_relay.Text.{Text, text_eq_iff, text_eq_refl}
use proof_relay.Text.Decimal.{ℤ, ltb_ℤ, parse_ℤ}
use proof_relay.Redis.{field_value, Distinct}
use proof_relay.Bids.{auction_loop}

-- `a` is not below `b`
abbrev pub IsAtLeast : ℤ → ℤ → Type 0
IsAtLeast a b = ltb_ℤ a b ≡ false

pub IsAtLeast-trans : (a b c : ℤ) → IsAtLeast a b → IsAtLeast b c → IsAtLeast a c
IsAtLeast-trans a b c h k = ground arith

IsAtLeast-of_lt : (a b : ℤ) → ltb_ℤ b a ≡ true → IsAtLeast a b
IsAtLeast-of_lt a b h = ground arith

IsAtLeast-refl : (a : ℤ) → IsAtLeast a a
IsAtLeast-refl a = ground arith

pub at_least_antisymm : (a b : ℤ) → IsAtLeast a b → IsAtLeast b a → a ≡ b
at_least_antisymm a b h k = ground arith

-- A listed value that is a number no higher than `v`.
abbrev pub IsBelow : ℤ → Text → Type 0
IsBelow v t = (z : ℤ) × (parse_ℤ t ≡ some z) × (ltb_ℤ v z ≡ false)

-- Where the result comes from: the start of the loop, or a listed bid above it.
abbrev pub From : List (Text × Text) → ℤ → Text → ℤ → Text → Type 0
From kvs v0 b0 v b =
    ((v ≡ v0) × (b ≡ b0))
    ⊎ ((t : Text) × (field_value b kvs ≡ some t) × (parse_ℤ t ≡ some v) × (ltb_ℤ v0 v ≡ true))

pub field_value-cons_self :
    (f v : Text) (r : List (Text × Text)) → field_value f ((f, v) ∷ r) ≡ some v
unfolding field_value
field_value-cons_self f v r = rw text_eq_refl

-- A field that is listed further down is not the one at the head.
pub field_value-cons_tail :
    (f g v t : Text) (r : List (Text × Text))
    → field_value g r ≡ none
    → field_value f r ≡ some t
    → field_value f ((g, v) ∷ r) ≡ some t
unfolding field_value
field_value-cons_tail f g v t r gone found = ground (arith, text_eq_iff g f)

pub record IsTop (kvs : List (Text × Text)) (v0 : ℤ) (b0 : Text) (v : ℤ) (b : Text) : Type 0 where
  pub from_start : IsAtLeast v v0
  pub below : All (λ e. IsBelow v e.1) kvs
  pub source : From kvs v0 b0 v b

IsBelow-mono :
    (v w : ℤ) (kvs : List (Text × Text))
    → IsAtLeast v w
    → All (λ e. IsBelow w e.1) kvs
    → All (λ e. IsBelow v e.1) kvs
IsBelow-mono v w [] h a = tt
IsBelow-mono v w ((f, t) ∷ r) h ((z, p, q), a) =
    ((z, p, IsAtLeast-trans v w z h q), IsBelow-mono v w r h a)

-- One round of the loop, by what the value is.
module _ (f t : Text) (r : List (Text × Text)) (v0 : ℤ) (b0 : Text) where
  pub round_bad : parse_ℤ t ≡ none → auction_loop ((f, t) ∷ r) v0 b0 ≡ none
  unfolding auction_loop
  round_bad e = ground arith

  pub round_above :
      (z : ℤ)
      → parse_ℤ t ≡ some z
      → ltb_ℤ v0 z ≡ true
      → auction_loop ((f, t) ∷ r) v0 b0 ≡ auction_loop r z f
  unfolding auction_loop
  round_above z e h = ground arith

  pub round_not_above :
      (z : ℤ)
      → parse_ℤ t ≡ some z
      → ltb_ℤ v0 z ≡ false
      → auction_loop ((f, t) ∷ r) v0 b0 ≡ auction_loop r v0 b0
  unfolding auction_loop
  round_not_above z e h = ground arith

  -- What the rest of the loop found, seen from the whole list.
  source_above :
      (z v : ℤ) (b : Text)
      → field_value f r ≡ none
      → parse_ℤ t ≡ some z
      → ltb_ℤ v0 z ≡ true
      → From r z f v b
      → From ((f, t) ∷ r) v0 b0 v b
  source_above z v b gone parsed above (inl (same_value, same_builder)) =
      inr (
        t,
        rw same_builder (field_value-cons_self f t r),
        rw same_value parsed,
        rw same_value above,
      )
  source_above z v b gone parsed above (inr (u, found, p, q)) =
      inr (u, field_value-cons_tail b f t u r gone found, p, ground arith)

  source_not_above :
      (v : ℤ) (b : Text) → field_value f r ≡ none → From r v0 b0 v b → From ((f, t) ∷ r) v0 b0 v b
  source_not_above v b gone (inl same) = inl same
  source_not_above v b gone (inr (u, found, p, q)) =
      inr (u, field_value-cons_tail b f t u r gone found, p, q)

pub auction_loop-IsTop :
    (kvs : List (Text × Text)) (v0 : ℤ) (b0 : Text) (v : ℤ) (b : Text)
    → Distinct kvs
    → auction_loop kvs v0 b0 ≡ some (v, b)
    → IsTop kvs v0 b0 v b
auction_loop-IsTop [] v0 b0 v b d e =
    let same : ◌≡◌ {A = Option (ℤ × Text)} (some (v0, b0)) (some (v, b)) =
      unfold auction_loop in e in
    let value : v ≡ v0 = cc in
    record { from_start = rw value (IsAtLeast-refl v0); below = tt; source = inl (value, cc) }
auction_loop-IsTop ((f, t) ∷ r) v0 b0 v b d e = elim (Option-cases (parse_ℤ t)) [
  | inl bad ↦ cc (round_bad f t r v0 b0 bad)
  | inr (z, parsed) ↦ elim (Bool-cases (ltb_ℤ v0 z)) [
    | inl above ↦
        let h : IsTop r z f v b =
          auction_loop-IsTop r z f v b d.1 (sym (round_above f t r v0 b0 z parsed above) ∙ e) in
        record {
          from_start = IsAtLeast-trans v z v0 h.from_start (IsAtLeast-of_lt z v0 above);
          below = ((z, parsed, h.from_start), h.below);
          source = source_above f t r v0 b0 z v b d.0 parsed above h.source;
        }
    | inr not_above ↦
        let h : IsTop r v0 b0 v b =
          auction_loop-IsTop r v0 b0 v b d.1
            (sym (round_not_above f t r v0 b0 z parsed not_above) ∙ e) in
        record {
          from_start = h.from_start;
          below = ((z, parsed, IsAtLeast-trans v v0 z h.from_start not_above), h.below);
          source = source_not_above f t r v0 b0 v b d.0 h.source;
        }
  ]
]
