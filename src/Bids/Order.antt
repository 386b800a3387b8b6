-- ===== src/Bids/Order.antt =====
-- The loop of `AuctionBid` gives the same highest bid in whatever order the map of bids is visited.
use proof_relay.Base.{
  ◌≡◌, ◌≢◌, Option, none, some, List, [], ◌∷◌, inl, inr, sym, ◌∙◌, ap, All, Bool-cases,
  Option-cases,
}
use mathlib.Core.Path.{subst}
use proof_relay.Text.{Text, text_eq}
use proof_relay.Text.Decimal.{ℤ, pos, ltb_ℤ, parse_ℤ}
use proof_relay.Redis.{field_value, Distinct}
use proof_relay.Bids.{auction_loop}
use proof_relay.Bids.Loop.{
  IsAtLeast, at_least_antisymm, IsBelow, field_value-cons_self, field_value-cons_tail,
  auction_loop-IsTop, IsTop, round_above, round_not_above,
}

-- The same map visited in two orders.
abbrev pub SameMap : List (Text × Text) → List (Text × Text) → Type 0
SameMap k l = (f : Text) → field_value f k ≡ field_value f l

pub All-field_value :
    (v : ℤ) (f t : Text) (kvs : List (Text × Text))
    → All (λ e. IsBelow v e.1) kvs
    → field_value f kvs ≡ some t
    → IsBelow v t
unfolding field_value
All-field_value v f t [] a e = absurd (cc e)
All-field_value v f t ((g, u) ∷ r) a e = elim (Bool-cases (text_eq g f)) [
  | inl same ↦
      let e' : ◌≡◌ {A = Option Text} (some u) (some t) = rw same at e in
      let value : u ≡ t = cc in subst (IsBelow v) value a.0
  | inr other ↦ All-field_value v f t r a.1 (rw other at e)
]

-- A result of the loop is as high as every result over the same map.
IsAtLeast-other :
    (k l : List (Text × Text)) (v w : ℤ) (b c : Text)
    → SameMap k l
    → IsTop k (pos 0) [] v b
    → IsTop l (pos 0) [] w c
    → IsAtLeast v w
IsAtLeast-other k l v w b c same top other = elim other.source [
  | inl (start, _) ↦ rw start top.from_start
  | inr (t, found, parsed, _) ↦
      let (z, p, q) = All-field_value v c t k top.below (same c ∙ found) in
      let value : z ≡ w = cc in rw (← value) q
]

later :
    (f t : Text) (r : List (Text × Text))
    → field_value f r ≡ none
    → (g : Text) × (u : Text) × (field_value g r ≡ some u) × (parse_ℤ u ≡ none)
    → (g : Text) × (u : Text) × (field_value g ((f, t) ∷ r) ≡ some u) × (parse_ℤ u ≡ none)
later f t r gone (g, u, found, bad) = (g, u, field_value-cons_tail g f t u r gone found, bad)

-- Where the loop stops early there is a value that is no number.
auction_loop-none :
    (kvs : List (Text × Text)) (v0 : ℤ) (b0 : Text)
    → Distinct kvs
    → auction_loop kvs v0 b0 ≡ none
    → (f : Text) × (t : Text) × (field_value f kvs ≡ some t) × (parse_ℤ t ≡ none)
auction_loop-none [] v0 b0 d e = unfold auction_loop in absurd (cc e)
auction_loop-none ((f, t) ∷ r) v0 b0 d e = elim (Option-cases (parse_ℤ t)) [
  | inl bad ↦ (f, t, field_value-cons_self f t r, bad)
  | inr (z, parsed) ↦ elim (Bool-cases (ltb_ℤ v0 z)) [
    | inl above ↦
        later f t r d.0
          (auction_loop-none r z f d.1 (sym (round_above f t r v0 b0 z parsed above) ∙ e))
    | inr not_above ↦
        later f t r d.0
          (auction_loop-none r v0 b0 d.1 (sym (round_not_above f t r v0 b0 z parsed not_above) ∙ e))
  ]
]

some_and_none :
    (k l : List (Text × Text)) (v : ℤ) (b : Text)
    → SameMap k l
    → Distinct k
    → Distinct l
    → auction_loop k (pos 0) [] ≡ some (v, b)
    → auction_loop l (pos 0) [] ≢ none
some_and_none k l v b same dk dl e n =
    let (f, t, found, bad) = auction_loop-none l (pos 0) [] dl n in
    let (z, p, _) =
      All-field_value v f t k (auction_loop-IsTop k (pos 0) [] v b dk e).below (same f ∙ found) in
    absurd (cc (p, bad))

abbrev pub top_value : Option (ℤ × Text) → Option ℤ
top_value none = none
top_value (some (v, _)) = some v

-- The highest value does not depend on the order in which Go visits the map of bids, and neither
-- does the early return at a value that is no number.
pub auction_order :
    (k l : List (Text × Text))
    → SameMap k l
    → Distinct k
    → Distinct l
    → top_value (auction_loop k (pos 0) []) ≡ top_value (auction_loop l (pos 0) [])
auction_order k l same dk dl = elim (Option-cases (auction_loop k (pos 0) [])) [
  | inl kn ↦ elim (Option-cases (auction_loop l (pos 0) [])) [
    | inl ln ↦ rw (kn, ln)
    | inr ((w, c), le) ↦ absurd (some_and_none l k w c (λ f. sym (same f)) dl dk le kn)
  ]
  | inr ((v, b), ke) ↦ elim (Option-cases (auction_loop l (pos 0) [])) [
    | inl ln ↦ absurd (some_and_none k l v b same dk dl ke ln)
    | inr ((w, c), le) ↦
        let kt = auction_loop-IsTop k (pos 0) [] v b dk ke in
        let lt = auction_loop-IsTop l (pos 0) [] w c dl le in
        rw (ke, le)
          (ap some (
            at_least_antisymm v w (IsAtLeast-other k l v w b c same kt lt)
              (IsAtLeast-other l k w v c b (λ f. sym (same f)) lt kt)))
  ]
]
