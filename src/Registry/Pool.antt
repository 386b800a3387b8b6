-- ===== src/Registry/Pool.antt =====
-- Which builders count as active (ponPool/ponpool.go: `GetBuilders`, `getBuilderRequiredStake`).
-- What the subgraph answers, decoded, is an argument.
use proof_relay.Base.{
  ◌≡◌, refl, Bool, not, none, some, List, [], ◌∷◌, All, ap, inl, inr, Option-cases, ◌⊎◌,
}
use proof_relay.Text.{Text, codes}
use proof_relay.Text.Decimal.{ℤ, ltb_ℤ, parse_ℤ}
use proof_relay.Beacon.{Reply, answer, failure}
use proof_relay.Database.{BuilderInterface}

-- `ponPoolTypes.Builder`, the fields that are used
pub record Builder : Type 0 where
  pub builder_pubkey : Text
  pub balance_staked : Text

-- How `GetBuilders` ends. `panicked` is a comparison through the nil pointer that `SetString` gives
-- for a balance that is no number.
pub data Builders : Type 0 where
  listed : List BuilderInterface → Builders
  refused : Text → Builders
  panicked : Builders

-- `ponPoolTypes.BuilderInterface`: a builder with its status.
abbrev pub interface_of : Builder → Bool → BuilderInterface
interface_of b status = record {
  builder_pubkey = b.builder_pubkey;
  balance_staked = b.balance_staked;
  status = status;
}

abbrev pub and_more : BuilderInterface → Builders → Builders
and_more b (listed l) = listed (b ∷ l)
and_more b (refused e) = refused e
and_more b panicked = panicked

-- The loop over the builders: the comparison stands in front of the test of `ok`.
unfoldable pub rate_builders : ℤ → List Builder → Builders
rate_builders required [] = listed []
rate_builders required (b ∷ bs) =
    let rest = rate_builders required bs in
    elim (parse_ℤ b.balance_staked) [
      | none ↦ panicked
      | some balance ↦ and_more (interface_of b (not (ltb_ℤ balance required))) rest
    ]

unfoldable pub get_builder_required_stake : Reply Text → Reply ℤ
get_builder_required_stake (failure e) = failure e
get_builder_required_stake (answer t) = elim (parse_ℤ t) [
  | none ↦ failure (codes "Failed to get the BigInt Builder Stake")
  | some z ↦ answer z
]

unfoldable pub get_builders : Reply (List Builder) → Reply Text → Builders
unfolding rate_builders get_builder_required_stake
get_builders (failure e) stake = refused e
get_builders (answer bs) stake = elim (get_builder_required_stake stake) [
  | failure e ↦ refused e
  | answer required ↦ rate_builders required bs
]

-- The balance of a builder as a number, and its rating against what is required.
abbrev pub IsRated : ℤ → BuilderInterface → Type 0
IsRated required b =
    (balance : ℤ) × (parse_ℤ b.balance_staked ≡ some balance)
    × (b.status ≡ not (ltb_ℤ balance required))

abbrev pub builders_of : List BuilderInterface → List Builder
builders_of [] = []
builders_of (b ∷ l) =
    record { builder_pubkey = b.builder_pubkey; balance_staked = b.balance_staked } ∷ builders_of l

-- Some builder's balance is no number.
abbrev pub HasNoBalance : List Builder → Type 0
HasNoBalance [] = ⊥
HasNoBalance (b ∷ bs) = (parse_ℤ b.balance_staked ≡ none) ⊎ HasNoBalance bs

-- Ratings for exactly the builders of the subgraph, in its order, or a panic where one of them has
-- no balance. An error is never the outcome.
abbrev pub Rates : ℤ → List Builder → Builders → Type 0
Rates required bs (listed l) = (builders_of l ≡ bs) × All (IsRated required) l
Rates required bs (refused _) = ⊥
Rates required bs panicked = HasNoBalance bs

Rates-and_more :
    (required : ℤ) (b : Builder) (balance : ℤ) (bs : List Builder) (rest : Builders)
    → parse_ℤ b.balance_staked ≡ some balance
    → Rates required bs rest
    → Rates required (b ∷ bs) (and_more (interface_of b (not (ltb_ℤ balance required))) rest)
Rates-and_more required b balance bs (listed l) e h =
    (ap (λ (r : List Builder). b ∷ r) h.0, ((balance, e, refl), h.1))
Rates-and_more required b balance bs (refused _) e h = absurd h
Rates-and_more required b balance bs panicked e h = inr h

Rates-rate_builders :
    (required : ℤ) (bs : List Builder) → Rates required bs (rate_builders required bs)
unfolding rate_builders
Rates-rate_builders required [] = (refl, tt)
Rates-rate_builders required (b ∷ bs) = elim (Option-cases (parse_ℤ b.balance_staked)) [
  | inl unreadable ↦ rw (unreadable, rate_builders) (inl unreadable)
  | inr (balance, e) ↦
      rw (e, rate_builders)
        (Rates-and_more required b balance bs (rate_builders required bs) e
          (Rates-rate_builders required bs))
]

-- When both queries are answered and the required stake is a number, `GetBuilders` rates every
-- builder of the subgraph, in its order, as active exactly if its balance is not below what is
-- required, or panics where the balance of one is no number. It never returns the error that its
-- code has for that case.
pub get_builders_lem :
    (bs : List Builder) (stake : Text) (required : ℤ)
    → parse_ℤ stake ≡ some required
    → Rates required bs (get_builders (answer bs) (answer stake))
unfolding get_builders get_builder_required_stake
get_builders_lem bs stake required e = rw (e, get_builders) (Rates-rate_builders required bs)
