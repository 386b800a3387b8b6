-- ===== src/Registry/Updates/Crash.antt =====
-- What one unreadable balance does to the loop of BuilderUpdate (utils/relayUtils.go).
use proof_relay.Base.{◌≡◌, refl, ap, not, Bool, some, List, [], ◌∷◌, inl, inr, Option-cases}
use proof_relay.Text.{Text}
use proof_relay.Text.Decimal.{ℤ, parse_ℤ, ltb_ℤ}
use proof_relay.Redis.{Redis}
use proof_relay.Beacon.{answer}
use proof_relay.Registry.Pool.{
  Builder, Builders, panicked, interface_of, and_more, rate_builders, get_builder_required_stake,
  get_builders, HasNoBalance,
}
use proof_relay.Registry.Updates.{crashed, Shared, update_builders, builder_update}

rate_builders-panicked :
    (required : ℤ) (bs : List Builder) → HasNoBalance bs → rate_builders required bs ≡ panicked
unfolding rate_builders
rate_builders-panicked required [] h = absurd h
rate_builders-panicked required (b ∷ bs) (inl unreadable) = rw (unreadable, rate_builders) refl
rate_builders-panicked required (b ∷ bs) (inr later) =
    elim (Option-cases (parse_ℤ b.balance_staked)) [
      | inl unreadable ↦ rw (unreadable, rate_builders) refl
      | inr (balance, e) ↦
          rw (e, rate_builders)
            (ap (and_more (interface_of b (not (ltb_ℤ balance required))))
              (rate_builders-panicked required bs later))
    ]

-- When the required stake is a number and the balance of some builder of the pool is none, the next turn
-- of `BuilderUpdate` panics, and with it the program, whatever else the pool lists and whatever would
-- come later.
pub unreadable_balance_crashes :
    (R : Redis) (bs : List Builder) (stake : Text) (required : ℤ) (later : List Builders)
    (s : Shared R Bool)
    → parse_ℤ stake ≡ some required
    → HasNoBalance bs
    → builder_update R (get_builders (answer bs) (answer stake) ∷ later) s ≡ crashed
unfolding get_builders get_builder_required_stake builder_update update_builders
unreadable_balance_crashes R bs stake required later s e h =
    let panics : get_builders (answer bs) (answer stake) ≡ panicked =
      rw (e, get_builders) (rate_builders-panicked required bs h) in
    ap (λ p. builder_update R (p ∷ later) s) panics
