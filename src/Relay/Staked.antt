-- ===== src/Relay/Staked.antt =====
-- The registry's updates (utils/relayUtils.go) and the check of a builder's status in handleSubmitBlock
-- (relay/relay.go): whom the pool does not list as active, the relay does not take bids from.
use proof_relay.Base.{ℕ, ◌≡◌, sym, ap, ◌∙◌, Bool, true, false, none, some, List, [], ok, inl, inr}
use proof_relay.Map.{lookup, text_key}
use proof_relay.Redis.{RedisLaws}
use proof_relay.Beacon.{answer}
use proof_relay.Database.{BuilderInterface, Database}
use proof_relay.Registry.{Synced, or_false, sync_builders, builder_status}
use proof_relay.Registry.Sync.{Agrees, builders_in_step}
use proof_relay.Registry.Pool.{listed}
use proof_relay.Registry.Updates.{updated, builder_statuses, update_builders}
use proof_relay.Registry.Updates.Agreed.{last_status, last_status-any, last_status-some}
use proof_relay.Bids.{Board}
use proof_relay.Relay.{Outside, RelayState}
use proof_relay.Relay.Submit.{Block, handle_submit_block}
use proof_relay.Relay.Steps.{Stops}
use proof_relay.Relay.Checked.{submit_checked}

module _ {B : Board} {E : Outside B} where
  -- After an update that logs no error, for a builder on whom Redis and the map of the statuses seen last
  -- agreed before: when the last entry of the pool's list for the builder is inactive, a bid of that
  -- builder is refused with board and database as they are, in every state of the relay over that store.
  pub inactive_refused :
      (laws : RedisLaws B.redis) (bs : List BuilderInterface) (m m' : Synced Bool B.redis.Store)
      (db db' : Database) (b : Block B E) (s : RelayState E) (time : ℕ)
      → Agrees B.redis laws m b.builder_wallet_address
      → update_builders B.redis (listed bs) (m, db) ≡ updated (m', db')
      → m'.errors ≡ []
      → last_status b.builder_wallet_address (builder_statuses bs) none ≡ some false
      → s.board.store ≡ m'.store
      → Stops (handle_submit_block B E time (answer b)) s
  unfolding update_builders
  inactive_refused laws bs m m' db db' b s time agrees ran clean entry same =
      let l = builder_statuses bs in
      let wallet = b.builder_wallet_address in
      let seen = or_false (lookup wallet m.last) in
      let after : sync_builders B.redis l m ≡ m' = cc ran in
      elim (submit_checked b s time) [
        | inr stops ↦ stops
        | inl all ↦
            let shown : builder_status B.redis wallet (sync_builders B.redis l m).store ≡ ok true =
              ap (λ x. builder_status B.redis wallet x) (ap (λ x. x.store) after ∙ sym same)
              ∙ all.active in
            let (current, _) =
              builders_in_step B.redis laws wallet l m true agrees
                (ap (λ x. x.errors) after ∙ clean) shown in
            absurd (
              cc (
                current,
                last_status-any wallet l false (some seen) entry,
                last_status-some B.redis laws wallet l seen,
              ))
      ]
