-- ===== src/Tests/Staked.antt =====
-- Alice is not listed as active any more, and bids.
use proof_relay.Base.{◌≡◌, refl, Bool, true, false, none, some, List, [], ◌∷◌, inr}
use proof_relay.Text.{text_eq}
use proof_relay.Text.{codes}
use proof_relay.Map.{lookup, insert}
use proof_relay.Memory.{memory_laws, hash_at}
use proof_relay.Beacon.{answer}
use proof_relay.Database.{BuilderInterface}
use proof_relay.Database.Write.{put_builders}
use proof_relay.Registry.{Synced, set_builder_status, sync_builders}
use proof_relay.Registry.Sync.{Agrees}
use proof_relay.Registry.Pool.{listed}
use proof_relay.Registry.Updates.{updated, builder_statuses, update_builders}
use proof_relay.Registry.Updates.Agreed.{last_status}
use proof_relay.Relay.{RelayState}
use proof_relay.Relay.Submit.{handle_submit_block}
use proof_relay.Relay.Steps.{Stops}
use proof_relay.Relay.Staked.{inactive_refused}
use proof_relay.Tests.Fixture.{board}
use proof_relay.Tests.Site.{alice, outside, nothing_stored, relay_with, start, bid}

abbrev pool : List BuilderInterface
pool = record { builder_pubkey = alice; balance_staked = codes "3"; status = false } ∷ []

abbrev before : Synced Bool board.redis.Store
before = record { last = (alice, true) ∷ []; store = start.store; errors = [] }

abbrev after : Synced Bool board.redis.Store
after = sync_builders board.redis (builder_statuses pool) before

before-Agrees : Agrees board.redis memory_laws before alice
unfolding hash_at lookup set_builder_status text_eq
before-Agrees = inr refl

ran :
    update_builders board.redis (listed pool) (before, nothing_stored)
    ≡ updated (after, (put_builders pool nothing_stored).1)
unfolding update_builders
ran = refl

clean : after.errors ≡ []
unfolding sync_builders lookup insert text_eq set_builder_status
clean = refl

inactive : last_status alice (builder_statuses pool) none ≡ some false
unfolding text_eq
inactive = refl

abbrev later : RelayState outside
later = relay_with (record { store = after.store; highest_bids = [] })

inactive_refused_example : Stops (handle_submit_block board outside 80 (answer bid)) later
inactive_refused_example =
    inactive_refused memory_laws pool before after nothing_stored
      (put_builders pool nothing_stored).1 bid later 80 before-Agrees ran clean inactive refl
