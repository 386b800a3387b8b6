-- ===== src/Tests/Bulletin.antt =====
-- The bulletin board on concrete messages.
use proof_relay.Base.{◌≡◌, refl, true, false, none, List, [], ◌∷◌}
use proof_relay.Text.{codes}
use proof_relay.Text.Decimal.{show_ℕ}
use proof_relay.Bids.{RelayHighestBid}
use proof_relay.Bulletin.{
  publish_each, publish_bulletin_board, Token, Published, new_channels, highest_bid_topic,
  highest_bid_message, highest_bid_publish, bounty_bid_won, client_broker_url,
}
use proof_relay.Bulletin.Messages.{Without, comma, highest_bid_message-injective}

abbrev highest : RelayHighestBid
highest = record { slot = 7; builder_public_key = codes "0xa1"; amount = codes "9" }

highest_shown : highest_bid_message highest ≡ codes "slot: 7, builder: 0xa1, amount: 9"
unfolding highest_bid_message show_ℕ
highest_shown = refl

broker_shown : client_broker_url (codes "tcp") (codes "broker") 1883 ≡ codes "tcp://broker:1883"
unfolding client_broker_url show_ℕ
broker_shown = refl

key-Without : Without comma (codes "0xa1")
key-Without = (
  (λ e. absurd (cc e)),
  ((λ e. absurd (cc e)), ((λ e. absurd (cc e)), ((λ e. absurd (cc e)), tt))),
)

highest_bid_message-injective_example : highest ≡ highest
highest_bid_message-injective_example =
    highest_bid_message-injective highest highest key-Without key-Without refl

-- A message that times out is logged, and the next one is published all the same; nothing comes on the
-- channel of the bounty bids.
abbrev sent : List (RelayHighestBid × Token)
sent =
    (highest, record { done_in_time = false; error = none })
    ∷ (record highest { amount = codes "12" }, record { done_in_time = true; error = none })
    ∷ []

abbrev silent : Published
silent = record { messages = []; errors = [] }

bids_published : highest_bid_publish (new_channels sent [] []) silent ≡ record {
  messages =
      (highest_bid_topic, highest_bid_message highest)
      ∷ (highest_bid_topic, highest_bid_message (record highest { amount = codes "12" }))
      ∷ [];
  errors = codes "Timeout Sending To Broker" ∷ [];
}
unfolding highest_bid_publish publish_each publish_bulletin_board
bids_published = refl

no_bounty_published : bounty_bid_won (new_channels sent [] []) silent ≡ silent
unfolding bounty_bid_won
no_bounty_published = refl
