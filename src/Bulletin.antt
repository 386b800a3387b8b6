-- ===== src/Bulletin.antt =====
-- The bulletin board (bulletinboard/highestBid.go, mqtt.go): the messages that the relay publishes over
-- MQTT, and the loops that take them from the channels.
pub mod Messages
use proof_relay.Base.{
  ℕ, Bool, true, false, not, Option, none, some, List, [], ◌∷◌, ◌++◌, if◌then◌else◌,
}
use proof_relay.Text.{Text, codes}
use proof_relay.Text.Decimal.{show_ℕ, show_ℤ}
use proof_relay.Bids.{RelayHighestBid}

-- `bulletinBoardTypes.ProposerHeaderRequest`, `SlotPayloadRequest` and `BountyBidWon`
pub record ProposerHeaderRequest : Type 0 where
  pub slot : ℕ
  pub proposer : Text
  pub timestamp : ℕ

pub record SlotPayloadRequest : Type 0 where
  pub slot : ℕ
  pub proposer : Text

pub record BountyBidWon : Type 0 where
  pub slot : ℕ
  pub builder : Text

abbrev pub highest_bid_topic : Text
highest_bid_topic = codes "topic/HighestBid"

abbrev pub proposer_request_topic : Text
proposer_request_topic = codes "topic/ProposerSlotHeaderRequest"

abbrev pub proposer_payload_request_topic : Text
proposer_payload_request_topic = codes "topic/ProposerPayloadRequest"

abbrev pub bounty_bid_topic : Text
bounty_bid_topic = codes "topic/BountyBidWon"

-- `ClientBrokerUrl`, for the scheme that the types of the bulletin board have
unfoldable pub client_broker_url : Text → Text → ℕ → Text
client_broker_url scheme broker port = scheme ++ codes "://" ++ broker ++ codes ":" ++ show_ℕ port

unfoldable pub highest_bid_message : RelayHighestBid → Text
highest_bid_message b =
    codes "slot: "
    ++ (show_ℕ b.slot
        ++ (codes ", builder: " ++ (b.builder_public_key ++ (codes ", amount: " ++ b.amount))))

unfoldable pub header_request_message : ProposerHeaderRequest → Text
header_request_message r =
    codes "slot: "
    ++ show_ℕ r.slot
    ++ codes ", proposer: "
    ++ r.proposer
    ++ codes ", timestamp: "
    ++ show_ℕ r.timestamp

unfoldable pub payload_request_message : SlotPayloadRequest → Text
payload_request_message r = codes "slot: " ++ show_ℕ r.slot ++ codes ", proposer: " ++ r.proposer

unfoldable pub bounty_message : BountyBidWon → Text
bounty_message r = codes "slot: " ++ show_ℕ r.slot ++ codes ", builder: " ++ r.builder

-- What becomes of one `Publish` of the MQTT client: whether `WaitTimeout` saw it done, and its error.
pub record Token : Type 0 where
  pub done_in_time : Bool
  pub error : Option Text

-- `publishBulletinBoard`, the error
unfoldable pub publish_bulletin_board : Token → Option Text
publish_bulletin_board t =
    if not t.done_in_time then some (codes "Timeout Sending To Broker") else t.error

-- The messages that went to the client under their topics, and the errors that were logged.
pub record Published : Type 0 where
  pub messages : List (Text × Text)
  pub errors : List Text

abbrev pub logged : Option Text → List Text
logged none = []
logged (some e) = e ∷ []

abbrev pub publish : Text → Text → Token → Published → Published
unfolding publish_bulletin_board
publish topic message t b = record {
  messages = b.messages ++ (topic, message) ∷ [];
  errors = b.errors ++ logged (publish_bulletin_board t);
}

-- A loop over a channel: each value that comes is published under the topic, with the token that the
-- client gives. A nil channel never gives a value.
module _ {A : Type 0} (topic : Text) (message : A → Text) where
  unfoldable pub publish_each : List (A × Token) → Published → Published
  unfolding publish_bulletin_board
  publish_each [] b = b
  publish_each ((a, t) ∷ l) b = publish_each l (publish topic (message a) t b)

  abbrev pub receive : Option (List (A × Token)) → Published → Published
  unfolding publish_each
  receive none b = b
  receive (some l) b = publish_each l b

-- The four channels, with what will come on them; `none` is a nil channel.
pub record RelayMqttChannels : Type 0 where
  pub highest_bid_channel : Option (List (RelayHighestBid × Token))
  pub proposer_header_channel : Option (List (ProposerHeaderRequest × Token))
  pub slot_payload_channel : Option (List (SlotPayloadRequest × Token))
  pub bounty_bid_channel : Option (List (BountyBidWon × Token))

-- `NewMQTTClient` makes three of the channels.
abbrev pub new_channels :
    List (RelayHighestBid × Token)
    → List (ProposerHeaderRequest × Token)
    → List (SlotPayloadRequest × Token)
    → RelayMqttChannels
new_channels bids headers payloads = record {
  highest_bid_channel = some bids;
  proposer_header_channel = some headers;
  slot_payload_channel = some payloads;
  bounty_bid_channel = none;
}

unfoldable pub highest_bid_publish : RelayMqttChannels → Published → Published
unfolding publish_each highest_bid_message
highest_bid_publish c = receive highest_bid_topic highest_bid_message c.highest_bid_channel

unfoldable pub slot_header_requested : RelayMqttChannels → Published → Published
unfolding publish_each header_request_message
slot_header_requested c =
    receive proposer_request_topic header_request_message c.proposer_header_channel

unfoldable pub slot_payload_requested : RelayMqttChannels → Published → Published
unfolding publish_each payload_request_message
slot_payload_requested c =
    receive proposer_payload_request_topic payload_request_message c.slot_payload_channel

unfoldable pub bounty_bid_won : RelayMqttChannels → Published → Published
unfolding publish_each bounty_message
bounty_bid_won c = receive bounty_bid_topic bounty_message c.bounty_bid_channel
