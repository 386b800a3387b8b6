-- ===== src/Registry/Discord.antt =====
-- SendDiscord (utils/relayUtils.go): the message about a slot that was won, and its sending.
use proof_relay.Base.{
  ℕ, ◌≡◌, refl, Bool, true, false, not, ◌||◌, Option, none, some, List, [], ◌∷◌, ◌++◌, ltb, leb,
  if◌then◌else◌,
}
use proof_relay.Text.{Text, codes, text_eq}
use proof_relay.Text.Decimal.{show_ℕ}
use proof_relay.Beacon.{Reply, answer, failure}

-- `DiscordConfig`
pub record DiscordConfig : Type 0 where
  pub send_discord : Bool
  pub discord_webhook : Text

-- `DiscordParams`
pub record DiscordParams : Type 0 where
  pub name : Text
  pub value : Text
  pub inline : Bool

-- `DiscordEmbed`, with the URL of its image
pub record DiscordEmbed : Type 0 where
  pub fields : List DiscordParams
  pub image : Text

-- `DiscordPublish`
pub record DiscordPublish : Type 0 where
  pub username : Text
  pub avatar_url : Text
  pub content : Text
  pub embeds : List DiscordEmbed

-- What NewRelayUtils makes of the webhook.
unfoldable pub new_discord : Text → DiscordConfig
unfolding text_eq
new_discord webhook =
    if not (text_eq webhook [])
    then record { send_discord = true; discord_webhook = webhook }
    else record { send_discord = false; discord_webhook = [] }

abbrev pub discord_embed : ℕ → Text → Text → DiscordEmbed
discord_embed slot builder proposer = record {
  image = codes "https://i.ibb.co/jfXdbsL/Full-Color.jpg";
  fields =
      record { name = codes "Proposer"; value = proposer; inline = true }
      ∷ record { name = codes "Builder"; value = builder; inline = true }
      ∷ record { name = codes "Slot"; value = show_ℕ slot; inline = false }
      ∷ [];
}

abbrev pub discord_publish : ℕ → Text → Text → DiscordPublish
discord_publish slot builder proposer = record {
  username = codes "PON Relay";
  avatar_url = codes "https://i.ibb.co/PjVNXbC/pon.png";
  content = codes "New Slot Won By PON";
  embeds = discord_embed slot builder proposer ∷ [];
}

-- `json.Marshal` of a message, a new request, and the status that `Do` gives.
pub record Webhook : Type 0 where
  pub marshal : DiscordPublish → Reply Text
  pub new_request : Text → Text → Reply (Unit {0})
  pub client_do : Text → Text → Reply ℕ

module _ (H : Webhook) where
  abbrev pub posted_status : Reply ℕ → Option Text
  posted_status (failure e) = some e
  posted_status (answer status) =
      if ltb status 200 || leb 300 status
      then some (codes "invalid response code: " ++ show_ℕ status)
      else none

  abbrev pub post_message : Text → Text → Reply (Unit {0}) → Option Text × List (Text × Text)
  post_message url bytes (failure e) = (some e, [])
  post_message url bytes (answer _) = (posted_status (H.client_do url bytes), (url, bytes) ∷ [])

  abbrev pub post_marshalled : Text → Reply Text → Option Text × List (Text × Text)
  post_marshalled url (failure e) = (some e, [])
  post_marshalled url (answer bytes) = post_message url bytes (H.new_request url bytes)

  -- The error, and what went to `Do`.
  unfoldable pub send_discord : DiscordConfig → ℕ → Text → Text → Option Text × List (Text × Text)
  send_discord c slot builder proposer =
      if not c.send_discord
      then (none, [])
      else post_marshalled c.discord_webhook (H.marshal (discord_publish slot builder proposer))

  -- Without a webhook nothing is sent, and there is no error.
  no_webhook :
      (slot : ℕ) (builder proposer : Text)
      → send_discord (new_discord []) slot builder proposer ≡ (none, [])
  unfolding send_discord new_discord text_eq
  no_webhook slot builder proposer = refl
