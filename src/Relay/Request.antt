-- ===== src/Relay/Request.antt =====
-- sendHTTPRequest (relay/utils.go): the relay's request to a builder.
use proof_relay.Base.{ℕ, not, ◌++◌, ◌==◌, if◌then◌else◌}
use proof_relay.Text.{Text, codes}
use proof_relay.Text.Decimal.{show_ℕ}
use proof_relay.Beacon.{Reply, answer, failure}
use proof_relay.Bids.{Board}
use proof_relay.Relay.{Outside}

module _ {B : Board} (E : Outside B) where
  abbrev pub read_status : Reply (ℕ × Text) → Reply Text
  read_status (failure e) = failure e
  read_status (answer (status, body)) =
      if not (status == 200)
      then failure (codes "invalid response code: " ++ show_ℕ status)
      else answer body

  abbrev pub send_bytes : Text → Text → Reply (Unit {0}) → Reply Text
  send_bytes url bytes (failure e) = failure e
  send_bytes url bytes (answer _) = read_status (E.client_do url bytes)

  abbrev pub send_marshalled : Text → Reply Text → Reply Text
  send_marshalled url (failure e) = failure e
  send_marshalled url (answer bytes) = send_bytes url bytes (E.new_request url bytes)

  -- The body of the response, to which the caller reads on.
  unfoldable pub send_http_request : Text → E.Blinded → Reply Text
  send_http_request url msg = send_marshalled url (E.marshal_blinded msg)
