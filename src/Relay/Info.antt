-- ===== src/Relay/Info.antt =====
-- The handlers of relay/relay.go that only tell what the relay is.
use proof_relay.Base.{◌%◌, ◌^◌, ◌++◌}
use proof_relay.Text.{codes}
use proof_relay.Bls.{relay_bls_pub_key, public_key_from_secret_key}
use proof_relay.Bids.{Board}
use proof_relay.Relay.{Outside, ok_text, ok_config, bare_ok, Handler, respond}

module _ (B : Board) (E : Outside B) where
  unfoldable pub handle_landing : Handler E (Unit {0})
  handle_landing = respond (ok_text (codes "PON Relay"))

  unfoldable pub handle_status : Handler E (Unit {0})
  handle_status = respond bare_ok

  -- A registration is not read.
  unfoldable pub handle_register_validator : Handler E (Unit {0})
  handle_register_validator = respond bare_ok

  -- The port is cut to 16 bits.
  unfoldable pub handle_relay_config : Handler E (Unit {0})
  handle_relay_config s =
      respond
        (ok_config (record {
          mqtt_broker = E.broker;
          mqtt_port = E.port % 2 ^ 16;
          public_key =
              codes "0x"
              ++ E.encode_hex
                  (relay_bls_pub_key E.blst (public_key_from_secret_key E.blst E.bls_sk));
          chain = E.network.network;
          slot = s.current_slot;
        }))
        s
