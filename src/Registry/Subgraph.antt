-- ===== src/Registry/Subgraph.antt =====
-- The queries to the subgraph of the pool (ponPool/ponpool.go, subgraph.go).
use proof_relay.Base.{List}
use proof_relay.Text.{Text, codes}
use proof_relay.Beacon.{Reply, answer, failure}
use proof_relay.Database.{Reporter, Validator}
use proof_relay.Registry.Pool.{Builder, Builders, get_builders}

abbrev pub builder_request : Text
builder_request =
    codes
      "{\"query\":\"{\\n  builders(first:1000){\\n    id\\n    status\\n    balanceStaked\\n  }\\n}\",\"variables\":{}}"

abbrev pub proposer_request : Text
proposer_request =
    codes
      "{\"query\":\"{\\n  proposers(first:1000){\\n    id\\n    status\\n    reportCount\\n  }\\n}\",\"variables\":{}}"

abbrev pub reporter_request : Text
reporter_request =
    codes
      "{\"query\":\"{\\n  reporters(first:1000){\\n    id\\n    active\\n    numberOfReports\\n  }\\n}\",\"variables\":{}}"

abbrev pub builder_stake_request : Text
builder_stake_request =
    codes "{\"query\":\"\\n{globalValue(id: \\\"1\\\") { builderMinimumStake }}\",\"variables\":{}}"

-- `PonRegistrySubgraph`, with what its HTTP client and the decoders of the answers do. The status of a
-- response is not looked at.
pub record PonRegistrySubgraph : Type 0 where
  pub url : Text
  pub new_request : Text → Text → Reply (Unit {0})
  pub client_do : Text → Text → Reply Text
  pub decode_builders : Text → Reply (List Builder)
  pub decode_stake : Text → Reply Text
  pub decode_validators : Text → Reply (List Validator)
  pub decode_reporters : Text → Reply (List Reporter)

module _ (S : PonRegistrySubgraph) where
  module _ {A : Type 0} (decode : Text → Reply A) where
    abbrev pub decode_body : Reply Text → Reply A
    decode_body (failure e) = failure e
    decode_body (answer body) = decode body

    abbrev pub send_query : Text → Reply (Unit {0}) → Reply A
    send_query payload (failure e) = failure e
    send_query payload (answer _) = decode_body (S.client_do S.url payload)

    abbrev pub ask : Text → Reply A
    ask payload = send_query payload (S.new_request S.url payload)

  unfoldable pub get_validators : Reply (List Validator)
  get_validators = ask S.decode_validators proposer_request

  unfoldable pub get_reporters : Reply (List Reporter)
  get_reporters = ask S.decode_reporters reporter_request

  -- `GetBuilders` with its two queries: the builders, and the stake that is required.
  unfoldable pub ask_builders : Builders
  unfolding get_builders
  ask_builders =
      get_builders (ask S.decode_builders builder_request)
        (ask S.decode_stake builder_stake_request)
