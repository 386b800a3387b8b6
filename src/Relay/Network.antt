-- ===== src/Relay/Network.antt =====
-- NewEthNetworkDetails (relay/utils.go): the domains that the relay signs and verifies with.
pub mod Distinct
use proof_relay.Base.{ℕ, [], if◌then◌else◌}
use proof_relay.Text.{Text, codes, text_eq}
use proof_relay.Beacon.{Reply, answer, failure}
use proof_relay.Bls.{zeros}
use proof_relay.Signing.{
  Hashing, compute_domain, domain_type_app_builder, domain_type_beacon_proposer,
}

-- `beaconTypes.GenesisData`, the fields that are read
pub record GenesisData : Type 0 where
  pub genesis_time : ℕ
  pub genesis_validators_root : Text
  pub genesis_fork_version : Text

-- `EthNetwork`
pub record EthNetwork : Type 0 where
  pub network : ℕ
  pub genesis_time : ℕ
  pub domain_builder : Text
  pub domain_beacon_capella : Text

abbrev pub empty_network : EthNetwork
empty_network = record {
  network = 0;
  genesis_time = 0;
  domain_builder = zeros 32;
  domain_beacon_capella = zeros 32;
}

-- `signing.Root{}.String()`
abbrev pub zero_root : Text
zero_root = codes "0x0000000000000000000000000000000000000000000000000000000000000000"

abbrev pub capella_fork_version_mainnet : Text
capella_fork_version_mainnet = codes "0x03000000"

abbrev pub capella_fork_version_goerli : Text
capella_fork_version_goerli = codes "0x03001020"

abbrev pub capella_fork_version_custom_testnet : Text
capella_fork_version_custom_testnet = codes "0x03000000"

module _ (H : Hashing) where
  abbrev pub with_beacon_domain : ℕ → GenesisData → Text → Reply Text → Reply EthNetwork
  with_beacon_domain n g builder (failure e) = failure e
  with_beacon_domain n g builder (answer capella) = answer (record {
    network = n;
    genesis_time = g.genesis_time;
    domain_builder = builder;
    domain_beacon_capella = capella;
  })

  -- One of the three branches of the networks that are known.
  abbrev pub on_network : ℕ → Text → GenesisData → Text → Reply EthNetwork
  unfolding compute_domain
  on_network n capella g builder =
      with_beacon_domain n g builder
        (compute_domain H domain_type_beacon_proposer capella g.genesis_validators_root)

  abbrev pub with_builder_domain : Text → GenesisData → Reply Text → Reply EthNetwork
  unfolding text_eq compute_domain
  with_builder_domain name g (failure e) = failure e
  with_builder_domain name g (answer builder) =
      if text_eq name (codes "Ethereum")
      then on_network 1 capella_fork_version_mainnet g builder
      else if text_eq name (codes "Goerli")
      then on_network 5 capella_fork_version_goerli g builder
      else if text_eq name (codes "Custom-Testnet")
      then on_network 2 capella_fork_version_custom_testnet g builder
      else answer empty_network

  -- The second argument is what the beacon client's `Genesis` gives, the data or an error.
  unfoldable pub new_eth_network_details : Text → Reply GenesisData → Reply EthNetwork
  unfolding text_eq compute_domain
  new_eth_network_details name (failure e) = failure e
  new_eth_network_details name (answer g) =
      with_builder_domain name g
        (compute_domain H domain_type_app_builder g.genesis_fork_version zero_root)
