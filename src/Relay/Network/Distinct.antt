-- ===== src/Relay/Network/Distinct.antt =====
-- The domain of builders and the one of beacon blocks are kept apart on every network that is known.
use proof_relay.Base.{ℕ, ◌≡◌, ◌≢◌, refl, sym, ap, ◌∙◌, Bool-cases, true, false, inl, inr, ◌⊎◌, take}
use mathlib.Core.Path.{subst}
use proof_relay.Text.{Text, codes, text_eq, text_eq→eq}
use proof_relay.Beacon.{answer, failure}
use proof_relay.Beacon.FirstAnswer.{Reply-cases}
use proof_relay.Signing.{
  Hashing, compute_domain, domain_type_app_builder, domain_type_beacon_proposer,
}
use proof_relay.Signing.Domains.{HashingLaws, compute_domain-answer}
use proof_relay.Relay.Network.{
  GenesisData, EthNetwork, empty_network, zero_root, on_network, with_beacon_domain,
  capella_fork_version_mainnet, capella_fork_version_goerli, capella_fork_version_custom_testnet,
  with_builder_domain, new_eth_network_details,
}

-- The name of a network that the relay knows, and its number.
pub data IsKnown : Text → ℕ → Type 0 where
  ethereum : IsKnown (codes "Ethereum") 1
  goerli : IsKnown (codes "Goerli") 5
  custom_testnet : IsKnown (codes "Custom-Testnet") 2

-- The domains of the network, made for their types.
pub record HasDomains (g : GenesisData) (net : EthNetwork) : Type 0 where
  pub genesis : net.genesis_time ≡ g.genesis_time
  pub builder : take 4 net.domain_builder ≡ domain_type_app_builder
  pub proposer : take 4 net.domain_beacon_capella ≡ domain_type_beacon_proposer
  pub apart : net.domain_builder ≢ net.domain_beacon_capella

unknown :
    (name : Text)
    → text_eq name (codes "Ethereum") ≡ false
    → text_eq name (codes "Goerli") ≡ false
    → text_eq name (codes "Custom-Testnet") ≡ false
    → (n : ℕ) → ¬ IsKnown name n
unfolding text_eq
unknown _ a b c _ ethereum = absurd (cc a)
unknown _ a b c _ goerli = absurd (cc b)
unknown _ a b c _ custom_testnet = absurd (cc c)

named : (name other : Text) (n : ℕ) → text_eq name other ≡ true → IsKnown other n → IsKnown name n
named name other n same is_known = rw (text_eq→eq name other same) is_known

module _ (H : Hashing) (laws : HashingLaws H) where
  on_network_lem :
      (n : ℕ) (capella builder : Text) (g : GenesisData) (net : EthNetwork)
      → compute_domain H domain_type_app_builder g.genesis_fork_version zero_root ≡ answer builder
      → on_network H n capella g builder ≡ answer net
      → (net.network ≡ n) × HasDomains g net
  unfolding on_network compute_domain
  on_network_lem n capella builder g net made e =
      elim (Reply-cases
        (compute_domain H domain_type_beacon_proposer capella g.genesis_validators_root)) [
          | inr (f, bad) ↦
              let shown : on_network H n capella g builder ≡ failure f =
                ap (with_beacon_domain H n g builder) bad in
              absurd (cc (e, shown))
          | inl (d, read) ↦
              let made_net : EthNetwork = record {
                network = n;
                genesis_time = g.genesis_time;
                domain_builder = builder;
                domain_beacon_capella = d;
              } in
              let shown : on_network H n capella g builder ≡ answer made_net =
                ap (with_beacon_domain H n g builder) read in
              let same : made_net ≡ net = cc (e, shown) in
              subst (λ r. (r.network ≡ n) × HasDomains g r) same
                (refl, has_domains builder d made read)
        ]
    where
      has_domains :
          (b d : Text)
          → compute_domain H domain_type_app_builder g.genesis_fork_version zero_root ≡ answer b
          → compute_domain H domain_type_beacon_proposer capella g.genesis_validators_root
            ≡ answer d
          → HasDomains g (record {
            network = n;
            genesis_time = g.genesis_time;
            domain_builder = b;
            domain_beacon_capella = d;
          })
      has_domains b d made read =
          let first : take 4 b ≡ domain_type_app_builder =
            (compute_domain-answer H laws domain_type_app_builder g.genesis_fork_version zero_root b
              refl made).1 in
          let second : take 4 d ≡ domain_type_beacon_proposer =
            (compute_domain-answer H laws domain_type_beacon_proposer capella
              g.genesis_validators_root d refl read).1 in
          record {
            genesis = refl;
            builder = first;
            proposer = second;
            apart = λ same. absurd (cc (first, second, ap (take 4) same));
          }

  -- `NewEthNetworkDetails`, where it gives no error: either the name is one of the three that are known,
  -- the number is its number, the genesis time is the node's, and the domain of builders and the one of
  -- beacon blocks begin with their types and differ; or what it gives is the empty network.
  pub new_eth_network_details_lem :
      (name : Text) (g : GenesisData) (net : EthNetwork)
      → new_eth_network_details H name (answer g) ≡ answer net
      → (IsKnown name net.network × HasDomains g net)
        ⊎ (((n : ℕ) → IsKnown name n → ⊥) × (net ≡ empty_network))
  unfolding new_eth_network_details with_builder_domain on_network compute_domain
  new_eth_network_details_lem name g net e =
      elim (Reply-cases
        (compute_domain H domain_type_app_builder g.genesis_fork_version zero_root)) [
          | inr (f, bad) ↦
              let shown : new_eth_network_details H name (answer g) ≡ failure f =
                ap (with_builder_domain H name g) bad in
              absurd (cc (e, shown))
          | inl (b, made) ↦ by_name b made (sym (ap (with_builder_domain H name g) made) ∙ e)
        ]
    where
      here :
          (b : Text) (n : ℕ) (capella : Text)
          → compute_domain H domain_type_app_builder g.genesis_fork_version zero_root ≡ answer b
          → IsKnown name n
          → on_network H n capella g b ≡ answer net
          → IsKnown name net.network × HasDomains g net
      here b n capella made is_known at =
          let (number, domains) = on_network_lem n capella b g net made at in
          (subst (IsKnown name) (sym number) is_known, domains)

      by_name :
          (b : Text)
          → compute_domain H domain_type_app_builder g.genesis_fork_version zero_root ≡ answer b
          → with_builder_domain H name g (answer b) ≡ answer net
          → (IsKnown name net.network × HasDomains g net)
            ⊎ (((n : ℕ) → IsKnown name n → ⊥) × (net ≡ empty_network))
      by_name b made e = elim (Bool-cases (text_eq name (codes "Ethereum"))) [
        | inl same_name ↦
            let shown : with_builder_domain H name g (answer b)
                ≡ on_network H 1 capella_fork_version_mainnet g b =
              rw same_name refl in
            inl (
              here b 1 capella_fork_version_mainnet made
                (named name (codes "Ethereum") 1 same_name ethereum) (sym shown ∙ e))
        | inr no1 ↦ elim (Bool-cases (text_eq name (codes "Goerli"))) [
          | inl same_name ↦
              let shown : with_builder_domain H name g (answer b)
                  ≡ on_network H 5 capella_fork_version_goerli g b =
                rw (no1, same_name) refl in
              inl (
                here b 5 capella_fork_version_goerli made
                  (named name (codes "Goerli") 5 same_name goerli) (sym shown ∙ e))
          | inr no2 ↦ elim (Bool-cases (text_eq name (codes "Custom-Testnet"))) [
            | inl same_name ↦
                let shown : with_builder_domain H name g (answer b)
                    ≡ on_network H 2 capella_fork_version_custom_testnet g b =
                  rw (no1, no2, same_name) refl in
                inl (
                  here b 2 capella_fork_version_custom_testnet made
                    (named name (codes "Custom-Testnet") 2 same_name custom_testnet)
                    (sym shown ∙ e))
            | inr no3 ↦
                let shown : with_builder_domain H name g (answer b) ≡ answer empty_network =
                  rw (no1, no2, no3) refl in
                let same : net ≡ empty_network = cc (e, shown) in
                inr (unknown name no1 no2 no3, same)
          ]
        ]
      ]
