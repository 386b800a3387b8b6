-- ===== src/Signing.antt =====
-- signing/: the domains and the roots that are signed (fastssz.go), and the SSZ encoding of what they
-- are computed from (ssz.go).
pub mod Encoding
pub mod Domains
pub mod Messages
use proof_relay.Base.{
  ℕ, zero, suc, ◌+◌, ◌-◌, List, [], ◌∷◌, ◌++◌, length, take, drop, Bool, not, ◌||◌, Option, none,
  some, ◌==◌, if◌then◌else◌,
}
use proof_relay.Text.{Text, codes}
use proof_relay.Beacon.{Reply, answer, failure}
use proof_relay.Bls.{Blst, zeros, copy_into, sign, verify_signature_bytes}

-- What signing calls: `Merkleize` of fastssz on the chunks that were put, and `HexToHash` and
-- `hexutil.Decode` of go-ethereum.
pub record Hashing : Type 0 where
  pub merkleize : List Text → Reply Text
  pub hex_to_hash : Text → Text
  pub hexutil_decode : Text → Reply Text

-- `SigningData`
pub record SigningData : Type 0 where
  pub root : Text
  pub domain : Text

-- `ForkData`
pub record ForkData : Type 0 where
  pub current_version : Text
  pub genesis_validators_root : Text

-- `MarshalSSZTo`
unfoldable pub marshal_signing_data_to : Text → SigningData → Text
marshal_signing_data_to buf s = (buf ++ s.root) ++ s.domain

-- `UnmarshalSSZ`
unfoldable pub unmarshal_signing_data : Text → Reply SigningData
unmarshal_signing_data buf =
    if not (length buf == 64)
    then failure (codes "incorrect size")
    else answer (record { root = take 32 buf; domain = take 32 (drop 32 buf) })

unfoldable pub marshal_fork_data_to : Text → ForkData → Text
marshal_fork_data_to buf f = (buf ++ f.current_version) ++ f.genesis_validators_root

unfoldable pub unmarshal_fork_data : Text → Reply ForkData
unmarshal_fork_data buf =
    if not (length buf == 36)
    then failure (codes "incorrect size")
    else answer
        (record { current_version = take 4 buf; genesis_validators_root = take 32 (drop 4 buf) })

-- `HashTreeRootWith`: the chunks in the order of the fields.
abbrev pub signing_data_chunks : SigningData → List Text
signing_data_chunks s = s.root ∷ s.domain ∷ []

abbrev pub fork_data_chunks : ForkData → List Text
fork_data_chunks f = f.current_version ∷ f.genesis_validators_root ∷ []

-- `ForkVersion.FromSlice`
unfoldable pub from_slice : Text → Reply Text
from_slice s =
    if not (length s == 4) then failure (codes "invalid fork version length") else answer s

abbrev pub domain_type_beacon_proposer : Text
domain_type_beacon_proposer = 0 ∷ 0 ∷ 0 ∷ 0 ∷ []

abbrev pub domain_type_app_builder : Text
domain_type_app_builder = 0 ∷ 0 ∷ 0 ∷ 1 ∷ []

-- The root beside an error, which is not looked at, is zero.
abbrev pub root_or_zero : Reply Text → Text
root_or_zero (answer r) = r
root_or_zero (failure _) = zeros 32

module _ (H : Hashing) where
  unfoldable pub compute_ssz_domain : Text → Text → Text → Text
  compute_ssz_domain dt fork_version genesis_validators_root =
      let fork_data : ForkData = record {
        current_version = fork_version;
        genesis_validators_root = genesis_validators_root;
      } in
      dt ++ take 28 (root_or_zero (H.merkleize (fork_data_chunks fork_data)))

  abbrev pub with_fork_version : Text → Text → Reply Text → Reply Text
  with_fork_version dt root (failure _) = failure (codes "Wrong Fork Version")
  with_fork_version dt root (answer v) =
      if not (length v == 4)
      then failure (codes "Wrong Fork Version")
      else answer (compute_ssz_domain dt v root)

  unfoldable pub compute_domain : Text → Text → Text → Reply Text
  unfolding compute_ssz_domain
  compute_domain dt fork_version_hex genesis_validators_root_hex =
      with_fork_version dt (H.hex_to_hash genesis_validators_root_hex)
        (H.hexutil_decode fork_version_hex)

  -- The object comes as what its `HashTreeRoot` gives.
  abbrev pub signing_root_of : Text → Reply Text → Reply Text
  signing_root_of d (failure e) = failure e
  signing_root_of d (answer root) =
      H.merkleize (signing_data_chunks (record { root = root; domain = d }))

  unfoldable pub compute_signing_root : Reply Text → Text → Reply Text
  compute_signing_root obj d = signing_root_of d obj

  module _ (B : Blst) where
    abbrev pub signed_with : B.SecretKey → Reply Text → Reply Text
    signed_with sk (failure e) = failure e
    signed_with sk (answer root) = answer (copy_into 96 (B.compress_p2 (sign B sk root)))

    unfoldable pub sign_message : Reply Text → Text → B.SecretKey → Reply Text
    unfolding compute_signing_root
    sign_message obj d sk = signed_with sk (compute_signing_root obj d)

    abbrev pub verified_with : Text → Text → Reply Text → Reply Bool
    verified_with pk_bytes sig_bytes (failure e) = failure e
    verified_with pk_bytes sig_bytes (answer msg) = verify_signature_bytes B msg sig_bytes pk_bytes

    unfoldable pub verify_signature : Reply Text → Text → Text → Text → Reply Bool
    unfolding compute_signing_root
    verify_signature obj d pk_bytes sig_bytes =
        verified_with pk_bytes sig_bytes (compute_signing_root obj d)
