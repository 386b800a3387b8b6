-- ===== src/Beacon/Node/Forks.antt =====
-- GetForkVersion (beaconinterface/client/fetchBeacon.go): the current fork and its name in the
-- specification of the chain.
pub mod Order
use proof_relay.Base.{
  ℕ, ◌+◌, Bool, true, false, Option, none, some, List, [], ◌∷◌, ◌++◌, leb, ◌&&◌, ◌||◌, ◌==◌,
  if◌then◌else◌, drop, length,
}
use proof_relay.Text.{Text, codes}
use proof_relay.Text.Decimal.{show_ℕ}
use proof_relay.Map.{Map, lookup, insert, text_key}
use proof_relay.Text.Strings.{contains, remove_first, to_lower}
use proof_relay.Beacon.{Reply, answer, failure, BeaconTypes}
use proof_relay.Beacon.Node.{Http, Called, returned, nil_pointer, fetch_beacon}

abbrev pub fork_suffix : Text
fork_suffix = codes "_FORK_VERSION"

abbrev pub is_fork_key : Text → Bool
is_fork_key k = contains k fork_suffix

abbrev pub fork_name : Text → Text
fork_name k = to_lower (remove_first k fork_suffix)

-- The range over the specification, in the order in which it comes.
unfoldable pub known_specs : List (Text × Text) → Map Text Text → Map Text Text
known_specs [] known = known
known_specs ((k, v) ∷ es) known =
    known_specs es (if is_fork_key k then insert v (fork_name k) known else known)

module _ {T : BeaconTypes} (h : Http T) where
  abbrev pub named_fork : Text → Option Text → Called (Text × Text)
  named_fork version none = returned (failure (codes "unknown fork version " ++ version))
  named_fork version (some name) = returned (answer (name, version))

  abbrev pub current_fork : Map Text Text → Reply (Option Text) → Called (Text × Text)
  unfolding lookup
  current_fork known (failure e) = returned (failure e)
  current_fork known (answer none) = nil_pointer
  current_fork known (answer (some version)) = named_fork version (lookup version known)

  abbrev pub fork_path : ℕ → Bool → Text
  fork_path slot true = codes "/eth/v1/beacon/states/head/fork"
  fork_path slot false = codes "/eth/v2/beacon/states/" ++ show_ℕ slot ++ codes "/fork"

  abbrev pub with_spec : ℕ → Bool → Reply (Option (List (Text × Text))) → Called (Text × Text)
  unfolding lookup fetch_beacon known_specs
  with_spec slot head (failure e) = returned (failure e)
  with_spec slot head (answer none) = nil_pointer
  with_spec slot head (answer (some spec)) =
      current_fork (known_specs spec [])
        (fetch_beacon h h.unmarshal_fork (h.url_string (fork_path slot head) []))

  unfoldable pub get_fork_version : ℕ → Bool → Called (Text × Text)
  unfolding lookup fetch_beacon known_specs
  get_fork_version slot head =
      with_spec slot head
        (fetch_beacon h h.unmarshal_spec (h.url_string (codes "/eth/v1/config/spec") []))
