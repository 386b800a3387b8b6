-- ===== src/Beacon/Duties/Lookups.antt =====
-- What the maps of multiclient.go hold after their updates.
use proof_relay.Base.{
  ℕ, ◌≡◌, ◌↔◌, refl, Bool, true, false, Option, none, some, List, [], ◌∷◌, arith, inl, inr, ◌⊎◌,
  sym, if◌then◌else◌, Bool-cases,
}
use proof_relay.Text.{Text}
use proof_relay.Map.{Map, Key, lookup, insert, lookup-insert, nat_key, text_key}
use proof_relay.Beacon.{BeaconTypes, ProposerDutyData, PayloadAttributesEventData, Nodes}
use proof_relay.Beacon.Fetch.{MultiBeaconClient, get_validator_list}
use proof_relay.Beacon.Duties.{
  index_by, get_slot_proposer, retrieve_validator_by_index, retrieve_validator_by_pubkey,
  update_known_validators,
}
use proof_relay.Beacon.Attributes.{
  Attributes, known, build_attributes, derive_attributes, get_payload_attributes_for_slot,
}

module _ {T : BeaconTypes} where
  abbrev pub is_known : Attributes T → Bool
  is_known (known _) = true
  is_known _ = false

module _ {T : BeaconTypes} (N : Nodes T) where
  derive-never_known :
      (slot : ℕ) (b : MultiBeaconClient T) → is_known (derive_attributes N slot b).0 ≡ false
  unfolding derive_attributes build_attributes
  derive-never_known slot b = ground arith

  attributes_held :
      (slot : ℕ) (b : MultiBeaconClient T) (a : PayloadAttributesEventData T)
      → lookup slot b.beacon_data.slot_payload_attributes_map ≡ some a
      → get_payload_attributes_for_slot N slot b ≡ (known a, b)
  unfolding get_payload_attributes_for_slot
  attributes_held slot b a held = ground arith

  -- For a slot whose payload attributes are not held, `GetPayloadAttributesForSlot` never returns
  -- attributes, not even when every node answers. If that call leaves attributes held for the slot,
  -- the next one returns them and changes nothing.
  pub attributes_miss :
      (slot : ℕ) (b : MultiBeaconClient T)
      → lookup slot b.beacon_data.slot_payload_attributes_map ≡ none
      → (is_known (get_payload_attributes_for_slot N slot b).0 ≡ false)
        × ((a : PayloadAttributesEventData T)
            → lookup slot
                (get_payload_attributes_for_slot N slot b).1.beacon_data.slot_payload_attributes_map
              ≡ some a
            → get_payload_attributes_for_slot N slot (get_payload_attributes_for_slot N slot b).1
              ≡ (known a, (get_payload_attributes_for_slot N slot b).1))
  attributes_miss slot b missing = (
    unfold get_payload_attributes_for_slot in rw (missing, is_known) (derive-never_known slot b),
    attributes_held slot (get_payload_attributes_for_slot N slot b).1,
  )

  proposer_held :
      (slot : ℕ) (b : MultiBeaconClient T) (p : ProposerDutyData)
      → lookup slot b.beacon_data.slot_proposer_map ≡ some p
      → get_slot_proposer N slot b ≡ ((some p, none), b)
  unfolding get_slot_proposer
  proposer_held slot b p held = ground arith

  proposer_stored :
      (slot : ℕ) (b : MultiBeaconClient T) (p : ProposerDutyData)
      → (get_slot_proposer N slot b).0 ≡ (some p, none)
      → lookup slot (get_slot_proposer N slot b).1.beacon_data.slot_proposer_map ≡ some p
  unfolding get_slot_proposer
  proposer_stored slot b p found = ground arith

  -- A proposer that `GetSlotProposer` returns with no error is held for its slot in the state that the
  -- call leaves: the same call in that state gives the same proposer, asks no node and changes nothing.
  pub slot_proposer_held :
      (slot : ℕ) (b : MultiBeaconClient T) (p : ProposerDutyData)
      → (get_slot_proposer N slot b).0 ≡ (some p, none)
      → (lookup slot (get_slot_proposer N slot b).1.beacon_data.slot_proposer_map ≡ some p)
        × (get_slot_proposer N slot (get_slot_proposer N slot b).1
            ≡ ((some p, none), (get_slot_proposer N slot b).1))
  slot_proposer_held slot b p found =
      let stored = proposer_stored slot b p found in (stored, proposer_held slot _ p stored)

-- The last entry of the list with the key, if there is one.
module _ {K V : Type 0} ⦃key : Key K⦄ where
  unfoldable pub last_with : (V → K) → K → List V → Option V → Option V
  last_with f k [] o = o
  last_with f k (v ∷ vs) o = last_with f k vs (if key.same (f v) k then some v else o)

module _ {K V : Type 0} ⦃key : Key K⦄ (f : V → K) (k : K) where
  lookup-index_by :
      (vs : List V) (m : Map K V) → lookup k (index_by f vs m) ≡ last_with f k vs (lookup k m)
  unfolding index_by last_with lookup
  lookup-index_by [] m = refl
  lookup-index_by (v ∷ vs) m = rw (lookup-index_by vs (insert (f v) v m)) (rw lookup-insert refl)

  last_with-has_key :
      (vs : List V) (o : Option V)
      → ((w : V) → o ≡ some w → f w ≡ k)
      → (v : V) → last_with f k vs o ≡ some v
      → f v ≡ k
  unfolding last_with
  last_with-has_key [] o known_key v found = known_key v found
  last_with-has_key (w ∷ vs) o known_key v found = elim (Bool-cases (key.same (f w) k)) [
    | inl same ↦
        last_with-has_key vs (some w)
          (λ u e. let at_w : w ≡ u = cc in rw (sym at_w) ((key.same_iff (f w) k).0 same)) v
          (rw same at found)
    | inr other ↦ last_with-has_key vs o known_key v (rw other at found)
  ]

  last_with-some : (vs : List V) (w : V) → (v : V) × (last_with f k vs (some w) ≡ some v)
  unfolding last_with
  last_with-some [] w = (w, refl)
  last_with-some (u ∷ vs) w = elim (Bool-cases (key.same (f u) k)) [
    | inl same ↦ rw same (last_with-some vs u)
    | inr other ↦ rw other (last_with-some vs w)
  ]

-- The list has an entry with the key.
module _ {K V : Type 0} where
  abbrev pub HasKey : (V → K) → K → List V → Type 0
  HasKey f k [] = ⊥
  HasKey f k (v ∷ vs) = (f v ≡ k) ⊎ HasKey f k vs

module _ {K V : Type 0} ⦃key : Key K⦄ (f : V → K) (k : K) where
  last_with-HasKey :
      (vs : List V) (o : Option V) → HasKey f k vs → (v : V) × (last_with f k vs o ≡ some v)
  unfolding last_with
  last_with-HasKey [] o h = absurd h
  last_with-HasKey (u ∷ vs) o (inl e) = rw ((key.same_iff (f u) k).1 e) (last_with-some f k vs u)
  last_with-HasKey (u ∷ vs) o (inr later) = last_with-HasKey vs _ later

  -- What a look-up in a map built from a list gives.
  built :
      (vs : List V)
      → ((v : V) → lookup k (index_by f vs []) ≡ some v → f v ≡ k)
        × (HasKey f k vs → (v : V) × (lookup k (index_by f vs []) ≡ some v))
  unfolding lookup
  built vs = (
    λ v found.
        last_with-has_key f k vs none (λ w e. absurd (cc e)) v
          (rw (lookup-index_by f k vs []) at found),
    λ h. rw (lookup-index_by f k vs []) (last_with-HasKey vs (lookup k []) h),
  )

module _ {T : BeaconTypes} (N : Nodes T) (slot : ℕ) (b : MultiBeaconClient T) where
  abbrev after : MultiBeaconClient T
  after = update_known_validators N slot b

  by_index :
      (c : MultiBeaconClient T) (i : ℕ) (v : T.ValidatorData)
      → (retrieve_validator_by_index i c ≡ (some v, none))
        ↔ (lookup i c.beacon_data.all_validators_by_index ≡ some v)
  unfolding retrieve_validator_by_index
  by_index c i v = ground arith

  by_pubkey :
      (c : MultiBeaconClient T) (k : Text) (v : T.ValidatorData)
      → (retrieve_validator_by_pubkey k c ≡ (some v, none))
        ↔ (lookup k c.beacon_data.all_validators_by_pubkey ≡ some v)
  unfolding retrieve_validator_by_pubkey
  by_pubkey c k v = ground arith

  maps_after :
      (vs : List T.ValidatorData)
      → (get_validator_list N slot b).0 ≡ (some vs, none)
      → (after.beacon_data.all_validators_by_index ≡ index_by T.validator_index vs [])
        × (after.beacon_data.all_validators_by_pubkey ≡ index_by T.validator_pubkey vs [])
  unfolding update_known_validators
  maps_after vs listed = ground arith

  -- After an update for which a node gave the list of the validators, a validator that is found by
  -- an index has that index, one that is found by a public key has that key, and the index and the
  -- key of every validator of the list are found.
  pub known_validators :
      (vs : List T.ValidatorData)
      → (get_validator_list N slot b).0 ≡ (some vs, none)
      → ((i : ℕ) (v : T.ValidatorData)
          → retrieve_validator_by_index i after ≡ (some v, none)
          → T.validator_index v ≡ i)
        × ((k : Text) (v : T.ValidatorData)
            → retrieve_validator_by_pubkey k after ≡ (some v, none)
            → T.validator_pubkey v ≡ k)
        × ((i : ℕ)
            → HasKey T.validator_index i vs
            → (v : T.ValidatorData) × (retrieve_validator_by_index i after ≡ (some v, none)))
        × ((k : Text)
            → HasKey T.validator_pubkey k vs
            → (v : T.ValidatorData) × (retrieve_validator_by_pubkey k after ≡ (some v, none)))
  unfolding update_known_validators
  known_validators vs listed =
      let (index_map, pubkey_map) = maps_after vs listed in
      (
        λ i v found.
            (built T.validator_index i vs).0 v (rw index_map at (by_index after i v).0 found),
        λ k v found.
            (built T.validator_pubkey k vs).0 v (rw pubkey_map at (by_pubkey after k v).0 found),
        λ i listed_at.
            let (v, found) = (built T.validator_index i vs).1 listed_at in
            (v, (by_index after i v).1 (rw index_map found)),
        λ k listed_at.
            let (v, found) = (built T.validator_pubkey k vs).1 listed_at in
            (v, (by_pubkey after k v).1 (rw pubkey_map found)),
      )
