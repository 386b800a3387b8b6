-- ===== src/Beacon/Head/Chain.antt =====
-- What head events do to the slot, the epoch and the maps.
use proof_relay.Base.{
  ℕ, ◌+◌, ◌/◌, ◌%◌, ◌^◌, ◌≤◌, ◌<◌, ◌≡◌, refl, ◌||◌, ◌⊎◌, inl, inr, none, some, List, [], ◌∷◌, arith,
  ltb, leb, ◌==◌, Bool-cases, ap, sym, All, map, ◌∙◌, ◌&&◌, ltb→lt, ◌-◌, ◌++◌, if◌then◌else◌,
}
use proof_relay.Map.{insert, lookup, lookup-delete_if, lookup-insert, nat_key}
use proof_relay.Beacon.{BeaconTypes, BeaconData, PayloadAttributesEventData}
use proof_relay.Beacon.Head.{
  is_old, at_epoch_edge, process_head, process_heads, process_payload_attributes, head_tasks, sub64,
  add64, Task, update_randao_map, update_validator_map, update_fork_version,
}

-- For slots that `int64` holds the test means what it looks like.
is_old_lem : (slot k : ℕ) → slot < 2 ^ 63 → k < 2 ^ 63 → is_old slot k ≡ ltb (k + 64) slot
unfolding is_old
is_old_lem slot k hs hk = ground arith

at_epoch_edge_lem :
    (slot : ℕ) → 0 < slot → slot < 2 ^ 63 → at_epoch_edge slot ≡ (slot % 32 == 0 || slot % 32 == 31)
unfolding at_epoch_edge
at_epoch_edge_lem slot pos hs = ground arith

module _ {T : BeaconTypes} (head : T.HeadEventData) (d : BeaconData T) where
  -- A head event for a slot that is not above the current one, as a second client sends it, changes
  -- nothing and starts nothing.
  stale_head : T.head_slot head ≤ d.current_slot → process_head head d ≡ (d, [])
  unfolding process_head
  stale_head h = ground arith

  -- The entries of a new slot: those more than 64 slots old are gone, and the rest is as it was.
  module _ (fresh : d.current_slot < T.head_slot head) (fits : T.head_slot head < 2 ^ 63) where
    fresh_proposers :
        (k : ℕ)
        → k < 2 ^ 63
        → lookup k (process_head head d).0.slot_proposer_map
          ≡ (if ltb (k + 64) (T.head_slot head) then none else lookup k d.slot_proposer_map)
    unfolding process_head
    fresh_proposers k hk = ground (
      arith,
      lookup-delete_if k (is_old (T.head_slot head)) d.slot_proposer_map,
      is_old_lem (T.head_slot head) k fits hk,
    )

    fresh_randao :
        (k : ℕ)
        → k < 2 ^ 63
        → lookup k (process_head head d).0.randao_map
          ≡ (if ltb (k + 64) (T.head_slot head) then none else lookup k d.randao_map)
    unfolding process_head
    fresh_randao k hk = ground (
      arith,
      lookup-delete_if k (is_old (T.head_slot head)) d.randao_map,
      is_old_lem (T.head_slot head) k fits hk,
    )

-- The slot, the epoch and the head belong together.
pub record IsCurrent {T : BeaconTypes} (d : BeaconData T) : Type 0 where
  pub epoch : d.current_epoch ≡ d.current_slot / 32
  pub slot_of_head :
      (h : T.HeadEventData) → d.current_head ≡ some h → T.head_slot h ≡ d.current_slot

process_head-IsCurrent :
    {T : BeaconTypes} (head : T.HeadEventData) (d : BeaconData T)
    → IsCurrent d
    → IsCurrent (process_head head d).0 × (d.current_slot ≤ (process_head head d).0.current_slot)
unfolding process_head
process_head-IsCurrent {T} head d h = elim (Bool-cases (leb (T.head_slot head) d.current_slot)) [
  | inl stale ↦ rw stale (h, omega arith)
  | inr fresh ↦ rw fresh (
    record {
      epoch = refl;
      slot_of_head = λ g e. let same : head ≡ g = cc in ap T.head_slot (sym same);
    },
    ground arith,
  )
]

-- One of the slots, or the one from before.
abbrev pub OneOf : ℕ → List ℕ → ℕ → Type 0
OneOf c [] n = n ≡ c
OneOf c (x ∷ xs) n = (n ≡ x) ⊎ OneOf c xs n

OneOf-head : (c x : ℕ) (xs : List ℕ) (n : ℕ) → OneOf x xs n → OneOf c (x ∷ xs) n
OneOf-head c x [] n h = inl h
OneOf-head c x (y ∷ ys) n (inl h) = inr (inl h)
OneOf-head c x (y ∷ ys) n (inr h) = elim (OneOf-head c x ys n h) [
  | inl e ↦ inl e
  | inr e ↦ inr (inr e)
]

slot-process_head :
    {T : BeaconTypes} (head : T.HeadEventData) (d : BeaconData T)
    → (process_head head d).0.current_slot
      ≡ (if leb (T.head_slot head) d.current_slot then d.current_slot else T.head_slot head)
unfolding process_head
slot-process_head head d = ground arith

head_below :
    {T : BeaconTypes} (head : T.HeadEventData) (d : BeaconData T) (n : ℕ)
    → (process_head head d).0.current_slot ≤ n
    → T.head_slot head ≤ n
unfolding process_head
head_below head d n h = ground arith

OneOf-process_head :
    {T : BeaconTypes} (head : T.HeadEventData) (d : BeaconData T) (xs : List ℕ) (n : ℕ)
    → OneOf (process_head head d).0.current_slot xs n
    → OneOf d.current_slot (T.head_slot head ∷ xs) n
OneOf-process_head {T} head d xs n h = elim (Bool-cases (leb (T.head_slot head) d.current_slot)) [
  | inl stale ↦ inr (rw stale at (rw (slot-process_head head d) at h))
  | inr fresh ↦
      OneOf-head d.current_slot (T.head_slot head) xs n
        (rw fresh at (rw (slot-process_head head d) at h))
]

-- After any sequence of head events, from however many clients, the current slot is the highest
-- that was seen, and the epoch and the head are those of that slot.
pub process_heads_lem :
    {T : BeaconTypes} (hs : List T.HeadEventData) (d : BeaconData T)
    → IsCurrent d
    → IsCurrent (process_heads hs d)
      × (d.current_slot ≤ (process_heads hs d).current_slot)
      × All (λ h. T.head_slot h ≤ (process_heads hs d).current_slot) hs
      × OneOf d.current_slot (map T.head_slot hs) (process_heads hs d).current_slot
unfolding process_heads
process_heads_lem [] d h = (h, omega arith, tt, refl)
process_heads_lem {T} (head ∷ hs) d h =
    let next = (process_head head d).0 in
    let (kept, up, all, one) = process_heads_lem hs next (process_head-IsCurrent head d h).0 in
    (
      kept,
      omega (arith, (process_head-IsCurrent head d h).1),
      (head_below head d _ up, all),
      OneOf-process_head head d (map T.head_slot hs) _ one,
    )

-- The three slots of the randao tasks, with no wrap-around in sight.
around :
    (n : ℕ)
    → 0 < n
    → n < 2 ^ 63
    → (add64 (sub64 n 1) 0 ≡ n - 1) × (add64 (sub64 n 1) 1 ≡ n) × (add64 (sub64 n 1) 2 ≡ n + 1)
around n pos fits = omega arith

abbrev pub tasks_at : ℕ → List Task
tasks_at n =
    Task.sync_status
    ∷ update_randao_map (n - 1)
    ∷ update_randao_map n
    ∷ update_randao_map (n + 1)
    ∷ ((if n % 32 == 0 || n % 32 == 31 then update_validator_map ∷ [] else [])
        ++ update_fork_version ∷ [])

head_tasks_lem : (n : ℕ) → 0 < n → n < 2 ^ 63 → head_tasks n ≡ tasks_at n
head_tasks_lem n pos fits =
    let (p, q, r) = around n pos fits in let edge = at_epoch_edge_lem n pos fits in cc

module _ {T : BeaconTypes} (head : T.HeadEventData) (d : BeaconData T) where
  fresh_tasks :
      d.current_slot < T.head_slot head → (process_head head d).1 ≡ head_tasks (T.head_slot head)
  unfolding process_head
  fresh_tasks fresh = ground arith

  -- A head event for a slot above the current one, both within `int64`: the proposers and the
  -- randaos of slots more than 64 slots older are dropped and all others kept; the randaos of the
  -- slot and its two neighbours are asked for; and the proposer duties are asked for exactly at the
  -- first and the last slot of an epoch. Any other head event changes nothing and starts nothing.
  pub process_head_lem :
      (k : ℕ)
      → T.head_slot head < 2 ^ 63
      → k < 2 ^ 63
      → (lookup k (process_head head d).0.slot_proposer_map ≡ (
          if ltb d.current_slot (T.head_slot head) && ltb (k + 64) (T.head_slot head)
          then none
          else lookup k d.slot_proposer_map))
        × (lookup k (process_head head d).0.randao_map ≡ (
            if ltb d.current_slot (T.head_slot head) && ltb (k + 64) (T.head_slot head)
            then none
            else lookup k d.randao_map))
        × ((process_head head d).1
            ≡ (if ltb d.current_slot (T.head_slot head) then tasks_at (T.head_slot head) else []))
  process_head_lem k fits hk = elim (Bool-cases (ltb d.current_slot (T.head_slot head))) [
    | inl fresh ↦
        let above = ltb→lt d.current_slot (T.head_slot head) fresh in
        rw fresh (
          fresh_proposers head d above fits k hk,
          fresh_randao head d above fits k hk,
          fresh_tasks above ∙ head_tasks_lem (T.head_slot head) (omega arith) fits,
        )
    | inr stale ↦
        let same = stale_head head d (ground arith) in
        rw stale (
          ap (λ (r : BeaconData T × List Task). lookup k r.0.slot_proposer_map) same,
          ap (λ (r : BeaconData T × List Task). lookup k r.0.randao_map) same,
          ap (λ (r : BeaconData T × List Task). r.1) same,
        )
  ]

module _ {T : BeaconTypes} (a : PayloadAttributesEventData T) (d : BeaconData T) (k : ℕ) where
  -- After a payload attributes event its slot has the event's attributes, entries more than 64 slots
  -- older are gone, and the rest is as it was.
  pub process_payload_attributes_lem :
      a.proposal_slot < 2 ^ 63
      → k < 2 ^ 63
      → lookup k (process_payload_attributes a d).slot_payload_attributes_map ≡ (
          if a.proposal_slot == k
          then some a
          else if ltb (k + 64) a.proposal_slot
          then none
          else lookup k d.slot_payload_attributes_map)
  unfolding process_payload_attributes
  process_payload_attributes_lem fits hk = ground (
    arith,
    lookup-delete_if k (is_old a.proposal_slot)
        (insert a.proposal_slot a d.slot_payload_attributes_map),
    lookup-insert k a.proposal_slot a d.slot_payload_attributes_map,
    is_old_lem a.proposal_slot k fits hk,
  )
