-- ===== src/Beacon/Alive.antt =====
-- `ensureClientsAlive` and `ReturnAllNodeURLs` (beaconinterface/multiclient.go). What arrives in the
-- loop, a node's genesis data or the timeout, is a list of events.
use proof_relay.Base.{
  ℕ, zero, suc, ◌≡◌, refl, Bool, true, false, Option, none, some, List, [], ◌∷◌, if◌then◌else◌,
  length, map, ◌++◌, ap,
}
use proof_relay.Text.{Text, codes}
use proof_relay.Map.{Map, Key, lookup, insert, text_key}
use proof_relay.Beacon.{BeaconClient}

-- `none` is a node that failed to give its genesis data.
pub data Arrival (G : Type 0) : Type 0 where
  genesis_of : Option (Text × G) → Arrival G
  timeout : Arrival G

-- How the loop ends: with what was received, or at the timeout with what was received until then.
pub data Gathered (G : Type 0) : Type 0 where
  complete : Map Text G → Gathered G
  timed_out : Map Text G → Gathered G
  listening : Gathered G

-- `alive`, or the error; the urls of the nodes that the timeout's error names come along.
pub data Verdict : Type 0 where
  alive still_waiting : Verdict
  too_slow : List Text → Verdict
  not_alive : Text → Verdict

module _ {G : Type 0} where
  abbrev pub keep : Option (Text × G) → Map Text G → Map Text G
  keep none m = m
  keep (some (url, g)) m = insert url g m

  -- The loop that waits for so many arrivals.
  unfoldable pub gather : ℕ → List (Arrival G) → Map Text G → Gathered G
  gather zero events m = complete m
  gather (suc n) [] m = listening
  gather (suc n) (timeout ∷ r) m = timed_out m
  gather (suc n) (genesis_of o ∷ r) m = gather n r (keep o m)

  -- The data that so many results leave in the map.
  abbrev pub received : List (Option (Text × G)) → Map Text G → Map Text G
  received [] m = m
  received (o ∷ os) m = received os (keep o m)

  -- A gathering that is complete has met no timeout among as many results as it waited for.
  pub gather_complete :
      (n : ℕ) (events : List (Arrival G)) (m known : Map Text G)
      → gather n events m ≡ complete known
      → (results : List (Option (Text × G))) × (rest : List (Arrival G)) × (events
          ≡ map genesis_of results ++ rest)
        × (length results ≡ n)
        × (known ≡ received results m)
  unfolding gather
  gather_complete zero events m known e = ([], events, refl, refl, cc e)
  gather_complete (suc n) [] m known e = absurd (cc e)
  gather_complete (suc n) (timeout ∷ r) m known e = absurd (cc e)
  gather_complete (suc n) (genesis_of o ∷ r) m known e =
      let (results, rest, split, counted, whole) = gather_complete n r (keep o m) known e in
      (o ∷ results, rest, ap (λ l. genesis_of o ∷ l) split, ap suc counted, whole)

-- `ReturnAllNodeURLs`, with the url of a node.
unfoldable pub return_all_node_urls : (ℕ → Text) → List BeaconClient → List Text
return_all_node_urls endpoint [] = []
return_all_node_urls endpoint (c ∷ cs) = endpoint c.node ∷ return_all_node_urls endpoint cs

module _ {G : Type 0} ⦃key : Key G⦄ where
  -- The comparison loop, `known` being `knownGenesis`.
  unfoldable pub same_genesis : Option G → Map Text G → Bool
  same_genesis known [] = true
  same_genesis none ((_, g) ∷ r) = same_genesis (some g) r
  same_genesis (some k) ((_, g) ∷ r) =
      let rest = same_genesis (some k) r in if key.same k g then rest else false

  abbrev missing : Map Text G → List Text → List Text
  missing m [] = []
  missing m (u ∷ us) = elim (lookup u m) [ some _ ↦ missing m us | none ↦ u ∷ missing m us ]

  -- What follows the loop, with the urls of the clients.
  unfoldable pub verdict : List Text → Gathered G → Verdict
  unfolding same_genesis
  verdict urls listening = still_waiting
  verdict urls (timed_out m) = too_slow (missing m urls)
  verdict urls (complete []) = not_alive (codes "all nodes failed to provide genesis data")
  verdict urls (complete (e ∷ m)) =
      if same_genesis none (e ∷ m)
      then alive
      else not_alive (codes "nodes have different genesis and fork data")

  -- `endpoint` is the url of a node. The loop waits for one arrival for each client.
  unfoldable pub ensure_clients_alive : (ℕ → Text) → List BeaconClient → List (Arrival G) → Verdict
  unfolding gather verdict return_all_node_urls
  ensure_clients_alive endpoint clients events =
      verdict (return_all_node_urls endpoint clients) (gather (length clients) events [])
