-- ===== src/Beacon/FirstAnswer.antt =====
-- The loops of multiFetch.go against their description: the first answer in the order of the
-- clients, or no answer and an error.
use proof_relay.Base.{
  ℕ, ◌+◌, ◌≡◌, refl, ap, Option, none, some, List, [], ◌∷◌, ◌++◌, inl, inr, ◌⊎◌, All,
}
use proof_relay.Text.{Text, codes}
use proof_relay.Beacon.{BeaconClient, Reply, answer, failure, BeaconTypes, Nodes}
use proof_relay.Beacon.Fetch.{
  Returned, ask_each, ask_or, MultiBeaconClient, get_validator_list, get_block_header,
}

pub Reply-cases {ℓ} :
    {A : Type ℓ} (r : Reply A) → ((a : A) × (r ≡ answer a)) ⊎ ((f : Text) × (r ≡ failure f))
Reply-cases (answer a) = inl (a, refl)
Reply-cases (failure f) = inr (f, refl)

-- `a` is the answer of the first client that does not fail.
pub record IsFirst {ℓ} {A : Type ℓ} (ask : ℕ → Reply A) (a : A) (cs : List BeaconClient)
    : Type ℓ where
  pub failing : List BeaconClient
  pub chosen : BeaconClient
  pub rest : List BeaconClient
  pub order : cs ≡ failing ++ chosen ∷ rest
  pub all_fail : All (λ c. (f : Text) × (ask c.node ≡ failure f)) failing
  pub answers : ask chosen.node ≡ answer a

abbrev pub AllFail {ℓ} : {A : Type ℓ} → (ℕ → Reply A) → List BeaconClient → Type ℓ
AllFail ask cs = All (λ c. (f : Text) × (ask c.node ≡ failure f)) cs

-- What a return says of the nodes: the answer of the first that did not fail and no error, or that
-- all of them failed and the given error.
abbrev pub Explains {ℓ} :
    {A : Type ℓ} → (ℕ → Reply A) → List BeaconClient → Option Text → Returned A → Type ℓ
Explains ask cs own (some a, e) = IsFirst ask a cs × (e ≡ none)
Explains ask cs own (none, e) = AllFail ask cs × (e ≡ own)

Explains-answer {ℓ} :
    {A : Type ℓ} (ask : ℕ → Reply A) (own : Option Text) (c : BeaconClient) (cs : List BeaconClient)
    (a : A)
    → ask c.node ≡ answer a
    → Explains ask (c ∷ cs) own (some a, none)
Explains-answer ask own c cs a e =
    (record { failing = []; chosen = c; rest = cs; order = refl; all_fail = tt; answers = e }, refl)

-- One more node in front that fails.
Explains-failure {ℓ} :
    {A : Type ℓ} (ask : ℕ → Reply A) (own : Option Text) (c : BeaconClient) (cs : List BeaconClient)
    (f : Text) (r : Returned A)
    → ask c.node ≡ failure f
    → Explains ask cs own r
    → Explains ask (c ∷ cs) own r
Explains-failure ask own c cs f (none, e) failed (all, own_error) = (((f, failed), all), own_error)
Explains-failure ask own c cs f (some a, e) failed (first, clear) = (
  record {
    failing = c ∷ first.failing;
    chosen = first.chosen;
    rest = first.rest;
    order = ap (λ (l : List BeaconClient). c ∷ l) first.order;
    all_fail = ((f, failed), first.all_fail);
    answers = first.answers;
  },
  clear,
)

ask_or-Explains {ℓ} :
    {A : Type ℓ} (ask : ℕ → Reply A) (own : Text) (cs : List BeaconClient)
    → Explains ask cs (some own) (ask_or ask own cs)
unfolding ask_or
ask_or-Explains ask own [] = (tt, refl)
ask_or-Explains ask own (c ∷ cs) = elim (Reply-cases (ask c.node)) [
  | inl (a, answered) ↦ rw (answered, ask_or) (Explains-answer ask (some own) c cs a answered)
  | inr (f, failed) ↦
      rw (failed, ask_or)
        (Explains-failure ask (some own) c cs f (ask_or ask own cs) failed
          (ask_or-Explains ask own cs))
]

-- The error of the last client, the one before the loop if there is no client.
abbrev pub last_failure {ℓ} :
    {A : Type ℓ} → (ℕ → Reply A) → Option Text → List BeaconClient → Option Text
last_failure ask e [] = e
last_failure ask e (c ∷ cs) =
    last_failure ask (elim (ask c.node) [ answer _ ↦ e | failure f ↦ some f ]) cs

ask_each-Explains {ℓ} :
    {A : Type ℓ} (ask : ℕ → Reply A) (e : Option Text) (cs : List BeaconClient)
    → Explains ask cs (last_failure ask e cs) (ask_each ask e cs)
unfolding ask_each
ask_each-Explains ask e [] = (tt, refl)
ask_each-Explains ask e (c ∷ cs) = elim (Reply-cases (ask c.node)) [
  | inl (a, answered) ↦
      rw (answered, ask_each) (Explains-answer ask (last_failure ask e cs) c cs a answered)
  | inr (f, failed) ↦
      rw (failed, ask_each)
        (Explains-failure ask (last_failure ask (some f) cs) c cs f (ask_each ask (some f) cs)
          failed (ask_each-Explains ask (some f) cs))
]

module _ {T : BeaconTypes} (N : Nodes T) (slot : ℕ) (b : MultiBeaconClient T) where
  -- `GetBlockHeader` returns the answer of the first client, in their order, that does not fail, or
  -- the error of the last one; `GetValidatorList` does the same with an error of its own. Neither
  -- changes the clients or the beacon data, and each starts one update of the performance.
  pub multi_fetch :
      Explains
        (λ n. N.get_block_header n slot)
        b.clients
        (last_failure (λ n. N.get_block_header n slot) none b.clients)
        (get_block_header N slot b).0
      × Explains
          (λ n. N.get_validator_list n slot)
          b.clients
          (some (codes "failed to get validator list from all clients"))
          (get_validator_list N slot b).0
      × ((get_block_header N slot b).1 ≡ record b { updates = b.updates + 1 })
      × ((get_validator_list N slot b).1 ≡ record b { updates = b.updates + 1 })
  multi_fetch = (
    unfold get_block_header in ask_each-Explains (λ n. N.get_block_header n slot) none b.clients,
    unfold get_validator_list in ask_or-Explains (λ n. N.get_validator_list n slot) _ b.clients,
    unfold get_block_header in refl,
    unfold get_validator_list in refl,
  )
