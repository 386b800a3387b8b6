-- ===== src/Beacon/Node/Subscribed.antt =====
-- The two subscriptions of a beacon node (beaconinterface/client/beaconclientSub.go): a loop that
-- connects again and again and forwards the events.
use proof_relay.Base.{
  map, ◌≡◌, ◌≢◌, refl, sym, ap, ◌∙◌, Bool, true, false, List, [], ◌∷◌, ◌++◌, if◌then◌else◌, All,
  Bool-cases, inl, inr,
}
use mathlib.Core.List.{append_assoc}
use proof_relay.Text.{Text}
use proof_relay.Beacon.{Reply, answer, failure}

-- How one `SubscribeRawWithContext` ends: without an error, with the error of the context (canceled or
-- past its deadline), or with another.
pub data Ending : Type 0 where
  closed : Ending
  context_done : Ending
  broken : Ending

-- One connection: the data of its messages, and its end.
pub record Session : Type 0 where
  pub messages : List Text
  pub ending : Ending

-- What the loop has forwarded to the channel, and whether it has returned; when it has not, it is about
-- to connect again.
pub record Run (E : Type 0) : Type 0 where
  pub forwarded : List E
  pub returned : Bool

module _ {E : Type 0} where
  abbrev pub then_run : List E → Run E → Run E
  then_run es r = record { forwarded = es ++ r.forwarded; returned = r.returned }

  module _ (unmarshal : Text → Reply E) where
    abbrev pub forward_event : Reply E → List E → List E
    forward_event (answer e) rest = e ∷ rest
    forward_event (failure _) rest = rest

    abbrev pub forward_heads : List Text → List E
    forward_heads [] = []
    forward_heads (m ∷ ms) = forward_event (unmarshal m) (forward_heads ms)

    -- `SubscribeToHeadEvents`, on the connections that come one after the other.
    unfoldable pub subscribe_to_head_events : List Session → Run E
    subscribe_to_head_events [] = record { forwarded = []; returned = false }
    subscribe_to_head_events (s ∷ ss) =
        let rest = subscribe_to_head_events ss in
        elim s.ending [
          | context_done ↦ record { forwarded = forward_heads s.messages; returned = true }
          | closed ↦ then_run (forward_heads s.messages) rest
          | broken ↦ then_run (forward_heads s.messages) rest
        ]

  module _ (unmarshal : Text → Reply E) (has_data : E → Bool) where
    abbrev pub forward_with_data : Reply E → List E → List E
    forward_with_data (failure _) rest = rest
    forward_with_data (answer e) rest = if has_data e then e ∷ rest else rest

    abbrev pub forward_attributes : List Text → List E
    forward_attributes [] = []
    forward_attributes (m ∷ ms) = forward_with_data (unmarshal m) (forward_attributes ms)

    -- `SubscribeToPayloadAttributesEvents`: no ending makes it return.
    unfoldable pub subscribe_to_payload_attributes_events : List Session → Run E
    subscribe_to_payload_attributes_events [] = record { forwarded = []; returned = false }
    subscribe_to_payload_attributes_events (s ∷ ss) =
        then_run (forward_attributes s.messages) (subscribe_to_payload_attributes_events ss)

-- The events that can be decoded of some messages, in their order, and those of a list that pass a test.
abbrev pub answers : {E : Type 0} → List (Reply E) → List E
answers [] = []
answers (answer e ∷ rs) = e ∷ answers rs
answers (failure _ ∷ rs) = answers rs

abbrev pub decoded : {E : Type 0} → (Text → Reply E) → List Text → List E
decoded unmarshal ms = answers (map unmarshal ms)

abbrev pub passing : {E : Type 0} → (E → Bool) → List E → List E
passing p [] = []
passing p (e ∷ es) = if p e then e ∷ passing p es else passing p es

-- The end of a connection is not that of the context.
abbrev pub Lasts : Session → Type 0
Lasts s = s.ending ≢ context_done

abbrev pub messages_of : List Session → List Text
messages_of [] = []
messages_of (s ∷ ss) = s.messages ++ messages_of ss

module _ {E : Type 0} where
  forward_heads-append :
      (unmarshal : Text → Reply E) (ms ns : List Text)
      → forward_heads unmarshal (ms ++ ns)
        ≡ forward_heads unmarshal ms ++ forward_heads unmarshal ns
  forward_heads-append unmarshal [] ns = refl
  forward_heads-append unmarshal (m ∷ ms) ns =
      ap (forward_event unmarshal (unmarshal m)) (forward_heads-append unmarshal ms ns)
      ∙ pull (unmarshal m)
    where
      pull :
          (r : Reply E)
          → forward_event unmarshal r (forward_heads unmarshal ms ++ forward_heads unmarshal ns)
            ≡ forward_event unmarshal r (forward_heads unmarshal ms) ++ forward_heads unmarshal ns
      pull (answer e) = refl
      pull (failure _) = refl

  forward_attributes-append :
      (unmarshal : Text → Reply E) (has_data : E → Bool) (ms ns : List Text)
      → forward_attributes unmarshal has_data (ms ++ ns)
        ≡ forward_attributes unmarshal has_data ms ++ forward_attributes unmarshal has_data ns
  forward_attributes-append unmarshal has_data [] ns = refl
  forward_attributes-append unmarshal has_data (m ∷ ms) ns =
      ap (forward_with_data unmarshal has_data (unmarshal m))
        (forward_attributes-append unmarshal has_data ms ns)
      ∙ pull (unmarshal m)
    where
      pull :
          (r : Reply E)
          → forward_with_data unmarshal has_data r
              (forward_attributes unmarshal has_data ms ++ forward_attributes unmarshal has_data ns)
            ≡ forward_with_data unmarshal has_data r (forward_attributes unmarshal has_data ms)
              ++ forward_attributes unmarshal has_data ns
      pull (answer e) = elim (Bool-cases (has_data e)) [ inl h ↦ rw h refl | inr h ↦ rw h refl ]
      pull (failure _) = refl

  head_events-Lasts :
      (unmarshal : Text → Reply E) (s : Session) (ss : List Session)
      → Lasts s
      → subscribe_to_head_events unmarshal (s ∷ ss)
        ≡ then_run (forward_heads unmarshal s.messages) (subscribe_to_head_events unmarshal ss)
  unfolding subscribe_to_head_events
  head_events-Lasts unmarshal s ss lasts = by_ending s.ending refl
    where
      by_ending :
          (x : Ending)
          → s.ending ≡ x
          → subscribe_to_head_events unmarshal (s ∷ ss)
            ≡ then_run (forward_heads unmarshal s.messages) (subscribe_to_head_events unmarshal ss)
      by_ending closed e = rw e refl
      by_ending broken e = rw e refl
      by_ending context_done e = absurd (lasts e)

  -- The subscription to head events forwards what can be decoded of the messages of all connections up to
  -- the first that ends with its context, in their order, and then it returns, whatever would come after.
  pub subscribe_to_head_events_lem :
      (unmarshal : Text → Reply E) (before : List Session) (s : Session) (after : List Session)
      → All Lasts before
      → s.ending ≡ context_done
      → subscribe_to_head_events unmarshal (before ++ s ∷ after) ≡ record {
        forwarded = forward_heads unmarshal (messages_of before ++ s.messages);
        returned = true;
      }
  unfolding subscribe_to_head_events
  subscribe_to_head_events_lem unmarshal [] s after _ done = rw done refl
  subscribe_to_head_events_lem unmarshal (t ∷ before) s after (lasts, rest) done =
      head_events-Lasts unmarshal t (before ++ s ∷ after) lasts
      ∙ ap (then_run (forward_heads unmarshal t.messages))
          (subscribe_to_head_events_lem unmarshal before s after rest done)
      ∙ ap (λ es. record { forwarded = es; returned = true })
          (sym (forward_heads-append unmarshal t.messages (messages_of before ++ s.messages))
            ∙ ap (forward_heads unmarshal)
                (sym (append_assoc t.messages (messages_of before) s.messages)))

  forward_attributes-passing :
      (unmarshal : Text → Reply E) (has_data : E → Bool) (ms : List Text)
      → forward_attributes unmarshal has_data ms ≡ passing has_data (decoded unmarshal ms)
  forward_attributes-passing unmarshal has_data [] = refl
  forward_attributes-passing unmarshal has_data (m ∷ ms) =
      step (unmarshal m) refl (forward_attributes-passing unmarshal has_data ms)
    where
      step :
          (r : Reply E)
          → unmarshal m ≡ r
          → forward_attributes unmarshal has_data ms ≡ passing has_data (decoded unmarshal ms)
          → forward_attributes unmarshal has_data (m ∷ ms)
            ≡ passing has_data (decoded unmarshal (m ∷ ms))
      step (failure x) e rest = rw e rest
      step (answer x) e rest = elim (Bool-cases (has_data x)) [
        | inl h ↦ rw e (rw h (ap (λ l. x ∷ l) rest))
        | inr h ↦ rw e (rw h rest)
      ]

  -- The subscription to payload attributes forwards, in the order of the messages, just the events that can
  -- be decoded and have data, over all connections: also those of the connections that it opens after one
  -- that ended because its context was done, and after the last of them it is about to connect again.
  pub subscribe_to_payload_attributes_events_lem :
      (unmarshal : Text → Reply E) (has_data : E → Bool) (sessions : List Session)
      → subscribe_to_payload_attributes_events unmarshal has_data sessions ≡ record {
        forwarded = passing has_data (decoded unmarshal (messages_of sessions));
        returned = false;
      }
  unfolding subscribe_to_payload_attributes_events
  subscribe_to_payload_attributes_events_lem unmarshal has_data [] = refl
  subscribe_to_payload_attributes_events_lem unmarshal has_data (s ∷ ss) =
      ap (then_run (forward_attributes unmarshal has_data s.messages))
        (subscribe_to_payload_attributes_events_lem unmarshal has_data ss)
      ∙ ap (λ es. record { forwarded = es; returned = false })
          (ap (λ l. forward_attributes unmarshal has_data s.messages ++ l)
              (sym (forward_attributes-passing unmarshal has_data (messages_of ss)))
            ∙ sym (forward_attributes-append unmarshal has_data s.messages (messages_of ss))
            ∙ forward_attributes-passing unmarshal has_data (s.messages ++ messages_of ss))
