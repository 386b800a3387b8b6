-- ===== src/Beacon/Publish.antt =====
-- `PublishBlock` (beaconinterface/multiPost.go): the block goes to all clients at once, and a loop
-- reads what they report. The reports and the cancellation are events in the order in which the
-- loop sees them.
use proof_relay.Base.{
  ℕ, ◌+◌, ◌<◌, ◌≡◌, refl, Bool, true, false, not, ◌||◌, Option, none, some, List, [], ◌∷◌, ◌++◌,
  arith, length, map, ◌==◌, if◌then◌else◌,
}
use proof_relay.Text.{Text}
use proof_relay.Beacon.Fetch.{MultiBeaconClient, post_beacon_call}
use proof_relay.Beacon.{BeaconTypes}

-- A client's report, `none` for a success, or the end of the context with its error.
pub data Event : Type 0 where
  reported : Option Text → Event
  done : Text → Event

pub data Publication : Type 0 where
  returned : Option Text → Publication
  listening : Publication

-- The loop, with the number of clients, `responseCount`, `successfulCount` and `err`.
unfoldable pub publish_loop : ℕ → ℕ → ℕ → Option Text → List Event → Publication
publish_loop n responses successes e [] = listening
publish_loop n responses successes e (done t ∷ r) = returned (some t)
publish_loop n responses successes e (reported none ∷ r) =
    let rest = publish_loop n (responses + 1) (successes + 1) e r in
    if responses + 1 == n then returned none else rest
publish_loop n responses successes e (reported (some f) ∷ r) =
    let rest = publish_loop n (responses + 1) successes (some f) r in
    if responses + 1 == n
    then (if successes == 0 then returned (some f) else returned none)
    else rest

module _ {T : BeaconTypes} where
  -- The deferred `postBeaconCall` runs when the loop has returned.
  unfoldable pub publish_block :
      List Event → MultiBeaconClient T → Publication × MultiBeaconClient T
  unfolding publish_loop
  publish_block events b = elim (publish_loop (length b.clients) 0 0 none events) [
    | returned e ↦ (returned e, post_beacon_call b)
    | listening ↦ (listening, b)
  ]

-- One of the reports is a success.
abbrev pub any_success : List (Option Text) → Bool
any_success [] = false
any_success (none ∷ r) = true
any_success (some _ ∷ r) = any_success r

abbrev pub last_error : Option Text → List (Option Text) → Option Text
last_error e [] = e
last_error e (none ∷ r) = last_error e r
last_error e (some f ∷ r) = last_error (some f) r

-- What the reports of all clients amount to.
abbrev pub outcome : ℕ → Option Text → List (Option Text) → Option Text
outcome successes e rs = if not (successes == 0) || any_success rs then none else last_error e rs

-- Fewer reports than clients, and then more events.
loop_partial :
    (n k s : ℕ) (e : Option Text) (rs : List (Option Text)) (t : Text)
    → k + length rs < n
    → (publish_loop n k s e (map reported rs) ≡ listening)
      × (publish_loop n k s e (map reported rs ++ done t ∷ []) ≡ returned (some t))
unfolding publish_loop
loop_partial n k s e [] t few = (refl, refl)
loop_partial n k s e (none ∷ rs) t few =
    ground (arith, loop_partial n (k + 1) (s + 1) e rs t (omega arith))
loop_partial n k s e (some f ∷ rs) t few =
    ground (arith, loop_partial n (k + 1) s (some f) rs t (omega arith))

loop_all :
    (n k s : ℕ) (e : Option Text) (r : Option Text) (rs : List (Option Text)) (more : List Event)
    → k + length (r ∷ rs) ≡ n
    → publish_loop n k s e (map reported (r ∷ rs) ++ more) ≡ returned (outcome s e (r ∷ rs))
unfolding publish_loop
loop_all n k s e none [] more all = ground arith
loop_all n k s e (some f) [] more all = ground arith
loop_all n k s e none (r ∷ rs) more all =
    ground (arith, loop_all n (k + 1) (s + 1) e r rs more (omega arith))
loop_all n k s e (some f) (r ∷ rs) more all =
    ground (arith, loop_all n (k + 1) s (some f) r rs more (omega arith))

module _ {T : BeaconTypes} (b : MultiBeaconClient T) where
  -- When every client has reported, in whatever order, `PublishBlock` returns: with no error if one
  -- of the reports is a success, and else with the error that came last. Events that come later do
  -- not matter.
  pub publish_all :
      (r : Option Text) (rs : List (Option Text)) (more : List Event)
      → length (r ∷ rs) ≡ length b.clients
      → publish_block (map reported (r ∷ rs) ++ more) b ≡ (
        returned (if any_success (r ∷ rs) then none else last_error none (r ∷ rs)),
        post_beacon_call b,
      )
  unfolding publish_block
  publish_all r rs more all =
      rw (loop_all (length b.clients) 0 0 none r rs more (omega arith), publish_block) refl

  -- As long as a client has not reported, `PublishBlock` goes on listening, successes
  -- notwithstanding, and the end of the context makes it return the error of the context.
  pub publish_partial :
      (rs : List (Option Text)) (t : Text)
      → length rs < length b.clients
      → (publish_block (map reported rs) b ≡ (listening, b))
        × (publish_block (map reported rs ++ done t ∷ []) b
            ≡ (returned (some t), post_beacon_call b))
  unfolding publish_block
  publish_partial rs t few =
      let (still, ends) = loop_partial (length b.clients) 0 0 none rs t (omega arith) in
      (rw (still, publish_block) refl, rw (ends, publish_block) refl)
