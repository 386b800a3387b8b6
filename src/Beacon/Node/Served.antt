-- ===== src/Beacon/Node/Served.antt =====
-- When a call of a beacon node (beaconinterface/client/utils.go) gives what, and when nothing.
use proof_relay.Base.{
  ℕ, ◌≡◌, ◌↔◌, ◌<◌, refl, sym, ap, ◌∙◌, false, Option, none, some, [], leb, arith, Bool-cases, inl,
  inr,
}
use proof_relay.Text.{Text, codes}
use proof_relay.Beacon.{Reply, answer, failure, BeaconTypes}
use proof_relay.Beacon.FirstAnswer.{Reply-cases}
use proof_relay.Beacon.Node.{
  HttpResponse, Http, nil_pointer, fetch_beacon, send_get, read_response, read_body, decoded_body,
  error_reply, data_of, genesis,
}

module _ {T : BeaconTypes} (h : Http T) where
  -- The node gave a response with a status below 300, whose body was read and decoded.
  pub record Served {A : Type 0} (unmarshal : Text → Reply A) (u : Text) (a : A) : Type 0 where
    pub requested : h.new_request u ≡ answer tt
    pub response : HttpResponse
    pub given : h.do_get u ≡ answer response
    pub fine : response.status_code < 300
    pub body : Text
    pub read : response.body ≡ answer body
    pub decoded : unmarshal body ≡ answer a

  below : (n : ℕ) → leb 300 n ≡ false → n < 300
  below n e = ground arith

  not_below : (n : ℕ) → n < 300 → leb 300 n ≡ false
  not_below n e = ground arith

  read_body_lem :
      {A : Type 0} (unmarshal : Text → Reply A) (u : Text) (a : A) (status : ℕ) (body : Text)
      → read_body h unmarshal u status (answer body) ≡ answer a
      → (status < 300) × (unmarshal body ≡ answer a)
  read_body_lem unmarshal u a status body e = elim (Bool-cases (leb 300 status)) [
    | inl high ↦
        let shown : read_body h unmarshal u status (answer body)
            ≡ failure (error_reply u body (h.unmarshal_error body)) =
          rw high refl in
        absurd (cc (e, shown))
    | inr low ↦
        let shown : read_body h unmarshal u status (answer body)
            ≡ decoded_body h unmarshal u body (unmarshal body) =
          rw low refl in
        (below status low, decoded (unmarshal body) (sym shown ∙ e))
  ]
    where
      decoded : (r : Reply _) → decoded_body h unmarshal u body r ≡ answer a → r ≡ answer a
      decoded (answer b) e = e
      decoded (failure f) e = absurd (cc e)

  -- `fetchBeacon` gives a value exactly if the request could be made, the node's response has a status
  -- below 300 and its body can be read and decoded to that value.
  pub fetch_beacon_lem :
      {A : Type 0} (unmarshal : Text → Reply A) (u : Text) (a : A)
      → (fetch_beacon h unmarshal u ≡ answer a) ↔ Served unmarshal u a
  unfolding fetch_beacon
  fetch_beacon_lem unmarshal u a = (served, fetched)
    where
      served : fetch_beacon h unmarshal u ≡ answer a → Served unmarshal u a
      served e = elim (Reply-cases (h.new_request u)) [
        | inr (f, bad) ↦ absurd (cc (e, ap (send_get h unmarshal u) bad))
        | inl (_, requested) ↦ elim (Reply-cases (h.do_get u)) [
          | inr (f, bad) ↦
              absurd (
                cc (e, ap (send_get h unmarshal u) requested, ap (read_response h unmarshal u) bad))
          | inl (r, given) ↦
              let at_body : read_body h unmarshal u r.status_code r.body ≡ answer a =
                sym (ap (send_get h unmarshal u) requested ∙ ap (read_response h unmarshal u) given)
                ∙ e in
              elim (Reply-cases r.body) [
                | inr (f, bad) ↦
                    absurd (cc (at_body, ap (read_body h unmarshal u r.status_code) bad))
                | inl (body, read) ↦
                    let at_status =
                      sym (ap (read_body h unmarshal u r.status_code) read) ∙ at_body in
                    let (fine, decoded) =
                      read_body_lem unmarshal u a r.status_code body at_status in
                    record {
                      requested = requested;
                      response = r;
                      given = given;
                      fine = fine;
                      body = body;
                      read = read;
                      decoded = decoded;
                    }
              ]
        ]
      ]

      fetched : Served unmarshal u a → fetch_beacon h unmarshal u ≡ answer a
      fetched s =
          ap (send_get h unmarshal u) s.requested
          ∙ ap (read_response h unmarshal u) s.given
          ∙ ap (read_body h unmarshal u s.response.status_code) s.read
          ∙ rw (not_below s.response.status_code s.fine, s.decoded) refl

  data_of-nil :
      {A : Type 0} (r : Reply (Option A)) → (data_of h r ≡ nil_pointer) ↔ (r ≡ answer none)
  data_of-nil (failure e) = (λ x. absurd (cc x), λ x. absurd (cc x))
  data_of-nil (answer none) = (λ _. refl, λ _. refl)
  data_of-nil (answer (some a)) = (λ x. absurd (cc x), λ x. absurd (cc x))

  -- `Genesis` reads through a nil pointer exactly if the node serves a body that is decoded to nil, with
  -- a status below 300.
  pub genesis_nil :
      (genesis h ≡ nil_pointer)
      ↔ Served h.unmarshal_genesis (h.url_string (codes "/eth/v1/beacon/genesis") []) none
  unfolding genesis
  genesis_nil =
      let u = h.url_string (codes "/eth/v1/beacon/genesis") [] in
      let nil = data_of-nil (fetch_beacon h h.unmarshal_genesis u) in
      let served = fetch_beacon_lem h.unmarshal_genesis u none in
      (λ e. served.0 (nil.0 e), λ s. nil.1 (served.1 s))
