-- ===== src/Relay/Bounty.antt =====
-- What a bounty bid has passed before the relay looks at who signed it.
use proof_relay.Base.{
  ℕ, ◌≡◌, refl, sym, ◌∙◌, true, false, not, [], ok, err, nil_reply, Result-cases, Bool-cases, inl,
  inr, ◌⊎◌, ◌==◌, ==_iff,
}
use proof_relay.Text.{Text, text_eq, text_eq→eq, text_eq_refl}
use proof_relay.Text.Decimal.{ℤ, ltb_ℤ}
use proof_relay.Beacon.{answer}
use proof_relay.Beacon.FirstAnswer.{Reply-cases}
use proof_relay.Registry.{builder_status}
use proof_relay.Rpbs.Decode.{decoded}
use proof_relay.Bids.{
  Board, get_bounty_bid_for_slot, get_open_auction_highest_bid, get_payload_delivered,
}
use proof_relay.Relay.{BaseHeader, Outside, RelayState, block_slot_timestamp}
use proof_relay.Relay.Submit.{
  Block, bad, check_base_header, check_status, check_timestamp, check_not_delivered, check_slot,
  check_sanity, check_rpbs, rpbs_verify, is_open_slot,
}
use proof_relay.Relay.Steps.{
  Checks-bind, Checks-map, Checks-or_refuse, Stops, Checks, Checks-require,
}
use proof_relay.Relay.Checked.{
  Admissible, Signed, Checks-status, Checks-timestamp, Checks-not_delivered, Checks-slot,
  Checks-sanity, Checks-rpbs, Checks-signer,
}
use proof_relay.Relay.BountyBids.{
  double, is_bounty_time, value_or_zero, check_bounty_time, check_no_winner, check_amount,
  check_signature, bounty_terms, bounty_block, bounty_signer, bounty_checks, handle_bounty_bids,
}

-- The terms that a bounty bid meets in the state in which the request came in.
pub record BountyTerms (B : Board) (E : Outside B) (time : ℕ) (b : Block B E) (s : RelayState E)
    (base : BaseHeader) : Type 0 where
  pub base_header : E.to_base_header b.execution_payload_header ≡ answer base
  pub on_time : (base.timestamp == block_slot_timestamp E b.slot) ≡ true
  pub in_window : is_bounty_time time (block_slot_timestamp E b.slot) ≡ true
  pub no_winner : get_bounty_bid_for_slot B b.slot s.board ≡ ok []
  pub enough :
      not (ltb_ℤ b.value (double (value_or_zero (get_open_auction_highest_bid B b.slot s.board))))
      ≡ true

-- All that the relay has checked of a bounty bid: what it checks of any bid, the terms, and the
-- signature as ASN.1.
pub record BountyAdmissible (B : Board) (E : Outside B) (time : ℕ) (b : Block B E)
    (s : RelayState E) : Type 0 where
  pub bid : Admissible B E b s
  pub terms : BountyTerms B E time b s bid.base
  pub signature : ℤ × ℤ
  pub parsed : E.asn1_signature b.ecdsa_signature ≡ answer signature
  pub verified : E.ecdsa_verify bid.key bid.root signature ≡ true

module _ {B : Board} {E : Outside B} (time : ℕ) (b : Block B E) (s : RelayState E) where
  Checks-no_winner :
      Checks (λ _. get_bounty_bid_for_slot B b.slot s.board ≡ ok []) (check_no_winner B E b) s
  unfolding check_no_winner
  Checks-no_winner = elim (Result-cases (get_bounty_bid_for_slot B b.slot s.board)) [
    | inr (_, e) ↦ inr (rw (e, check_no_winner) (refl, refl, refl))
    | inl (w, e) ↦ elim (Bool-cases (text_eq w [])) [
      | inl empty ↦ inl (tt, rw (e, empty, check_no_winner) refl, rw (text_eq→eq w [] empty) at e)
      | inr taken ↦ inr (rw (e, taken, check_no_winner) (refl, refl, refl))
    ]
  ]

  Checks-window :
      Checks
        (λ _. is_bounty_time time (block_slot_timestamp E b.slot) ≡ true)
        (check_bounty_time B E time b)
        s
  unfolding check_bounty_time
  Checks-window = Checks-require (is_bounty_time time (block_slot_timestamp E b.slot)) _ s

  Checks-amount :
      Checks
        (λ _.
          not
            (ltb_ℤ b.value (double (value_or_zero (get_open_auction_highest_bid B b.slot s.board))))
          ≡ true)
        (check_amount B E b)
        s
  unfolding check_amount
  Checks-amount =
      Checks-require
        (not
          (ltb_ℤ b.value (double (value_or_zero (get_open_auction_highest_bid B b.slot s.board)))))
        _ s

  Checks-bounty_terms : Checks (BountyTerms B E time b s) (bounty_terms B E time b) s
  unfolding bounty_terms
  Checks-bounty_terms =
      Checks-bind _ _ (check_base_header B E b) _ s
        (Checks-or_refuse (E.to_base_header b.execution_payload_header) (bad B E) s)
        λ base e.
          Checks-bind _ _ (check_timestamp B E b base) _ s (Checks-timestamp b s base) λ _ on_time.
            Checks-bind _ _ (check_bounty_time B E time b) _ s Checks-window λ _ in_window.
              Checks-bind _ _ (check_no_winner B E b) _ s Checks-no_winner λ _ no_winner.
                Checks-bind _ _ (check_amount B E b) _ s Checks-amount λ _ enough. inl (
                  base,
                  refl,
                  record {
                    base_header = e;
                    on_time = on_time;
                    in_window = in_window;
                    no_winner = no_winner;
                    enough = enough;
                  },
                )

  -- The middle part of the checks.
  abbrev BlockHolds : BaseHeader → Type 0
  BlockHolds base =
      (builder_status B.redis b.builder_wallet_address s.board.store ≡ ok true)
      × (get_payload_delivered B b.slot s.board ≡ err nil_reply)
      × (is_open_slot B E s.current_slot b.slot ≡ true)
      × ((b.block_hash ≡ base.block_hash) × (b.parent_hash ≡ base.parent_hash))
      × (rpbs_verify B E b ≡ decoded true)

  Checks-bounty_block :
      (base : BaseHeader)
      → E.to_base_header b.execution_payload_header ≡ answer base
      → Checks (λ _. BlockHolds base) (bounty_block B E b) s
  unfolding bounty_block
  Checks-bounty_block base e =
      Checks-bind _ _ (check_status B E b) _ s (Checks-status b s) λ _ active.
        Checks-bind _ _ (check_not_delivered B E b) _ s (Checks-not_delivered b s)
          λ _ not_delivered. Checks-bind _ _ (check_slot B E b) _ s (Checks-slot b s) λ _ open_slot.
            Checks-bind _ _ (check_sanity B E b) _ s (Checks-sanity b s base e) λ _ same_block.
              Checks-map (check_rpbs B E b) s
                (λ _ verified. (active, not_delivered, open_slot, same_block, verified))
                (Checks-rpbs b s)

  abbrev SignerHolds : Type 0
  SignerHolds =
      (signer : Text × E.PublicKey) × Signed b s signer
      × (signature : ℤ × ℤ) × (E.asn1_signature b.ecdsa_signature ≡ answer signature)
      × (E.ecdsa_verify signer.1 signer.0 signature ≡ true)

  Checks-bounty_signer : Checks (λ _. SignerHolds) (bounty_signer B E b) s
  unfolding bounty_signer check_signature
  Checks-bounty_signer = elim (Checks-signer b s) [
    | inr (r, same, db) ↦ inr (rw (r, bounty_signer) (refl, same, db))
    | inl ((root, key), s1, signed) ↦ elim (Reply-cases (E.asn1_signature b.ecdsa_signature)) [
      | inr (_, e) ↦ inr (rw (s1, e, bounty_signer, check_signature) (refl, refl, refl))
      | inl (signature, e) ↦ elim (Bool-cases (E.ecdsa_verify key root signature)) [
        | inr wrong ↦ inr (rw (s1, e, wrong, bounty_signer, check_signature) (refl, refl, refl))
        | inl right ↦ inl (
          tt,
          rw (s1, e, right, bounty_signer, check_signature) refl,
          ((root, key), signed, signature, e, right),
        )
      ]
    ]
  ]

  Checks-bounty_checks : Checks (λ _. BountyAdmissible B E time b s) (bounty_checks B E time b) s
  unfolding bounty_checks
  Checks-bounty_checks =
      Checks-bind _ _ (bounty_terms B E time b) _ s Checks-bounty_terms λ base terms.
        Checks-bind _ _ (bounty_block B E b) _ s (Checks-bounty_block base terms.base_header)
          λ _ block. Checks-bind _ _ (bounty_signer B E b) _ s Checks-bounty_signer λ _ holds.
            let (signer, signed, signature, parsed, right) = holds in
            inl (
              base,
              refl,
              record {
                bid = record {
                  base = base;
                  base_header = terms.base_header;
                  active = block.0;
                  on_time = (==_iff base.timestamp (block_slot_timestamp E b.slot)).0 terms.on_time;
                  not_delivered = block.1;
                  open_slot = block.2;
                  same_block = block.3.0;
                  same_parent = block.3.1;
                  rpbs_verified = block.4;
                  root = signer.0;
                  key = signer.1;
                  pubkey = signed.0;
                  signed_root = signed.1;
                  recovered = signed.2;
                  key_of = signed.3;
                  wallet = signed.4;
                };
                terms = terms;
                signature = signature;
                parsed = parsed;
                verified = right;
              },
            )

  refused_bounty :
      Stops (bounty_checks B E time b) s → Stops (handle_bounty_bids B E time (answer b)) s
  unfolding handle_bounty_bids
  refused_bounty (r, same, db) = rw r (refl, same, db)

  -- `handleBountyBids` goes on to the first write only for a bid that passes every check of an
  -- ordinary bid, comes two to three seconds after the time of its slot, finds no winner of the
  -- bounty on record, offers at least twice what the open auction is read to offer (0 where that
  -- read fails), and whose signature verifies as ASN.1 too. Otherwise it ends early, with board
  -- and database as they were.
  pub bounty_checked :
      BountyAdmissible B E time b s ⊎ Stops (handle_bounty_bids B E time (answer b)) s
  bounty_checked = elim Checks-bounty_checks [
    | inl (_, _, all) ↦ inl all
    | inr stops ↦ inr (refused_bounty stops)
  ]

  -- In a state in which the bounty of the slot has a winner on record, a bounty bid for the slot is
  -- refused, with board and database as they are.
  pub bounty_closed :
      (w : Text)
      → get_bounty_bid_for_slot B b.slot s.board ≡ ok w
      → text_eq w [] ≡ false
      → Stops (handle_bounty_bids B E time (answer b)) s
  bounty_closed w won named = elim bounty_checked [
    | inl all ↦
        let same : ok w ≡ ok [] = sym won ∙ all.terms.no_winner in
        let empty : w ≡ [] = cc in
        let none_named : text_eq w [] ≡ true = rw empty (text_eq_refl []) in
        absurd (cc (sym named ∙ none_named))
    | inr stops ↦ stops
  ]
