-- ===== src/Relay/Checked.antt =====
-- What a bid has passed when `handleSubmitBlock` lets it near the board.
use proof_relay.Base.{
  ℕ, ◌≡◌, refl, true, false, ◌&&◌, arith, inl, inr, ◌⊎◌, ok, err, nil_reply, failed, ◌==◌, ==_iff,
  Result-cases, Bool-cases,
}
use proof_relay.Text.{Text, codes, text_eq, text_eq→eq}
use proof_relay.Beacon.{answer}
use proof_relay.Beacon.FirstAnswer.{Reply-cases}
use proof_relay.Registry.{builder_status}
use proof_relay.Rpbs.Decode.{decoded}
use proof_relay.Database.{BuilderBlockDatabase}
use proof_relay.Bids.{Board, get_payload_delivered}
use proof_relay.Relay.{BaseHeader, Outside, RelayState, or_refuse, block_slot_timestamp}
use proof_relay.Relay.Steps.{
  Stops, Checks, Checks-bind, Checks-or_refuse, Checks-require, Checks-or_panic,
}
use proof_relay.Relay.Bid.{sanity_builder_block}
use proof_relay.Relay.Submit.{
  Block, check_base_header, check_status, check_timestamp, check_not_delivered, is_open_slot,
  check_slot, check_sanity, check_rpbs, rpbs_verify, bad, broken, check_signer, db_block,
  submit_checks, handle_submit_block,
}

-- What the relay has checked of a bid, in the state in which the request came in.
pub record Admissible (B : Board) (E : Outside B) (b : Block B E) (s : RelayState E) : Type 0 where
  pub base : BaseHeader
  pub base_header : E.to_base_header b.execution_payload_header ≡ answer base
  pub active : builder_status B.redis b.builder_wallet_address s.board.store ≡ ok true
  pub on_time : base.timestamp ≡ block_slot_timestamp E b.slot
  pub not_delivered : get_payload_delivered B b.slot s.board ≡ err nil_reply
  pub open_slot : is_open_slot B E s.current_slot b.slot ≡ true
  pub same_block : b.block_hash ≡ base.block_hash
  pub same_parent : b.parent_hash ≡ base.parent_hash
  pub rpbs_verified : rpbs_verify B E b ≡ decoded true
  pub root : Text
  pub signed_root : E.hash_tree_root b ≡ answer root
  pub pubkey : Text
  pub recovered : E.ecrecover root b.ecdsa_signature ≡ answer pubkey
  pub key : E.PublicKey
  pub key_of : E.unmarshal_pubkey pubkey ≡ answer key
  pub wallet :
      text_eq (E.to_lower (E.pubkey_to_address key)) (E.to_lower b.builder_wallet_address) ≡ true

module _ {B : Board} {E : Outside B} (b : Block B E) (s : RelayState E) where
  pub Checks-status :
      Checks
        (λ _. builder_status B.redis b.builder_wallet_address s.board.store ≡ ok true)
        (check_status B E b)
        s
  unfolding check_status
  Checks-status =
      elim (Result-cases (builder_status B.redis b.builder_wallet_address s.board.store)) [
        | inl (true, e) ↦ inl (tt, rw (e, check_status) refl, e)
        | inl (false, e) ↦ inr (rw (e, check_status) (refl, refl, refl))
        | inr (_, e) ↦ inr (rw (e, check_status) (refl, refl, refl))
      ]

  pub Checks-timestamp :
      (base : BaseHeader)
      → Checks
          (λ _. (base.timestamp == block_slot_timestamp E b.slot) ≡ true)
          (check_timestamp B E b base)
          s
  unfolding check_timestamp
  Checks-timestamp base = Checks-require (base.timestamp == block_slot_timestamp E b.slot) _ s

  pub Checks-slot : Checks (λ _. is_open_slot B E s.current_slot b.slot ≡ true) (check_slot B E b) s
  unfolding check_slot
  Checks-slot = Checks-require (is_open_slot B E s.current_slot b.slot) _ s

  pub Checks-not_delivered :
      Checks
        (λ _. get_payload_delivered B b.slot s.board ≡ err nil_reply)
        (check_not_delivered B E b)
        s
  unfolding check_not_delivered
  Checks-not_delivered = elim (Result-cases (get_payload_delivered B b.slot s.board)) [
    | inl (t, e) ↦ inr (rw (e, check_not_delivered) (refl, refl, refl))
    | inr (nil_reply, e) ↦ inl (tt, rw (e, check_not_delivered) refl, e)
    | inr (failed, e) ↦ inr (rw (e, check_not_delivered) (refl, refl, refl))
  ]

  pub Checks-sanity :
      (base : BaseHeader)
      → E.to_base_header b.execution_payload_header ≡ answer base
      → Checks
          (λ _. (b.block_hash ≡ base.block_hash) × (b.parent_hash ≡ base.parent_hash))
          (check_sanity B E b)
          s
  unfolding check_sanity sanity_builder_block
  Checks-sanity base e =
      elim (Bool-cases
        (text_eq b.block_hash base.block_hash && text_eq b.parent_hash base.parent_hash)) [
          | inl same ↦
              let both : (text_eq b.block_hash base.block_hash ≡ true)
                  × (text_eq b.parent_hash base.parent_hash ≡ true) =
                ground arith in
              rw (e, check_sanity, sanity_builder_block)
                (rw same (inl (tt, refl, (text_eq→eq _ _ both.0, text_eq→eq _ _ both.1))))
          | inr other ↦
              rw (e, check_sanity, sanity_builder_block) (rw other (inr (refl, refl, refl)))
        ]

  pub Checks-rpbs : Checks (λ _. rpbs_verify B E b ≡ decoded true) (check_rpbs B E b) s
  unfolding check_rpbs
  Checks-rpbs =
      Checks-or_panic (rpbs_verify B E b) (λ _. broken B E (codes "RPBS Verify Error"))
        (bad B E (codes "RPBS Verify Failed")) s

  abbrev pub Signed : Text × E.PublicKey → Type 0
  Signed (root, key) =
      (pubkey : Text) × (E.hash_tree_root b ≡ answer root)
      × (E.ecrecover root b.ecdsa_signature ≡ answer pubkey)
      × (E.unmarshal_pubkey pubkey ≡ answer key)
      × (text_eq (E.to_lower (E.pubkey_to_address key)) (E.to_lower b.builder_wallet_address)
          ≡ true)

  pub Checks-signer : Checks Signed (check_signer B E b) s
  unfolding check_signer
  Checks-signer = elim (Reply-cases (E.hash_tree_root b)) [
    | inr (_, e) ↦ inr (rw (e, check_signer) (refl, refl, refl))
    | inl (root, e) ↦ elim (Reply-cases (E.ecrecover root b.ecdsa_signature)) [
      | inr (_, f) ↦ inr (rw (e, f, check_signer) (refl, refl, refl))
      | inl (pubkey, f) ↦ elim (Reply-cases (E.unmarshal_pubkey pubkey)) [
        | inr (_, g) ↦ inr (rw (e, f, g, check_signer) (refl, refl, refl))
        | inl (key, g) ↦
            elim (Bool-cases (
              text_eq (E.to_lower (E.pubkey_to_address key))
                (E.to_lower b.builder_wallet_address))) [
                  | inl same ↦
                      inl (
                        (root, key),
                        rw (e, f, g, same, check_signer) refl,
                        (pubkey, e, f, g, same),
                      )
                  | inr other ↦ inr (rw (e, f, g, other, check_signer) (refl, refl, refl))
                ]
      ]
    ]
  ]

  -- The row that is due for the database has what the bid has.
  abbrev pub Records : BuilderBlockDatabase → Type 0
  Records d =
      (d.slot ≡ b.slot)
      × (d.builder_pubkey ≡ b.builder_wallet_address)
      × (d.builder_signature ≡ b.ecdsa_signature)
      × (d.bid_value ≡ b.value)

  -- Everything that is checked before the first write.
  pub Checks-submit_checks :
      Checks (λ (d : BuilderBlockDatabase). Admissible B E b s × Records d) (submit_checks B E b) s
  unfolding submit_checks
  Checks-submit_checks =
      Checks-bind _ _ (check_base_header B E b) _ s
        (Checks-or_refuse (E.to_base_header b.execution_payload_header) (bad B E) s)
        λ base e. Checks-bind _ _ (check_status B E b) _ s Checks-status λ _ active.
          Checks-bind _ _ (check_timestamp B E b base) _ s (Checks-timestamp base) λ _ on_time.
            Checks-bind _ _ (check_not_delivered B E b) _ s Checks-not_delivered λ _ not_delivered.
              Checks-bind _ _ (check_slot B E b) _ s Checks-slot λ _ open_slot.
                Checks-bind _ _ (check_sanity B E b) _ s (Checks-sanity base e) λ _ same_block.
                  Checks-bind _ _ (check_rpbs B E b) _ s Checks-rpbs λ _ verified.
                    Checks-bind _ _ (check_signer B E b) _ s Checks-signer λ who signer.
                      Checks-bind _ _
                        (or_refuse (E.marshal_rpbs b.rpbs)
                          (λ _. bad B E (codes "Couldn't Get RPBS String")))
                        _ s
                        (Checks-or_refuse (E.marshal_rpbs b.rpbs)
                          (λ _. bad B E (codes "Couldn't Get RPBS String")) s)
                        λ t g. inl (
                          db_block B E b base t,
                          refl,
                          (
                            record {
                              base = base;
                              base_header = e;
                              active = active;
                              on_time =
                                  (==_iff base.timestamp (block_slot_timestamp E b.slot)).0 on_time;
                              not_delivered = not_delivered;
                              open_slot = open_slot;
                              same_block = same_block.0;
                              same_parent = same_block.1;
                              rpbs_verified = verified;
                              root = who.0;
                              key = who.1;
                              pubkey = signer.0;
                              signed_root = signer.1;
                              recovered = signer.2;
                              key_of = signer.3;
                              wallet = signer.4;
                            },
                            (refl, refl, refl, refl),
                          ),
                        )

  refused_first :
      (time : ℕ) → Stops (submit_checks B E b) s → Stops (handle_submit_block B E time (answer b)) s
  unfolding handle_submit_block
  refused_first time (r, same, db) = rw r (refl, same, db)

  -- `handleSubmitBlock` lets a bid near the board and the database only if all its checks hold in
  -- the state in which the request came in: the builder is active, the bid carries the time of its
  -- slot, no payload was delivered for the slot, the slot is the relay's or the next, the hashes are
  -- those of the header, the RPBS proof is verified, and the key that signed the bid is that of the
  -- wallet. Otherwise the handler ends early, with board and database as they were.
  pub submit_checked :
      (time : ℕ)
      → Admissible B E b s
        ⊎ (((handle_submit_block B E time (answer b) s).0 ≡ err failed)
            × ((handle_submit_block B E time (answer b) s).1.board ≡ s.board)
            × ((handle_submit_block B E time (answer b) s).1.db ≡ s.db))
  submit_checked time = elim Checks-submit_checks [
    | inl (_, _, (all, _)) ↦ inl all
    | inr stops ↦ inr (refused_first time stops)
  ]
