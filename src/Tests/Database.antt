-- ===== src/Tests/Database.antt =====
-- The tables on concrete rows, with an insertion sort for the order of Postgres.
use mathlib.Core.List.{Perm}
use mathlib.Core.List.Perm
use proof_relay.Base.{
  slice_to, ◌≢◌, ℕ, ◌≡◌, refl, true, some, List, [], ◌∷◌, ltb, if◌then◌else◌, arith, Bool-cases,
  inl, inr,
}
use proof_relay.Text.Base64.{base64, marshal_bytes}
use proof_relay.Text.{Text, codes, text_eq}
use proof_relay.Text.Decimal.{ℤ, pos, negsuc, parse_ℤ, show_ℤ, show_ℕ}
use proof_relay.Beacon.{answer}
use proof_relay.Database.{
  BuilderBlockDatabase, ValidatorDeliveredHeaderDatabase, ValidatorReturnedBlockDatabase,
  ValidatorDeliveredPayloadDatabase, BuilderInterface, cut, Database, done, Postgres,
}
use proof_relay.Database.Write.{
  put_builder_block_submission, put_validator_delivered_header, put_validator_returned_block,
  put_builders,
}
use proof_relay.Database.Read.{
  get_builder_blocks_reporter, get_validator_delivered_header_reporter,
  get_validator_returned_blocks_reporter,
}
use proof_relay.Database.Keys.{IsWellFormed}
use proof_relay.Database.Keys.Reach.{
  empty, empty-IsWellFormed, Reach, here, next, submission, delivered_header, builders,
  Reach-IsWellFormed,
}
use proof_relay.Database.Shown.{IsAscending, PostgresLaws, submission_shown}
use proof_relay.Database.Shown.Proposer.{header_shown, returned_shown}

module _ {R : Type 0} (slot_of : R → ℕ) where
  abbrev pub insert_by_slot : R → List R → List R
  insert_by_slot r [] = r ∷ []
  insert_by_slot r (s ∷ l) =
      let rest = insert_by_slot r l in if ltb (slot_of s) (slot_of r) then s ∷ rest else r ∷ s ∷ l

  abbrev pub sort_by_slot : List R → List R
  sort_by_slot [] = []
  sort_by_slot (r ∷ l) = insert_by_slot r (sort_by_slot l)

  insert_by_slot-perm : (r : R) (l : List R) → Perm (insert_by_slot r l) (r ∷ l)
  insert_by_slot-perm r [] = Perm.rfl
  insert_by_slot-perm r (s ∷ l) = elim (Bool-cases (ltb (slot_of s) (slot_of r))) [
    | inl later ↦ rw later (Perm.trans (Perm.cons s (insert_by_slot-perm r l)) (Perm.swap r s l))
    | inr first ↦ rw first Perm.rfl
  ]

  sort_by_slot-perm : (l : List R) → Perm (sort_by_slot l) l
  sort_by_slot-perm [] = Perm.rfl
  sort_by_slot-perm (r ∷ l) =
      Perm.trans (insert_by_slot-perm r (sort_by_slot l)) (Perm.cons r (sort_by_slot-perm l))

  insert_by_slot-IsAscending :
      (r : R) (l : List R) → IsAscending slot_of l → IsAscending slot_of (insert_by_slot r l)
  insert_by_slot-IsAscending r [] h = tt
  insert_by_slot-IsAscending r (s ∷ []) h = ground arith
  insert_by_slot-IsAscending r (s ∷ t ∷ l) h =
      ground (arith, insert_by_slot-IsAscending r (t ∷ l) h.1)

  sort_by_slot-IsAscending : (l : List R) → IsAscending slot_of (sort_by_slot l)
  sort_by_slot-IsAscending [] = tt
  sort_by_slot-IsAscending (r ∷ l) =
      insert_by_slot-IsAscending r (sort_by_slot l) (sort_by_slot-IsAscending l)

abbrev pub postgres : Postgres
postgres = record { by_slot = λ f l. sort_by_slot f l; integer = parse_ℤ }

pub postgres_laws : PostgresLaws postgres
postgres_laws = record {
  by_slot_perm = λ f l. sort_by_slot-perm f l;
  by_slot_ascending = λ f l. sort_by_slot-IsAscending f l;
}

abbrev text_32 : Text
text_32 = codes "0123456789abcdef0123456789abcdef"

abbrev row : ℕ → ℤ → BuilderBlockDatabase
row slot value = record {
  slot = slot;
  builder_pubkey = codes "0xa1";
  builder_signature = codes "0x51";
  builder_bid_hash = codes "0xbb";
  rpbs = [];
  rpbs_public_key = [];
  transaction_byte = [];
  bid_value = value;
}

abbrev pub nothing_stored : Database
nothing_stored = record { tables = empty; outcomes = [] }

abbrev one_stored : Database
one_stored = (put_builder_block_submission text_32 (row 9 (pos 5)) nothing_stored).1

abbrev other_id : Text
other_id = codes "ffffffffffffffffffffffffffffffff"

second_put : (put_builder_block_submission other_id (row 7 (negsuc 2)) one_stored).0 ≡ done
unfolding put_builder_block_submission text_eq show_ℤ show_ℕ
second_put = refl

-- A second submission with the same id is refused, and a connection that breaks cuts an answer short.
same_id : (put_builder_block_submission text_32 (row 7 (pos 3)) one_stored).0 ≢ done
unfolding put_builder_block_submission text_eq show_ℤ show_ℕ
same_id h = cc

cut_short :
    (get_builder_blocks_reporter postgres 0 9 (record one_stored { outcomes = cut 0 ∷ [] })).0
    ≡ answer []
unfolding get_builder_blocks_reporter put_builder_block_submission show_ℤ show_ℕ
cut_short = refl

submission_shown_run :
    (before : List BuilderBlockDatabase) × (after : List BuilderBlockDatabase)
    × ((get_builder_blocks_reporter postgres 5 9 (record one_stored { outcomes = [] })).0
        ≡ answer before)
    × ((get_builder_blocks_reporter postgres 5 9
          (put_builder_block_submission other_id (row 7 (negsuc 2)) one_stored).1).0
        ≡ answer after)
    × Perm after (row 7 (negsuc 2) ∷ before)
    × IsAscending (λ b. b.slot) after
unfolding put_builder_block_submission text_eq show_ℤ show_ℕ
submission_shown_run =
    submission_shown postgres postgres_laws other_id (row 7 (negsuc 2)) 5 9 one_stored second_put tt
      (omega arith) (omega arith) (omega arith)

abbrev header : ValidatorDeliveredHeaderDatabase
header = record {
  slot = 7;
  block_hash = codes "0xbb";
  proposer_pubkey = codes "0xcc";
  bid_value = 9;
}

header_run :
    (before : List ValidatorDeliveredHeaderDatabase) × (after : List
      ValidatorDeliveredHeaderDatabase)
    × ((get_validator_delivered_header_reporter postgres 5 9
          (record nothing_stored { outcomes = [] })).0
        ≡ answer before)
    × ((get_validator_delivered_header_reporter postgres 5 9
          (put_validator_delivered_header header nothing_stored).1).0
        ≡ answer after)
    × Perm after (header ∷ before)
    × IsAscending (λ r. r.slot) after
unfolding put_validator_delivered_header
header_run =
    header_shown postgres postgres_laws 5 9 nothing_stored header refl tt (omega arith)
      (omega arith) (omega arith)

abbrev returned : ValidatorReturnedBlockDatabase
returned = record {
  signature = codes "0x0123456789abcdef0123456789abcdef0123456789abcdef0123456789abcdef";
  slot = 7;
  block_hash = codes "0xbb";
  proposer_pubkey = codes "0xcc";
}

returned_shown_example :
    (signature : Text) × (before : List ValidatorReturnedBlockDatabase) × (after : List
      ValidatorReturnedBlockDatabase)
    × (slice_to 48 returned.signature ≡ some signature)
    × ((get_validator_returned_blocks_reporter postgres 5 9
          (record nothing_stored { outcomes = [] })).0
        ≡ answer before)
    × ((get_validator_returned_blocks_reporter postgres 5 9
          (put_validator_returned_block returned nothing_stored).1).0
        ≡ answer after)
    × Perm after (record returned { signature = signature } ∷ before)
    × IsAscending (λ r. r.slot) after
unfolding put_validator_returned_block
returned_shown_example =
    returned_shown postgres postgres_laws 5 9 nothing_stored returned refl tt (omega arith)
      (omega arith) (omega arith)

abbrev delivered : ValidatorDeliveredPayloadDatabase
delivered = record {
  slot = 7;
  proposer_pubkey = codes "0xcc";
  block_hash = codes "0xbb";
  payload = codes "{}";
}

abbrev builder : BuilderInterface
builder = record { builder_pubkey = codes "0xa1"; balance_staked = codes "32"; status = true }

abbrev three_calls : Database
three_calls =
    (put_builders (builder ∷ builder ∷ [])
      (put_validator_delivered_header header
        (put_builder_block_submission text_32 (row 9 (pos 5)) nothing_stored).1).1).1

calls : Reach postgres nothing_stored three_calls
calls =
    next
      (next (next here (submission text_32 (row 9 (pos 5)) nothing_stored))
        (delivered_header header one_stored))
      (builders (builder ∷ builder ∷ []) (put_validator_delivered_header header one_stored).1)

Reach-IsWellFormed_example : IsWellFormed three_calls.tables
Reach-IsWellFormed_example = Reach-IsWellFormed postgres empty-IsWellFormed calls

-- Test vectors of RFC 4648.
three_bytes : base64 (codes "foo") ≡ codes "Zm9v"
unfolding base64
three_bytes = refl

four_bytes : base64 (codes "foob") ≡ codes "Zm9vYg=="
unfolding base64
four_bytes = refl

five_bytes : base64 (codes "fooba") ≡ codes "Zm9vYmE="
unfolding base64
five_bytes = refl

marshalled : marshal_bytes (codes "{}") ≡ codes "\"e30=\""
unfolding marshal_bytes
marshalled = refl
