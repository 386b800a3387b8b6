-- ===== src/Bulletin/Messages.antt =====
-- What a reader of the bulletin board learns from the messages of HighestBidPublish
-- (bulletinboard/highestBid.go).
use proof_relay.Base.{ℕ, ◌≡◌, ◌≢◌, refl, [], ◌∷◌, ◌++◌, All, arith, true}
use proof_relay.Text.{Text, codes}
use proof_relay.Text.Decimal.{show_ℕ, show_ℕ-is_digit, show_ℕ-injective, is_digit}
use proof_relay.Bids.{RelayHighestBid}
use proof_relay.Bulletin.{highest_bid_message}

-- No character is the given one.
abbrev pub Without : ℕ → Text → Type 0
Without c = All (λ d. d ≢ c)

-- The text in front of the first separator is found again.
split_first :
    (c : ℕ) (xs us ys vs : Text)
    → Without c xs
    → Without c us
    → xs ++ c ∷ ys ≡ us ++ c ∷ vs
    → (xs ≡ us) × (ys ≡ vs)
split_first c [] [] ys vs _ _ e = (refl, cc e)
split_first c [] (u ∷ us) ys vs _ (h, _) e = absurd (h (cc e))
split_first c (x ∷ xs) [] ys vs (h, _) _ e = absurd (h (cc e))
split_first c (x ∷ xs) (u ∷ us) ys vs (_, h) (_, k) e =
    let head : x ≡ u = cc e in
    let tail : xs ++ c ∷ ys ≡ us ++ c ∷ vs = cc e in
    let (same, rest) = split_first c xs us ys vs h k tail in (cc (head, same), rest)

abbrev pub comma : ℕ
comma = 44

digit_not_comma : (c : ℕ) → is_digit c ≡ true → c ≢ comma
digit_not_comma c h e = ground (arith, h, e)

digits-Without : (t : Text) → All (λ c. is_digit c ≡ true) t → Without comma t
digits-Without [] h = tt
digits-Without (c ∷ t) (h, rest) = (digit_not_comma c h, digits-Without t rest)

number-Without : (n : ℕ) → Without comma (show_ℕ n)
number-Without n = digits-Without (show_ℕ n) (show_ℕ-is_digit n)

prefix_cancel : (p xs ys : Text) → p ++ xs ≡ p ++ ys → xs ≡ ys
prefix_cancel [] xs ys e = e
prefix_cancel (c ∷ p) xs ys e = prefix_cancel p xs ys (cc e)

-- What follows the slot, and what follows the builder, behind their commas.
abbrev after_slot : RelayHighestBid → Text
after_slot b = codes " builder: " ++ (b.builder_public_key ++ (codes ", amount: " ++ b.amount))

abbrev after_builder : RelayHighestBid → Text
after_builder b = codes " amount: " ++ b.amount

-- The message of a highest bid tells its slot, its builder and its amount: two bids whose builders' keys
-- have no comma and whose messages are the same are the same bid.
pub highest_bid_message-injective :
    (a b : RelayHighestBid)
    → Without comma a.builder_public_key
    → Without comma b.builder_public_key
    → highest_bid_message a ≡ highest_bid_message b
    → a ≡ b
unfolding highest_bid_message
highest_bid_message-injective a b ha hb e =
    let (same_slot, rest) =
      split_first comma (show_ℕ a.slot) (show_ℕ b.slot) (after_slot a) (after_slot b)
        (number-Without a.slot) (number-Without b.slot) (prefix_cancel (codes "slot: ") _ _ e) in
    let (same_builder, last) =
      split_first comma a.builder_public_key b.builder_public_key (after_builder a)
        (after_builder b) ha hb (prefix_cancel (codes " builder: ") _ _ rest) in
    let slots : a.slot ≡ b.slot = show_ℕ-injective a.slot b.slot same_slot in
    let amounts : a.amount ≡ b.amount = prefix_cancel (codes " amount: ") a.amount b.amount last in
    λ i. record { slot = slots i; builder_public_key = same_builder i; amount = amounts i }
