-- ===== src/Bids/Keys.antt =====
-- The Redis keys of bids/types.go, and why the keys of two families or two slots never clash.
use proof_relay.Base.{
  ℕ, ◌≡◌, refl, Bool, true, false, [], ◌∷◌, ◌++◌, arith, ◌==◌, ◌&&◌, Bool-cases, inl, inr, All, ◌≢◌,
  sym, ap, zero, suc, drop,
}
use proof_relay.Text.{Text, codes, text_eq, text_eq→eq, text_eq_iff}
use proof_relay.Text.Decimal.{show_ℕ, show_ℕ-is_digit, show_ℕ-injective, is_digit}

-- The families of keys that hold one entry for a slot.
pub data Kind : Type 0 where
  builder_key_bid builder_time_key_bid builder_value_key_bid : Kind
  builder_highest_key_bid bid_key_builder_utils : Kind

abbrev pub kind_name : Kind → Text
kind_name builder_key_bid = codes "builder-bid"
kind_name builder_time_key_bid = codes "builder-bid-time"
kind_name builder_value_key_bid = codes "builder-bid-value"
kind_name builder_highest_key_bid = codes "builder-highest-bid"
kind_name bid_key_builder_utils = codes "builder-bid-utils"

abbrev pub slot_proposer_delivered_key : Text
slot_proposer_delivered_key = codes "slot-proposer-payload-delivered"

abbrev pub slot_bounty_bid_winner_key : Text
slot_bounty_bid_winner_key = codes "slot-bounty-bid-winner"

-- `fmt.Sprintf("%s-%d", kind, slot)`
unfoldable pub slot_key : Kind → ℕ → Text
slot_key k n = kind_name k ++ b'-' ∷ show_ℕ n

-- A numeral does not begin with anything but a digit.
digits_ne : (n c : ℕ) (l : Text) → is_digit c ≡ false → show_ℕ n ≡ c ∷ l → ⊥
digits_ne n c l letter e =
    let all : All (λ d. is_digit d ≡ true) (c ∷ l) = rw e at (show_ℕ-is_digit n) in cc (all.0)

-- Two texts that differ at a place differ.
abbrev byte_at : ℕ → Text → ℕ
byte_at i [] = 0
byte_at zero (x ∷ xs) = x
byte_at (suc i) (x ∷ xs) = byte_at i xs

slot_key-kind : (j k : Kind) (m n : ℕ) → slot_key j m ≡ slot_key k n → j ≡ k
unfolding slot_key
slot_key-kind builder_key_bid builder_key_bid m n e = refl
slot_key-kind builder_key_bid builder_time_key_bid m n e =
    absurd (digits_ne m b't' (drop 13 (slot_key builder_time_key_bid n)) refl (ap (drop 12) e))
slot_key-kind builder_key_bid builder_value_key_bid m n e =
    absurd (digits_ne m b'v' (drop 13 (slot_key builder_value_key_bid n)) refl (ap (drop 12) e))
slot_key-kind builder_key_bid builder_highest_key_bid m n e =
    absurd (omega (arith, ap (byte_at 8) e))
slot_key-kind builder_key_bid bid_key_builder_utils m n e =
    absurd (digits_ne m b'u' (drop 13 (slot_key bid_key_builder_utils n)) refl (ap (drop 12) e))
slot_key-kind builder_time_key_bid builder_key_bid m n e =
    absurd
      (digits_ne n b't' (drop 13 (slot_key builder_time_key_bid m)) refl (ap (drop 12) (sym e)))
slot_key-kind builder_time_key_bid builder_time_key_bid m n e = refl
slot_key-kind builder_time_key_bid builder_value_key_bid m n e =
    absurd (omega (arith, ap (byte_at 12) e))
slot_key-kind builder_time_key_bid builder_highest_key_bid m n e =
    absurd (omega (arith, ap (byte_at 8) e))
slot_key-kind builder_time_key_bid bid_key_builder_utils m n e =
    absurd (omega (arith, ap (byte_at 12) e))
slot_key-kind builder_value_key_bid builder_key_bid m n e =
    absurd
      (digits_ne n b'v' (drop 13 (slot_key builder_value_key_bid m)) refl (ap (drop 12) (sym e)))
slot_key-kind builder_value_key_bid builder_time_key_bid m n e =
    absurd (omega (arith, ap (byte_at 12) e))
slot_key-kind builder_value_key_bid builder_value_key_bid m n e = refl
slot_key-kind builder_value_key_bid builder_highest_key_bid m n e =
    absurd (omega (arith, ap (byte_at 8) e))
slot_key-kind builder_value_key_bid bid_key_builder_utils m n e =
    absurd (omega (arith, ap (byte_at 12) e))
slot_key-kind builder_highest_key_bid builder_key_bid m n e =
    absurd (omega (arith, ap (byte_at 8) e))
slot_key-kind builder_highest_key_bid builder_time_key_bid m n e =
    absurd (omega (arith, ap (byte_at 8) e))
slot_key-kind builder_highest_key_bid builder_value_key_bid m n e =
    absurd (omega (arith, ap (byte_at 8) e))
slot_key-kind builder_highest_key_bid builder_highest_key_bid m n e = refl
slot_key-kind builder_highest_key_bid bid_key_builder_utils m n e =
    absurd (omega (arith, ap (byte_at 8) e))
slot_key-kind bid_key_builder_utils builder_key_bid m n e =
    absurd
      (digits_ne n b'u' (drop 13 (slot_key bid_key_builder_utils m)) refl (ap (drop 12) (sym e)))
slot_key-kind bid_key_builder_utils builder_time_key_bid m n e =
    absurd (omega (arith, ap (byte_at 12) e))
slot_key-kind bid_key_builder_utils builder_value_key_bid m n e =
    absurd (omega (arith, ap (byte_at 12) e))
slot_key-kind bid_key_builder_utils builder_highest_key_bid m n e =
    absurd (omega (arith, ap (byte_at 8) e))
slot_key-kind bid_key_builder_utils bid_key_builder_utils m n e = refl

slot_key-slot : (k : Kind) (m n : ℕ) → slot_key k m ≡ slot_key k n → m ≡ n
unfolding slot_key
slot_key-slot builder_key_bid m n e = show_ℕ-injective m n (ap (drop 12) e)
slot_key-slot builder_time_key_bid m n e = show_ℕ-injective m n (ap (drop 17) e)
slot_key-slot builder_value_key_bid m n e = show_ℕ-injective m n (ap (drop 18) e)
slot_key-slot builder_highest_key_bid m n e = show_ℕ-injective m n (ap (drop 20) e)
slot_key-slot bid_key_builder_utils m n e = show_ℕ-injective m n (ap (drop 18) e)

-- One key belongs to one family and one slot.
pub slot_key-injective : (j k : Kind) (m n : ℕ) → slot_key j m ≡ slot_key k n → (j ≡ k) × (m ≡ n)
slot_key-injective j k m n e =
    let same : j ≡ k = slot_key-kind j k m n e in (same, slot_key-slot k m n (rw same at e))

-- The keys of the families of slots are none of the two fixed keys.
pub slot_key_ne_fixed :
    (k : Kind) (n : ℕ)
    → (slot_key k n ≢ slot_proposer_delivered_key) × (slot_key k n ≢ slot_bounty_bid_winner_key)
unfolding slot_key
slot_key_ne_fixed builder_key_bid n =
    (λ e. omega (arith, ap (byte_at 0) e), λ e. omega (arith, ap (byte_at 0) e))
slot_key_ne_fixed builder_time_key_bid n =
    (λ e. omega (arith, ap (byte_at 0) e), λ e. omega (arith, ap (byte_at 0) e))
slot_key_ne_fixed builder_value_key_bid n =
    (λ e. omega (arith, ap (byte_at 0) e), λ e. omega (arith, ap (byte_at 0) e))
slot_key_ne_fixed builder_highest_key_bid n =
    (λ e. omega (arith, ap (byte_at 0) e), λ e. omega (arith, ap (byte_at 0) e))
slot_key_ne_fixed bid_key_builder_utils n =
    (λ e. omega (arith, ap (byte_at 0) e), λ e. omega (arith, ap (byte_at 0) e))

abbrev pub kind_eq : Kind → Kind → Bool
kind_eq builder_key_bid builder_key_bid = true
kind_eq builder_time_key_bid builder_time_key_bid = true
kind_eq builder_value_key_bid builder_value_key_bid = true
kind_eq builder_highest_key_bid builder_highest_key_bid = true
kind_eq bid_key_builder_utils bid_key_builder_utils = true
kind_eq _ _ = false

kind_eq_refl : (k : Kind) → kind_eq k k ≡ true
kind_eq_refl builder_key_bid = refl
kind_eq_refl _ = refl

kind_eq→eq : (j k : Kind) → kind_eq j k ≡ true → j ≡ k
kind_eq→eq j k h = ground arith

text_eq_of_ne : (a b : Text) → a ≢ b → text_eq a b ≡ false
text_eq_of_ne a b h = ground (arith, text_eq→eq a b)

same_key : (j k : Kind) (m n : ℕ) → kind_eq j k && (m == n) ≡ true → slot_key j m ≡ slot_key k n
same_key j k m n h =
    let kinds : j ≡ k = kind_eq→eq j k (ground arith) in let slots : m ≡ n = ground arith in cc

other_key : (j k : Kind) (m n : ℕ) → kind_eq j k && (m == n) ≡ false → slot_key j m ≢ slot_key k n
other_key j k m n h e =
    let (kinds, slots) = slot_key-injective j k m n e in
    ground (arith, kind_eq_refl k, kinds, slots)

-- Keys are compared family by family and slot by slot.
pub text_eq-slot_key :
    (j k : Kind) (m n : ℕ) → text_eq (slot_key j m) (slot_key k n) ≡ kind_eq j k && (m == n)
text_eq-slot_key j k m n = elim (Bool-cases (kind_eq j k && (m == n))) [
  | inl same ↦ rw same ((text_eq_iff _ _).1 (same_key j k m n same))
  | inr other ↦ rw other (text_eq_of_ne _ _ (other_key j k m n other))
]

pub text_eq-fixed_key :
    (k : Kind) (n : ℕ)
    → (text_eq slot_proposer_delivered_key (slot_key k n) ≡ false)
      × (text_eq slot_bounty_bid_winner_key (slot_key k n) ≡ false)
text_eq-fixed_key k n = (
  text_eq_of_ne _ _ (λ e. (slot_key_ne_fixed k n).0 (sym e)),
  text_eq_of_ne _ _ (λ e. (slot_key_ne_fixed k n).1 (sym e)),
)
