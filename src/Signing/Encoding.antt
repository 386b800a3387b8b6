-- ===== src/Signing/Encoding.antt =====
-- The SSZ encoding of `SigningData` and `ForkData` and its decoding undo each other.
use proof_relay.Base.{
  ℕ, zero, suc, ◌+◌, ◌≤◌, ◌≡◌, ◌↔◌, refl, ap, sym, ◌∙◌, [], ◌∷◌, ◌++◌, length, take, drop,
  length-take, length-drop, length-append, arith, Bool-cases, true, inl, inr, ==_iff, ◌==◌,
}
use mathlib.Core.Path.{subst}
use proof_relay.Text.{Text, codes}
use proof_relay.Beacon.{answer, failure}
use proof_relay.Signing.{
  SigningData, ForkData, marshal_signing_data_to, unmarshal_signing_data, marshal_fork_data_to,
  unmarshal_fork_data,
}

pub take-append : (n : ℕ) (xs ys : Text) → length xs ≡ n → take n (xs ++ ys) ≡ xs
take-append zero [] ys e = refl
take-append zero (x ∷ xs) ys e = absurd (omega (arith, e))
take-append (suc n) [] ys e = absurd (omega (arith, e))
take-append (suc n) (x ∷ xs) ys e = ap (λ t. x ∷ t) (take-append n xs ys (omega (arith, e)))

drop-append : (n : ℕ) (xs ys : Text) → length xs ≡ n → drop n (xs ++ ys) ≡ ys
drop-append zero [] ys e = refl
drop-append zero (x ∷ xs) ys e = absurd (omega (arith, e))
drop-append (suc n) [] ys e = absurd (omega (arith, e))
drop-append (suc n) (x ∷ xs) ys e = drop-append n xs ys (omega (arith, e))

pub take_all : (n : ℕ) (xs : Text) → length xs ≤ n → take n xs ≡ xs
take_all zero [] h = refl
take_all zero (x ∷ xs) h = absurd (omega (arith, h))
take_all (suc n) [] h = refl
take_all (suc n) (x ∷ xs) h = ap (λ t. x ∷ t) (take_all n xs (omega (arith, h)))

take-drop : (n : ℕ) (xs : Text) → take n xs ++ drop n xs ≡ xs
take-drop zero xs = refl
take-drop (suc n) [] = refl
take-drop (suc n) (x ∷ xs) = ap (λ t. x ∷ t) (take-drop n xs)

-- An input of as many bytes as both parts splits into them.
parts :
    (m n : ℕ) (buf : Text)
    → length buf ≡ m + n
    → ((take m buf ++ take n (drop m buf)) ≡ buf)
      × (length (take m buf) ≡ m)
      × (length (take n (drop m buf)) ≡ n)
parts m n buf size =
    let rest : length (drop m buf) ≡ n = length-drop m buf ∙ omega (arith, size) in
    (
      ap (λ t. take m buf ++ t) (take_all n (drop m buf) (omega (arith, rest))) ∙ take-drop m buf,
      length-take m buf ∙ omega (arith, size),
      length-take n (drop m buf) ∙ omega (arith, rest),
    )

-- Two parts are found again in the text that they make.
found :
    (m n : ℕ) (xs ys buf : Text)
    → length xs ≡ m
    → length ys ≡ n
    → xs ++ ys ≡ buf
    → (take m buf ≡ xs) × (take n (drop m buf) ≡ ys)
found m n xs ys buf first second e = (
  ap (take m) (sym e) ∙ take-append m xs ys first,
  ap (λ t. take n (drop m t)) (sym e)
      ∙ ap (take n) (drop-append m xs ys first)
      ∙ take_all n ys (omega (arith, second)),
)

abbrev signing_data_read : Text → SigningData
signing_data_read buf = record { root = take 32 buf; domain = take 32 (drop 32 buf) }

-- `SigningData.UnmarshalSSZ` gives a value exactly if the input is what `MarshalSSZTo` makes of it from
-- an empty buffer, and its root and its domain have 32 bytes each.
pub unmarshal_signing_data_lem :
    (buf : Text) (s : SigningData)
    → (unmarshal_signing_data buf ≡ answer s)
      ↔ ((marshal_signing_data_to [] s ≡ buf) × (length s.root ≡ 32) × (length s.domain ≡ 32))
unfolding unmarshal_signing_data marshal_signing_data_to
unmarshal_signing_data_lem buf s = (decoded, encoded)
  where
    decoded :
        unmarshal_signing_data buf ≡ answer s
        → (marshal_signing_data_to [] s ≡ buf) × (length s.root ≡ 32) × (length s.domain ≡ 32)
    decoded e = elim (Bool-cases (length buf == 64)) [
      | inr wrong ↦
          let shown : unmarshal_signing_data buf ≡ failure (codes "incorrect size") =
            rw wrong refl in
          absurd (cc (e, shown))
      | inl right ↦
          let size : length buf ≡ 64 = (==_iff (length buf) 64).0 right in
          let shown : unmarshal_signing_data buf ≡ answer (signing_data_read buf) = rw right refl in
          let same : signing_data_read buf ≡ s = cc (e, shown) in
          subst (λ r. ((r.root ++ r.domain) ≡ buf) × (length r.root ≡ 32) × (length r.domain ≡ 32))
            same (parts 32 32 buf size)
    ]

    encoded :
        (marshal_signing_data_to [] s ≡ buf) × (length s.root ≡ 32) × (length s.domain ≡ 32)
        → unmarshal_signing_data buf ≡ answer s
    encoded (e, first, second) =
        let size : length buf ≡ 64 =
          sym (ap length e) ∙ length-append s.root s.domain ∙ omega (arith, first, second) in
        let right : (length buf == 64) ≡ true = (==_iff (length buf) 64).1 size in
        let whole : s.root ++ s.domain ≡ buf = e in
        let shown : unmarshal_signing_data buf ≡ answer (signing_data_read buf) = rw right refl in
        let (x, y) = found 32 32 s.root s.domain buf first second whole in
        shown ∙ ap answer (λ i. record { root = x i; domain = y i })

abbrev fork_data_read : Text → ForkData
fork_data_read buf = record {
  current_version = take 4 buf;
  genesis_validators_root = take 32 (drop 4 buf);
}

-- `ForkData.UnmarshalSSZ` gives a value exactly if the input is what `MarshalSSZTo` makes of it from an
-- empty buffer, and its version has 4 bytes and its root 32.
pub unmarshal_fork_data_lem :
    (buf : Text) (s : ForkData)
    → (unmarshal_fork_data buf ≡ answer s) ↔ (
        (marshal_fork_data_to [] s ≡ buf)
        × (length s.current_version ≡ 4)
        × (length s.genesis_validators_root ≡ 32))
unfolding unmarshal_fork_data marshal_fork_data_to
unmarshal_fork_data_lem buf s = (decoded, encoded)
  where
    decoded :
        unmarshal_fork_data buf ≡ answer s
        → (marshal_fork_data_to [] s ≡ buf)
          × (length s.current_version ≡ 4)
          × (length s.genesis_validators_root ≡ 32)
    decoded e = elim (Bool-cases (length buf == 36)) [
      | inr wrong ↦
          let shown : unmarshal_fork_data buf ≡ failure (codes "incorrect size") = rw wrong refl in
          absurd (cc (e, shown))
      | inl right ↦
          let size : length buf ≡ 36 = (==_iff (length buf) 36).0 right in
          let shown : unmarshal_fork_data buf ≡ answer (fork_data_read buf) = rw right refl in
          let same : fork_data_read buf ≡ s = cc (e, shown) in
          subst
            (λ r.
              ((r.current_version ++ r.genesis_validators_root) ≡ buf)
              × (length r.current_version ≡ 4)
              × (length r.genesis_validators_root ≡ 32))
            same (parts 4 32 buf size)
    ]

    encoded :
        (marshal_fork_data_to [] s ≡ buf)
          × (length s.current_version ≡ 4)
          × (length s.genesis_validators_root ≡ 32)
        → unmarshal_fork_data buf ≡ answer s
    encoded (e, first, second) =
        let size : length buf ≡ 36 =
          sym (ap length e)
          ∙ length-append s.current_version s.genesis_validators_root
          ∙ omega (arith, first, second) in
        let right : (length buf == 36) ≡ true = (==_iff (length buf) 36).1 size in
        let whole : s.current_version ++ s.genesis_validators_root ≡ buf = e in
        let shown : unmarshal_fork_data buf ≡ answer (fork_data_read buf) = rw right refl in
        let (x, y) =
          found 4 32 s.current_version s.genesis_validators_root buf first second whole in
        shown ∙ ap answer (λ i. record { current_version = x i; genesis_validators_root = y i })
