-- ===== src/Rpbs/Signature/Honest.antt =====
-- A signature that follows the protocol is accepted.
use native.Mathlib.Nat.{div-add-mod', mod-lt, mod_self, mod-eq_of_lt, suc-mul}
use proof_relay.Base.{
  ℕ, ◌+◌, ◌-◌, ◌*◌, ◌/◌, ◌%◌, ◌<◌, ◌≡◌, true, ap, sym, ◌∙◌, arith, suc, Bool-cases, inl, inr,
  ==_refl, ◌==◌,
}
use proof_relay.Text.{Text}
use proof_relay.Rpbs.Point.{bytes_to_point, point}
use proof_relay.Text.Decimal.{ℤ, pos}
use proof_relay.Rpbs.Signature.{
  Curve, CurveLaws, Signature, residue, negate_big_int, combine, challenge, verify_signature,
  answer, with_point,
}

module _ (C : Curve) (laws : CurveLaws C) where
  open C use {Point, add, scalar_multiplication, order}

  abbrev times : ℕ → Point → Point
  times a p = scalar_multiplication p (pos a)

  -- A number and its negation add up to a multiple of the order.
  negated : (c : ℕ) → (k : ℕ) × (c + (order - c % order) % order ≡ k * order)
  negated c =
      let split = div-add-mod' c order in
      let below = mod-lt c {m = order} laws.order_positive in
      elim (Bool-cases (c % order == 0)) [
        | inl none_left ↦
            let zero_left : c % order ≡ 0 = ground arith in
            let whole : (order - c % order) % order ≡ 0 =
              (let all : order - c % order ≡ order = omega (arith, zero_left) in
                ap (λ r. r % order) all)
              ∙ mod_self order in
            (c / order, omega (arith, split, zero_left, whole))
        | inr some_left ↦
            let positive : 0 < c % order = ground arith in
            let small : order - c % order < order = omega (arith, positive, below) in
            let same = mod-eq_of_lt small in
            (suc (c / order), omega (arith, split, same, below, suc-mul (c / order) order))
      ]

  -- What the nonce contributes is all that is left of an honest answer.
  cancels : (w c x : ℕ) (p : Point) → combine C p (pos (w + c * x)) (times x p) (pos c) ≡ times w p
  unfolding combine negate_big_int
  cancels w c x p =
      let n = (order - c % order) % order in
      let (k, multiple) = negated c in
      let gone : add (times c (times x p)) (times n (times x p)) ≡ C.identity =
        sym (laws.scalar_add (times x p) c n)
        ∙ (ap (λ m. times m (times x p)) multiple ∙ laws.scalar_order (times x p) k) in
      ap (λ t. add t (times n (times x p))) (laws.scalar_add p w (c * x))
      ∙ (laws.add_assoc (times w p) (times (c * x) p) (times n (times x p))
          ∙ (ap (λ t. add (times w p) (add t (times n (times x p)))) (laws.scalar_mul p c x)
              ∙ (ap (add (times w p)) gone ∙ laws.add_identity (times w p))))

  -- The signature of a signer with the key `x` and the nonce `w` on the message `m`, for a second
  -- challenge and answer `c2` and `s2` that are chosen freely.
  abbrev pub honest : ℕ → ℕ → Point → ℕ → ℤ → ℤ → Signature C
  honest x w m c1 c2 s2 = record {
    z1_hat = times x m;
    c1_hat = pos c1;
    s1_hat = pos (w + c1 * x);
    c2_hat = c2;
    s2_hat = s2;
    m1_hat = m;
  }

  -- `VerifySignature` accepts the signature of a signer that follows the protocol: the key is the
  -- generator times `x`, the tag is the message times `x`, the answer is the nonce plus the challenge
  -- times `x`, and the two challenges multiply to the hash of the nonce's points and the rest. The
  -- hash of the information gives a point with the coordinates `a` and `b`.
  pub verify_signature-honest :
      (x w : ℕ) (m : Point) (c1 : ℕ) (c2 s2 : ℤ) (info : Text) (fuel : ℕ) (a b : C.field.Element)
      → bytes_to_point C.field C.squares fuel (C.sha_256 info) ≡ point a b
      → (residue C (pos c1) * residue C c2) % order
        ≡ challenge C
            (times x C.generator)
            (C.affine a b)
            m
            (times x m)
            (times w C.generator)
            (times w m)
            (combine C C.generator s2 (C.affine a b) c2)
      → verify_signature C fuel (times x C.generator) info (honest x w m c1 c2 s2) ≡ answer true
  unfolding verify_signature challenge
  verify_signature-honest x w m c1 c2 s2 info fuel a b found balanced =
      let key = times x C.generator in
      let y2 = C.affine a b in
      let whole =
        challenge C key y2 m (times x m) (times w C.generator) (times w m)
          (combine C C.generator s2 y2 c2) in
      ap (with_point C key (honest x w m c1 c2 s2)) found
      ∙ rw (cancels w c1 x C.generator, cancels w c1 x m, balanced) (ap answer (==_refl whole))
