-- ===== src/Map.antt =====
-- Go maps as association lists, for keys with a Boolean equality.
use proof_relay.Base.{
  ℕ, ◌≡◌, refl, ◌↔◌, Bool, true, Option, none, some, List, [], ◌∷◌, arith, ◌==◌ as nat_eq, ==_iff,
  if◌then◌else◌,
}
use proof_relay.Text.{Text, text_eq, text_eq_iff}

pub record Key {ℓ} (K : Type ℓ) : Type ℓ where
  pub same : K → K → Bool
  pub same_iff : (a b : K) → (same a b ≡ true) ↔ (a ≡ b)

instance abbrev pub nat_key : Key ℕ
nat_key = record { same = nat_eq; same_iff = ==_iff }

instance abbrev pub text_key : Key Text
text_key = record { same = text_eq; same_iff = text_eq_iff }

abbrev pub Map {ℓ κ} : Type ℓ → Type κ → Type (ℓ ⊔ κ)
Map K V = List (K × V)

abbrev pub or_else {ℓ} : {V : Type ℓ} → Option V → Option V → Option V
or_else none o = o
or_else (some v) o = some v

module _ {ℓ κ} {K : Type ℓ} {V : Type κ} ⦃key : Key K⦄ where
  -- `v, ok := m[k]`
  unfoldable pub lookup : K → Map K V → Option V
  lookup k [] = none
  lookup k ((j, v) ∷ m) = if key.same j k then some v else lookup k m

  -- `m[k] = v`
  unfoldable pub insert : K → V → Map K V → Map K V
  insert k v [] = (k, v) ∷ []
  insert k v ((j, w) ∷ m) = if key.same j k then (k, v) ∷ m else (j, w) ∷ insert k v m

  -- `for k := range m { if p(k) { delete(m, k) } }`
  unfoldable pub delete_if : (K → Bool) → Map K V → Map K V
  delete_if p [] = []
  delete_if p ((j, w) ∷ m) = let rest = delete_if p m in if p j then rest else (j, w) ∷ rest

  -- `for k, v := range n { m[k] = v }`
  unfoldable pub insert_all : Map K V → Map K V → Map K V
  insert_all [] m = m
  insert_all ((k, v) ∷ n) m = insert_all n (insert k v m)

  lookup-nil : (j : K) → lookup j [] ≡ none
  unfolding lookup
  lookup-nil j = refl

  pub lookup-insert :
      (j k : K) (v : V) (m : Map K V)
      → lookup j (insert k v m) ≡ (if key.same k j then some v else lookup j m)
  unfolding lookup insert
  lookup-insert j k v [] = refl
  lookup-insert j k v ((i, w) ∷ m) =
      ground (arith, key.same_iff k j, key.same_iff i k, key.same_iff i j, lookup-insert j k v m)

  pub lookup-delete_if :
      (j : K) (p : K → Bool) (m : Map K V)
      → lookup j (delete_if p m) ≡ (if p j then none else lookup j m)
  unfolding lookup delete_if
  lookup-delete_if j p [] = ground arith
  lookup-delete_if j p ((i, w) ∷ m) = ground (arith, key.same_iff i j, lookup-delete_if j p m)

  -- Copying a map in: what it has wins, and the rest stays.
  pub lookup-insert_all :
      (j : K) (n m : Map K V)
      → lookup j (insert_all n m) ≡ or_else (lookup j (insert_all n [])) (lookup j m)
  unfolding insert_all
  lookup-insert_all j [] m = unfold lookup in refl
  lookup-insert_all j ((k, v) ∷ n) m = ground (
    arith,
    lookup-insert_all j n (insert k v m),
    lookup-insert_all j n (insert k v []),
    lookup-insert j k v m,
    lookup-insert j k v [],
    lookup-nil j,
  )
