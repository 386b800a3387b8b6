-- ===== src/Registry/Sync.antt =====
-- What Redis says of the builders after the loop of `GetBuilders`.
use proof_relay.Base.{
  ◌≡◌, refl, Bool, true, false, none, some, List, [], ◌∷◌, ◌++◌, arith, Error, Result, ok, err,
  nil_reply, failed, inl, inr, ◌⊎◌, Bool-cases, Result-cases, if◌then◌else◌, ap, sym, ◌∙◌,
}
use proof_relay.Text.{Text, text_eq, text_eq_refl, text_eq_iff}
use proof_relay.Map.{lookup, lookup-insert, text_key}
use proof_relay.Redis.{Redis, RedisLaws}
use proof_relay.Registry.{
  key_builder_status, show_bool, or_false, Synced, set_builder_status, log_error, written_status,
  sync_builders, builder_status, parse_bool, same_bool,
}

module _ (R : Redis) (laws : RedisLaws R) where
  -- What is stored for a builder is the status that was seen last, `false` for one never seen.
  abbrev pub Agrees : Synced Bool R.Store → Text → Type 0
  Agrees m b =
      (R.hash m.store key_builder_status b ≡ none) × (or_false (lookup b m.last) ≡ false)
      ⊎ (R.hash m.store key_builder_status b ≡ some (show_bool (or_false (lookup b m.last))))

  -- The status of the last entry for a builder, or the one from before.
  abbrev pub final_status : Text → List (Text × Bool) → Bool → Bool
  final_status b [] d = d
  final_status b ((c, status) ∷ r) d = final_status b r (if text_eq c b then status else d)

  -- One turn of the loop.
  abbrev pub turn : Text → Bool → Synced Bool R.Store → Synced Bool R.Store
  turn c status m =
      if same_bool status (or_false (lookup c m.last))
      then m
      else written_status R c status (set_builder_status R c status m.store) m

  pub last-turn :
      (b c : Text) (status : Bool) (m : Synced Bool R.Store)
      → or_false (lookup b (turn c status m).last)
        ≡ (if text_eq c b then status else or_false (lookup b m.last))
  last-turn b c status m = ground (arith, lookup-insert b c status m.last, text_eq_iff c b)

  pub last-sync_builders :
      (b : Text) (l : List (Text × Bool)) (m : Synced Bool R.Store)
      → or_false (lookup b (sync_builders R l m).last)
        ≡ final_status b l (or_false (lookup b m.last))
  unfolding sync_builders
  last-sync_builders b [] m = refl
  last-sync_builders b ((c, status) ∷ r) m =
      last-sync_builders b r (turn c status m)
      ∙ ap (λ (d : Bool). final_status b r d) (last-turn b c status m)

  pub append_nil : (xs ys : List Error) → xs ++ ys ≡ [] → (xs ≡ []) × (ys ≡ [])
  append_nil [] ys e = (refl, e)
  append_nil (x ∷ xs) ys e = absurd (cc e)

  pub log_clean : (r : Result (Unit {0})) → log_error R r ≡ [] → r ≡ ok tt
  log_clean (ok tt) e = refl
  log_clean (err x) e = absurd (cc e)

  turn_clean :
      (c : Text) (status : Bool) (m : Synced Bool R.Store)
      → (turn c status m).errors ≡ []
      → m.errors ≡ []
  turn_clean c status m e = elim (Bool-cases (same_bool status (or_false (lookup c m.last)))) [
    | inl same ↦ rw same at e
    | inr new ↦ (append_nil m.errors _ (rw new at e)).0
  ]

  pub errors-sync_builders :
      (l : List (Text × Bool)) (m : Synced Bool R.Store)
      → (sync_builders R l m).errors ≡ []
      → m.errors ≡ []
  unfolding sync_builders
  errors-sync_builders [] m e = e
  errors-sync_builders ((c, status) ∷ r) m e =
      turn_clean c status m (errors-sync_builders r (turn c status m) e)

  -- The write that a turn makes, when it makes one and it does not fail.
  pub stored :
      (b c : Text) (status : Bool) (m : Synced Bool R.Store)
      → (set_builder_status R c status m.store).0 ≡ ok tt
      → R.hash (set_builder_status R c status m.store).1 key_builder_status b
        ≡ (if text_eq c b then some (show_bool status) else R.hash m.store key_builder_status b)
  unfolding set_builder_status
  stored b c status m done =
      laws.hset_hash key_builder_status c (show_bool status) m.store done key_builder_status b
      ∙ rw (text_eq_refl key_builder_status) refl

  Agrees-turn :
      (b c : Text) (status : Bool) (m : Synced Bool R.Store)
      → (turn c status m).errors ≡ []
      → Agrees m b
      → Agrees (turn c status m) b
  Agrees-turn b c status m e h = elim (Bool-cases (same_bool status (or_false (lookup c m.last)))) [
    | inl same ↦ rw same h
    | inr new ↦
        let done : (set_builder_status R c status m.store).0 ≡ ok tt =
          log_clean _ (append_nil m.errors _ (rw new at e)).1 in
        rw new (
          ground
            (arith, stored b c status m done, lookup-insert b c status m.last, text_eq_iff c b))
  ]

  Agrees-sync_builders :
      (b : Text) (l : List (Text × Bool)) (m : Synced Bool R.Store)
      → (sync_builders R l m).errors ≡ []
      → Agrees m b
      → Agrees (sync_builders R l m) b
  unfolding sync_builders
  Agrees-sync_builders b [] m e h = h
  Agrees-sync_builders b ((c, status) ∷ r) m e h =
      Agrees-sync_builders b r (turn c status m) e
        (Agrees-turn b c status m (errors-sync_builders r (turn c status m) e) h)

  pub parse_bool-show_bool : (x : Bool) → parse_bool (show_bool x) ≡ ok x
  unfolding parse_bool
  parse_bool-show_bool true = refl
  parse_bool-show_bool false = refl

  pub parse_bool_empty : parse_bool [] ≡ err failed
  unfolding parse_bool
  parse_bool_empty = refl

  pub status_ok :
      (b t : Text) (s : R.Store)
      → R.hget key_builder_status b s ≡ ok t
      → builder_status R b s ≡ parse_bool t
  unfolding builder_status
  status_ok b t s e = rw (e, builder_status) refl

  pub status_nil :
      (b : Text) (s : R.Store)
      → R.hget key_builder_status b s ≡ err nil_reply
      → builder_status R b s ≡ ok false
  unfolding builder_status
  status_nil b s e = rw (e, builder_status) refl

  pub status_failed :
      (b : Text) (s : R.Store)
      → R.hget key_builder_status b s ≡ err failed
      → builder_status R b s ≡ err failed
  unfolding builder_status
  status_failed b s e = rw (e, builder_status) parse_bool_empty

  status-Agrees :
      (b : Text) (m : Synced Bool R.Store) (v : Bool)
      → Agrees m b
      → builder_status R b m.store ≡ ok v
      → v ≡ or_false (lookup b m.last)
  status-Agrees b m v h e =
      let x = or_false (lookup b m.last) in
      elim (Result-cases (R.hget key_builder_status b m.store)) [
        | inl (t, found) ↦
            let held = laws.hget_sound key_builder_status b t m.store found in
            let parsed = status_ok b t m.store found in
            elim h [
              | inl (missing, _) ↦ absurd (cc (sym held ∙ missing))
              | inr shown ↦
                  let same : show_bool x ≡ t = cc in
                  let done = parse_bool-show_bool x in
                  let both : ok v ≡ ok x = sym e ∙ (parsed ∙ (ap parse_bool (sym same) ∙ done)) in
                  cc
            ]
        | inr (nil_reply, missing) ↦
            let held = laws.hget_nil key_builder_status b m.store missing in
            let none_found = status_nil b m.store missing in
            elim h [ inl (_, unseen) ↦ cc | inr shown ↦ absurd (cc (sym held ∙ shown)) ]
        | inr (failed, broken) ↦ absurd (cc (sym e ∙ status_failed b m.store broken))
      ]

  -- After a run of the loop of `GetBuilders` that logs no error, what `BuilderStatus` returns for a
  -- builder is the status of its last entry in the registry's list, or of an earlier run if the
  -- list has no entry for it, provided that the store and the map agreed on the builder before.
  -- They agree again, so that runs can follow each other.
  pub builders_in_step :
      (b : Text) (l : List (Text × Bool)) (m : Synced Bool R.Store) (v : Bool)
      → Agrees m b
      → (sync_builders R l m).errors ≡ []
      → builder_status R b (sync_builders R l m).store ≡ ok v
      → (v ≡ final_status b l (or_false (lookup b m.last))) × Agrees (sync_builders R l m) b
  builders_in_step b l m v h clean e =
      let after = Agrees-sync_builders b l m clean h in
      (status-Agrees b (sync_builders R l m) v after e ∙ last-sync_builders b l m, after)
