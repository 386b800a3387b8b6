-- ===== src/Registry/Updates/Agreed.antt =====
-- After an update the status of a builder is the same in Redis and in the database.
use proof_relay.Base.{
  ◌≡◌, refl, sym, ap, ◌∙◌, Bool, true, false, Option, none, some, List, [], ◌∷◌, ok, inl, inr,
  Bool-cases, if◌then◌else◌,
}
use proof_relay.Text.{Text, text_eq}
use proof_relay.Map.{lookup, insert, lookup-insert, text_key}
use proof_relay.Redis.{Redis, RedisLaws}
use proof_relay.Beacon.{answer}
use proof_relay.Database.{
  BuilderInterface, BuilderRow, Tables, Database, Executed, done, refused, panicked, execute,
}
use proof_relay.Database.Write.{
  put_each, upsert_builder, put_builders, fits_key, fits_stake, kept_stake,
}
use proof_relay.Database.Shown.{IsDone-with_args}
use proof_relay.Registry.{Synced, or_false, sync_builders, builder_status}
use proof_relay.Registry.Sync.{Agrees, final_status, builders_in_step}
use proof_relay.Registry.Pool.{listed}
use proof_relay.Registry.Updates.{updated, builder_statuses, update_builders}

abbrev pub status_in : Option BuilderRow → Option Bool
status_in none = none
status_in (some row) = some row.status

-- The status of a builder in block_builders.
unfoldable pub row_status : Text → Tables → Option Bool
unfolding lookup
row_status b t = status_in (lookup b t.builders)

-- The status of the last entry for a builder, if it has one, or what was there.
abbrev pub last_status : Text → List (Text × Bool) → Option Bool → Option Bool
last_status b [] d = d
last_status b ((c, status) ∷ r) d = last_status b r (if text_eq c b then some status else d)

upsert_builder-row :
    (b : Text) (c : BuilderInterface) (t u : Tables)
    → upsert_builder c t ≡ answer u
    → row_status b u ≡ (if text_eq c.builder_pubkey b then some c.status else row_status b t)
unfolding upsert_builder row_status
upsert_builder-row b c t u e = elim (Bool-cases (fits_key c.builder_pubkey)) [
  | inr long ↦ absurd (cc (rw long at e))
  | inl fits ↦ elim (Bool-cases (fits_stake c.balance_staked)) [
    | inr long ↦ absurd (cc (rw (fits, long) at e))
    | inl short ↦
        let row : BuilderRow = record {
          builder_stake = kept_stake c.balance_staked (lookup c.builder_pubkey t.builders);
          status = c.status;
        } in
        let given : answer (record t { builders = insert c.builder_pubkey row t.builders })
            ≡ answer u =
          rw (fits, short) at e in
        let same : record t { builders = insert c.builder_pubkey row t.builders } ≡ u = cc given in
        ap (λ x. status_in (lookup b x.builders)) (sym same)
        ∙ ap status_in (lookup-insert b c.builder_pubkey row t.builders)
        ∙ pull row (text_eq c.builder_pubkey b)
  ]
]
  where
    pull :
        (row : BuilderRow) (own : Bool)
        → status_in (if own then some row else lookup b t.builders)
          ≡ (if own then some row.status else status_in (lookup b t.builders))
    pull row true = refl
    pull row false = refl

-- A loop over statements that is reported as done has done the first, and then the rest.
put_each_done :
    {A : Type 0} (put : A → Database → Executed × Database) (a : A) (l : List A) (db : Database)
    → (put_each put (a ∷ l) db).0 ≡ done
    → ((put a db).0 ≡ done) × (put_each put (a ∷ l) db ≡ put_each put l (put a db).1)
unfolding put_each
put_each_done put a l db h = by_first (put a db).0 refl
  where
    by_first :
        (x : Executed)
        → (put a db).0 ≡ x
        → ((put a db).0 ≡ done) × (put_each put (a ∷ l) db ≡ put_each put l (put a db).1)
    by_first done e = (e, rw (e, put_each) refl)
    by_first (refused m) e = absurd (cc (rw (e, put_each) at h))
    by_first panicked e = absurd (cc (rw (e, put_each) at h))

put_builders-row :
    (b : Text) (bs : List BuilderInterface) (db : Database)
    → (put_builders bs db).0 ≡ done
    → row_status b (put_builders bs db).1.tables
      ≡ last_status b (builder_statuses bs) (row_status b db.tables)
unfolding put_builders put_each
put_builders-row b [] db e = refl
put_builders-row b (c ∷ bs) db e =
    let (first, next) = put_each_done (λ x. execute (upsert_builder x)) c bs db e in
    let (u, given, same) = (IsDone-with_args true (upsert_builder c) db first).1 in
    ap (λ x. row_status b x.1.tables) next
    ∙ put_builders-row b bs (execute (upsert_builder c) db).1 (sym (ap (λ x. x.0) next) ∙ e)
    ∙ ap (last_status b (builder_statuses bs))
        (ap (row_status b) same ∙ upsert_builder-row b c db.tables u given)

-- A builder with an entry has the status of its last one, whatever there was before.
pub last_status-any :
    (b : Text) (l : List (Text × Bool)) (w : Bool) (o : Option Bool)
    → last_status b l none ≡ some w
    → last_status b l o ≡ some w
last_status-any b [] w o e = absurd (cc e)
last_status-any b ((c, status) ∷ r) w o e = elim (Bool-cases (text_eq c b)) [
  | inl own ↦ rw own (rw own at e)
  | inr other ↦ rw other (last_status-any b r w o (rw other at e))
]

module _ (R : Redis) (laws : RedisLaws R) where
  pub last_status-some :
      (b : Text) (l : List (Text × Bool)) (d : Bool)
      → last_status b l (some d) ≡ some (final_status R laws b l d)
  last_status-some b [] d = refl
  last_status-some b ((c, status) ∷ r) d = elim (Bool-cases (text_eq c b)) [
    | inl own ↦ rw own (last_status-some b r status)
    | inr other ↦ rw other (last_status-some b r d)
  ]

  -- When the pool lists builders and neither Redis nor the database gives an error: for a builder with an
  -- entry in the list, for which Redis and the map of the statuses seen last agreed before, the row of
  -- block_builders has the status of its last entry, and what `BuilderStatus` returns is that status.
  pub builders_agree :
      (b : Text) (bs : List BuilderInterface) (m : Synced Bool R.Store) (db : Database) (v w : Bool)
      → Agrees R laws m b
      → (sync_builders R (builder_statuses bs) m).errors ≡ []
      → (put_builders bs db).0 ≡ done
      → last_status b (builder_statuses bs) none ≡ some w
      → builder_status R b (sync_builders R (builder_statuses bs) m).store ≡ ok v
      → (m' : Synced Bool R.Store) × (db' : Database) × (update_builders R (listed bs) (m, db)
          ≡ updated (m', db'))
        × (row_status b db'.tables ≡ some w)
        × (builder_status R b m'.store ≡ ok w)
  unfolding update_builders
  builders_agree b bs m db v w agrees clean put entry shown =
      let l = builder_statuses bs in
      let seen = or_false (lookup b m.last) in
      let (current, _) = builders_in_step R laws b l m v agrees clean shown in
      let last : final_status R laws b l seen ≡ w =
        cc (last_status-any b l w (some seen) entry, last_status-some b l seen) in
      (
        sync_builders R l m,
        (put_builders bs db).1,
        refl,
        put_builders-row b bs db put ∙ last_status-any b l w (row_status b db.tables) entry,
        shown ∙ ap ok (current ∙ last),
      )
