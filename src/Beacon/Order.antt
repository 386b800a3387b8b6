-- ===== src/Beacon/Order.antt =====
-- What the order of the clients is, and what `waitSynced` waits for.
use mathlib.Core.List.{Perm}
use mathlib.Core.List.Perm
use mathlib.Core.Path.{subst}
use proof_relay.Base.{
  ◌≡◌, refl, true, false, not, Option, none, some, List, [], ◌∷◌, arith, All, sym, ◌∙◌, inl, inr,
  Bool-cases, Option-cases, if◌then◌else◌,
}
use proof_relay.Beacon.{SyncStatusData, BeaconClient}
use proof_relay.Beacon.Performance.{
  is_before, Ranked, before, insert_sorted, sort_ranked, rank_all, clients_of,
  update_client_performance, Probe, sync_status, is_synced, probe_clients, rank_one, sorted_clients,
  with_front, returned, panicked, waiting, wait_synced,
}

-- `b` does not go in front of `a`.
abbrev pub NotAfter : Ranked → Ranked → Type 0
NotAfter a b = before b a ≡ false

NotAfter-trans : (a b c : Ranked) → NotAfter a b → NotAfter b c → NotAfter a c
unfolding is_before
NotAfter-trans a b c h k = ground arith

NotAfter-asymm : (a b : Ranked) → before b a ≡ true → NotAfter b a
unfolding is_before
NotAfter-asymm a b h = ground arith

NotAfter-syncing :
    (a b : Ranked) → NotAfter a b → b.status.is_syncing ≡ true → a.status.is_syncing ≡ true
unfolding is_before
NotAfter-syncing a b h s = ground arith

-- Nobody goes in front of anybody listed earlier.
abbrev pub IsSorted : List Ranked → Type 0
IsSorted [] = Unit
IsSorted (a ∷ r) = All (NotAfter a) r × IsSorted r

All-insert_sorted :
    (P : Ranked → Type 0) (a : Ranked) (l : List Ranked) → P a → All P l → All P (insert_sorted a l)
unfolding insert_sorted
All-insert_sorted P a [] p h = (p, tt)
All-insert_sorted P a (b ∷ r) p h = elim (Bool-cases (before b a)) [
  | inl later ↦ rw later (h.0, All-insert_sorted P a r p h.1)
  | inr here ↦ rw here (p, (h.0, h.1))
]

All-mono : (a b : Ranked) (l : List Ranked) → NotAfter a b → All (NotAfter b) l → All (NotAfter a) l
All-mono a b [] h all = tt
All-mono a b (c ∷ r) h all = (NotAfter-trans a b c h all.0, All-mono a b r h all.1)

IsSorted-insert_sorted : (a : Ranked) (l : List Ranked) → IsSorted l → IsSorted (insert_sorted a l)
unfolding insert_sorted
IsSorted-insert_sorted a [] s = (tt, tt)
IsSorted-insert_sorted a (b ∷ r) s = elim (Bool-cases (before b a)) [
  | inl later ↦ rw later (
    All-insert_sorted (NotAfter b) a r (NotAfter-asymm a b later) s.0,
    IsSorted-insert_sorted a r s.1,
  )
  | inr here ↦ rw here ((here, All-mono a b r here s.0), s)
]

IsSorted-sort_ranked : (l : List Ranked) → IsSorted (sort_ranked l)
unfolding sort_ranked
IsSorted-sort_ranked [] = tt
IsSorted-sort_ranked (a ∷ r) = IsSorted-insert_sorted a (sort_ranked r) (IsSorted-sort_ranked r)

insert_sorted-perm : (a : Ranked) (l : List Ranked) → Perm (insert_sorted a l) (a ∷ l)
unfolding insert_sorted
insert_sorted-perm a [] = Perm.refl (a ∷ [])
insert_sorted-perm a (b ∷ r) = elim (Bool-cases (before b a)) [
  | inl later ↦ rw later (Perm.trans (Perm.cons b (insert_sorted-perm a r)) (Perm.swap a b r))
  | inr here ↦ rw here (Perm.refl (a ∷ b ∷ r))
]

-- The clients are put in an order in which nobody goes in front of anybody listed earlier, and
-- none is lost or made up.
pub sort_ranked_lem : (l : List Ranked) → IsSorted (sort_ranked l) × Perm (sort_ranked l) l
unfolding sort_ranked
sort_ranked_lem [] = (tt, Perm.refl [])
sort_ranked_lem (a ∷ r) = (
  IsSorted-sort_ranked (a ∷ r),
  Perm.trans (insert_sorted-perm a (sort_ranked r)) (Perm.cons a (sort_ranked_lem r).1),
)

abbrev Synced : Ranked → Type 0
Synced r = not r.status.is_syncing ≡ true

-- Where the one in front is synced, all are: a syncing client would stand in front of it.
All-Synced : (a : Ranked) (l : List Ranked) → Synced a → All (NotAfter a) l → All Synced l
All-Synced a [] s h = tt
All-Synced a (b ∷ r) s h = (ground (arith, NotAfter-syncing a b h.0), All-Synced a r s h.1)

abbrev ClientSynced : BeaconClient → Type 0
ClientSynced c = is_synced c.sync_status ≡ true

-- A ranked client carries its own status.
abbrev Own : Ranked → Type 0
Own r = r.client.sync_status ≡ some r.status

Synced-clients : (l : List Ranked) → All Own l → All Synced l → All ClientSynced (clients_of l)
Synced-clients [] o s = tt
Synced-clients (r ∷ l) o s = (rw o.0 s.0, Synced-clients l o.1 s.1)

All-sort_ranked : (P : Ranked → Type 0) (l : List Ranked) → All P l → All P (sort_ranked l)
unfolding sort_ranked
All-sort_ranked P [] h = tt
All-sort_ranked P (a ∷ r) h = All-insert_sorted P a (sort_ranked r) h.0 (All-sort_ranked P r h.1)

abbrev OwnAll : Option (List Ranked) → Type 0
OwnAll none = Unit
OwnAll (some l) = All Own l

rank_one-OwnAll :
    (c : BeaconClient) (s : Option SyncStatusData) (o : Option (List Ranked))
    → c.sync_status ≡ s
    → OwnAll o
    → OwnAll (rank_one c s o)
rank_one-OwnAll c none o e h = tt
rank_one-OwnAll c (some s) none e h = tt
rank_one-OwnAll c (some s) (some l) e h = (e, h)

rank_all-OwnAll : (cs : List BeaconClient) → OwnAll (rank_all cs)
unfolding rank_all
rank_all-OwnAll [] = tt
rank_all-OwnAll (c ∷ cs) = rank_one-OwnAll c c.sync_status (rank_all cs) refl (rank_all-OwnAll cs)

-- After an update: if the client in front is synced, every client is.
abbrev FrontDecides : List BeaconClient → Type 0
FrontDecides [] = Unit
FrontDecides (c ∷ r) = ClientSynced c → All ClientSynced (c ∷ r)

abbrev FrontDecidesIf : Option (List BeaconClient) → Type 0
FrontDecidesIf none = Unit
FrontDecidesIf (some cs) = FrontDecides cs

sorted_front : (l : List Ranked) → IsSorted l → All Own l → FrontDecides (clients_of l)
sorted_front [] s o = tt
sorted_front (r ∷ l) s o = λ front.
    let own : Synced r = rw o.0 at front in Synced-clients (r ∷ l) o (own, All-Synced r l own s.0)

sorted_clients-FrontDecides :
    (o : Option (List Ranked)) → OwnAll o → FrontDecidesIf (sorted_clients o)
sorted_clients-FrontDecides none h = tt
sorted_clients-FrontDecides (some l) h =
    sorted_front (sort_ranked l) (IsSorted-sort_ranked l) (All-sort_ranked Own l h)

update-FrontDecides : (cs : List BeaconClient) → FrontDecidesIf (update_client_performance cs)
unfolding update_client_performance
update-FrontDecides [] = tt
update-FrontDecides (c ∷ []) = λ h. (h, tt)
update-FrontDecides (c ∷ d ∷ r) =
    sorted_clients-FrontDecides (rank_all (c ∷ d ∷ r)) (rank_all-OwnAll (c ∷ d ∷ r))

with_front-All :
    (o : Option (List BeaconClient)) (cs : List BeaconClient) (st : Option SyncStatusData)
    → FrontDecidesIf o
    → with_front o ≡ some (cs, st)
    → is_synced st ≡ true
    → All ClientSynced cs
with_front-All none cs st h e synced = absurd (cc e)
with_front-All (some []) cs st h e synced = absurd (cc e)
with_front-All (some (c ∷ r)) cs st h e synced =
    let same : c ∷ r ≡ cs = cc in
    let status : c.sync_status ≡ st = cc in subst (All ClientSynced) same (h (rw status synced))

sync_status-All :
    (ps : List Probe) (cs cs' : List BeaconClient) (st : Option SyncStatusData)
    → sync_status ps cs ≡ some (cs', st)
    → is_synced st ≡ true
    → All ClientSynced cs'
unfolding sync_status
sync_status-All ps cs cs' st e synced =
    with_front-All (update_client_performance (probe_clients ps cs)) cs' st
      (update-FrontDecides (probe_clients ps cs)) e synced

no_rounds : (cs : List BeaconClient) → wait_synced [] cs ≡ waiting cs
unfolding wait_synced
no_rounds cs = refl

round_panics :
    (ps : List Probe) (rounds : List (List Probe)) (cs : List BeaconClient)
    → sync_status ps cs ≡ none
    → wait_synced (ps ∷ rounds) cs ≡ panicked
unfolding wait_synced
round_panics ps rounds cs e = ground arith

round_ends :
    (ps : List Probe) (rounds : List (List Probe)) (cs cs' : List BeaconClient)
    (st : Option SyncStatusData)
    → sync_status ps cs ≡ some (cs', st)
    → wait_synced (ps ∷ rounds) cs ≡ (if is_synced st then returned cs' else wait_synced rounds cs')
unfolding wait_synced
round_ends ps rounds cs cs' st e = ground arith

-- `waitSynced` returns only when every client is synced, whatever the nodes answer in whichever
-- round. One client that is syncing is sorted to the front, and its status is the one that the
-- loop tests.
pub wait_synced-All :
    (rounds : List (List Probe)) (cs cs' : List BeaconClient)
    → wait_synced rounds cs ≡ returned cs'
    → All (λ c. is_synced c.sync_status ≡ true) cs'
wait_synced-All [] cs cs' e = absurd (cc (sym (no_rounds cs) ∙ e))
wait_synced-All (ps ∷ rounds) cs cs' e = elim (Option-cases (sync_status ps cs)) [
  | inl none_left ↦ absurd (cc (sym (round_panics ps rounds cs none_left) ∙ e))
  | inr ((next, st), some_left) ↦
      let step = round_ends ps rounds cs next st some_left in
      elim (Bool-cases (is_synced st)) [
        | inl synced ↦
            let same : returned next ≡ returned cs' = sym (rw synced at step) ∙ e in
            let clients : next ≡ cs' = cc in
            subst (All ClientSynced) clients (sync_status-All ps cs next st some_left synced)
        | inr not_synced ↦ wait_synced-All rounds next cs' (sym (rw not_synced at step) ∙ e)
      ]
]
