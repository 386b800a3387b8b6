-- ===== src/Memory.antt =====
-- A store in memory that meets `RedisLaws`: the concrete server of the tests.
use proof_relay.Base.{
  ◌≡◌, refl, Bool, true, false, ◌&&◌, Option, none, some, List, [], ◌∷◌, arith, Result, ok, err,
  nil_reply, failed, inl, inr, Bool-cases, if◌then◌else◌,
}
use mathlib.Core.Path.{subst}
use proof_relay.Text.{Text, text_eq, text_eq_iff, text_eq_refl}
use proof_relay.Redis.{Redis, RedisLaws, field_value, Distinct}

pub record Memory : Type 0 where
  pub hashes : List (Text × Text × Text)
  pub strings : List (Text × Text)
  pub is_up : Bool

-- The fields of one key, the latest write of each.
unfoldable pub hash_at : Text → Text → List (Text × Text × Text) → Option Text
hash_at k f [] = none
hash_at k f ((j, g, v) ∷ r) = if text_eq j k && text_eq g f then some v else hash_at k f r

unfoldable pub without : Text → List (Text × Text) → List (Text × Text)
without f [] = []
without f ((g, v) ∷ r) = let rest = without f r in if text_eq g f then rest else (g, v) ∷ rest

unfoldable pub fields : Text → List (Text × Text × Text) → List (Text × Text)
unfolding without
fields k [] = []
fields k ((j, g, v) ∷ r) =
    let rest = fields k r in if text_eq j k then (g, v) ∷ without g rest else rest

abbrev reply : {A : Type 0} → Bool → Option A → Result A
reply false o = err failed
reply true none = err nil_reply
reply true (some a) = ok a

field_value-without :
    (f g : Text) (l : List (Text × Text))
    → field_value g (without f l) ≡ (if text_eq f g then none else field_value g l)
unfolding field_value without
field_value-without f g [] = ground arith
field_value-without f g ((h, v) ∷ r) =
    ground (arith, field_value-without f g r, text_eq_iff h f, text_eq_iff h g, text_eq_iff f g)

without-none :
    (f g : Text) (l : List (Text × Text))
    → field_value g l ≡ none
    → field_value g (without f l) ≡ none
without-none f g l h = rw field_value-without (ground arith)

without_self : (f : Text) (l : List (Text × Text)) → field_value f (without f l) ≡ none
without_self f l = rw (field_value-without, text_eq_refl)

Distinct-without : (f : Text) (l : List (Text × Text)) → Distinct l → Distinct (without f l)
unfolding without
Distinct-without f [] d = tt
Distinct-without f ((g, v) ∷ r) d = elim (Bool-cases (text_eq g f)) [
  | inl same ↦ rw same (Distinct-without f r d.1)
  | inr other ↦ rw other (without-none f g r d.0, Distinct-without f r d.1)
]

Distinct-fields : (k : Text) (l : List (Text × Text × Text)) → Distinct (fields k l)
unfolding fields
Distinct-fields k [] = tt
Distinct-fields k ((j, g, v) ∷ r) = elim (Bool-cases (text_eq j k)) [
  | inl same ↦
      rw same (without_self g (fields k r), Distinct-without g (fields k r) (Distinct-fields k r))
  | inr other ↦ rw other (Distinct-fields k r)
]

field_value-fields :
    (k f : Text) (l : List (Text × Text × Text)) → field_value f (fields k l) ≡ hash_at k f l
unfolding field_value fields hash_at
field_value-fields k f [] = refl
field_value-fields k f ((j, g, v) ∷ r) =
    ground (arith, field_value-fields k f r, field_value-without g f (fields k r))

reply-Distinct :
    (k : Text) (b : Bool) (l : List (Text × Text × Text)) (kvs : List (Text × Text))
    → reply b (some (fields k l)) ≡ ok kvs
    → Distinct kvs
reply-Distinct k false l kvs h = cc
reply-Distinct k true l kvs h =
    let e : fields k l ≡ kvs = cc in subst Distinct e (Distinct-fields k l)

abbrev pub memory : Redis
memory = record {
  Store = Memory;
  up = λ s. s.is_up;
  hash = λ s k f. hash_at k f s.hashes;
  string = λ s k. field_value k s.strings;
  hget = λ k f s. reply s.is_up (hash_at k f s.hashes);
  hget_all = λ k s. reply s.is_up (some (fields k s.hashes));
  get = λ k s. reply s.is_up (field_value k s.strings);
  hset = λ k f v s.
      if s.is_up then (ok tt, record s { hashes = (k, f, v) ∷ s.hashes }) else (err failed, s);
  set = λ k v ttl s.
      if s.is_up then (ok tt, record s { strings = (k, v) ∷ s.strings }) else (err failed, s);
  expire = λ k ttl s. if s.is_up then (ok tt, s) else (err failed, s);
  flush_all =
      λ s. if s.is_up then (ok tt, record s { hashes = []; strings = [] }) else (err failed, s);
}

pub memory_laws : RedisLaws memory
unfolding hash_at field_value
memory_laws = record {
  hget_sound = λ k f v s h. ground arith;
  hget_nil = λ k f s h. ground arith;
  hget_some = λ k f v s u h. ground arith;
  hget_all_sound = λ k kvs s h f. ground (arith, field_value-fields k f s.hashes);
  hget_all_distinct = λ k kvs s h. reply-Distinct k s.is_up s.hashes kvs h;
  get_sound = λ k v s h. ground arith;
  get_some = λ k v s u h. ground arith;
  hset_hash = λ k f v s h j g. ground arith;
  hset_string = λ k f v s h j. ground arith;
  set_string = λ k v ttl s h j. ground arith;
  set_hash = λ k v ttl s h j f ne. ground arith;
  expire_hash = λ k ttl s pos h j f. ground arith;
  expire_string = λ k ttl s pos h j. ground arith;
  flush_hash = λ s h k f. ground arith;
  flush_string = λ s h k. ground arith;
}
