-- ===== src/Beacon/Node/Forks/Order.antt =====
-- Which name GetForkVersion gives, in whatever order the specification is ranged over.
use proof_relay.Base.{
  ℕ, ◌≡◌, refl, ap, ◌∙◌, Bool, Option, none, some, List, [], ◌∷◌, ◌++◌, ◌&&◌, if◌then◌else◌, All,
  Bool-cases, inl, inr,
}
use proof_relay.Text.{Text, codes, text_eq}
use proof_relay.Map.{Map, lookup, insert, text_key, lookup-insert}
use proof_relay.Beacon.{answer, failure, BeaconTypes}
use proof_relay.Beacon.Node.{Http, Called, returned, fetch_beacon}
use proof_relay.Beacon.Node.Forks.{
  is_fork_key, fork_name, known_specs, named_fork, current_fork, fork_path, with_spec,
  get_fork_version,
}

-- The names of the forks that have a version.
unfoldable pub names_of : Text → List (Text × Text) → List Text
unfolding text_eq
names_of version [] = []
names_of version ((k, v) ∷ es) =
    let rest = names_of version es in
    if is_fork_key k && text_eq v version then fork_name k ∷ rest else rest

abbrev pub last_of : Option Text → List Text → Option Text
last_of o [] = o
last_of o (n ∷ ns) = last_of (some n) ns

known_specs-lookup :
    (version : Text) (es : List (Text × Text)) (known : Map Text Text)
    → lookup version (known_specs es known) ≡ last_of (lookup version known) (names_of version es)
unfolding known_specs names_of lookup text_eq
known_specs-lookup version [] known = refl
known_specs-lookup version ((k, v) ∷ es) known = elim (Bool-cases (is_fork_key k)) [
  | inr other ↦ rw other (known_specs-lookup version es known)
  | inl fork ↦
      let put = lookup-insert version v (fork_name k) known in
      elim (Bool-cases (text_eq v version)) [
        | inr other ↦
            rw (fork, other)
              (known_specs-lookup version es (insert v (fork_name k) known)
                ∙ ap (λ o. last_of o (names_of version es)) (put ∙ rw other refl))
        | inl same ↦
            rw (fork, same)
              (known_specs-lookup version es (insert v (fork_name k) known)
                ∙ ap (λ o. last_of o (names_of version es)) (put ∙ rw same refl))
      ]
]

same_last :
    (name : Text) (n : Text) (ns : List Text)
    → n ≡ name
    → All (λ m. m ≡ name) ns
    → last_of (some n) ns ≡ some name
same_last name n [] e h = ap some e
same_last name n (m ∷ ns) e (f, h) = same_last name m ns f h

-- What is to come: no name, or the one name.
abbrev pub expected : Text → Text → List Text → Called (Text × Text)
expected version name [] = returned (failure (codes "unknown fork version " ++ version))
expected version name (_ ∷ _) = returned (answer (name, version))

expected-named_fork :
    {T : BeaconTypes} (h : Http T) (version name : Text) (ns : List Text)
    → All (λ m. m ≡ name) ns
    → named_fork h version (last_of none ns) ≡ expected version name ns
expected-named_fork h version name [] _ = refl
expected-named_fork h version name (n ∷ ns) (e, rest) =
    ap (named_fork h version) (same_last name n ns e rest)

-- `GetForkVersion`, when the node gives a specification and its current version, and all forks of the
-- specification with that version have the same name: it gives the name with the version, or the error
-- of an unknown version if no fork has it, in whatever order the specification is ranged over.
pub get_fork_version_lem :
    {T : BeaconTypes} (h : Http T) (slot : ℕ) (head : Bool) (spec : List (Text × Text))
    (version name : Text)
    → fetch_beacon h h.unmarshal_spec (h.url_string (codes "/eth/v1/config/spec") [])
      ≡ answer (some spec)
    → fetch_beacon h h.unmarshal_fork (h.url_string (fork_path h slot head) [])
      ≡ answer (some version)
    → All (λ n. n ≡ name) (names_of version spec)
    → get_fork_version h slot head ≡ expected version name (names_of version spec)
unfolding get_fork_version lookup with_spec
get_fork_version_lem h slot head spec version name specified current same =
    ap (with_spec h slot head) specified
    ∙ ap (current_fork h (known_specs spec [])) current
    ∙ ap (named_fork h version) (known_specs-lookup version spec [])
    ∙ expected-named_fork h version name (names_of version spec) same
