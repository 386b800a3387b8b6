-- ===== src/Text/Strings.antt =====
-- What the code uses of Go's package strings.
use proof_relay.Base.{
  ◌+◌, Bool, true, false, [], ◌∷◌, leb, ◌&&◌, ◌||◌, ◌==◌, if◌then◌else◌, drop, length,
}
use proof_relay.Text.Equality.{Text}

-- `strings.ToLower`, on ASCII
abbrev pub to_lower : Text → Text
to_lower [] = []
to_lower (c ∷ t) = (if leb 65 c && leb c 90 then c + 32 else c) ∷ to_lower t

-- `strings.HasPrefix(t, p)`
abbrev pub has_prefix : Text → Text → Bool
has_prefix t [] = true
has_prefix [] (c ∷ p) = false
has_prefix (d ∷ t) (c ∷ p) = (d == c) && has_prefix t p

-- `strings.Contains(t, p)`
abbrev pub contains : Text → Text → Bool
contains [] p = has_prefix [] p
contains (c ∷ t) p = has_prefix (c ∷ t) p || contains t p

-- `strings.Replace(t, p, "", 1)`
abbrev pub remove_first : Text → Text → Text
remove_first [] p = []
remove_first (c ∷ t) p =
    let rest = remove_first t p in
    if has_prefix (c ∷ t) p then drop (length p) (c ∷ t) else c ∷ rest
