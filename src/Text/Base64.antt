-- ===== src/Text/Base64.antt =====
-- `json.Marshal` of a byte slice, as PutValidatorDeliveredPayload (database/database.go) calls it: the bytes
-- in base64, between quotes.
use proof_relay.Base.{ℕ, ◌+◌, ◌-◌, ◌*◌, ◌/◌, ◌%◌, [], ◌∷◌, ◌++◌, ltb, ◌==◌, if◌then◌else◌}
use proof_relay.Text.Equality.{Text, codes}

-- The character of six bits.
abbrev sextet : ℕ → ℕ
sextet n =
    if ltb n 26
    then n + 65
    else if ltb n 52
    then n + 71
    else if ltb n 62
    then n - 4
    else if n == 62
    then 43
    else 47

abbrev padding : ℕ
padding = 61

unfoldable pub base64 : Text → Text
base64 [] = []
base64 (a ∷ []) = sextet (a / 4) ∷ sextet (a % 4 * 16) ∷ padding ∷ padding ∷ []
base64 (a ∷ b ∷ []) =
    sextet (a / 4) ∷ sextet (a % 4 * 16 + b / 16) ∷ sextet (b % 16 * 4) ∷ padding ∷ []
base64 (a ∷ b ∷ c ∷ r) =
    sextet (a / 4)
    ∷ sextet (a % 4 * 16 + b / 16)
    ∷ sextet (b % 16 * 4 + c / 64)
    ∷ sextet (c % 64)
    ∷ base64 r

-- A slice that is not nil; nil is `null`.
unfoldable pub marshal_bytes : Text → Text
unfolding base64
marshal_bytes t = codes "\"" ++ base64 t ++ codes "\""
