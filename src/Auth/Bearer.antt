-- ===== src/Auth/Bearer.antt =====
-- The `Authorization` header of auth.ts.
use Prim.Native.Char.{code}
use Prim.Native.String
use text.Mathlib.TextLemmas.{nil-append, cons-append}
use stellara.Prelude.{◌<◌, ◌≡◌, true, false, some, String, refl, arith}
use stellara.Auth.{is_empty, trim, split_blank, lower_case_is, parse_bearer_token}

-- No character of the text is a blank, nor the lower case of what would be one.
abbrev IsAbove : String → Type 0
IsAbove String.[] = Unit
IsAbove (String.◌∷◌ c s) = (64 < code c) × IsAbove s

split_blank-scheme :
    (scheme lower t : String)
    → IsAbove lower
    → lower_case_is scheme lower ≡ true
    → split_blank (String.◌++◌ scheme (String.◌++◌ " " t)) ≡ some (scheme, t)
unfolding split_blank lower_case_is
split_blank-scheme String.[] lower t above h =
    rw (nil-append (String.◌++◌ " " t), cons-append " " "" t, nil-append t) refl
split_blank-scheme (String.◌∷◌ c s) String.[] t above h = ground arith
split_blank-scheme (String.◌∷◌ c s) (String.◌∷◌ l ls) t above h =
    rw (cons-append c s (String.◌++◌ " " t)) (ground (arith, split_blank-scheme s ls t above.1))

-- A header of the scheme `bearer` in any case, a blank, and a token without white space at its ends
-- is parsed to this token.
pub parse_bearer_token-header :
    (scheme token : String)
    → lower_case_is scheme "bearer" ≡ true
    → trim token ≡ token
    → is_empty token ≡ false
    → parse_bearer_token (some (String.◌++◌ scheme (String.◌++◌ " " token))) ≡ some token
unfolding parse_bearer_token
parse_bearer_token-header scheme token named trimmed filled =
    let split = split_blank-scheme scheme "bearer" token (ground arith) named in
    ground (arith, split, named, trimmed, filled)
