-- ===== src/Auth/Paths.antt =====
-- The public paths of auth.ts.
use Prim.Native.String
use text.Mathlib.TextLemmas.{nil-append, cons-append}
use stellara.Prelude.{String, ◌≡◌, refl, arith}
use stellara.Auth.{strip_query, is_public_path}

strip_query-append :
    (p q : String) → strip_query (String.◌++◌ p (String.◌++◌ "?" q)) ≡ strip_query p
unfolding strip_query
strip_query-append String.[] q = rw (nil-append (String.◌++◌ "?" q), cons-append "?" "" q) refl
strip_query-append (String.◌∷◌ c s) q =
    rw (cons-append c s (String.◌++◌ "?" q)) (ground (arith, strip_query-append s q))

-- Whether a path is public does not depend on the query that follows it.
pub is_public_path-query :
    (p q : String) → is_public_path (String.◌++◌ p (String.◌++◌ "?" q)) ≡ is_public_path p
unfolding is_public_path
is_public_path-query p q = rw (strip_query-append p q) refl
