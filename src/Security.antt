-- ===== src/Security.antt =====
-- The checks of src/patchline/core/security.py and of webutil.py. The HMAC and the comparison in constant
-- time are parameters; a header or a token that is missing is `none`.
pub mod Redirect
pub mod BranchNames
use patchline.Prelude.{
  Bool, true, false, Option, none, some, List, [], ◌∷◌, ◌++◌, Text, text, or_blank, same,
}

-- The hexadecimal HMAC-SHA256 of a body under a secret.
abbrev pub Hmac : Type 0
Hmac = Text → Text → Text

unfoldable pub github_webhook_signature : Hmac → Text → Text → Text
github_webhook_signature hmac secret body = text "sha256=" ++ hmac secret body

-- hmac.compare_digest(a, b) is the equality of the texts.
unfoldable pub compare_digest : Text → Text → Bool
unfolding same
compare_digest a b = same a b

unfoldable pub verify_github_signature : Hmac → Text → Text → Option Text → Bool
unfolding github_webhook_signature compare_digest
verify_github_signature hmac [] body header = false
verify_github_signature hmac (c ∷ secret) body none = false
verify_github_signature hmac (c ∷ secret) body (some []) = false
verify_github_signature hmac (c ∷ secret) body (some (d ∷ header)) =
    compare_digest (github_webhook_signature hmac (c ∷ secret) body) (d ∷ header)

-- A token is a random text and the HMAC of the cookie with it.
unfoldable pub generate_csrf_token : Hmac → Text → Text → Text → Text
generate_csrf_token hmac session_secret cookie_value nonce =
    nonce ++ text "." ++ hmac session_secret (cookie_value ++ text ":" ++ nonce)

unfoldable pub verify_csrf_token : Option Text → Option Text → Bool
unfolding compare_digest
verify_csrf_token (some (c ∷ stored)) (some (d ∷ presented)) =
    compare_digest (c ∷ stored) (d ∷ presented)
verify_csrf_token _ _ = false

-- The header wins over the field of the form.
unfoldable pub presented_csrf_token : Option Text → Option Text → Option Text
presented_csrf_token (some (c ∷ header)) field = some (c ∷ header)
presented_csrf_token _ field = field

-- `first or second` for tokens
unfoldable pub first_token : Option Text → Option Text → Option Text
first_token (some (c ∷ t)) second = some (c ∷ t)
first_token _ second = second

-- The token of the session row, else the copy that the middleware has made.
unfoldable pub csrf_ok : Option Text → Option Text → Option Text → Option Text → Bool
unfolding verify_csrf_token presented_csrf_token first_token
csrf_ok on_session on_request header field =
    verify_csrf_token (first_token on_session on_request) (presented_csrf_token header field)
