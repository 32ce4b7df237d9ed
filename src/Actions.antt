-- ===== src/Actions.antt =====
-- The POST routes of src/patchline/routes/actions.py: each checks the CSRF token first. The text of an
-- error answer is left out.
pub mod Entries
pub mod Approve
pub mod Repositories
use patchline.Prelude.{
  Bool, Option, none, some, List, [], ◌∷◌, Text, text, same, find, if◌then◌else◌,
}
use patchline.Models.{Session}
use patchline.Tx.{Tx, pure}
use patchline.Web.{Response, refused}
use patchline.Security.{csrf_ok}
use patchline.Auth.Middleware.{RequestState}

-- A request behind the middleware: its state, the X-CSRF-Token header, and the fields of the form.
pub record Request : Type 0 where
  pub state : RequestState
  pub header : Option Text
  pub form : List (Text × Text)

abbrev second : Option (Text × Text) → Option Text
second none = none
second (some (key, value)) = some value

-- form.get(key)
unfoldable pub form_get : Text → Request → Option Text
unfolding find same
form_get key request = second (find (λ f. same f.0 key) request.form)

abbrev session_token : Option Session → Option Text
session_token none = none
session_token (some session) = session.csrf_token

unfoldable pub has_token : Request → Bool
unfolding csrf_ok form_get
has_token request =
    csrf_ok (session_token request.state.session) request.state.csrf_token request.header
      (form_get (text "csrf_token") request)

-- `if not csrf_ok(request, form): return _forbidden(request)`
unfoldable pub guarded : Request → Tx Response → Tx Response
unfolding has_token
guarded request action = if has_token request then action else pure (refused 403)
