-- ===== src/Web.antt =====
-- What a route of src/patchline/routes/ answers, without the text of an error.
use patchline.Prelude.{ℕ, Text}

pub data Response : Type 0 where
  -- a redirect with status 302
  redirect : Text → Response
  -- an error, or a page with errors, under its status
  refused : ℕ → Response
  -- a redirect to the page with an error in its query
  redirect_error : Text → Response
