-- ===== src/Task/Ids.antt =====
-- The ids that the API gives to new tasks (`genTaskID` of internal/api/api.go).
use claudeq.Prelude.{◌++◌, ◌∷◌, Text}
use claudeq.Task.Slug.{slug}

-- The suffix is `randid.Hex(3)`: random bytes from outside, in lower-case hex digits.
unfoldable pub gen_task_id : Text → Text → Text
gen_task_id name suffix = slug name ++ b'-' ∷ suffix
