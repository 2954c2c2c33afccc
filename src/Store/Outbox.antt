-- ===== src/Store/Outbox.antt =====
-- The inbox and the outbox of notifications (internal/store/inbox.go, notification.go), as the lists
-- that their files hold.
use claudeq.Prelude.{
  ℕ, ◌-◌, Bool, List, [], ◌∷◌, ◌++◌, Text, ◌==◌, any, is_empty, if◌then◌else◌, length,
}
use claudeq.Prelude.Strings.{Time, drop}
use claudeq.Prelude.Result.{Result, ok, err}

pub record InboxEntry : Type 0 where
  pub id : Text
  pub kind : Text
  pub title : Text
  pub message : Text
  pub artifact_id : Text
  pub run_id : Text
  pub url : Text
  pub task_id : Text
  pub task_name : Text
  pub sent_at : Time
  pub read : Bool

pub record Notification : Type 0 where
  pub id : Text
  pub title : Text
  pub message : Text
  pub url : Text
  pub task_id : Text
  pub task_name : Text
  pub run_id : Text
  pub queued_at : Time

pub data ListProblem : Type 0 where
  missing_id : ListProblem
  already_there : Text → ListProblem

abbrev pub inbox_limit : ℕ
inbox_limit = 200

-- `if extra := len(list) - InboxLimit; extra > 0 { list = list[extra:] }`
unfoldable pub keep_latest : ℕ → List InboxEntry → List InboxEntry
keep_latest limit list = drop (length list - limit) list

unfoldable pub add_inbox_entry : InboxEntry → List InboxEntry → Result ListProblem (List InboxEntry)
unfolding any keep_latest
add_inbox_entry e list =
    if is_empty e.id
    then err missing_id
    else if any (λ q. q.id == e.id) list
    then err (already_there e.id)
    else ok (keep_latest inbox_limit (list ++ e ∷ []))

unfoldable pub queue_notification :
    Notification → List Notification → Result ListProblem (List Notification)
unfolding any
queue_notification n list =
    if is_empty n.id
    then err missing_id
    else if any (λ q. q.id == n.id) list
    then err (already_there n.id)
    else ok (list ++ n ∷ [])

-- What a take of an outbox that can be read hands over, and what it leaves.
unfoldable pub take_notifications : List Notification → List Notification × List Notification
take_notifications list = (list, [])
