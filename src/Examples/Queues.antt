-- ===== src/Examples/Queues.antt =====
-- The order of a small queue.
use claudeq.Prelude.{◌≡◌, refl, List, [], ◌∷◌, codes, text_eq, map, any, false, arith}
use mathlib.Core.List.{Perm}
use claudeq.Prelude.Int.{negsuc}
use claudeq.Prelude.Result.{ok}
use claudeq.Task.Model.{Task}
use claudeq.Queue.Order.{grouped_order, of_group}
use claudeq.Queue.OrderLaws.{of_group-grouped_order}
use claudeq.Queue.Edit.{move}
use claudeq.Queue.MoveLaws.{move-perm}
use claudeq.Queue.Bag.{Request, adding, removing, enabling, moving, on_bag_all, count, IsUnrepeated}
use claudeq.Queue.Serving.{count-new}
use claudeq.Queue.Refinement.{serve_all, serve_all-refines}
use claudeq.Store.State.{new_state}
use claudeq.Queue.Groups.{rename_tasks}
use claudeq.Examples.Data.{plain, watcher, second, join}

abbrev mixed : List Task
mixed =
    record plain { group = codes "a" }
    ∷ record watcher { group = codes "b" }
    ∷ record second { group = codes "a" }
    ∷ []

grouped_mixed :
    map (λ t. t.id) (grouped_order mixed) ≡ codes "fix" ∷ codes "second" ∷ codes "watch" ∷ []
unfolding grouped_order text_eq
grouped_mixed = refl

renamed_mixed :
    map (λ t. t.id) (rename_tasks (codes "b") (codes "a") mixed)
    ≡ codes "fix" ∷ codes "second" ∷ codes "watch" ∷ []
unfolding rename_tasks text_eq
renamed_mixed = refl

of_group-grouped_order_example :
    of_group (codes "a") (grouped_order mixed) ≡ of_group (codes "a") mixed
of_group-grouped_order_example = of_group-grouped_order (codes "a") mixed

move-perm_example :
    (us : List Task) × ((move (codes "second") (negsuc 3) mixed ≡ ok us) × Perm us mixed)
unfolding any text_eq
move-perm_example = move-perm (codes "second") (negsuc 3) mixed refl

abbrev three : List Task
three = plain ∷ watcher ∷ second ∷ []

three-IsUnrepeated : IsUnrepeated three
unfolding count text_eq
three-IsUnrepeated x =
    count-new plain x (watcher ∷ second ∷ []) refl
      (count-new watcher x (second ∷ []) refl (count-new second x [] refl (omega arith)))

-- A second task of an id is refused.
abbrev requests : List Request
requests =
    enabling (codes "fix") false
    ∷ adding plain
    ∷ removing (codes "watch")
    ∷ moving (codes "second") (negsuc 0)
    ∷ adding join
    ∷ []

serve_all-refines_example :
    Perm
      (serve_all [] new_state requests three).0
      (on_bag_all (serve_all [] new_state requests three).1 three)
    × IsUnrepeated (serve_all [] new_state requests three).0
serve_all-refines_example = serve_all-refines [] new_state requests three three-IsUnrepeated

served_ids :
    map (λ t. t.id) (serve_all [] new_state requests three).0
    ≡ codes "second" ∷ codes "fix" ∷ codes "join" ∷ []
unfolding serve_all text_eq
served_ids = refl
