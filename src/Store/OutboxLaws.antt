-- ===== src/Store/OutboxLaws.antt =====
-- The inbox holds at most its limit, and no id twice.
use claudeq.Prelude.{
  ℕ, zero, suc, ◌-◌, ◌≤◌, ◌≡◌, refl, Bool, true, false, not, ◌&&◌, ◌||◌, List, [], ◌∷◌, ◌++◌, Text,
  ◌==◌, is_empty, any, length, arith, text_eq_iff,
}
use claudeq.Prelude.Strings.{drop}
use claudeq.Prelude.Result.{ok}
use claudeq.Store.Outbox.{InboxEntry, add_inbox_entry, inbox_limit, keep_latest}

-- Each entry has an id, which no later one has.
unfoldable pub ids_differ : List InboxEntry → Bool
unfolding any
ids_differ [] = true
ids_differ (e ∷ es) = not (is_empty e.id) && not (any (λ q. q.id == e.id) es) && ids_differ es

pub record IsInbox (list : List InboxEntry) : Type 0 where
  pub ids : ids_differ list ≡ true
  pub bounded : length list ≤ inbox_limit

any_id-append :
    (id : Text) (xs : List InboxEntry) (e : InboxEntry)
    → any (λ q. q.id == id) (xs ++ e ∷ []) ≡ (any (λ q. q.id == id) xs || e.id == id)
unfolding any
any_id-append id [] e = ground arith
any_id-append id (x ∷ xs) e = ground (arith, any_id-append id xs e)

ids_differ-append :
    (xs : List InboxEntry) (e : InboxEntry)
    → ids_differ xs ≡ true
    → is_empty e.id ≡ false
    → any (λ q. q.id == e.id) xs ≡ false
    → ids_differ (xs ++ e ∷ []) ≡ true
unfolding ids_differ any
ids_differ-append [] e d n m = ground arith
ids_differ-append (x ∷ xs) e d n m = ground (
  arith,
  any_id-append x.id xs e,
  text_eq_iff x.id e.id,
  text_eq_iff e.id x.id,
  ids_differ-append xs e,
)

ids_differ-drop :
    (n : ℕ) (xs : List InboxEntry) → ids_differ xs ≡ true → ids_differ (drop n xs) ≡ true
unfolding ids_differ
ids_differ-drop zero xs d = d
ids_differ-drop (suc n) [] d = refl
ids_differ-drop (suc n) (x ∷ xs) d = ids_differ-drop n xs (ground (arith, d))

length-drop : (n : ℕ) (xs : List InboxEntry) → length (drop n xs) ≡ length xs - n
length-drop zero xs = omega arith
length-drop (suc n) [] = omega arith
length-drop (suc n) (x ∷ xs) = omega (arith, length-drop n xs)

added :
    (e : InboxEntry) (list after : List InboxEntry)
    → add_inbox_entry e list ≡ ok after
    → (is_empty e.id ≡ false)
      × ((any (λ q. q.id == e.id) list ≡ false)
          × (after ≡ keep_latest inbox_limit (list ++ e ∷ [])))
unfolding add_inbox_entry
added e list after a = ground arith

kept-IsInbox :
    (list : List InboxEntry) → ids_differ list ≡ true → IsInbox (keep_latest inbox_limit list)
unfolding keep_latest
kept-IsInbox list d = record {
  ids = ids_differ-drop (length list - inbox_limit) list d;
  bounded = omega (arith, length-drop (length list - inbox_limit) list);
}

-- What is added to an inbox leaves one.
pub add_inbox_entry-IsInbox :
    (e : InboxEntry) (list after : List InboxEntry)
    → IsInbox list
    → add_inbox_entry e list ≡ ok after
    → IsInbox after
add_inbox_entry-IsInbox e list after h a =
    let (named, (new, same)) = added e list after a in
    rw same (kept-IsInbox (list ++ e ∷ []) (ids_differ-append list e h.ids named new))
