-- ===== src/Provider/CollectorLaws.antt =====
-- When the collector of a run's events calls the run a success.
use claudeq.Prelude.{
  ◌≡◌, ◌↔◌, refl, ap, sym, ◌∙◌, Bool, true, false, not, ◌||◌, List, [], ◌∷◌, Text, any, arith,
  if◌then◌else◌,
}
use claudeq.Prelude.Int.{ℤ, is_int_zero}
use claudeq.Store.Run.{RunStatus}
use claudeq.Provider.Collector.{
  EventType, completed, rate_limited, auth_failed, model_rejected, Event, Collector, new, add,
  add_all, classify, result,
}

abbrev is_auth_failed : EventType → Bool
is_auth_failed auth_failed = true
is_auth_failed _ = false

abbrev is_model_rejected : EventType → Bool
is_model_rejected model_rejected = true
is_model_rejected _ = false

abbrev is_completed : EventType → Bool
is_completed completed = true
is_completed _ = false

-- What the last completion says, or what was said before.
unfoldable pub last_error {ℓ} : (Metrics : Type ℓ) → Bool → List (Event Metrics) → Bool
last_error Metrics before [] = before
last_error Metrics before (ev ∷ evs) =
    last_error Metrics (if is_completed ev.type then ev.is_error else before) evs

abbrev is_rate_limited : EventType → Bool
is_rate_limited rate_limited = true
is_rate_limited _ = false

module _ {ℓ} (Metrics : Type ℓ) where
  -- Whether some event is of the type that a test knows.
  unfoldable pub some_event : (EventType → Bool) → List (Event Metrics) → Bool
  unfolding any
  some_event is_type evs = any (λ ev. is_type ev.type) evs

  add-auth_failed :
      (c : Collector Metrics) (ev : Event Metrics)
      → (add Metrics c ev).auth_failed ≡ (c.auth_failed || is_auth_failed ev.type)
  unfolding add
  add-auth_failed c ev = ground arith

  add_all-auth_failed :
      (c : Collector Metrics) (evs : List (Event Metrics))
      → (add_all Metrics c evs).auth_failed ≡ (c.auth_failed || some_event is_auth_failed evs)
  unfolding add_all some_event any
  add_all-auth_failed c [] = ground arith
  add_all-auth_failed c (ev ∷ evs) =
      ground (arith, add_all-auth_failed (add Metrics c ev) evs, add-auth_failed c ev)

  add-model_reject :
      (c : Collector Metrics) (ev : Event Metrics)
      → (add Metrics c ev).model_reject ≡ (c.model_reject || is_model_rejected ev.type)
  unfolding add
  add-model_reject c ev = ground arith

  add_all-model_reject :
      (c : Collector Metrics) (evs : List (Event Metrics))
      → (add_all Metrics c evs).model_reject ≡ (c.model_reject || some_event is_model_rejected evs)
  unfolding add_all some_event any
  add_all-model_reject c [] = ground arith
  add_all-model_reject c (ev ∷ evs) =
      ground (arith, add_all-model_reject (add Metrics c ev) evs, add-model_reject c ev)

  add-rate_limited :
      (c : Collector Metrics) (ev : Event Metrics)
      → (add Metrics c ev).rate_limited ≡ (c.rate_limited || is_rate_limited ev.type)
  unfolding add
  add-rate_limited c ev = ground arith

  add_all-rate_limited :
      (c : Collector Metrics) (evs : List (Event Metrics))
      → (add_all Metrics c evs).rate_limited ≡ (c.rate_limited || some_event is_rate_limited evs)
  unfolding add_all some_event any
  add_all-rate_limited c [] = ground arith
  add_all-rate_limited c (ev ∷ evs) =
      ground (arith, add_all-rate_limited (add Metrics c ev) evs, add-rate_limited c ev)

  add-completed :
      (c : Collector Metrics) (ev : Event Metrics)
      → (add Metrics c ev).completed ≡ (c.completed || is_completed ev.type)
  unfolding add
  add-completed c ev = ground arith

  add_all-completed :
      (c : Collector Metrics) (evs : List (Event Metrics))
      → (add_all Metrics c evs).completed ≡ (c.completed || some_event is_completed evs)
  unfolding add_all some_event any
  add_all-completed c [] = ground arith
  add_all-completed c (ev ∷ evs) =
      ground (arith, add_all-completed (add Metrics c ev) evs, add-completed c ev)

  add-completed_err :
      (c : Collector Metrics) (ev : Event Metrics)
      → (add Metrics c ev).completed_err
        ≡ (if is_completed ev.type then ev.is_error else c.completed_err)
  unfolding add
  add-completed_err c ev = ground arith

  add_all-completed_err :
      (c : Collector Metrics) (evs : List (Event Metrics))
      → (add_all Metrics c evs).completed_err ≡ last_error Metrics c.completed_err evs
  unfolding add_all last_error
  add_all-completed_err c [] = refl
  add_all-completed_err c (ev ∷ evs) =
      add_all-completed_err (add Metrics c ev) evs
      ∙ ap (λ b. last_error Metrics b evs) (add-completed_err c ev)

  -- The events of a run that succeeded.
  abbrev pub Succeeds : List (Event Metrics) → ℤ → Type 0
  Succeeds evs code =
      (some_event is_auth_failed evs ≡ false)
      × ((some_event is_model_rejected evs ≡ false)
          × ((some_event is_completed evs ≡ true)
              × ((last_error Metrics false evs ≡ false) × (is_int_zero code ≡ true))))

  -- The events of a run that waits for its allowance.
  abbrev pub Waits : List (Event Metrics) → Type 0
  Waits evs =
      (some_event is_auth_failed evs ≡ false)
      × ((some_event is_model_rejected evs ≡ false)
          × ((some_event is_rate_limited evs ≡ true)
              × ((not (some_event is_completed evs) || last_error Metrics false evs) ≡ true)))

  classify-success :
      (c : Collector Metrics) (code : ℤ)
      → ((classify Metrics c code).0 ≡ RunStatus.success) ↔ (
          (c.auth_failed ≡ false)
          × ((c.model_reject ≡ false)
              × ((c.completed ≡ true) × ((c.completed_err ≡ false) × (is_int_zero code ≡ true)))))
  unfolding classify
  classify-success c code = ground arith

  classify-rate_limited :
      (c : Collector Metrics) (code : ℤ)
      → ((classify Metrics c code).0 ≡ RunStatus.rate_limited) ↔ (
          (c.auth_failed ≡ false)
          × ((c.model_reject ≡ false)
              × ((c.rate_limited ≡ true) × ((not c.completed || c.completed_err) ≡ true))))
  unfolding classify
  classify-rate_limited c code = ground arith

  -- A run is a success just when no event reports a failed login or a rejected model, some event
  -- completes it, the last that does reports no error, and the exit code is zero. Rate limits and
  -- failures that are reported besides do not matter.
  pub result-success :
      (session_id name : Text) (evs : List (Event Metrics)) (code : ℤ)
      → ((result Metrics (add_all Metrics (new Metrics session_id name) evs) code).status
          ≡ RunStatus.success)
        ↔ Succeeds evs code
  unfolding result new
  result-success session_id name evs code =
      let c = new Metrics session_id name in
      let end = add_all Metrics c evs in
      let (say, hold) = classify-success end code in
      (
        (λ h.
            let (a, (m, (k, (e, x)))) = say h in
            (
              sym (add_all-auth_failed c evs) ∙ a,
              (
                sym (add_all-model_reject c evs) ∙ m,
                (sym (add_all-completed c evs) ∙ k, (sym (add_all-completed_err c evs) ∙ e, x)),
              ),
            )),
        (λ (a, (m, (k, (e, x)))). hold (
          add_all-auth_failed c evs ∙ a,
          (
            add_all-model_reject c evs ∙ m,
            (add_all-completed c evs ∙ k, (add_all-completed_err c evs ∙ e, x)),
          ),
        )),
      )

  -- A run waits for its allowance just when no event reports a failed login or a rejected model,
  -- some event reports a rate limit, and the run did not complete or its last completion reports an
  -- error. The exit code does not matter.
  pub result-rate_limited :
      (session_id name : Text) (evs : List (Event Metrics)) (code : ℤ)
      → ((result Metrics (add_all Metrics (new Metrics session_id name) evs) code).status
          ≡ RunStatus.rate_limited)
        ↔ Waits evs
  unfolding result new
  result-rate_limited session_id name evs code =
      let c = new Metrics session_id name in
      let end = add_all Metrics c evs in
      let (say, hold) = classify-rate_limited end code in
      let over : (not end.completed || end.completed_err)
          ≡ (not (some_event is_completed evs) || last_error Metrics false evs) =
        ap (λ b. not b || end.completed_err) (add_all-completed c evs)
        ∙ ap (λ b. not (some_event is_completed evs) || b) (add_all-completed_err c evs) in
      (
        (λ h.
            let (a, (m, (k, e))) = say h in
            (
              sym (add_all-auth_failed c evs) ∙ a,
              (
                sym (add_all-model_reject c evs) ∙ m,
                (sym (add_all-rate_limited c evs) ∙ k, sym over ∙ e),
              ),
            )),
        (λ (a, (m, (k, e))). hold (
          add_all-auth_failed c evs ∙ a,
          (add_all-model_reject c evs ∙ m, (add_all-rate_limited c evs ∙ k, over ∙ e)),
        )),
      )
