-- ===== src/Provider/Collector.antt =====
-- `Collector` of internal/provider/collect.go: the events of one run, folded into its outcome.
use claudeq.Prelude.{
  ℕ, Bool, true, false, not, ◌&&◌, ◌||◌, Option, none, some, List, [], ◌∷◌, Text, if◌then◌else◌,
  ltb, is_empty,
}
use claudeq.Prelude.Strings.{Time, is_zero}
use claudeq.Prelude.Int.{ℤ, is_int_zero, is_minus_one}
use claudeq.Store.Run.{RunStatus}

pub data EventType : Type 0 where
  session_started completed rate_limited auth_failed model_rejected failed : EventType
  other_event : Text → EventType

module _ {ℓ} (Metrics : Type ℓ) where
  pub record Event : Type ℓ where
    pub type : EventType
    pub session_id : Text
    pub model : Text
    pub final_output : Text
    pub is_error : Bool
    pub metrics : Option Metrics
    pub detail : Text
    pub retry_after : ℕ
    pub reset_at : Time

  pub record Collector : Type ℓ where
    pub name : Text
    pub session_id : Text
    pub model : Text
    pub final_output : Text
    pub metrics : Option Metrics
    pub completed : Bool
    pub completed_err : Bool
    pub rate_limited : Bool
    pub auth_failed : Bool
    pub model_reject : Bool
    pub failed : Bool
    pub detail : Text
    pub limit_detail : Text
    pub retry_after : ℕ
    pub reset_at : Time

  -- `NewCollector`
  unfoldable pub new : Text → Text → Collector
  new session_id name = record {
    name = name;
    session_id = session_id;
    model = [];
    final_output = [];
    metrics = none;
    completed = false;
    completed_err = false;
    rate_limited = false;
    auth_failed = false;
    model_reject = false;
    failed = false;
    detail = [];
    limit_detail = [];
    retry_after = 0;
    reset_at = 0;
  }

  abbrev pub or_old : Option Metrics → Option Metrics → Option Metrics
  or_old none old = old
  or_old (some m) old = some m

  -- The first text that is not empty stays.
  abbrev pub keep_first : Text → Text → Text
  keep_first old new = if not (is_empty new) && is_empty old then new else old

  -- `noteDetail`
  abbrev pub note_detail : Text → Collector → Collector
  note_detail detail c = record c { detail = keep_first c.detail detail }

  abbrev pub add_as : EventType → Event → Collector → Collector
  add_as session_started ev c = record c {
    session_id = if is_empty ev.session_id then c.session_id else ev.session_id;
    model = keep_first c.model ev.model;
  }
  add_as completed ev c = record c {
    completed = true;
    completed_err = ev.is_error;
    final_output = ev.final_output;
    metrics = or_old ev.metrics c.metrics;
  }
  add_as EventType.rate_limited ev c = record c {
    rate_limited = true;
    limit_detail = keep_first c.limit_detail ev.detail;
    retry_after = if ltb 0 ev.retry_after then ev.retry_after else c.retry_after;
    reset_at = if is_zero ev.reset_at then c.reset_at else ev.reset_at;
  }
  add_as auth_failed ev c = note_detail ev.detail (record c { auth_failed = true })
  add_as model_rejected ev c = note_detail ev.detail (record c { model_reject = true })
  add_as EventType.failed ev c = note_detail ev.detail (record c { failed = true })
  add_as (other_event s) ev c = c

  unfoldable pub add : Collector → Event → Collector
  add c ev = add_as ev.type ev c

  unfoldable pub add_all : Collector → List Event → Collector
  unfolding add
  add_all c [] = c
  add_all c (ev ∷ evs) = add_all (add c ev) evs

  -- A message that the source words itself.
  pub data Message : Type 0 where
    no_message auth_problem model_problem limit_hit interrupted : Message
    as_reported : Text → Message
    exit_problem : ℤ → Message

  pub record Outcome : Type ℓ where
    pub session_id : Text
    pub model : Text
    pub status : RunStatus
    pub message : Message
    pub exit_code : ℤ
    pub retry_after : ℕ
    pub reset_at : Time
    pub final_output : Text
    pub metrics : Option Metrics

  abbrev pub detail_or : Text → Message → Message
  detail_or detail fallback = if is_empty detail then fallback else as_reported detail

  -- The status and the message, in the order of the source's switch.
  unfoldable pub classify : Collector → ℤ → RunStatus × Message
  classify c exit_code =
      if c.auth_failed
      then (RunStatus.auth_error, detail_or c.detail auth_problem)
      else if c.model_reject
      then (RunStatus.failed, detail_or c.detail model_problem)
      else if c.rate_limited && (not c.completed || c.completed_err)
      then (RunStatus.rate_limited, detail_or c.limit_detail limit_hit)
      else if c.completed && not c.completed_err && is_int_zero exit_code
      then (RunStatus.success, no_message)
      else if c.failed
      then (RunStatus.failed, detail_or c.detail (exit_problem exit_code))
      else if is_minus_one exit_code
      then (RunStatus.failed, interrupted)
      else (RunStatus.failed, exit_problem exit_code)

  unfoldable pub result : Collector → ℤ → Outcome
  unfolding classify
  result c exit_code = record {
    session_id = c.session_id;
    model = c.model;
    status = (classify c exit_code).0;
    message = (classify c exit_code).1;
    exit_code = exit_code;
    retry_after = c.retry_after;
    reset_at = c.reset_at;
    final_output = c.final_output;
    metrics = c.metrics;
  }

  abbrev pub is_rate_limited : RunStatus → Bool
  is_rate_limited RunStatus.rate_limited = true
  is_rate_limited _ = false

  unfoldable pub completed_rate_limit : Collector → Bool
  unfolding result
  completed_rate_limit c = c.completed && is_rate_limited (result c (ℤ.pos 0)).status
