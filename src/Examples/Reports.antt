-- ===== src/Examples/Reports.antt =====
-- What the collector, the health cache and the limits monitor make of a few reports.
use claudeq.Prelude.{
  ℕ, ◌+◌, ◌≡◌, ◌↔◌, refl, true, false, ◌&&◌, none, some, List, [], ◌∷◌, codes, ◌==◌, text_eq, ltb,
  if◌then◌else◌,
}
use claudeq.Prelude.Assoc.{Assoc}
use claudeq.Prelude.Int.{pos}
use claudeq.Store.Run.{RunStatus}
use claudeq.Provider.Collector.{Event, EventType, completed, session_started, new, add_all, result}
use claudeq.Provider.CollectorLaws.{Succeeds, Waits, result-success, result-rate_limited}
use claudeq.Provider.Health.{fingerprint, check, check_fresh, probe, ttl_or_default}
use claudeq.Provider.HealthLaws.{check-check_fresh}
use claudeq.Provider.Monitor.{read_failed, Entry, get, remembered}
use claudeq.Provider.MonitorLaws.{get-windows}
use claudeq.Examples.Providers.{whole, claude, half_used, is_fine}

abbrev event_of : EventType → Event ℕ
event_of type = record {
  type = type;
  session_id = codes "s";
  model = [];
  final_output = [];
  is_error = false;
  metrics = none;
  detail = [];
  retry_after = 0;
  reset_at = 0;
}

abbrev good_run : List (Event ℕ)
good_run = event_of session_started ∷ event_of EventType.rate_limited ∷ event_of completed ∷ []

good_run_succeeds : (result ℕ (add_all ℕ (new ℕ [] []) good_run) (pos 0)).status ≡ RunStatus.success
unfolding result add_all new
good_run_succeeds = refl

result-success_example :
    ((result ℕ (add_all ℕ (new ℕ [] []) good_run) (pos 0)).status ≡ RunStatus.success)
    ↔ Succeeds ℕ good_run (pos 0)
result-success_example = result-success ℕ [] [] good_run (pos 0)

result-rate_limited_example :
    ((result ℕ (add_all ℕ (new ℕ [] []) good_run) (pos 1)).status ≡ RunStatus.rate_limited)
    ↔ Waits ℕ good_run
result-rate_limited_example = result-rate_limited ℕ [] [] good_run (pos 1)

check-check_fresh_example :
    check 20 claude 15 none false (check_fresh claude 10 (some is_fine) false []).1 ≡ (
      if fingerprint claude == fingerprint claude
        && ltb 15 ((probe claude 10 (some is_fine)).checked_at + ttl_or_default 20)
      then (probe claude 10 (some is_fine), (check_fresh claude 10 (some is_fine) false []).1)
      else check_fresh claude 15 none false (check_fresh claude 10 (some is_fine) false []).1)
check-check_fresh_example =
    check-check_fresh 20 claude claude 10 15 (some is_fine) none false [] refl

abbrev remembering : Assoc (Entry whole)
remembering = (codes "claude", record { fingerprint = fingerprint claude; limits = half_used }) ∷ []

get-windows_example :
    (get whole 0 claude 90 (read_failed []) true true true remembering).0.windows
    ≡ half_used.windows
unfolding remembered text_eq fingerprint
get-windows_example =
    get-windows whole 0 claude 90 [] true true true remembering half_used refl refl
