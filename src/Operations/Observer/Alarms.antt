-- ===== src/Operations/Observer/Alarms.antt =====
-- When an observer raises the alarm.
use ops_incident_core.Prelude.{
  ℕ, ◌*◌, max, ◌≡◌, refl, ◌∙◌, Bool, true, false, ◌&&◌, ◌||◌, Option, none, some, String, List, [],
  ◌∷◌, ◌++◌, arith, any, take, when, if◌then◌else◌, ltb, leb, or_default, Bool-cases, inl, inr,
}
use text.Mathlib.Text.{◌==◌ as str_eq}
use ops_incident_core.Operations.Observer.{
  ObserverSettings, Observed, Observation, EvalSummary, sum_files, sum_parser_errors,
  parser_findings, count_failed, count_stale, recall_of, eval_findings, observe, is_high,
  completed_severity,
}

any_high-append :
    (xs ys : List Observation) → any is_high (xs ++ ys) ≡ (any is_high xs || any is_high ys)
any_high-append [] ys = refl
any_high-append (x ∷ xs) ys = ground (arith, any_high-append xs ys)

-- The parser loses twice the share that is allowed.
abbrev pub is_spike : ObserverSettings → Observed → Bool
is_spike settings seen =
    let window = take settings.observer_sync_window seen.syncs in
    ltb 0 (sum_parser_errors window)
    && leb (settings.observer_parser_error_rate_threshold * 2 * max (sum_files window) 1)
        (sum_parser_errors window * 10000)

abbrev pub has_low_recall : ObserverSettings → Option EvalSummary → Bool
has_low_recall settings none = false
has_low_recall settings (some summary) = ltb (recall_of summary) settings.observer_min_eval_recall

high_when : (b : Bool) (name : String) → any is_high (when b (name, "high")) ≡ b
high_when true name = refl
high_when false name = refl

medium_when : (b : Bool) (name : String) → any is_high (when b (name, "medium")) ≡ false
medium_when true name = refl
medium_when false name = refl

-- A finding that is high where a test holds that its own test follows from.
graded_when :
    (b high : Bool) (name : String)
    → (high ≡ true → b ≡ true)
    → any is_high (when b (name, (if high then "high" else "medium"))) ≡ high
graded_when true true name h = refl
graded_when true false name h = refl
graded_when false true name h = ground arith
graded_when false false name h = refl

spike_findings :
    (threshold files errors : ℕ)
    → any is_high (parser_findings threshold files errors)
      ≡ (ltb 0 errors && leb (threshold * 2 * max files 1) (errors * 10000))
unfolding parser_findings
spike_findings threshold files errors = elim (Bool-cases (ltb 0 errors)) [
  | inl e ↦ rw e (
      graded_when (leb (threshold * max files 1) (errors * 10000))
        (leb (threshold * 2 * max files 1) (errors * 10000)) "parser_loss_spike"
        (λ h. ground arith))
  | inr e ↦ rw e refl
]

high_eval :
    (settings : ObserverSettings) (summary : Option EvalSummary)
    → any is_high (eval_findings settings summary) ≡ has_low_recall settings summary
unfolding eval_findings
high_eval settings none = refl
high_eval settings (some summary) =
    let recall : List Observation =
      when (ltb (recall_of summary) settings.observer_min_eval_recall)
        ("retrieval_recall_regression", "high") in
    let wrong : List Observation =
      when
        (ltb settings.observer_max_wrong_source_type_rate
          (or_default summary.wrong_source_type_rate 0))
        ("wrong_source_type_rate", "medium") in
    let slow : List Observation =
      when (ltb settings.observer_eval_p95_latency_ms (or_default summary.latency_p95_ms 0))
        ("eval_latency_regression", "medium") in
    any_high-append (recall ++ wrong) slow
    ∙ rw
        (
          any_high-append recall wrong,
          high_when (ltb (recall_of summary) settings.observer_min_eval_recall)
              "retrieval_recall_regression",
          medium_when
              (ltb settings.observer_max_wrong_source_type_rate
                (or_default summary.wrong_source_type_rate 0))
              "wrong_source_type_rate",
          medium_when
              (ltb settings.observer_eval_p95_latency_ms (or_default summary.latency_p95_ms 0))
              "eval_latency_regression",
        )
        (ground arith)

severity_word :
    (findings : List Observation)
    → str_eq (completed_severity findings) "high" ≡ any is_high findings
unfolding completed_severity
severity_word findings = elim (Bool-cases (any is_high findings)) [
  | inl e ↦ rw e refl
  | inr e ↦ rw e refl
]

-- An observer reports high severity exactly where the parser has lost at least twice the share that
-- is allowed, an index job has failed, or the newest evaluation recalls less than it has to; stale
-- jobs, wrong types of sources and slow evaluations alone do not raise it.
pub observe_lem :
    (settings : ObserverSettings) (seen : Observed)
    → str_eq (completed_severity (observe settings seen)) "high" ≡ (
        is_spike settings seen
        || ltb 0 (count_failed seen.index_jobs)
        || has_low_recall settings seen.latest_eval)
unfolding observe
observe_lem settings seen =
    let window = take settings.observer_sync_window seen.syncs in
    let spike =
      parser_findings settings.observer_parser_error_rate_threshold (sum_files window)
        (sum_parser_errors window) in
    let failures : List Observation =
      when (ltb 0 (count_failed seen.index_jobs)) ("index_job_failures", "high") in
    let stale : List Observation =
      when (ltb 0 (count_stale seen.index_jobs)) ("stale_index_version", "medium") in
    let eval = eval_findings settings seen.latest_eval in
    severity_word (observe settings seen)
    ∙ (any_high-append (spike ++ failures ++ stale) eval
        ∙ rw
            (
              any_high-append (spike ++ failures) stale,
              any_high-append spike failures,
              spike_findings settings.observer_parser_error_rate_threshold (sum_files window)
                  (sum_parser_errors window),
              high_when (ltb 0 (count_failed seen.index_jobs)) "index_job_failures",
              medium_when (ltb 0 (count_stale seen.index_jobs)) "stale_index_version",
              high_eval settings seen.latest_eval,
            )
            (ground arith))
