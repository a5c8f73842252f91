-- ===== src/Readiness/Score/Bounds.antt =====
-- What the score says about the evidence.
use ops_incident_core.Prelude.{
  ℕ, ◌+◌, ◌-◌, ◌≤◌, ◌≡◌, ◌≢◌, Bool, true, false, arith, min, if◌then◌else◌, ◌==◌,
}
use ops_incident_core.Prelude.Int.{ℤ, pos, pos_part, min_ℤ, max_ℤ, pos_part-sub}
use ops_incident_core.Readiness.Score.{
  Coverage, Snapshot, excellent, weight, evidence_score, parser_penalty, latest_failed,
  latest_parser_errors, is_static_only, after_sync, after_latest, after_errors, after_chunks,
  after_static, raw_score, score, grade,
}

weight-le : (b : Bool) (n : ℕ) → weight b n ≤ n
unfolding weight
weight-le b n = ground arith

weight-false : (b : Bool) (n : ℕ) → b ≡ false → weight b n ≡ 0
unfolding weight
weight-false b n h = ground arith

-- Without logs, deploys, runbooks and incidents the evidence is worth 40 at most.
evidence_score_static : (c : Coverage) → is_static_only c ≡ true → evidence_score c ≤ 40
unfolding evidence_score is_static_only
evidence_score_static c h =
    let no_logs = weight-false c.has_logs 20 (ground arith) in
    let no_deploys = weight-false c.has_deploys 15 (ground arith) in
    let no_runbooks = weight-false c.has_runbooks 15 (ground arith) in
    let no_incidents = weight-false c.has_incidents 10 (ground arith) in
    omega (
      arith,
      weight-le c.has_code 15,
      weight-le c.has_docs 10,
      weight-le c.has_configs 10,
      weight-le c.has_api_docs 5,
    )

-- What is taken away for the state of the syncs.
abbrev pub deductions : Snapshot → ℕ
deductions s =
    (if s.successful_syncs == 0 then 30 else 0)
    + (if latest_failed s.latest_sync then 20 else 0)
    + parser_penalty (latest_parser_errors s.latest_sync)

pos_part-min : (a : ℤ) (n : ℕ) → pos_part (min_ℤ a (pos n)) ≡ min (pos_part a) n
unfolding min_ℤ
pos_part-min a n = ground arith

pos_part-clamp : (a : ℤ) → pos_part (max_ℤ (pos 0) (min_ℤ (pos 100) a)) ≡ min 100 (pos_part a)
unfolding min_ℤ max_ℤ
pos_part-clamp a = ground arith

after_penalties :
    (s : Snapshot) (n : ℕ)
    → pos_part (after_errors s (after_latest s (after_sync s (pos n)))) ≡ n - deductions s
unfolding after_errors after_latest after_sync
after_penalties s n = grind (arith, pos_part-sub)

-- The score of a project with documents, as natural numbers: the worth of the evidence less the
-- deductions, at most 20 without chunks, at most 100. The limit of 55 for code and docs alone
-- takes nothing away, since such evidence is worth 40 at most.
pub score_lem :
    (s : Snapshot) (c : Coverage)
    → s.document_count ≢ 0
    → let rest = evidence_score c - deductions s in
      (score s c).0 ≡ min 100 (if s.chunk_count == 0 then min rest 20 else rest)
unfolding score raw_score after_static after_chunks
score_lem s c h =
    let x = after_errors s (after_latest s (after_sync s (pos (evidence_score c)))) in
    ground (
      arith,
      after_penalties s (evidence_score c),
      evidence_score_static c,
      pos_part-clamp (raw_score s c),
      pos_part-min x 20,
      pos_part-min x 55,
      pos_part-min (min_ℤ x (pos 20)) 55,
    )

evidence_score_no_logs : (c : Coverage) → c.has_logs ≡ false → evidence_score c ≤ 80
unfolding evidence_score
evidence_score_no_logs c h = omega (
  arith,
  weight-false c.has_logs 20 h,
  weight-le c.has_code 15,
  weight-le c.has_docs 10,
  weight-le c.has_configs 10,
  weight-le c.has_deploys 15,
  weight-le c.has_runbooks 15,
  weight-le c.has_incidents 10,
  weight-le c.has_api_docs 5,
)

evidence_score-le : (c : Coverage) → evidence_score c ≤ 100
unfolding evidence_score
evidence_score-le c = omega (
  arith,
  weight-le c.has_code 15,
  weight-le c.has_docs 10,
  weight-le c.has_configs 10,
  weight-le c.has_logs 20,
  weight-le c.has_deploys 15,
  weight-le c.has_runbooks 15,
  weight-le c.has_incidents 10,
  weight-le c.has_api_docs 5,
)

score_no_documents : (s : Snapshot) (c : Coverage) → s.document_count ≡ 0 → (score s c).0 ≡ 0
unfolding score
score_no_documents s c h = ground arith

grade_excellent_lem : (n : ℕ) → grade n ≡ excellent → 85 ≤ n
unfolding grade
grade_excellent_lem n h = ground arith

-- A project is graded excellent only if it has documents, chunks and logs, some sync has
-- succeeded, and the latest one has not failed.
pub grade_excellent :
    (s : Snapshot) (c : Coverage)
    → grade (score s c).0 ≡ excellent
    → (s.document_count ≢ 0)
      × (s.chunk_count ≢ 0)
      × (s.successful_syncs ≢ 0)
      × (latest_failed s.latest_sync ≡ false)
      × (c.has_logs ≡ true)
grade_excellent s c h = ground (
  arith,
  grade_excellent_lem (score s c).0 h,
  score_no_documents s c,
  score_lem s c,
  evidence_score-le c,
  evidence_score_no_logs c,
)
