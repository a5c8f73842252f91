-- ===== src/Operations/Jobs/Kept.antt =====
-- What a change of one row, and a row that is added, keep of a table.
use ops_incident_core.Prelude.{
  ℕ, ◌+◌, ◌≡◌, refl, sym, ap, subst, by_cases, ◌∙◌, inl, inr, Bool, true, false, Option, none, some,
  List, [], ◌∷◌, ◌++◌, arith, if◌then◌else◌, ◌==◌, Bool-cases,
}
use ops_incident_core.Prelude.Text.{Text}
use ops_incident_core.Db.{find_row, update_row}
use ops_incident_core.Operations.Runs.{RunType, is_terminal, OperationalRun, Operations, find_key}
use ops_incident_core.Operations.Jobs.Actions.{HasUniqueIds, starts}
use ops_incident_core.Operations.Jobs.Changes.{IsChange}

abbrev pub attempts_of : Option OperationalRun → ℕ
attempts_of none = 0
attempts_of (some run) = run.attempts

-- The log has a start for every attempt of every run, and none of a run that is not there.
abbrev pub IsLogged : Operations → Type 0
IsLogged ops = (k : ℕ) → attempts_of (find_row OperationalRun.id k ops.runs) ≡ starts k ops.events

pub record Keeps (ops ops' : Operations) : Type 0 where
  pub unique : HasUniqueIds ops'.runs
  pub logged : IsLogged ops → IsLogged ops'
  pub final :
      (k : ℕ) {run : OperationalRun}
      → find_row OperationalRun.id k ops.runs ≡ some run
      → is_terminal run.status ≡ true
      → find_row OperationalRun.id k ops'.runs ≡ some run

pub nothing-Keeps : (ops : Operations) → HasUniqueIds ops.runs → Keeps ops ops
nothing-Keeps ops u = record { unique = u; logged = λ h. h; final = λ k e t. e }

pub both-Keeps : (a b c : Operations) → Keeps a b → Keeps b c → Keeps a c
both-Keeps a b c x y = record {
  unique = y.unique;
  logged = λ h. y.logged (x.logged h);
  final = λ k e t. y.final k (x.final k e t) t;
}

find_changed :
    (j k : ℕ) (new : OperationalRun) (runs : List OperationalRun) {run : OperationalRun}
    → new.id ≡ j
    → find_row OperationalRun.id j runs ≡ some run
    → find_row OperationalRun.id k (update_row OperationalRun.id j (λ _. new) runs)
      ≡ (if j == k then some new else find_row OperationalRun.id k runs)
find_changed j k new [] i e = ground arith
find_changed j k new (r ∷ rs) {run} i e = ground (arith, find_changed j k new rs {run = run} i)

absent_changed :
    (k j : ℕ) (new : OperationalRun) (runs : List OperationalRun)
    → new.id ≡ j
    → find_row OperationalRun.id k runs ≡ none
    → find_row OperationalRun.id k (update_row OperationalRun.id j (λ _. new) runs) ≡ none
absent_changed k j new [] i e = refl
absent_changed k j new (r ∷ rs) i e = ground (arith, absent_changed k j new rs i)

changed-HasUniqueIds :
    (j : ℕ) (new : OperationalRun) (runs : List OperationalRun)
    → new.id ≡ j
    → HasUniqueIds runs
    → HasUniqueIds (update_row OperationalRun.id j (λ _. new) runs)
changed-HasUniqueIds j new [] i u = tt
changed-HasUniqueIds j new (r ∷ rs) i u =
    by_cases HasUniqueIds (r.id == j) _ _
      (λ t.
        let same : r.id ≡ new.id = ground (arith, i) in
        (subst (λ x. find_row OperationalRun.id x rs ≡ none) same u.0, u.1))
      (λ f. (absent_changed r.id j new rs i u.0, changed-HasUniqueIds j new rs i u.1))

-- The row that is changed is not the one that has ended.
other_row :
    (run r new : OperationalRun) (k : ℕ) (runs : List OperationalRun)
    → find_row OperationalRun.id run.id runs ≡ some run
    → is_terminal run.status ≡ false
    → find_row OperationalRun.id k runs ≡ some r
    → is_terminal r.status ≡ true
    → (if run.id == k then some new else find_row OperationalRun.id k runs) ≡ some r
other_row run r new k runs found h e t = elim (Bool-cases (run.id == k)) [
  | inl b ↦
      let same : run.id ≡ k = ground arith in
      let is : some run ≡ some r =
        sym found ∙ (ap (λ j. find_row OperationalRun.id j runs) same ∙ e) in
      absurd (cc (h, t, is))
  | inr b ↦ rw b e
]

-- One row of the table and of the log, after a change.
change_logged :
    (run : OperationalRun) (ops ops' : Operations) (k : ℕ)
    → find_row OperationalRun.id run.id ops.runs ≡ some run
    → (change : IsChange run ops ops') → IsLogged ops
    → attempts_of (find_row OperationalRun.id k ops'.runs) ≡ starts k ops'.events
change_logged run ops ops' k found change logged =
    let there =
      ap (λ rs. find_row OperationalRun.id k rs) change.runs_updated
      ∙ find_changed run.id k change.new ops.runs {run = run} change.same_id found in
    let before : run.attempts ≡ starts run.id ops.events =
      sym (ap attempts_of found) ∙ logged run.id in
    elim (Bool-cases (run.id == k)) [
      | inl t ↦
          let same : run.id ≡ k = ground arith in
          rw (there, change.starts_logged k, t)
            (change.attempts_added
              ∙ ap (λ n. n + change.started) (before ∙ ap (λ j. starts j ops.events) same))
      | inr f ↦ rw (there, change.starts_logged k, f) (logged k ∙ omega arith)
    ]

pub change-Keeps :
    (run : OperationalRun) (ops ops' : Operations)
    → HasUniqueIds ops.runs
    → find_row OperationalRun.id run.id ops.runs ≡ some run
    → is_terminal run.status ≡ false
    → IsChange run ops ops'
    → Keeps ops ops'
change-Keeps run ops ops' u found h change = record {
  unique =
      subst HasUniqueIds (sym change.runs_updated)
        (changed-HasUniqueIds run.id change.new ops.runs change.same_id u);
  logged = λ l k. change_logged run ops ops' k found change l;
  final = λ k {run = r} e t.
      ap (λ rs. find_row OperationalRun.id k rs) change.runs_updated
      ∙ (find_changed run.id k change.new ops.runs {run = run} change.same_id found
          ∙ other_row run r change.new k ops.runs found h e t);
}

pub find_added :
    (k : ℕ) (runs : List OperationalRun) (new : OperationalRun)
    → find_row OperationalRun.id new.id runs ≡ none
    → find_row OperationalRun.id k (runs ++ new ∷ [])
      ≡ (if new.id == k then some new else find_row OperationalRun.id k runs)
find_added k [] new e = refl
find_added k (r ∷ rs) new e = ground (arith, find_added k rs new)

added-HasUniqueIds :
    (runs : List OperationalRun) (new : OperationalRun)
    → find_row OperationalRun.id new.id runs ≡ none
    → HasUniqueIds runs
    → HasUniqueIds (runs ++ new ∷ [])
added-HasUniqueIds [] new e u = (refl, tt)
added-HasUniqueIds (r ∷ rs) new e u =
    let rest : find_row OperationalRun.id new.id rs ≡ none = ground arith in
    (find_added r.id rs new rest ∙ ground arith, added-HasUniqueIds rs new rest u.1)

added_logged :
    (new : OperationalRun) (ops : Operations) (k : ℕ)
    → find_row OperationalRun.id new.id ops.runs ≡ none
    → new.attempts ≡ 0
    → IsLogged ops
    → attempts_of (find_row OperationalRun.id k (ops.runs ++ new ∷ [])) ≡ starts k ops.events
added_logged new ops k e zero_attempts logged =
    ap attempts_of (find_added k ops.runs new e) ∙ elim (Bool-cases (new.id == k)) [
      | inl t ↦
          let same : new.id ≡ k = ground arith in
          rw t (
            zero_attempts
            ∙ (ap attempts_of (sym e) ∙ (logged new.id ∙ ap (λ j. starts j ops.events) same)))
      | inr f ↦ rw f (logged k)
    ]

-- A row that is added, with no attempt and under an identifier that is not in use.
pub added-Keeps :
    (new : OperationalRun) (ops : Operations)
    → HasUniqueIds ops.runs
    → find_row OperationalRun.id new.id ops.runs ≡ none
    → new.attempts ≡ 0
    → Keeps ops (record ops { runs = ops.runs ++ new ∷ [] })
added-Keeps new ops u e zero_attempts = record {
  unique = added-HasUniqueIds ops.runs new e u;
  logged = λ l k. added_logged new ops k e zero_attempts l;
  final = λ k {run = r} found t. find_added k ops.runs new e ∙ ground arith;
}

first_found :
    (b : Bool) (r : OperationalRun) (rs : List OperationalRun) (other : Option OperationalRun)
    {run : OperationalRun}
    → (if b then some r else other) ≡ some run
    → (other ≡ some run → find_row OperationalRun.id run.id rs ≡ some run)
    → find_row OperationalRun.id r.id rs ≡ none
    → find_row OperationalRun.id run.id (r ∷ rs) ≡ some run
first_found true r rs other {run} e rest absent =
    let same : r ≡ run = cc in
    subst (λ x. find_row OperationalRun.id (OperationalRun.id x) (r ∷ rs) ≡ some x) same
      (ground arith)
first_found false r rs other {run} e rest absent = elim (Bool-cases (r.id == run.id)) [
  | inl t ↦
      let same : r.id ≡ run.id = ground arith in
      absurd (cc (rest e, absent, ap (λ j. find_row OperationalRun.id j rs) same))
  | inr f ↦ rw f (rest e)
]

-- The row that a key finds is the row of its identifier.
pub find_key_found :
    (project_id : ℕ) (run_type : RunType) (key : Text) (runs : List OperationalRun)
    {run : OperationalRun}
    → HasUniqueIds runs
    → find_key project_id run_type key runs ≡ some run
    → find_row OperationalRun.id run.id runs ≡ some run
unfolding find_key
find_key_found project_id run_type key [] u e = ground arith
find_key_found project_id run_type key (r ∷ rs) {run} u e =
    first_found _ r rs (find_key project_id run_type key rs) {run = run} e
      (find_key_found project_id run_type key rs {run = run} u.1) u.0
