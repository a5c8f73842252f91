-- ===== src/Worker/Queue/Inline.antt =====
-- `InlineQueue`: the FIFO queue in the process. Its `deque` is a list with the oldest job first;
-- `uuid4` is a counter, so that every job has an id of its own.
use mathlib.Core.List.{append-nil, append_assoc, map-append}
use ops_incident_core.Prelude.{
  ℕ, zero, suc, ◌+◌, ◌≤◌, ◌≡◌, refl, sym, ap, ◌∙◌, Bool, true, Option, none, some, String, List, [],
  ◌∷◌, ◌++◌, map, length, arith, length-map,
}
use ops_incident_core.Worker.Queue.Job.{Job, JobType, Payload, JobQueue}

pub record InlineQueue : Type 0 where
  pub jobs : List Job
  pub failed : List (ℕ × String)
  pub next_id : ℕ

unfoldable pub enqueue : JobType → Payload → InlineQueue → InlineQueue × Bool
enqueue job_type payload q = (
  record q {
    jobs = q.jobs ++ record { id = q.next_id; job_type = job_type; payload = payload } ∷ [];
    next_id = q.next_id + 1;
  },
  true,
)

unfoldable pub pop_left : InlineQueue → List Job → InlineQueue × Option Job
pop_left q [] = (q, none)
pop_left q (job ∷ jobs) = (record q { jobs = jobs }, some job)

unfoldable pub dequeue : InlineQueue → InlineQueue × Option Job
unfolding pop_left
dequeue q = pop_left q q.jobs

unfoldable pub acknowledge : ℕ → InlineQueue → InlineQueue
acknowledge job_id q = q

-- `self.failed[job_id] = error[:1000]`. A job id is new, so the entry is added; the errors that
-- the worker hands over are at most 64 characters long.
unfoldable pub fail : ℕ → String → InlineQueue → InlineQueue
fail job_id error q = record q { failed = (job_id, error) ∷ q.failed }

abbrev pub inline_queue : JobQueue InlineQueue
inline_queue = record {
  enqueue = enqueue;
  dequeue = dequeue;
  acknowledge = acknowledge;
  fail = fail;
}

-- Enqueueing a list of requests, and dequeueing a number of jobs.
pub enqueue_all : List (JobType × Payload) → InlineQueue → InlineQueue
enqueue_all [] q = q
enqueue_all ((t, p) ∷ rest) q = enqueue_all rest (enqueue t p q).0

pub dequeue_all : ℕ → InlineQueue → InlineQueue × List Job
dequeue_all zero q = (q, [])
dequeue_all (suc n) q =
    let (q', job) = dequeue q in
    elim job [ none ↦ (q', []) | some j ↦ (let (q'', js) = dequeue_all n q' in (q'', j ∷ js)) ]

-- The jobs as they were enqueued: their type and payload.
abbrev pub request : Job → JobType × Payload
request job = (job.job_type, job.payload)

enqueue_all-jobs :
    (requests : List (JobType × Payload)) (q : InlineQueue)
    → map request (enqueue_all requests q).jobs ≡ map request q.jobs ++ requests
unfolding enqueue_all enqueue
enqueue_all-jobs [] q = sym (append-nil _)
enqueue_all-jobs ((t, p) ∷ rest) q =
    rw (enqueue_all-jobs rest (enqueue t p q).0, map-append, append_assoc) refl

dequeue_all-jobs :
    (n : ℕ) (q : InlineQueue) (jobs : List Job)
    → q.jobs ≡ jobs
    → length jobs ≤ n
    → ((dequeue_all n q).1 ≡ jobs) × ((dequeue_all n q).0.jobs ≡ [])
unfolding dequeue_all dequeue
dequeue_all-jobs zero q [] e h = (refl, e)
dequeue_all-jobs zero q (j ∷ js) e h = absurd (omega arith)
dequeue_all-jobs (suc n) q [] e h = ground arith
dequeue_all-jobs (suc n) q (j ∷ js) e h =
    ground (arith, dequeue_all-jobs n (record q { jobs = js }) js refl)

-- First in, first out: from an empty queue, the requests come back in the order in which they
-- were made, and the queue is empty again.
pub dequeue_all-enqueue_all :
    (requests : List (JobType × Payload)) (q : InlineQueue) (n : ℕ)
    → q.jobs ≡ []
    → length requests ≤ n
    → let (q', jobs) = dequeue_all n (enqueue_all requests q) in
      (map request jobs ≡ requests) × (q'.jobs ≡ [])
dequeue_all-enqueue_all requests q n e h =
    let q' = enqueue_all requests q in
    let made : map request q'.jobs ≡ requests =
      enqueue_all-jobs requests q ∙ ap (λ js. map request js ++ requests) e in
    let (same, none_left) =
      dequeue_all-jobs n q' q'.jobs refl
        (omega (arith, length-map q'.jobs request, ap (length {0}) made)) in
    (ap (map request) same ∙ made, none_left)
