-- ===== src/Worker/Queue/Redis.antt =====
-- `RedisQueue`: a consumer of a Redis stream. The server is not part of the repository: its five
-- commands are a parameter, and the queue keeps the message ids of the jobs in flight.
use ops_incident_core.Prelude.{
  ℕ, ◌≡◌, refl, Bool, true, false, Option, none, some, String, List, [], ◌∷◌, arith, ◌==◌,
  if◌then◌else◌, Bool-cases, inl, inr,
}
use ops_incident_core.Worker.Queue.Job.{Job, JobType, Payload, JobQueue}

-- An entry of the stream: the message id, and the job that its field "job" holds, if any.
abbrev pub Entry : Type 0
Entry = ℕ × Option Job

-- What the queue calls. `xgroup_create` and `xadd` say whether they returned; a reclaim that
-- raises gives no list. A job's JSON is read back as the job.
pub record StreamServer (S : Type 0) : Type 0 where
  pub fresh_id : S → ℕ
  pub xgroup_create : S → S × Bool
  pub xadd : Job → S → S × Bool
  pub xadd_failed : ℕ → String → S → S
  pub xautoclaim : S → S × Option (List Entry)
  pub xreadgroup : S → S × List Entry
  pub xack : ℕ → S → S

pub record RedisQueue (S : Type 0) : Type 0 where
  pub server : S
  pub group_ready : Bool
  pub inflight : List (ℕ × ℕ)

-- `self._inflight[job_id] = message_id`, and the two halves of `self._inflight.pop(job_id, None)`.
abbrev pub assign : ℕ → ℕ → List (ℕ × ℕ) → List (ℕ × ℕ)
assign k v [] = (k, v) ∷ []
assign k v (e ∷ d) = if e.0 == k then (k, v) ∷ d else e ∷ assign k v d

abbrev pub lookup : ℕ → List (ℕ × ℕ) → Option ℕ
lookup k [] = none
lookup k (e ∷ d) = if e.0 == k then some e.1 else lookup k d

abbrev pub remove : ℕ → List (ℕ × ℕ) → List (ℕ × ℕ)
remove k [] = []
remove k (e ∷ d) = if e.0 == k then remove k d else e ∷ remove k d

module _ {S : Type 0} (redis : StreamServer S) where
  open redis use {fresh_id, xgroup_create, xadd, xadd_failed, xautoclaim, xreadgroup, xack}

  -- An error other than BUSYGROUP is raised again: the flag then stays as it was.
  unfoldable pub ensure_group : RedisQueue S → RedisQueue S × Bool
  ensure_group q =
      if q.group_ready
      then (q, true)
      else let (server, created) = xgroup_create q.server in
        (record q { server = server; group_ready = created }, created)

  unfoldable pub enqueue : JobType → Payload → RedisQueue S → RedisQueue S × Bool
  unfolding ensure_group
  enqueue job_type payload q =
      let job : Job = record { id = fresh_id q.server; job_type = job_type; payload = payload } in
      let (q', ready) = ensure_group q in
      if ready
      then (let (server, added) = xadd job q'.server in (record q' { server = server }, added))
      else (q', false)

  -- The entries that the call works on: reclaimed ones first, then new ones.
  unfoldable pub next_entries : S → S × List Entry
  next_entries s =
      let (s', claimed) = xautoclaim s in
      elim claimed [
        | none ↦ xreadgroup s'
        | some entries ↦ elim entries [ [] ↦ xreadgroup s' | e ∷ es ↦ (s', e ∷ es) ]
      ]

  -- An entry without a job is acknowledged and dropped.
  unfoldable pub take_entry : RedisQueue S → List Entry → RedisQueue S × Option Job
  take_entry q [] = (q, none)
  take_entry q ((message_id, none) ∷ es) = (record q { server = xack message_id q.server }, none)
  take_entry q ((message_id, some job) ∷ es) =
      (record q { inflight = assign job.id message_id q.inflight }, some job)

  unfoldable pub dequeue : RedisQueue S → RedisQueue S × Option Job
  dequeue q =
      let (q', ready) = ensure_group q in
      if ready
      then (let (server, entries) = next_entries q'.server in
          take_entry (record q' { server = server }) entries)
      else (q', none)

  unfoldable pub acknowledge : ℕ → RedisQueue S → RedisQueue S
  acknowledge job_id q =
      let rest = remove job_id q.inflight in
      elim (lookup job_id q.inflight) [
        | none ↦ record q { inflight = rest }
        | some message_id ↦ record q { inflight = rest; server = xack message_id q.server }
      ]

  unfoldable pub fail : ℕ → String → RedisQueue S → RedisQueue S
  fail job_id error q =
      let rest = remove job_id q.inflight in
      let server = xadd_failed job_id error q.server in
      elim (lookup job_id q.inflight) [
        | none ↦ record q { inflight = rest; server = server }
        | some message_id ↦ record q { inflight = rest; server = xack message_id server }
      ]

  abbrev pub redis_queue : JobQueue (RedisQueue S)
  redis_queue = record {
    enqueue = enqueue;
    dequeue = dequeue;
    acknowledge = acknowledge;
    fail = fail;
  }

  lookup-assign : (k v : ℕ) (d : List (ℕ × ℕ)) → lookup k (assign k v d) ≡ some v
  lookup-assign k v [] = ground arith
  lookup-assign k v (e ∷ d) = ground (arith, lookup-assign k v d)

  lookup-remove : (k : ℕ) (d : List (ℕ × ℕ)) → lookup k (remove k d) ≡ none
  lookup-remove k [] = refl
  lookup-remove k (e ∷ d) = ground (arith, lookup-remove k d)

  take_entry_inflight :
      (q : RedisQueue S) (entries : List Entry) {job : Job}
      → (take_entry q entries).1 ≡ some job
      → (m : ℕ) × (lookup job.id (take_entry q entries).0.inflight ≡ some m)
  unfolding take_entry
  take_entry_inflight q [] e = cc
  take_entry_inflight q ((m, none) ∷ es) e = cc
  take_entry_inflight q ((m, some j) ∷ es) {job} e =
      (m, ground (arith, lookup-assign j.id m q.inflight))

  dequeue_inflight :
      (q : RedisQueue S) {job : Job}
      → (dequeue q).1 ≡ some job
      → (m : ℕ) × (lookup job.id (dequeue q).0.inflight ≡ some m)
  unfolding dequeue
  dequeue_inflight q {job} e =
      let q' = (ensure_group q).0 in
      let found = next_entries q'.server in
      elim (Bool-cases (ensure_group q).1) [
        | inl t ↦
            rw t
              (take_entry_inflight (record q' { server = found.0 }) found.1 {job = job} (rw t at e))
        | inr f ↦ absurd (ground arith)
      ]

  acknowledge_found :
      (k m : ℕ) (q : RedisQueue S)
      → lookup k q.inflight ≡ some m
      → ((acknowledge k q).server ≡ xack m q.server)
        × ((acknowledge k (acknowledge k q)).server ≡ xack m q.server)
  unfolding acknowledge
  acknowledge_found k m q e = ground (arith, lookup-remove k q.inflight)

  -- A job that was handed out is in flight under the id of its message; acknowledging it sends
  -- that id to the server, once: a second acknowledgement finds nothing to send.
  pub acknowledge_once :
      (q : RedisQueue S) {job : Job}
      → (dequeue q).1 ≡ some job
      → let q' = (dequeue q).0 in
        (m : ℕ) × (((acknowledge job.id q').server ≡ xack m q'.server)
          × ((acknowledge job.id (acknowledge job.id q')).server ≡ xack m q'.server))
  acknowledge_once q {job} e =
      let (m, found) = dequeue_inflight q e in (m, acknowledge_found job.id m (dequeue q).0 found)
