-- ===== src/Worker/Jobs.antt =====
-- src/quant_pilot/workers/queue.py, `InMemoryJobQueue`, and the job endpoints of
-- src/quant_pilot/api/routers/jobs.py. The function that a job names is an argument: `inl` is its
-- result, `inr` the text of its exception. The stream asks a queue whose state may change between
-- two questions.
use quant_pilot.Base.{
  ℕ, zero, suc, ◌≤◌, String, ◌≡◌, ◌⊎◌, inl, inr, refl, Bool, true, false, ◌||◌, Option, none, some,
  List, [], ◌∷◌, ◌++◌, ◌+◌, All, ap, str_eq, maybe, if◌then◌else◌, arith, Bool-cases, if-cases,
}
use quant_pilot.Base.Dict.{Dict, lookup, insert, lookup-insert_self}

pub record JobStatus : Type 0 where
  pub id : String
  pub status : String
  pub result : Option String
  pub error : Option String

pub record InMemoryJobQueue : Type 0 where
  pub jobs : Dict JobStatus
  pub eager : Bool

unfoldable pub finished_job : String → Option String → JobStatus
finished_job job_id result = record {
  id = job_id;
  status = "finished";
  result = result;
  error = none;
}

-- The new queue; `enqueue` returns the id.
unfoldable pub enqueue : InMemoryJobQueue → String → (String ⊎ String) → InMemoryJobQueue
enqueue q job_id run =
    if q.eager
    then elim run [
      | inl result ↦ record q { jobs = insert job_id (finished_job job_id (some result)) q.jobs }
      | inr e ↦ record q {
        jobs =
            insert job_id (record { id = job_id; status = "failed"; result = none; error = some e })
              q.jobs;
      }
    ]
    else record q { jobs = insert job_id (finished_job job_id none) q.jobs }

unfoldable pub job_status : InMemoryJobQueue → String → JobStatus
job_status q job_id =
    maybe (lookup job_id q.jobs)
      (record { id = job_id; status = "unknown"; result = none; error = none }) λ job. job

-- `status.status in _TERMINAL`
unfoldable pub is_terminal : JobStatus → Bool
is_terminal job =
    str_eq job.status "finished" || (str_eq job.status "failed" || str_eq job.status "unknown")

abbrev pub max_events : ℕ
max_events = 600

-- `events` from the i-th question on, with n rounds left.
unfoldable pub events : ℕ → ℕ → (ℕ → JobStatus) → List JobStatus
events zero i ask = []
events (suc n) i ask =
    let rest = events n (suc i) ask in ask i ∷ (if is_terminal (ask i) then [] else rest)

unfoldable pub stream_job : (ℕ → InMemoryJobQueue) → String → List JobStatus
stream_job queue job_id = events max_events 0 (λ i. job_status (queue i) job_id)

-- The answers to n questions, from the i-th on.
unfoldable pub answers : (ℕ → JobStatus) → ℕ → ℕ → List JobStatus
answers ask i zero = []
answers ask i (suc n) = ask i ∷ answers ask (suc i) n

-- Of at most n questions from the i-th on, the first k are of a job that is not over. Either these
-- are all n, and the events are their answers, or the next one is of a job that is over, and its
-- answer is the last event.
abbrev pub IsTranscript : (ℕ → JobStatus) → ℕ → ℕ → List JobStatus → Type 0
IsTranscript ask n i es =
    (k : ℕ) × All (λ (e : JobStatus). is_terminal e ≡ false) (answers ask i k)
    × (((k ≡ n) × (es ≡ answers ask i k))
        ⊎ ((suc k ≤ n)
            × (is_terminal (ask (i + k)) ≡ true)
            × (es ≡ answers ask i k ++ ask (i + k) ∷ [])))

events-IsTranscript : (n i : ℕ) (ask : ℕ → JobStatus) → IsTranscript ask n i (events n i ask)
unfolding events answers
events-IsTranscript zero i ask = (0, tt, inl (refl, refl))
events-IsTranscript (suc n) i ask = elim (Bool-cases (is_terminal (ask i))) [
  | inl done ↦
      let here : i + 0 ≡ i = omega arith in
      (0, tt, inr (omega arith, rw here done, rw here (rw done refl)))
  | inr open_still ↦
      let (k, before, last) = events-IsTranscript n (suc i) ask in
      (
        suc k,
        (open_still, before),
        elim last [
          | inl (all, same) ↦ inl (ap suc all, rw open_still (ap (λ es. ask i ∷ es) same))
          | inr (short, over, same) ↦
              let there : i + suc k ≡ suc i + k = omega arith in
              inr
                (omega arith, rw there over, rw there (rw open_still (ap (λ es. ask i ∷ es) same)))
        ],
      )
]

-- However the queue changes while it is asked, the events of the stream are the answers to its
-- successive questions, up to the first of a job that is over, which is the last event; if there is
-- none among the first 600 answers, the events are these 600.
pub stream_job-IsTranscript :
    (queue : ℕ → InMemoryJobQueue) (job_id : String)
    → IsTranscript (λ i. job_status (queue i) job_id) max_events 0 (stream_job queue job_id)
unfolding stream_job
stream_job-IsTranscript queue job_id =
    events-IsTranscript max_events 0 (λ i. job_status (queue i) job_id)

-- A stored job answers for its id.
stored-is_terminal :
    (q : InMemoryJobQueue) (job_id : String) (job : JobStatus)
    → is_terminal job ≡ true
    → is_terminal (job_status (record q { jobs = insert job_id job q.jobs }) job_id) ≡ true
unfolding job_status
stored-is_terminal q job_id job over = rw (lookup-insert_self job_id job q.jobs) over

enqueue-is_terminal :
    (q : InMemoryJobQueue) (job_id : String) (run : String ⊎ String)
    → is_terminal (job_status (enqueue q job_id run) job_id) ≡ true
unfolding enqueue is_terminal finished_job
enqueue-is_terminal q job_id (inl r) =
    if-cases (λ q'. is_terminal (job_status q' job_id) ≡ true) q.eager
      (λ _. stored-is_terminal q job_id _ refl) (λ _. stored-is_terminal q job_id _ refl)
enqueue-is_terminal q job_id (inr e) =
    if-cases (λ q'. is_terminal (job_status q' job_id) ≡ true) q.eager
      (λ _. stored-is_terminal q job_id _ refl) (λ _. stored-is_terminal q job_id _ refl)

-- A job of the in-memory queue is over as soon as it is queued, whether it ran and returned, ran
-- and raised, or was only recorded: the stream of a queue that then stays as it is sends its status
-- once and ends.
pub stream_job-enqueue :
    (q : InMemoryJobQueue) (job_id : String) (run : String ⊎ String)
    → let q' = enqueue q job_id run in
      (is_terminal (job_status q' job_id) ≡ true)
      × (stream_job (λ i. q') job_id ≡ job_status q' job_id ∷ [])
unfolding stream_job events
stream_job-enqueue q job_id run =
    let over = enqueue-is_terminal q job_id run in (over, rw over refl)
