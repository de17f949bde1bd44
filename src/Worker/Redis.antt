-- ===== src/Worker/Redis.antt =====
-- `RqJobQueue` of src/quant_pilot/workers/queue.py, `build_scheduler` of
-- src/quant_pilot/workers/scheduler.py and `get_job` of src/quant_pilot/api/routers/jobs.py. The queue of
-- RQ is a parameter; `none` is an exception.
use quant_pilot.Base.{ℕ, String, ◌≡◌, refl, Option, none, some, List, [], ◌∷◌, maybe}
use quant_pilot.MarketData.{Frame, Files, Cells}
use quant_pilot.Worker.Jobs.{JobStatus}
use quant_pilot.Worker.Ingest.{ingest_ohlcv, ingest_loop}

-- A job as RQ has it.
pub record RqJob : Type 0 where
  pub status : String
  pub result : Option String
  -- `exc_info`, where it is not empty
  pub exc_info : Option String

-- RQ over redis: `Queue.enqueue` with the id of the job, and `Job.fetch`.
pub record Rq (C Q : Type 0) : Type 0 where
  pub enqueue : C → Q → Option (Q × String)
  pub fetch : String → Q → Option RqJob

module _ {C Q : Type 0} (rq : Rq C Q) where
  unfoldable pub enqueue : C → Q → Option (Q × String)
  enqueue call q = rq.enqueue call q

  -- A job that cannot be fetched is unknown.
  unfoldable pub status : String → Q → JobStatus
  status job_id q =
      maybe (rq.fetch job_id q)
        (record { id = job_id; status = "unknown"; result = none; error = none })
        λ job. record {
          id = job_id;
          status = job.status;
          result = job.result;
          error = job.exc_info;
        }

  unfoldable pub get_job : String → Q → JobStatus
  get_job job_id q = status job_id q

-- A call of `ingest_ohlcv`.
pub record IngestCall : Type 0 where
  pub symbols : List String
  pub start : String
  pub end : String

pub record CronJob : Type 0 where
  pub id : String
  pub hour : ℕ
  pub minute : ℕ
  pub call : IngestCall

-- `build_scheduler`, in the time zone Asia/Kolkata
abbrev pub scheduler : List CronJob
scheduler =
    record {
      id = "nightly_data_refresh";
      hour = 18;
      minute = 0;
      call = record { symbols = []; start = "2015-01-01"; end = "2025-12-31" };
    }
    ∷ []

-- The nightly job asks for no symbol: where its dates are parsed, it leaves the price cache as it was
-- and reports nothing.
nightly_job_is_empty :
    {F S : Type 0} (files : Files (Cells F) S)
    (download : String → ℕ → ℕ → String → Option (Frame (Cells F)))
    (fromisoformat : String → Option ℕ) (from to : ℕ) (s : S)
    → fromisoformat "2015-01-01" ≡ some from
    → fromisoformat "2025-12-31" ≡ some to
    → ingest_ohlcv files download fromisoformat [] "2015-01-01" "2025-12-31" s
      ≡ (s, some (record { ok = 0; failed = [] }))
unfolding ingest_ohlcv ingest_loop
nightly_job_is_empty files download fromisoformat from to s starts ends = rw starts (rw ends refl)
