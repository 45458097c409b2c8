-- ===== src/System/Spec.antt =====
-- The abstract specification of a job: what a client may see it do.
use pix_tools.Base.{Bool, true, false, ◌≡◌, ◌&&◌, Option, none, some, is_some}
use pix_tools.Models.{
  Job, JobStatus, pending, processing, completed, failed, completed_webhook_failed,
}

-- A job without its contents: its status, whether its results are there, and its EXIF data.
pub record Ticket : Type 0 where
  pub status : JobStatus
  pub results : Bool
  pub exif : Bool

abbrev pub ticket_of : Job → Ticket
ticket_of job = record {
  status = job.status;
  results = is_some job.result_urls && is_some job.result_keys;
  exif = is_some job.exif_metadata;
}

abbrev pub tickets_of : Option Job → Option Ticket
tickets_of none = none
tickets_of (some job) = some (ticket_of job)

-- The ticket of an accepted request.
abbrev pub accepted : Ticket
accepted = record { status = pending; results = false; exif = false }

-- What may happen to a ticket. Only a job that has its results is marked for a failed webhook, and
-- a job that is completed gets its results at the same time.
pub data Move (t : Ticket) : Ticket → Type 0 where
  begin : (u : Ticket) → u ≡ record t { status = processing } → Move t u
  fail : (u : Ticket) → u ≡ record t { status = failed } → Move t u
  describe : (u : Ticket) → u ≡ record t { exif = true } → Move t u
  complete : (u : Ticket) → u ≡ record t { status = completed; results = true } → Move t u
  miss :
      (u : Ticket)
      → t.results ≡ true
      → u ≡ record t { status = completed_webhook_failed }
      → Move t u

pub data Moves (t : Ticket) : Ticket → Type 0 where
  rest : Moves t t
  step : {u v : Ticket} → Moves t u → Move u v → Moves t v

pub Moves-trans : {t u v : Ticket} → Moves t u → Moves u v → Moves t v
Moves-trans a rest = a
Moves-trans a (step b m) = step (Moves-trans a b) m

pub move : {t u : Ticket} → Move t u → Moves t u
move m = step rest m

-- The life of a ticket: it is accepted once, moves, and expires.
pub data Life (o : Option Ticket) : Option Ticket → Type 0 where
  still : Life o o
  moves : {t u : Ticket} → Life o (some t) → Move t u → Life o (some u)
  accept : Life o none → Life o (some accepted)
  expire : {t : Ticket} → Life o (some t) → Life o none

pub Life-trans : {o p q : Option Ticket} → Life o p → Life p q → Life o q
Life-trans a still = a
Life-trans a (moves b m) = moves (Life-trans a b) m
Life-trans a (accept b) = accept (Life-trans a b)
Life-trans a (expire b) = expire (Life-trans a b)

pub Moves-Life : {t u : Ticket} → Moves t u → Life (some t) (some u)
Moves-Life rest = still
Moves-Life (step a m) = moves (Moves-Life a) m
