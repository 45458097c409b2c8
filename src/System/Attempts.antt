-- ===== src/System/Attempts.antt =====
-- The attempts at one task: its body between the signal handlers, again while `self.retry` asks for
-- it. Celery's part, the order of the signals and what `self.retry` raises, is documented behaviour.
pub mod Ending
pub mod Conversion
use pix_tools.Base.{
  ℕ, zero, suc, ◌≤◌, ◌<◌, ◌≡◌, String, Bool, true, false, Option, some, if◌then◌else◌, Exn, retry,
  Result, ok, err,
}
use pix_tools.Platform.{Platform}
use pix_tools.World.{World, Action}
use pix_tools.Tasks.Lifecycle.{
  Task, on_task_prerun, on_task_postrun, on_task_retry, on_task_failure,
}

-- Celery's `Retry`
abbrev pub is_retry : Exn → Bool
is_retry (retry e) = true
is_retry e = false

-- `max_retries` of the decorators of the tasks on images
abbrev pub image_retries : ℕ
image_retries = 3

-- What `self.retry(exc=exc)` raises in an attempt with its number of retries, and `str(exception)`.
pub record Celery : Type 0 where
  pub raised : (max_retries retries : ℕ) → Exn → Exn
  pub text : Exn → Option String
  pub raised_again : (m r : ℕ) (e : Exn) → r < m → raised m r e ≡ retry e
  pub raised_over : (m r : ℕ) (e : Exn) → m ≤ r → raised m r e ≡ e

-- How an attempt ends.
pub data End : Type 0 where
  done : String → End
  gave_up : Exn → End
  to_run_again : End

module _ {p : Platform} (celery : Celery) (t : Task) (max_retries : ℕ)
    (body : (Exn → Exn) → Action p String) where
  -- the signals after the body
  unfoldable pub after_body : Result String → World p → End × World p
  after_body (ok key) w = (done key, (on_task_postrun t w).1)
  after_body (err e) w =
      if is_retry e
      then (to_run_again, (on_task_postrun t (on_task_retry t w).1).1)
      else (gave_up e, (on_task_postrun t (on_task_failure t (celery.text e) w).1).1)

  unfoldable pub attempt : (retries : ℕ) → World p → End × World p
  attempt retries w =
      let (r, w') = body (celery.raised max_retries retries) (on_task_prerun (some t) w).1 in
      after_body r w'

  -- `left` retries are left after the first attempt. The number is that of the attempts.
  unfoldable pub attempts : (left retries : ℕ) → World p → (End × World p) × ℕ
  attempts zero retries w = (attempt retries w, 1)
  attempts (suc left) retries w =
      let (e, w') = attempt retries w in
      elim e [
        | done key ↦ ((done key, w'), 1)
        | gave_up x ↦ ((gave_up x, w'), 1)
        | to_run_again ↦ let (r, n) = attempts left (suc retries) w' in (r, suc n)
      ]
