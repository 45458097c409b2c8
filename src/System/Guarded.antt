-- ===== src/System/Guarded.antt =====
-- Steps that may rely on a row that has its results: what follows the commit of a completed job.
use pix_tools.Base.{
  String, true, ◌≡◌, refl, sym, ◌∙◌, eq_refl, Option, none, some, List, ok, Result, err, arith,
}
use mathlib.Core.Path.{subst}
use pix_tools.Models.{Job}
use pix_tools.Platform.{Platform}
use pix_tools.World.{World, Action, ◌>>◌}
use pix_tools.World.Rules.{Relation, Keeps, Rel-bind, Keeps-quiet}
use pix_tools.Webhook.{notify_job_update, notify_job_update_jobs}
use pix_tools.Tasks.Rows.{save_row, commit_row, update_row, row-put_row_id}
use pix_tools.Tasks.Metadata.{webhook_failed, recover}
use pix_tools.System.Spec.{miss, move}
use pix_tools.System.Rows.{
  IsChanged, Changed, has_results, Evolves, Evolves-trans, Evolves-quiet, evolution,
  commit_row-Evolves, update_row-Evolves,
}

pub webhook_failed-IsChanged :
    (job : Job) → has_results job ≡ true → IsChanged job (webhook_failed job)
webhook_failed-IsChanged job h = record {
  id = refl;
  operations = refl;
  webhook_url = refl;
  s3_raw_key = refl;
  original_filename = refl;
  created_at = refl;
  pending_never = λ q. cc;
  results_stay = λ q. q;
  exif_stays = λ q. q;
  sound_stays = λ q. ground (arith, h);
  path = move (miss _ h refl);
}

pub some_injective : {A : Type 0} {a b : A} → ◌≡◌ {A = Option A} (some a) (some b) → a ≡ b
some_injective h = cc

results_stay :
    (a b : Option Job)
    → Changed a b
    → ((job : Job) → a ≡ some job → has_results job ≡ true)
    → (job : Job) → b ≡ some job
    → has_results job ≡ true
results_stay none none c h job e = cc
results_stay (some a) (some b) c h job e =
    subst (λ x. has_results x ≡ true) (some_injective e) (c.results_stay (h a refl))
results_stay none (some b) c h job e = absurd c
results_stay (some a) none c h job e = absurd c

module _ {p : Platform} (id : String) where
  -- If the job is in the table, it has its results.
  pub record HasResults (w : World p) : Type 0 where
    pub at : (job : Job) → p.row id w.jobs ≡ some job → has_results job ≡ true

  HasResults-Evolves : (v w : World p) → Evolves v w → HasResults v → HasResults w
  HasResults-Evolves v w h g = record {
    at = results_stay (p.row id v.jobs) (p.row id w.jobs) (h.rows id) g.at;
  }

  pub record Guarded (v w : World p) : Type 0 where
    pub evolves : HasResults v → Evolves v w

  pub Guarded-trans : (u v w : World p) → Guarded u v → Guarded v w → Guarded u w
  Guarded-trans u v w g h = record {
    evolves = λ r.
        let first = g.evolves r in
        Evolves-trans u v w first (h.evolves (HasResults-Evolves u v first r));
  }

  pub Guarded-quiet : (v w : World p) → w.jobs ≡ v.jobs → w.session ≡ v.session → Guarded v w
  Guarded-quiet v w jobs session = record { evolves = λ _. Evolves-quiet v w jobs session }

  abbrev pub guarded : Relation p
  guarded = record { Rel = Guarded; trans = Guarded-trans; quiet = Guarded-quiet }

  pub Keeps-webhook_failed : Keeps guarded (update_row id webhook_failed)
  Keeps-webhook_failed = record {
    at = λ w. record {
      evolves = λ r.
          update_row-Evolves id webhook_failed w
            (λ job there. webhook_failed-IsChanged job (r.at job there));
    };
  }

  -- A row that has just been written with its results has them.
  pub save_row-HasResults :
      (job done : Job) (w : World p)
      → p.row id w.jobs ≡ some job
      → done.id ≡ job.id
      → has_results done ≡ true
      → HasResults (save_row done w)
  save_row-HasResults job done w there same full = record {
    at = λ new h.
        let written : p.row id (save_row done w).jobs ≡ some done =
          rw (row-put_row_id p id id job done w.jobs there same) (rw (eq_refl id) refl) in
        subst (λ x. has_results x ≡ true) (some_injective (sym written ∙ h)) full;
  }

  -- What follows the commit of such a row.
  pub commit_row-Evolves_done :
      {A : Type 0} (job done : Job) (next : Action p A) (w : World p)
      → p.row id w.jobs ≡ some job
      → IsChanged job done
      → has_results done ≡ true
      → Keeps guarded next
      → Evolves w ((commit_row done >> next) w).1
  commit_row-Evolves_done job done next w there change full keeps =
      Rel-bind evolution (commit_row done) (λ _. next) w
        (commit_row-Evolves id job done w there change)
        (λ a committed.
          let still : (commit_row done w).1 ≡ save_row done w = ground arith in
          subst (λ v. Evolves v (next v).1) (sym still)
            ((keeps.at (save_row done w)).evolves
              (save_row-HasResults job done w there change.id full)))

module _ {p : Platform} (r : Relation p) where
  -- A notification changes no row.
  pub Keeps-notify_job_update :
      (url job_id status : String) (urls : List (String × String))
      → Keeps r (notify_job_update url job_id status urls)
  unfolding notify_job_update
  Keeps-notify_job_update url job_id status urls =
      Keeps-quiet r (notify_job_update url job_id status urls)
        (notify_job_update_jobs url job_id status urls) (λ w. ground arith)

  Rel-recover :
      {A : Type 0} (handler : Action p A) (w : World p) (q : Result A × World p)
      → Keeps r handler
      → r.Rel w q.1
      → r.Rel w
          (elim q.0 as (λ _. Result A × World p) [ ok a ↦ (ok a, q.1) | err _ ↦ handler q.1 ]).1
  Rel-recover handler w (ok a, v) k h = h
  Rel-recover handler w (err e, v) k h = r.trans w v (handler v).1 h (k.at v)

  pub Keeps-recover :
      {A : Type 0} (m handler : Action p A)
      → Keeps r m
      → Keeps r handler
      → Keeps r (recover m handler)
  Keeps-recover m handler h k = record { at = λ w. Rel-recover handler w (m w) k (h.at w) }
