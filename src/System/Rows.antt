-- ===== src/System/Rows.antt =====
-- How the row of a job may change while tasks run, and which rows are sound.
use pix_tools.Base.{
  String, Bool, true, false, not, ◌||◌, ◌&&◌, ◌≡◌, refl, ◌∙◌, sym, Option, none, some, is_some,
  arith, ◌==◌, eq_iff, Bool-cases, ok, db_commit, db_commit, inl, inr,
}
use mathlib.Core.Path.{subst}
use pix_tools.Models.{Job, JobStatus, pending}
use pix_tools.Jobs.Get.{is_completed}
use pix_tools.System.Spec.{Moves, rest, Moves-trans, ticket_of}
use pix_tools.Platform.{Platform}
use pix_tools.World.{World, Action, call, modify, pure, ◌>>=◌}
use pix_tools.World.Rules.{Relation, Keeps, Rel-refl, Rel-bind}
use pix_tools.Tasks.Rows.{row-put_row_id, save_row, get_row, commit_row, update_row}

abbrev pub is_pending : JobStatus → Bool
is_pending pending = true
is_pending _ = false

abbrev pub has_results : Job → Bool
has_results job = is_some job.result_urls && is_some job.result_keys

-- A job that says it is completed has its results, even if they are empty.
abbrev pub is_sound : Job → Bool
is_sound job = not (is_completed job.status) || has_results job

-- What a task may do to a job: the request that made it stays, results and EXIF data are never lost,
-- the job never becomes PENDING again, a sound job stays sound, and its ticket moves.
pub record IsChanged (a b : Job) : Type 0 where
  pub id : b.id ≡ a.id
  pub operations : b.operations ≡ a.operations
  pub webhook_url : b.webhook_url ≡ a.webhook_url
  pub s3_raw_key : b.s3_raw_key ≡ a.s3_raw_key
  pub original_filename : b.original_filename ≡ a.original_filename
  pub created_at : b.created_at ≡ a.created_at
  pub pending_never : is_pending b.status ≡ true → is_pending a.status ≡ true
  pub results_stay : has_results a ≡ true → has_results b ≡ true
  pub exif_stays : is_some a.exif_metadata ≡ true → is_some b.exif_metadata ≡ true
  pub sound_stays : is_sound a ≡ true → is_sound b ≡ true
  pub path : Moves (ticket_of a) (ticket_of b)

-- Tasks make no row and remove none.
abbrev pub Changed : Option Job → Option Job → Type 0
Changed none none = Unit
Changed none (some b) = ⊥
Changed (some a) none = ⊥
Changed (some a) (some b) = IsChanged a b

pub IsChanged-refl : (a : Job) → IsChanged a a
IsChanged-refl a = record {
  id = refl;
  operations = refl;
  webhook_url = refl;
  s3_raw_key = refl;
  original_filename = refl;
  created_at = refl;
  pending_never = λ h. h;
  results_stay = λ h. h;
  exif_stays = λ h. h;
  sound_stays = λ h. h;
  path = rest;
}

IsChanged-trans : (a b c : Job) → IsChanged a b → IsChanged b c → IsChanged a c
IsChanged-trans a b c g h = record {
  id = h.id ∙ g.id;
  operations = h.operations ∙ g.operations;
  webhook_url = h.webhook_url ∙ g.webhook_url;
  s3_raw_key = h.s3_raw_key ∙ g.s3_raw_key;
  original_filename = h.original_filename ∙ g.original_filename;
  created_at = h.created_at ∙ g.created_at;
  pending_never = λ q. g.pending_never (h.pending_never q);
  results_stay = λ q. h.results_stay (g.results_stay q);
  exif_stays = λ q. h.exif_stays (g.exif_stays q);
  sound_stays = λ q. h.sound_stays (g.sound_stays q);
  path = Moves-trans g.path h.path;
}

pub Changed-refl : (o : Option Job) → Changed o o
Changed-refl none = tt
Changed-refl (some a) = IsChanged-refl a

Changed-trans : (a b c : Option Job) → Changed a b → Changed b c → Changed a c
Changed-trans none none none g h = tt
Changed-trans (some a) (some b) (some c) g h = IsChanged-trans a b c g h
Changed-trans none (some b) c g h = absurd g
Changed-trans (some a) none c g h = absurd g
Changed-trans none none (some c) g h = absurd h
Changed-trans (some a) (some b) none g h = absurd h

module _ {p : Platform} where
  -- What tasks may do to the table. They have sessions of their own.
  pub record Evolves (v w : World p) : Type 0 where
    pub rows : (j : String) → Changed (p.row j v.jobs) (p.row j w.jobs)
    pub session : w.session ≡ v.session

  pub Evolves-trans : (u v w : World p) → Evolves u v → Evolves v w → Evolves u w
  Evolves-trans u v w g h = record {
    rows = λ j. Changed-trans _ _ _ (g.rows j) (h.rows j);
    session = h.session ∙ g.session;
  }

  pub Evolves-quiet : (v w : World p) → w.jobs ≡ v.jobs → w.session ≡ v.session → Evolves v w
  Evolves-quiet v w jobs session = record {
    rows = λ j. subst (λ t. Changed (p.row j v.jobs) (p.row j t)) (sym jobs) (Changed-refl _);
    session = session;
  }

  abbrev pub evolution : Relation p
  evolution = record { Rel = Evolves; trans = Evolves-trans; quiet = Evolves-quiet }

  -- Only the rows count.
  pub Evolves-rows :
      (u v w : World p) → Evolves u v → w.jobs ≡ v.jobs → w.session ≡ u.session → Evolves u w
  Evolves-rows u v w h jobs session =
      Evolves-trans u v w h (Evolves-quiet v w jobs (session ∙ sym h.session))

  -- A committed change of a row that is there.
  pub save_row-Evolves :
      (id : String) (job new : Job) (w : World p)
      → p.row id w.jobs ≡ some job
      → IsChanged job new
      → Evolves w (save_row new w)
  save_row-Evolves id job new w there change = record {
    rows = λ j.
        rw (row-put_row_id p id j job new w.jobs there change.id) (elim (Bool-cases (id == j)) [
          | inl e ↦ rw e (
              let same : p.row j w.jobs ≡ some job =
                subst (λ i. p.row i w.jobs ≡ some job) ((eq_iff id j).0 e) there in
              rw same change)
          | inr e ↦ rw e (Changed-refl _)
        ]);
    session = refl;
  }

  pub commit_row-Evolves :
      (id : String) (job new : Job) (w : World p)
      → p.row id w.jobs ≡ some job
      → IsChanged job new
      → Evolves w (commit_row new w).1
  commit_row-Evolves id job new w there change =
      Rel-bind evolution (call db_commit) (λ _. modify (save_row new)) w (Rel-refl evolution w)
        (λ _ _. save_row-Evolves id job new w there change)

  get_row_unchanged : (id : String) (w : World p) → (get_row id w).1 ≡ w
  get_row_unchanged id w = ground arith

  get_row_found :
      (id : String) (w : World p) (found : Option Job)
      → (get_row id w).0 ≡ ok found
      → p.row id w.jobs ≡ found
  get_row_found id w found h = ground arith

  -- What follows a read may rely on the row that was read.
  pub get_row-Evolves :
      {A : Type 0} (id : String) (k : Option Job → Action p A) (w : World p)
      → ((found : Option Job) → p.row id w.jobs ≡ found → Evolves w (k found w).1)
      → Evolves w ((get_row id >>= k) w).1
  get_row-Evolves id k w h =
      let still = get_row_unchanged id w in
      Rel-bind evolution (get_row id) k w
        (subst (λ v. Evolves w v) (sym still) (Rel-refl evolution w))
        (λ found got.
          subst (λ v. Evolves v (k found v).1) (sym still) (h found (get_row_found id w found got)))

  -- At one start: the change is asked for the row that is there.
  pub update_row-Evolves :
      (id : String) (change : Job → Job) (w : World p)
      → ((job : Job) → p.row id w.jobs ≡ some job → IsChanged job (change job))
      → Evolves w (update_row id change w).1
  update_row-Evolves id change w allowed =
      get_row-Evolves id
        (λ found. elim found [ none ↦ pure tt | some job ↦ commit_row (change job) ]) w go
    where
      go :
          (found : Option Job)
          → p.row id w.jobs ≡ found
          → Evolves w
              (elim found as (λ _. Action p (Unit {0})) [
                | none ↦ pure tt
                | some job ↦ commit_row (change job)
              ]
                w).1
      go none there = Rel-refl evolution w
      go (some job) there = commit_row-Evolves id job (change job) w there (allowed job there)

  pub Keeps-update_row :
      (id : String) (change : Job → Job)
      → ((job : Job) → IsChanged job (change job))
      → Keeps evolution (update_row id change)
  Keeps-update_row id change allowed = record {
    at = λ w. update_row-Evolves id change w (λ job _. allowed job);
  }
