-- ===== src/Dag/Laws.antt =====
-- Which tasks a job gets: one for each operation that is not `metadata`, none skipped.
use pix_tools.Base.{
  String, Bool, true, false, not, ◌≡◌, refl, ap, List, [], ◌∷◌, map, is_empty, is_in, keep, ◌==◌,
}
use pix_tools.Json.{Fields}
use pix_tools.Models.{OperationType, value, jpg, png, webp, avif, denoise, metadata}
use pix_tools.World.{Signature, operation}
use pix_tools.Dag.{task_signatures, params_of}

-- The task of each operation; `metadata` has none in the chord.
abbrev pub task_name : OperationType → String
task_name jpg = "app.tasks.image_ops.convert_jpg"
task_name png = "app.tasks.image_ops.convert_png"
task_name webp = "app.tasks.image_ops.convert_webp"
task_name avif = "app.tasks.image_ops.convert_avif"
task_name denoise = "app.tasks.ml_ops.denoise"
task_name metadata = ""

abbrev pub is_metadata : OperationType → Bool
is_metadata metadata = true
is_metadata _ = false

module _ (job_id key : String) (params : List (String × Fields))
    (headers : List (String × String)) where
  abbrev pub task_of : OperationType → Signature
  task_of op = record {
    task = task_name op;
    kwargs = operation job_id key (params_of (value op) params);
    headers = headers;
  }

  -- The pipeline operations of a job, looked up by their texts, give exactly these tasks.
  pub task_signatures-eq-map :
      (ops : List OperationType)
      → task_signatures job_id key params headers
          (keep (λ op. not (op == "metadata")) (map value ops))
        ≡ map task_of (keep (λ op. not (is_metadata op)) ops)
  unfolding task_signatures
  task_signatures-eq-map [] = refl
  task_signatures-eq-map (jpg ∷ ops) = ap (λ l. task_of jpg ∷ l) (task_signatures-eq-map ops)
  task_signatures-eq-map (png ∷ ops) = ap (λ l. task_of png ∷ l) (task_signatures-eq-map ops)
  task_signatures-eq-map (webp ∷ ops) = ap (λ l. task_of webp ∷ l) (task_signatures-eq-map ops)
  task_signatures-eq-map (avif ∷ ops) = ap (λ l. task_of avif ∷ l) (task_signatures-eq-map ops)
  task_signatures-eq-map (denoise ∷ ops) =
      ap (λ l. task_of denoise ∷ l) (task_signatures-eq-map ops)
  task_signatures-eq-map (metadata ∷ ops) = task_signatures-eq-map ops

pub is_empty-pipeline :
    (ops : List OperationType)
    → is_empty (keep (λ op. not (op == "metadata")) (map value ops))
      ≡ is_empty (keep (λ op. not (is_metadata op)) ops)
is_empty-pipeline [] = refl
is_empty-pipeline (metadata ∷ ops) = is_empty-pipeline ops
is_empty-pipeline (_ ∷ ops) = refl

pub is_in-metadata :
    (ops : List OperationType)
    → is_in "metadata" (map value ops) ≡ not (is_empty (keep is_metadata ops))
is_in-metadata [] = refl
is_in-metadata (metadata ∷ ops) = refl
is_in-metadata (jpg ∷ ops) = is_in-metadata ops
is_in-metadata (png ∷ ops) = is_in-metadata ops
is_in-metadata (webp ∷ ops) = is_in-metadata ops
is_in-metadata (avif ∷ ops) = is_in-metadata ops
is_in-metadata (denoise ∷ ops) = is_in-metadata ops
