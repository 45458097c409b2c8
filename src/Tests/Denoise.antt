-- ===== src/Tests/Denoise.antt =====
-- The denoising task and the router task in memory.
use pix_tools.Base.{◌+◌, ◌≡◌, refl, some, none, [], ◌∷◌, ok, retry, arith}
use pix_tools.Runtime.{default_settings}
use pix_tools.World.{World}
use pix_tools.Memory.{memory}
use pix_tools.Raster.{raster}
use pix_tools.Planes.{planes}
use pix_tools.Images.Convert.Stored.{IsAllOrNothing}
use pix_tools.Denoise.{loaded, denoise}
use pix_tools.Denoise.Network.{Shape, dncnn, forward}
use pix_tools.Denoise.Inference.{denoised}
use pix_tools.Denoise.Shapes.{forward-shape}
use pix_tools.Denoise.Stored.{denoise_outcome}
use pix_tools.Jobs.Create.{dispatch}
use pix_tools.Tasks.Metadata.{at}
use pix_tools.Tasks.Router.{start_pipeline, start_pipeline-eq-dispatch}
use pix_tools.Tests.Tasks.{start}

-- An image of 640 x 480 under the key of the job.
abbrev stored : World memory
stored = record start { bucket = ("raw/u/x.png", 640 ∷ 480 ∷ []) ∷ [] }

denoise_outcome_example :
    IsAllOrNothing raster
      (λ image. denoised memory.runtime default_settings raster planes image none)
      retry
      "u"
      "raw/u/x.png"
      "PNG"
      "denoise"
      stored
      (denoise planes retry loaded "u" "raw/u/x.png" none stored)
denoise_outcome_example = denoise_outcome planes retry "u" "raw/u/x.png" none stored

forward-shape_example :
    (out : Shape) × (forward planes (dncnn 3 (2 + 18) 64) (3, 480, 640) ≡ ok out)
    × (out ≡ (3, 480, 640))
forward-shape_example =
    forward-shape planes 3 18 64 480 640 (3, 480, 640) refl (omega arith) (omega arith)

start_pipeline-eq-dispatch_example :
    start_pipeline "u" "raw/u/x.png" ("webp" ∷ "denoise" ∷ []) [] "r1" (some (at 5)) start
    ≡ dispatch "u" "raw/u/x.png" ("webp" ∷ "denoise" ∷ []) [] start
start_pipeline-eq-dispatch_example =
    start_pipeline-eq-dispatch "u" "raw/u/x.png" ("webp" ∷ "denoise" ∷ []) [] (some (at 5)) start
      refl refl
