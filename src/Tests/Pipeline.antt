-- ===== src/Tests/Pipeline.antt =====
-- A request and the chord that it asks for, in memory.
use mathlib.Core.List.{Permᴰ}
use pix_tools.Base.{◌≡◌, refl, Option, none, [], ◌∷◌, map, ok, retry, Result, String, Exn}
use pix_tools.Json.{to_int}
use pix_tools.Models.{webp, denoise, metadata}
use pix_tools.World.{World, Signature, chord}
use pix_tools.Memory.{memory}
use pix_tools.Raster.{raster}
use pix_tools.Planes.{planes}
use pix_tools.Dag.{finalize_signature}
use pix_tools.Json.{end}
use pix_tools.Jobs.{Request, Accepted, validate}
use pix_tools.Jobs.Create.{Created, earlier_job, create_job}
use pix_tools.Denoise.Inference.{denoised}
use pix_tools.Denoise.Network.{forward, sequential}
use pix_tools.Images.{
  apply_resize_if_requested, parse_side, parse_resize, extract_quality, proportional, resize_image,
}
use pix_tools.Images.Encode.{save_options, encode, converted}
use pix_tools.Jobs.Create.{created, new_job}
use pix_tools.Jobs.Create.Effects.{new_raw_key}
use pix_tools.Jobs.Create.Sent.{headers_of, expected_extraction}
use pix_tools.System.Pipeline.Running.{work_of}
use pix_tools.System.Pipeline.State.{IsPlainRuntime}
use pix_tools.System.Pipeline.Chord.{IsShown}
use pix_tools.System.Pipeline.Header.{IsServed}
use pix_tools.System.Pipeline.Accepted.{task_signature, world_after, create_job-IsShown}
use pix_tools.Base.Text.{has}
use pix_tools.Tests.Jobs.{api, photo, start}

is_plain : IsPlainRuntime memory.runtime
unfolding has
is_plain = record {
  hex8 = λ n. refl;
  jpeg_lem = refl;
  png_lem = refl;
  webp_lem = refl;
  avif_lem = refl;
}

-- A request for both kinds of task and the metadata.
abbrev order : Request
order = record photo {
  operations = "ops:webp,denoise,metadata";
  idempotency_key = none;
  operation_params = none;
}

abbrev accepted_order : Accepted
accepted_order = record {
  ops = webp ∷ denoise ∷ metadata ∷ [];
  op_params = [];
  webhook = "https://example.com/hook";
}

abbrev ordered : Result Created × World memory
unfolding api
ordered = create_job order start

ordered_ok : create_job order start ≡ (ok (created "u"), ordered.1)
unfolding api
ordered_ok = refl

valid : validate memory.runtime memory.settings order ≡ ok accepted_order
unfolding api
valid = refl

fresh : (earlier_job {p = memory} none start).0 ≡ ok none
unfolding api
fresh = refl

is_served :
    IsServed raster ordered.1
      (new_job order accepted_order "u" (new_raw_key order start) 5)
      (1 ∷ 2 ∷ [])
      (1, 2)
unfolding api
is_served = record {
  gets = refl;
  puts = refl;
  reads = refl;
  commits = refl;
  heads = refl;
  named = refl;
  opens = refl;
  plain = is_plain;
}

webp_works : work_of memory planes webp end (1, 2) ≡ ok (1 ∷ 2 ∷ [])
unfolding to_int parse_side parse_resize extract_quality proportional resize_image save_options
    encode converted
webp_works = refl

denoise_works : work_of memory planes denoise end (1, 2) ≡ ok (1 ∷ 2 ∷ [])
unfolding to_int parse_side parse_resize extract_quality proportional resize_image save_options
    encode denoised forward sequential apply_resize_if_requested
denoise_works = refl

abbrev unnamed : Signature → Option String
unnamed s = none

abbrev text : Exn → Option String
text e = none

-- The denoising runs first.
abbrev turned : Permᴰ (denoise ∷ webp ∷ []) (webp ∷ denoise ∷ [])
turned = Permᴰ.swap refl refl

create_job-IsShown_example :
    let ops = webp ∷ denoise ∷ [] in
    (created "u" ≡ created "u")
    × (ordered.1.published
        ≡ chord
            (map (task_signature order start []) ops)
            (finalize_signature "u" (headers_of start))
          ∷ expected_extraction "u"
              (new_raw_key order start)
              []
              (headers_of start)
              accepted_order.ops)
    × IsShown ordered.1
        (new_job order accepted_order "u" (new_raw_key order start) 5)
        ("webp" ∷ "denoise" ∷ [])
        "denoise"
        (world_after planes retry text unnamed order start [] turned ordered.1)
create_job-IsShown_example =
    create_job-IsShown planes retry text unnamed order accepted_order webp (denoise ∷ [])
      (denoise ∷ webp ∷ []) turned (1, 2) "denoise" start ordered.1 (created "u") refl fresh
      ordered_ok valid refl is_served
      ((refl, (1 ∷ 2 ∷ [], webp_works)), ((refl, (1 ∷ 2 ∷ [], denoise_works)), tt))
