-- ===== src/Tests/Repeated.antt =====
-- A finalizer whose message is delivered twice, in memory.
use pix_tools.Base.{String, ◌≡◌, refl, List, [], ◌++◌}
use pix_tools.World.{World, Message, Payload, delivered}
use pix_tools.Memory.{memory}
use pix_tools.Tasks.Finalize.{finalize_job}
use pix_tools.Tasks.Finalize.Repeated.{finalize_job-twice}
use pix_tools.Tests.Tasks.{job, start, results}

-- A world whose webhooks are delivered.
abbrev heard : World memory
heard = record start { delivery = λ url. delivered }

finalize_job-twice_example :
    let (r1, w1) = finalize_job {p = memory} [] results "u" heard in
    let (r2, w2) = finalize_job {p = memory} [] results "u" w1 in
    (r2 ≡ r1)
    × ((j : String) → memory.row j w2.jobs ≡ memory.row j w1.jobs)
    × ((messages : List Message) × (w1.published ≡ heard.published ++ messages)
        × (w2.published ≡ w1.published ++ messages))
    × ((sent : List (String × Payload)) × (w1.received ≡ heard.received ++ sent)
        × (w2.received ≡ w1.received ++ sent))
finalize_job-twice_example = finalize_job-twice [] results "u" job heard refl refl refl
