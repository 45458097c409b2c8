-- ===== src/Platform.antt =====
-- The services behind the program: the table of jobs, the Redis cache and the S3 bucket, each as
-- its operations and the documented laws that the program relies on.
use pix_tools.Base.{ℕ, ◌+◌, String, Bool, Option, none, some, ◌≡◌, List, ◌==◌, if◌then◌else◌, ltb}
use pix_tools.Models.{Job}
use pix_tools.Runtime.{Runtime, Settings}

abbrev pub Bytes : Type 0
Bytes = List ℕ

-- A row that a `DELETE ... WHERE p` leaves.
abbrev pub unless : (Job → Bool) → Option Job → Option Job
unless p none = none
unless p (some job) = if p job then none else some job

pub record Platform : Type 1 where
  pub runtime : Runtime
  pub settings : Settings
  -- PostgreSQL: the rows by primary key; an INSERT or UPDATE; a DELETE and its row count
  pub Table : Type 0
  pub row : String → Table → Option Job
  pub put_row : Job → Table → Table
  pub delete_where : (Job → Bool) → Table → Table
  pub count_where : (Job → Bool) → Table → ℕ
  pub id_of_row : (j : String) (job : Job) (t : Table) → row j t ≡ some job → job.id ≡ j
  pub row-put_row :
      (j : String) (job : Job) (t : Table)
      → row j (put_row job t) ≡ (if job.id == j then some job else row j t)
  pub row-delete_where :
      (j : String) (p : Job → Bool) (t : Table) → row j (delete_where p t) ≡ unless p (row j t)
  -- Redis: GET at a time, and SETEX with a time to live at a time
  pub Cache : Type 0
  pub read : String → ℕ → Cache → Option String
  pub setex : String → (ttl : ℕ) → String → (now : ℕ) → Cache → Cache
  pub read-setex :
      (j k : String) (ttl : ℕ) (v : String) (now later : ℕ) (c : Cache)
      → read j later (setex k ttl v now c)
        ≡ (if k == j then (if ltb later (now + ttl) then some v else none) else read j later c)
  -- S3: the objects of the bucket
  pub Bucket : Type 0
  pub object : String → Bucket → Option Bytes
  pub put_object : String → Bytes → Bucket → Bucket
  pub object-put_object :
      (j k : String) (b : Bytes) (s : Bucket)
      → object j (put_object k b s) ≡ (if k == j then some b else object j s)
