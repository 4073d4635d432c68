-- ===== src/Libraries/Tests/Workers.antt =====
-- Runs of the jobs of a library.
use expediente.Base.{
  ◌≤◌, Bool, false, none, some, List, [], ◌∷◌, String, ◌==◌, String_eq, count_rows, find_row,
  ne_of_beq, select, order_by, insert_sorted, take, Bool-cases, ◌≡◌, inl, inr, refl, arith,
}
use expediente.Domain.{ok, contains}
use expediente.Licensing.Policy.{check_all, check_features, check_status}
use expediente.Identity.Tests.Office.{request}
use expediente.Libraries.{Database, JobRow, queued}
use expediente.Libraries.Access.{any_row, job_license}
use expediente.Libraries.Jobs.{
  candidates, claim_lane, claimed_job, comes_first, eligible, file_is_busy, has_job_id, holds_root,
  in_lane, runs_on_file, Job,
}
use expediente.Libraries.Jobs.Finish.{finish, holds_lease, recover_jobs}
use expediente.Libraries.Jobs.Control.{enqueue_scan}
use expediente.Libraries.Jobs.Control.Queueing.{enqueue_scan-one}
use expediente.Libraries.Jobs.History.{
  Runs, Runs-Evolves, Runs-IsValid, goes, stays, claims, finishes, recovers,
}
use expediente.Libraries.Jobs.Invariant.{Evolves, IsValid}
use expediente.Libraries.Jobs.Outcomes.{claim_lane-answers, finish-late, stopped_by_license}
use expediente.Libraries.Tests.Archive.{archive, call, jobs, job_row}

one_reads : (file : String) → count_rows (runs_on_file file) jobs ≤ 1
unfolding count_rows
one_reads file = elim (Bool-cases (text_is file)) [
  | inl e ↦ rw e (omega arith)
  | inr e ↦ rw e (omega arith)
]
  where
    text_is : String → Bool
    text_is name = "f1" == name

jobs-IsValid : IsValid jobs
unfolding count_rows
jobs-IsValid = record {
  unique_ids = (
    (ne_of_beq "j2" "j1" refl, (ne_of_beq "j3" "j1" refl, tt)),
    ((ne_of_beq "j3" "j2" refl, tt), (tt, tt)),
  );
  one_per_file = one_reads;
  one_per_root = λ kind root. omega arith;
  attempts_le = (omega arith, (omega arith, (omega arith, tt)));
}

abbrev running_job : Job
running_job = record {
  id = "j1";
  library_id = "lib";
  file_id = "f1";
  kind = "extract";
  version = "v1";
  attempts = 1;
  fence = 4;
}

abbrev late_job : Job
late_job = record running_job { fence = 3 }

-- A claim, the completion of the job that ran, a cancellation and a restart.
abbrev claimed : Database
claimed = (claim_lane call "content" "a1" archive).1

abbrev finished : Database
finished = (finish call "j4" request running_job none claimed).1

day : Runs archive (recover_jobs call finished)
day = goes (claims call "content" "a1" archive) (
    goes (finishes call "j4" request running_job none claimed)
      (goes (recovers call finished) stays))

Runs-IsValid_example : IsValid (recover_jobs call finished).jobs
Runs-IsValid_example = Runs-IsValid archive (recover_jobs call finished) day jobs-IsValid

Runs-Evolves_example : Evolves jobs (recover_jobs call finished).jobs
Runs-Evolves_example = Runs-Evolves archive (recover_jobs call finished) day jobs-IsValid

lease_lost : find_row (holds_lease late_job) jobs ≡ none
unfolding find_row
lease_lost = refl

finish-late_example : (finish call "j4" request late_job none archive).1.jobs ≡ jobs
finish-late_example = finish-late call "j4" request late_job none archive lease_lost

abbrev second_job : JobRow
second_job = job_row "j2" (some "f2") "extract" "v1" queued 2

second_waits : find_row (eligible "content" call.now jobs) jobs ≡ some second_job
unfolding find_row eligible in_lane file_is_busy any_row
second_waits = refl

-- The first job runs, so that the second one is the only candidate.
only_candidate : candidates "content" call.now jobs ≡ second_job ∷ []
unfolding candidates select order_by insert_sorted take comes_first eligible find_row in_lane
    file_is_busy any_row
only_candidate = refl

second_licensed : stopped_by_license call archive second_job ≡ false
unfolding stopped_by_license job_license find_row check_features check_status check_all contains
second_licensed = refl

claim_lane-answers_example :
    (first : JobRow) × (rest : List JobRow) × (candidates "content" call.now jobs ≡ first ∷ rest)
    × ((claim_lane call "content" "a1" archive).0 ≡ ok (claimed_job first))
claim_lane-answers_example =
    claim_lane-answers call "content" "a1" archive second_job second_waits
      (rw only_candidate (second_licensed, tt))

no_fourth : find_row (has_job_id "j4") jobs ≡ none
unfolding find_row
no_fourth = refl

at_most_one : count_rows (holds_root "root1") jobs ≤ 1
unfolding count_rows
at_most_one = omega arith

enqueue_scan-one_example :
    (after : Database) × (enqueue_scan call "j4" "lib" "root1" archive ≡ ok after)
    × (count_rows (holds_root "root1") after.jobs ≡ 1)
enqueue_scan-one_example = enqueue_scan-one call "j4" "lib" "root1" archive no_fourth at_most_one
