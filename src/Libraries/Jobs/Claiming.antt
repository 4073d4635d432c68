-- ===== src/Libraries/Jobs/Claiming.antt =====
-- internal/libraries/runtime.go: what claimLane does to the table of jobs.
use expediente.Base.{
  ◌<◌, Bool, true, false, String, String_eq, ℕ_eq, List, [], ◌∷◌, Option, some, find_row, select,
  All, All-of, All-map, All-order_by, All-select, All-take, All-updated, Unique-same, count_rows,
  count_rows-find_row, count_rows-updated_mono, update_rows, updated, Bool-cases, Option-cases, ◌≡◌,
  inl, inr, refl, sym, subst, arith,
}
use expediente.Domain.{Failure, Instant, Result-cases}
use expediente.Libraries.{Call, Database, JobRow}
use expediente.Libraries.Access.{any_row, job_license, license_blocked}
use expediente.Libraries.Jobs.{
  candidates, choose, comes_first, eligible, file_is_busy, has_job_id, is_root_kind, is_waiting,
  paused_for, reads_file, runs_on_file, walks_root, with_jobs,
}
use expediente.Libraries.Jobs.Invariant.{Carries, Carries-refl, Carries-trans, IsValid, job_id}
use expediente.Libraries.Jobs.Updates.{Carries-update_rows, CalmAt}

-- A row with the identifier of the candidate waits, and is as the query read it.
pub record Fits (candidate row : JobRow) : Type 0 where
  pub waits : is_waiting row.status ≡ true
  pub same_file : row.file_id ≡ candidate.file_id
  pub same_type : row.job_type ≡ candidate.job_type
  pub same_version : row.target_version ≡ candidate.target_version
  pub same_attempts : row.attempt_count ≡ candidate.attempt_count
  pub same_maximum : row.max_attempts ≡ candidate.max_attempts
  pub same_fence : row.fencing_token ≡ candidate.fencing_token

abbrev pub FitsIf : JobRow → JobRow → Type 0
FitsIf candidate row = row.id ≡ candidate.id → Fits candidate row

-- The candidate may be started on the table.
pub record Ready (jobs : List JobRow) (candidate : JobRow) : Type 0 where
  pub own : All (FitsIf candidate) jobs
  pub file_free :
      (file : String) → reads_file file candidate ≡ true → count_rows (runs_on_file file) jobs ≡ 0
  pub root_free :
      is_root_kind candidate.job_type ≡ true
      → count_rows (walks_root candidate.job_type candidate.target_version) jobs ≡ 0
  pub below : candidate.attempt_count < candidate.max_attempts

free_file :
    (jobs : List JobRow) (job : JobRow) (file : String)
    → file_is_busy job jobs ≡ false
    → reads_file file job ≡ true
    → count_rows (runs_on_file file) jobs ≡ 0
unfolding file_is_busy any_row
free_file jobs job file h r = elim (Option-cases job.file_id) [
  | inl e ↦ absurd (let k = rw e at r in cc)
  | inr (id, e) ↦
      let k = rw e at r in
      let same = (String_eq.beq_iff id file).0 k in
      let b = rw (e, same) at h in
      elim (Option-cases (find_row (runs_on_file file) jobs)) [
        | inl n ↦ count_rows-find_row (runs_on_file file) jobs n
        | inr (x, s) ↦ absurd (let c = rw s at b in cc)
      ]
]

free_root :
    (jobs : List JobRow) (kind root : String)
    → any_row (walks_root kind root) jobs ≡ false
    → count_rows (walks_root kind root) jobs ≡ 0
unfolding any_row
free_root jobs kind root h = elim (Option-cases (find_row (walks_root kind root) jobs)) [
  | inl n ↦ count_rows-find_row (walks_root kind root) jobs n
  | inr (x, s) ↦ absurd (let c = rw s at h in cc)
]

record Passes (lane : String) (now : Instant) (jobs : List JobRow) (job : JobRow) : Type 0 where
  waits : is_waiting job.status ≡ true
  below : job.attempt_count < job.max_attempts
  file : file_is_busy job jobs ≡ false
  root : any_row (walks_root job.job_type job.target_version) jobs ≡ false

eligible-Passes :
    (lane : String) (now : Instant) (jobs : List JobRow) (job : JobRow)
    → eligible lane now jobs job ≡ true
    → Passes lane now jobs job
unfolding eligible
eligible-Passes lane now jobs job h = record {
  waits = ground arith;
  below = ground arith;
  file = ground arith;
  root = ground arith;
}

eligible-Ready :
    (lane : String) (now : Instant) (jobs : List JobRow) (job : JobRow)
    → eligible lane now jobs job ≡ true
    → All (λ x. job_id x ≡ job_id job → x ≡ job) jobs
    → Ready jobs job
eligible-Ready lane now jobs job h same =
    let p = eligible-Passes lane now jobs job h in
    record {
      own = All-map (λ x. job_id x ≡ job_id job → x ≡ job) _ jobs fits same;
      file_free = λ file r. free_file jobs job file p.file r;
      root_free = λ k. free_root jobs job.job_type job.target_version p.root;
      below = p.below;
    }
  where
    fits : (x : JobRow) → (job_id x ≡ job_id job → x ≡ job) → FitsIf job x
    fits x s e = subst (Fits job) (sym (s e)) (record {
      waits = (eligible-Passes lane now jobs job h).waits;
      same_file = refl;
      same_type = refl;
      same_version = refl;
      same_attempts = refl;
      same_maximum = refl;
      same_fence = refl;
    })

pub candidates-Ready :
    (lane : String) (now : Instant) (jobs : List JobRow)
    → IsValid jobs
    → All (Ready jobs) (candidates lane now jobs)
unfolding candidates
candidates-Ready lane now jobs v = All-take (Ready jobs) 64 _ (
    All-order_by (Ready jobs) comes_first _ (
      All-map _ (Ready jobs) (select (eligible lane now jobs) jobs)
        (λ job h. eligible-Ready lane now jobs job h.0 h.1)
        (All-select _ (eligible lane now jobs) jobs (Unique-same job_id jobs v.unique_ids))))

-- A job that waits is paused: the candidates that are ready stay so, and no job starts.
module _ (now : Instant) (cause : Failure) (candidate : JobRow) where
  pause_calms :
      (x : JobRow) → FitsIf candidate x → CalmAt (has_job_id candidate.id) (paused_for now cause) x
  pause_calms x f e =
      let fits = f ((String_eq.beq_iff x.id candidate.id).0 e) in
      record {
        follows = record {
          same_id = refl;
          fence_le = omega arith;
          ended = λ h. absurd (let k = rw fits.waits at h in cc);
        };
        same_file = refl;
        same_type = refl;
        same_version = refl;
        same_attempts = refl;
        same_maximum = refl;
        still_running = λ h. absurd (cc);
      }

  pause_fits :
      (other x : JobRow)
      → FitsIf other x
      → FitsIf other (updated (has_job_id candidate.id) (paused_for now cause) x)
  pause_fits other x f = elim (Bool-cases (has_job_id candidate.id x)) [
    | inr e ↦ rw e f
    | inl e ↦ rw e λ k.
        let fits = f k in
        record {
          waits = refl;
          same_file = fits.same_file;
          same_type = fits.same_type;
          same_version = fits.same_version;
          same_attempts = fits.same_attempts;
          same_maximum = fits.same_maximum;
          same_fence = fits.same_fence;
        }
  ]

  pause_counts :
      (p : JobRow → Bool) (jobs : List JobRow)
      → ((x : JobRow) → p (paused_for now cause x) ≡ false)
      → count_rows p jobs ≡ 0
      → count_rows p (update_rows (has_job_id candidate.id) (paused_for now cause) jobs) ≡ 0
  pause_counts p jobs h z =
      let le = count_rows-updated_mono p (has_job_id candidate.id) (paused_for now cause) jobs (
        All-of _ jobs (λ x k. elim (Bool-cases (has_job_id candidate.id x)) [
          | inr e ↦ let l = rw e at k in l
          | inl e ↦ absurd (let l = rw (e, h x) at k in cc)
        ])) in
      omega (arith, le, z)

  pause_Ready :
      (jobs : List JobRow) (other : JobRow)
      → Ready jobs other
      → Ready (update_rows (has_job_id candidate.id) (paused_for now cause) jobs) other
  pause_Ready jobs other r = record {
    own = All-updated (FitsIf other) (FitsIf other) _ _ jobs (pause_fits other) r.own;
    file_free = λ file h. pause_counts (runs_on_file file) jobs (λ x. refl) (r.file_free file h);
    root_free = λ h.
        pause_counts (walks_root other.job_type other.target_version) jobs (λ x. refl)
          (r.root_free h);
    below = r.below;
  }

-- What the loop over the candidates leaves, and the candidate that it picks.
pub record Chosen (before : List JobRow) (choice : Option JobRow × Database) : Type 0 where
  pub carries : Carries before choice.1.jobs
  pub ready : (job : JobRow) → choice.0 ≡ some job → Ready choice.1.jobs job

stops_at :
    (call : Call) (job : JobRow) (database : Database)
    → Ready database.jobs job
    → IsValid database.jobs
    → Chosen database.jobs (some job, database)
stops_at call job database r v = record {
  carries = Carries-refl database.jobs v;
  ready = λ other e. subst (Ready database.jobs) (let k : job ≡ other = cc in k) r;
}

pub choose-Chosen :
    (call : Call) (jobs : List JobRow) (database : Database)
    → All (Ready database.jobs) jobs
    → IsValid database.jobs
    → Chosen database.jobs (choose call jobs database)
unfolding choose
choose-Chosen call [] database a v = record {
  carries = Carries-refl database.jobs v;
  ready = λ job e. absurd (cc);
}
choose-Chosen call (job ∷ jobs) database a v = elim (Result-cases (job_license call job database)) [
  | inl (u, e) ↦ rw (e, choose) (stops_at call job database a.0 v)
  | inr (cause, e) ↦ elim (Bool-cases (license_blocked cause)) [
    | inr b ↦ rw (e, choose, b) (stops_at call job database a.0 v)
    | inl b ↦
        let paused_jobs =
          update_rows (has_job_id job.id) (paused_for call.now cause) database.jobs in
        let step =
          Carries-update_rows (has_job_id job.id) (paused_for call.now cause) database.jobs
            (All-map _ _ database.jobs (pause_calms call.now cause job) a.0.own) v in
        let rest =
          choose-Chosen call jobs (with_jobs paused_jobs database)
            (All-map (Ready database.jobs) (Ready paused_jobs) jobs
              (pause_Ready call.now cause job database.jobs) a.1)
            step.valid in
        rw (e, choose, b) (record { carries = Carries-trans step rest.carries; ready = rest.ready })
  ]
]
