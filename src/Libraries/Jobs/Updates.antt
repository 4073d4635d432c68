-- ===== src/Libraries/Jobs/Updates.antt =====
-- The statements of the operations on the table of jobs: an UPDATE that starts no job, the INSERT of
-- a job that does not run, and the UPDATE that starts a job.
use expediente.Base.{
  ◌≤◌, Bool, true, false, String, String_eq, List, [], ◌∷◌, ◌++◌, All, All-both, All-map,
  All-updated, Unique-append, All-append, Unique-update_rows, count_rows, count_rows-append,
  count_rows-updated_mono, update_rows, updated, Bool-cases, ◌≡◌, ◌≢◌, inl, inr, refl, arith,
}
use expediente.Libraries.{JobRow}
use expediente.Libraries.Jobs.{is_running, runs_on_file, walks_root}
use expediente.Libraries.Jobs.Invariant.{
  Calms, Carries, Evolves-append, Evolves-update_rows, IsValid, job_id,
}

abbrev pub CalmAt : (JobRow → Bool) → (JobRow → JobRow) → JobRow → Type 0
CalmAt q f x = q x ≡ true → Calms x (f x)

module _ (q : JobRow → Bool) (f : JobRow → JobRow) where
  runs_before :
      (file : String) (x : JobRow)
      → CalmAt q f x
      → runs_on_file file (updated q f x) ≡ true
      → runs_on_file file x ≡ true
  runs_before file x c h = elim (Bool-cases (q x)) [
    | inr e ↦ let k = rw e at h in k
    | inl e ↦
        let calm = c e in let k = rw (e, calm.same_file) at h in ground (arith, calm.still_running)
  ]

  walks_before :
      (kind root : String) (x : JobRow)
      → CalmAt q f x
      → walks_root kind root (updated q f x) ≡ true
      → walks_root kind root x ≡ true
  walks_before kind root x c h = elim (Bool-cases (q x)) [
    | inr e ↦ let k = rw e at h in k
    | inl e ↦
        let calm = c e in
        let k = rw (e, calm.same_type, calm.same_version) at h in ground (arith, calm.still_running)
  ]

  same_job_id : (x : JobRow) → CalmAt q f x → job_id (updated q f x) ≡ job_id x
  same_job_id x c = elim (Bool-cases (q x)) [
    | inr e ↦ rw e refl
    | inl e ↦ rw e (c e).follows.same_id
  ]

  within :
      (x : JobRow)
      → CalmAt q f x
      → x.attempt_count ≤ x.max_attempts
      → (updated q f x).attempt_count ≤ (updated q f x).max_attempts
  within x c h = elim (Bool-cases (q x)) [
    | inr e ↦ rw e h
    | inl e ↦ rw (e, (c e).same_attempts, (c e).same_maximum) h
  ]

  pub Carries-update_rows :
      (jobs : List JobRow)
      → All (CalmAt q f) jobs
      → IsValid jobs
      → Carries jobs (update_rows q f jobs)
  Carries-update_rows jobs calm v = record {
    evolves =
        Evolves-update_rows q f jobs (All-map (CalmAt q f) _ jobs (λ x c e. (c e).follows) calm);
    valid = record {
      unique_ids =
          Unique-update_rows job_id q f jobs (All-map (CalmAt q f) _ jobs same_job_id calm)
            v.unique_ids;
      one_per_file = λ file. omega (
        arith,
        v.one_per_file file,
        count_rows-updated_mono (runs_on_file file) q f jobs
            (All-map (CalmAt q f) _ jobs (runs_before file) calm),
      );
      one_per_root = λ kind root. omega (
        arith,
        v.one_per_root kind root,
        count_rows-updated_mono (walks_root kind root) q f jobs
            (All-map (CalmAt q f) _ jobs (walks_before kind root) calm),
      );
      attempts_le =
          All-updated (λ x. CalmAt q f x × (x.attempt_count ≤ x.max_attempts)) _ q f jobs
            (λ x h. within x h.0 h.1) (All-both (CalmAt q f) _ jobs calm v.attempts_le);
    };
  }

-- A job that does not run, inserted under a new identifier.
pub Carries-append :
    (jobs : List JobRow) (job : JobRow)
    → All (λ x. job_id x ≢ job_id job) jobs
    → is_running job.status ≡ false
    → job.attempt_count ≤ job.max_attempts
    → IsValid jobs
    → Carries jobs (jobs ++ (job ∷ []))
unfolding count_rows
Carries-append jobs job fresh rests within v = record {
  evolves = Evolves-append jobs (job ∷ []);
  valid = record {
    unique_ids = Unique-append job_id jobs job fresh v.unique_ids;
    one_per_file = λ file.
        rw (count_rows-append (runs_on_file file) jobs (job ∷ []), rests)
          (omega (arith, v.one_per_file file));
    one_per_root = λ kind root.
        rw (count_rows-append (walks_root kind root) jobs (job ∷ []), rests)
          (omega (arith, v.one_per_root kind root));
    attempts_le =
        All-append (λ (x : JobRow). x.attempt_count ≤ x.max_attempts) jobs (job ∷ []) v.attempts_le
          (within, tt);
  };
}
