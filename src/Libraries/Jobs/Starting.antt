-- ===== src/Libraries/Jobs/Starting.antt =====
-- internal/libraries/runtime.go: the claim of a job as a whole, and what it does to the table.
use expediente.Base.{
  ◌≤◌, ◌<◌, Bool, true, false, ◌&&◌, String, String_eq, ℕ_eq, List, Option, none, some, ◌==◌, All,
  All-of, All-both, All-map, All-updated, count_rows, count_rows-key, count_rows-updated_le,
  count_rows-updated_mono, update_rows, updated, Bool-cases, ◌≡◌, ◌⊎◌, inl, inr, refl, arith,
  Unique-update_rows,
}
use expediente.Domain.{Instant}
use expediente.Libraries.{Call, Database, JobRow}
use expediente.Libraries.Jobs.{
  claim_chosen, claim_lane, has_job_id, is_root_kind, reads_file, runs_on_file, start_job, started,
  walks_root,
}
use expediente.Libraries.Jobs.Claiming.{
  Fits, FitsIf, Ready, Chosen, choose-Chosen, candidates-Ready,
}
use expediente.Libraries.Jobs.Invariant.{
  Carries, Carries-trans, Evolves-update_rows, Follows, IsValid, job_id,
}

module _ (now : Instant) (candidate : JobRow) where
  started_or_before :
      (p : JobRow → Bool) (x : JobRow)
      → p (updated (has_job_id candidate.id) (started now candidate) x) ≡ true
      → (p x ≡ true) ⊎ (has_job_id candidate.id x ≡ true)
  started_or_before p x h = elim (Bool-cases (has_job_id candidate.id x)) [
    | inl e ↦ inr e
    | inr e ↦ inl (let k = rw e at h in k)
  ]

  -- No row satisfied the condition: one does at most behind the start.
  start_first :
      (p : JobRow → Bool) (jobs : List JobRow)
      → IsValid jobs
      → count_rows p jobs ≡ 0
      → count_rows p (update_rows (has_job_id candidate.id) (started now candidate) jobs) ≤ 1
  start_first p jobs v z =
      let le =
        count_rows-updated_le p (has_job_id candidate.id) (has_job_id candidate.id)
          (started now candidate) jobs (All-of _ jobs (started_or_before p)) in
      omega (arith, le, z, count_rows-key job_id candidate.id jobs v.unique_ids)

  -- The condition fails for the job that starts.
  start_other :
      (p : JobRow → Bool) (jobs : List JobRow)
      → ((x : JobRow) → Fits candidate x → p (started now candidate x) ≡ false)
      → All (FitsIf candidate) jobs
      → count_rows p (update_rows (has_job_id candidate.id) (started now candidate) jobs)
        ≤ count_rows p jobs
  start_other p jobs n own =
      count_rows-updated_mono p (has_job_id candidate.id) (started now candidate) jobs (
        All-map (FitsIf candidate) _ jobs
          (λ x f h. elim (Bool-cases (has_job_id candidate.id x)) [
            | inr e ↦ let k = rw e at h in k
            | inl e ↦
                let fits = f ((String_eq.beq_iff x.id candidate.id).0 e) in
                absurd (let k = rw (e, n x fits) at h in cc)
          ])
          own)

  start_file :
      (file : String) (jobs : List JobRow)
      → Ready jobs candidate
      → IsValid jobs
      → count_rows
          (runs_on_file file)
          (update_rows (has_job_id candidate.id) (started now candidate) jobs)
        ≤ 1
  start_file file jobs r v = elim (Bool-cases (reads_file file candidate)) [
    | inl e ↦ start_first (runs_on_file file) jobs v (r.file_free file e)
    | inr e ↦ omega (
      arith,
      v.one_per_file file,
      start_other (runs_on_file file) jobs (λ x fits. rw (fits.same_file, e) refl) r.own,
    )
  ]

  walks_other :
      (kind root : String) (x : JobRow)
      → ((is_root_kind candidate.job_type
            && (candidate.job_type == kind && candidate.target_version == root))
          ≡ false)
      → Fits candidate x
      → walks_root kind root (started now candidate x) ≡ false
  walks_other kind root x e fits = rw (fits.same_type, fits.same_version) (ground (arith, e))

  start_root :
      (kind root : String) (jobs : List JobRow)
      → Ready jobs candidate
      → IsValid jobs
      → count_rows
          (walks_root kind root)
          (update_rows (has_job_id candidate.id) (started now candidate) jobs)
        ≤ 1
  start_root kind root jobs r v =
      elim (Bool-cases (
        is_root_kind candidate.job_type
        && (candidate.job_type == kind && candidate.target_version == root))) [
          | inr e ↦ omega (
            arith,
            v.one_per_root kind root,
            start_other (walks_root kind root) jobs (λ x fits. walks_other kind root x e fits)
                r.own,
          )
          | inl e ↦
              let same_kind = (String_eq.beq_iff candidate.job_type kind).0 (ground arith) in
              let same_root = (String_eq.beq_iff candidate.target_version root).0 (ground arith) in
              start_first (walks_root kind root) jobs v
                (let z = r.root_free (ground arith) in let y = rw (same_kind, same_root) at z in y)
        ]

  start-Follows :
      (x : JobRow)
      → FitsIf candidate x
      → has_job_id candidate.id x ≡ true
      → Follows x (started now candidate x)
  start-Follows x f e =
      let fits = f ((String_eq.beq_iff x.id candidate.id).0 e) in
      record {
        same_id = refl;
        fence_le = omega (arith, fits.same_fence);
        ended = λ h. absurd (let k = rw fits.waits at h in cc);
      }

  start_within :
      (x : JobRow)
      → candidate.attempt_count < candidate.max_attempts
      → FitsIf candidate x
      → x.attempt_count ≤ x.max_attempts
      → (updated (has_job_id candidate.id) (started now candidate) x).attempt_count
        ≤ (updated (has_job_id candidate.id) (started now candidate) x).max_attempts
  start_within x b f h = elim (Bool-cases (has_job_id candidate.id x)) [
    | inr e ↦ rw e h
    | inl e ↦
        let fits = f ((String_eq.beq_iff x.id candidate.id).0 e) in
        rw e (omega (arith, b, fits.same_maximum))
  ]

  pub start-Carries :
      (jobs : List JobRow)
      → Ready jobs candidate
      → IsValid jobs
      → Carries jobs (update_rows (has_job_id candidate.id) (started now candidate) jobs)
  start-Carries jobs r v = record {
    evolves =
        Evolves-update_rows (has_job_id candidate.id) (started now candidate) jobs
          (All-map (FitsIf candidate) _ jobs start-Follows r.own);
    valid = record {
      unique_ids =
          Unique-update_rows job_id (has_job_id candidate.id) (started now candidate) jobs
            (All-of _ jobs start_id) v.unique_ids;
      one_per_file = λ file. start_file file jobs r v;
      one_per_root = λ kind root. start_root kind root jobs r v;
      attempts_le =
          All-updated (λ x. FitsIf candidate x × (x.attempt_count ≤ x.max_attempts)) _ _ _ jobs
            (λ x h. start_within x r.below h.0 h.1)
            (All-both (FitsIf candidate) _ jobs r.own v.attempts_le);
    };
  }
    where
      start_id :
          (x : JobRow)
          → job_id (updated (has_job_id candidate.id) (started now candidate) x) ≡ job_id x
      start_id x = ground arith

claim_chosen-Carries :
    (call : Call) (attempt_id : String) (before : List JobRow) (choice : Option JobRow × Database)
    → Chosen before choice
    → Carries before (claim_chosen call attempt_id choice).1.jobs
unfolding claim_chosen start_job
claim_chosen-Carries call attempt_id before (none, database) c = c.carries
claim_chosen-Carries call attempt_id before (some job, database) c =
    Carries-trans c.carries
      (start-Carries call.now job database.jobs (c.ready job refl) c.carries.valid)

pub claim_lane-Carries :
    (call : Call) (lane attempt_id : String) (database : Database)
    → IsValid database.jobs
    → Carries database.jobs (claim_lane call lane attempt_id database).1.jobs
unfolding claim_lane
claim_lane-Carries call lane attempt_id database v =
    claim_chosen-Carries call attempt_id database.jobs _
      (choose-Chosen call _ database (candidates-Ready lane call.now database.jobs v) v)
