-- ===== src/Libraries/Jobs/Invariant.antt =====
-- What holds of the table of jobs, and what every operation carries from a table to the next one.
use expediente.Base.{
  ◌≤◌, Bool, true, false, String, String_eq, List, [], ◌∷◌, ◌++◌, All, Unique, count_rows,
  update_rows, updated, Bool-cases, ◌≡◌, ◌⊎◌, inl, inr, refl, ap, ◌∙◌, arith,
}
use expediente.Libraries.{JobRow}
use expediente.Libraries.Jobs.{is_active, is_running, runs_on_file, walks_root}

abbrev pub job_id : JobRow → String
job_id job = job.id

pub record IsValid (jobs : List JobRow) : Type 0 where
  pub unique_ids : Unique job_id jobs
  pub one_per_file : (file : String) → count_rows (runs_on_file file) jobs ≤ 1
  pub one_per_root : (kind root : String) → count_rows (walks_root kind root) jobs ≤ 1
  pub attempts_le : All (λ job. job.attempt_count ≤ job.max_attempts) jobs

-- What stands at the place of a job later: the same job, under no smaller fencing token; a job that
-- ended is not touched again.
pub record Follows (before after : JobRow) : Type 0 where
  pub same_id : after.id ≡ before.id
  pub fence_le : before.fencing_token ≤ after.fencing_token
  pub ended : is_active before.status ≡ false → after ≡ before

-- Every job of the first table is at its place in the second one, which may have further jobs.
pub data Evolves : List JobRow → List JobRow → Type 0 where
  created : {after : List JobRow} → Evolves [] after
  kept :
      {x y : JobRow} {xs ys : List JobRow} → Follows x y → Evolves xs ys → Evolves (x ∷ xs) (y ∷ ys)

-- An UPDATE that makes no job running and no job another one.
pub record Calms (before after : JobRow) : Type 0 where
  pub follows : Follows before after
  pub same_file : after.file_id ≡ before.file_id
  pub same_type : after.job_type ≡ before.job_type
  pub same_version : after.target_version ≡ before.target_version
  pub same_attempts : after.attempt_count ≡ before.attempt_count
  pub same_maximum : after.max_attempts ≡ before.max_attempts
  pub still_running : is_running after.status ≡ true → is_running before.status ≡ true

pub record Carries (before after : List JobRow) : Type 0 where
  pub valid : IsValid after
  pub evolves : Evolves before after

pub Follows-refl : (job : JobRow) → Follows job job
Follows-refl job = record { same_id = refl; fence_le = omega arith; ended = λ h. refl }

pub Follows-trans : (x y z : JobRow) → Follows x y → Follows y z → Follows x z
Follows-trans x y z f g = record {
  same_id = g.same_id ∙ f.same_id;
  fence_le = omega (arith, f.fence_le, g.fence_le);
  ended = λ h. g.ended (ap (λ (j : JobRow). is_active j.status) (f.ended h) ∙ h) ∙ f.ended h;
}

pub Evolves-refl : (jobs : List JobRow) → Evolves jobs jobs
Evolves-refl [] = created
Evolves-refl (job ∷ jobs) = kept (Follows-refl job) (Evolves-refl jobs)

pub Evolves-trans : {xs ys zs : List JobRow} → Evolves xs ys → Evolves ys zs → Evolves xs zs
Evolves-trans created k = created
Evolves-trans (kept f e) (kept g k) = kept (Follows-trans _ _ _ f g) (Evolves-trans e k)

pub Evolves-append : (jobs more : List JobRow) → Evolves jobs (jobs ++ more)
Evolves-append [] more = created
Evolves-append (job ∷ jobs) more = kept (Follows-refl job) (Evolves-append jobs more)

pub Evolves-update_rows :
    (q : JobRow → Bool) (f : JobRow → JobRow) (jobs : List JobRow)
    → All (λ x. q x ≡ true → Follows x (f x)) jobs
    → Evolves jobs (update_rows q f jobs)
unfolding update_rows
Evolves-update_rows q f [] a = created
Evolves-update_rows q f (x ∷ xs) a = kept (step (Bool-cases (q x))) (Evolves-update_rows q f xs a.1)
  where
    step : (q x ≡ true) ⊎ (q x ≡ false) → Follows x (updated q f x)
    step (inl e) = rw e (a.0 e)
    step (inr e) = rw e (Follows-refl x)

pub Carries-refl : (jobs : List JobRow) → IsValid jobs → Carries jobs jobs
Carries-refl jobs v = record { valid = v; evolves = Evolves-refl jobs }

pub Carries-trans : {xs ys zs : List JobRow} → Carries xs ys → Carries ys zs → Carries xs zs
Carries-trans c d = record { valid = d.valid; evolves = Evolves-trans c.evolves d.evolves }
