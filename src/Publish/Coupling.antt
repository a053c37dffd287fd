-- ===== src/Publish/Coupling.antt =====
-- The states of jobs and of their versions in internal/store/postgres/publish/store.go go together.
use imgsrv.Prelude.{
  ℕ, List, Bool, true, false, some, ◌≡◌, refl, sym, ◌∙◌, ◌==◌, ==_iff, find, find-update_where,
  update_where, All, All-find, everywhere, All-update_where, IsDistinct, IsDistinct-update_where,
  if◌then◌else◌,
}
use imgsrv.Publish.Domain.{JobState, VersionState, publishing, published}
use imgsrv.Publish.Tables.{Version, Job}

-- The state of the version of a job.
abbrev pub version_state : JobState → VersionState
version_state JobState.succeeded = published
version_state _ = publishing

abbrev pub IsCoupledTo : List Version → Job → Type 0
IsCoupledTo vs j =
    (v : Version) × (find (λ w. w.id == j.version_id) vs ≡ some v)
    × (v.state ≡ version_state j.state)

abbrev pub version_key : Version → ℕ
version_key v = v.id

abbrev pub job_key : Job → ℕ
job_key j = j.id

abbrev pub job_version : Job → ℕ
job_version j = j.version_id

-- Identities are unique, a version has one job at most, and it is published when its job has succeeded,
-- and publishing as long as the job has not.
abbrev pub IsCoupled : List Version → List Job → Type 0
IsCoupled vs js =
    IsDistinct version_key vs
    × IsDistinct job_key js
    × IsDistinct job_version js
    × All (IsCoupledTo vs) js

-- An update of jobs under which the version of a job may stay as it is.
pub update_jobs-IsCoupled :
    (p : Job → Bool) (f : Job → Job) (vs : List Version) (js : List Job)
    → ((j : Job) → (f j).id ≡ j.id)
    → ((j : Job) → (f j).version_id ≡ j.version_id)
    → ((j : Job) → p j ≡ true → version_state (f j).state ≡ version_state j.state)
    → IsCoupled vs js
    → IsCoupled vs (update_where p f js)
update_jobs-IsCoupled p f vs js same_id same_version calm (dv, dj, dn, c) = (
  dv,
  IsDistinct-update_where job_key p f js same_id dj,
  IsDistinct-update_where job_version p f js same_version dn,
  All-update_where (IsCoupledTo vs) (IsCoupledTo vs) p f js
      (λ j (v, found, st) t. (v, rw (same_version j) found, st ∙ sym (calm j t))) (λ j h _. h) c,
)

-- The version of another row stays.
pub kept :
    (p : Version → Bool) (f : Version → Version) (vs : List Version) (v : Version) (i : ℕ)
    → ((w : Version) → (f w).id ≡ w.id)
    → find (λ w. w.id == i) vs ≡ some v
    → p v ≡ false
    → find (λ w. w.id == i) (update_where p f vs) ≡ some v
kept p f vs v i same found out =
    let moved : find (λ w. w.id == i) (update_where p f vs) ≡ some (if p v then f v else v) =
      find-update_where (λ w. w.id == i) p f vs (λ w. rw same refl) found in
    rw out at moved

pub found_id :
    (vs : List Version) (v : Version) (i : ℕ) → find (λ w. w.id == i) vs ≡ some v → v.id ≡ i
found_id vs v i e =
    (==_iff v.id i).0 (All-find (λ _. Unit {0}) (λ w. w.id == i) vs (everywhere _ (λ _. tt) vs) e).1
