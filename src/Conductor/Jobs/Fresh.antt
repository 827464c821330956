-- ===== src/Conductor/Jobs/Fresh.antt =====
-- The ids of the jobs of a process.
use Prim.Native.Char.{code}
use Prim.Native.String.{◌++◌ as str_append}
use Prim.Native.String.append
use mathlib.Core.Path.{subst}
use agentic_coding_stack.Prelude.{
  ℕ, ◌+◌, ◌≤◌, String, ◌≡◌, refl, sym, ap, ◌∙◌, Bool, false, inl, inr, Bool-cases, Option, none,
  some, [], ◌∷◌, ◌++◌, All, All-append, length, length-append, str_eq, eq_iff, ◌==◌, arith,
  if◌then◌else◌,
}
use agentic_coding_stack.Base.Text.{concat, join}
use agentic_coding_stack.Base.Exec.{ok}
use agentic_coding_stack.Base.Table.{Table, find, store, find-store, find-store_self}
use agentic_coding_stack.Conductor.Jobs.{JobCreate, JobStatus, new_job_id, create_job, get_job}

abbrev first_part : String → Bool → Option String
first_part s b = if b then some s else none

-- The text behind the last colon.
unfoldable pub last_part : String → Option String
last_part String.[] = none
last_part (String.◌∷◌ c s) = elim (last_part s) [
  | some t ↦ some t
  | none ↦ first_part s (code c == 58)
]

-- Decimal numbers are different for different numbers and have no colon.
pub record IsDecimal (decimal : ℕ → String) : Type 0 where
  pub distinct : (m n : ℕ) → decimal m ≡ decimal n → m ≡ n
  pub no_colon : (n : ℕ) → last_part (decimal n) ≡ none

last_part-colon : (d : String) → last_part d ≡ none → last_part (str_append ":" d) ≡ some d
unfolding last_part
last_part-colon d h = rw (append.cons _ String.[] d, append.nil d, h) refl

last_part-append :
    (t s : String) {d : String} → last_part s ≡ some d → last_part (str_append t s) ≡ some d
unfolding last_part
last_part-append String.[] s h = rw (append.nil s) h
last_part-append (String.◌∷◌ c t) s h =
    rw (append.cons c t s, last_part, last_part-append t s h) refl

module _ (decimal : ℕ → String) (d : IsDecimal decimal) where
  abbrev id_of : String → ℕ → String
  id_of task n = concat (task ∷ ":" ∷ decimal n ∷ [])

  id_of-number : (task : String) (n : ℕ) → last_part (id_of task n) ≡ some (decimal n)
  unfolding concat join
  id_of-number task n =
      let behind : last_part (str_append ":" (decimal n)) ≡ some (decimal n) =
        last_part-colon (decimal n) (d.no_colon n) in
      rw (append.nil (decimal n), append.nil (str_append ":" (decimal n)))
        (last_part-append task (str_append ":" (decimal n)) behind)

  -- The ids of the jobs end in different numbers up to their count.
  abbrev Counted : ℕ → String × JobStatus → Type 0
  Counted k (job_id, job) =
      (task : String) × (n : ℕ) × (n ≤ k) × (job_id ≡ id_of task n) × (job.id ≡ job_id)

  abbrev pub AllCounted : Table JobStatus → Type 0
  AllCounted jobs = All (Counted (length jobs)) jobs

  find-Counted :
      (k : ℕ) (task : String) (jobs : Table JobStatus)
      → All (Counted k) jobs
      → find (id_of task (k + 1)) jobs ≡ none
  unfolding find
  find-Counted k task [] all = refl
  find-Counted k task ((job_id, job) ∷ jobs) all =
      let (task', n, le, same, own) = all.0 in
      let differs : str_eq job_id (id_of task (k + 1)) ≡ false =
        elim (Bool-cases (str_eq job_id (id_of task (k + 1)))) [
          | inr e ↦ e
          | inl e ↦
              let both : id_of task' n ≡ id_of task (k + 1) =
                sym same ∙ (eq_iff job_id (id_of task (k + 1))).0 e in
              let numbers : some (decimal n) ≡ some (decimal (k + 1)) =
                sym (id_of-number task' n) ∙ ap last_part both ∙ id_of-number task (k + 1) in
              let equal : n ≡ k + 1 = d.distinct n (k + 1) (cc numbers) in
              let impossible : ⊥ = omega (arith, le, equal) in elim impossible [ ]
        ] in
      rw differs (find-Counted k task jobs all.1)

  store_new :
      (job_id : String) (job : JobStatus) (jobs : Table JobStatus)
      → find job_id jobs ≡ none
      → store job_id job jobs ≡ jobs ++ (job_id, job) ∷ []
  unfolding find store
  store_new job_id job [] h = refl
  store_new job_id job ((i, j) ∷ jobs) h = elim (Bool-cases (str_eq i job_id)) [
    | inl e ↦ cc (rw e at h)
    | inr e ↦ rw e (ap (λ rest. (i, j) ∷ rest) (store_new job_id job jobs (rw e at h)))
  ]

  Counted-more :
      (k : ℕ) (jobs : Table JobStatus) → All (Counted k) jobs → All (Counted (k + 1)) jobs
  Counted-more k [] all = tt
  Counted-more k ((i, j) ∷ jobs) all =
      let (task, n, le, same, own) = all.0 in
      ((task, n, omega (arith, le), same, own), Counted-more k jobs all.1)

  store-AllCounted :
      (task : String) (job : JobStatus) (jobs : Table JobStatus)
      → AllCounted jobs
      → job.id ≡ id_of task (length jobs + 1)
      → AllCounted (store (id_of task (length jobs + 1)) job jobs)
  store-AllCounted task job jobs all own =
      let k = length jobs in
      let added : Table JobStatus = (id_of task (k + 1), job) ∷ [] in
      let newest : k + 1 ≤ k + 1 = omega arith in
      let grown : length (jobs ++ added) ≡ k + 1 = omega (arith, length-append jobs added) in
      rw (store_new (id_of task (k + 1)) job jobs (find-Counted k task jobs all)) (
        subst (λ n. All (Counted n) (jobs ++ added)) (sym grown)
          (All-append (Counted (k + 1)) jobs added (Counted-more k jobs all)
            ((task, k + 1, newest, refl, own), tt)))

  -- Jobs are not lost. Among jobs whose ids end in different numbers up to their count, as there are
  -- after any number of creations, `create_job` takes an id that no job has and the ids stay like
  -- that; `get_job` then finds the new job, queued, under its id and every other job as before.
  pub create_job-AllCounted :
      (r : JobCreate) (jobs : Table JobStatus)
      → AllCounted jobs
      → let job_id = new_job_id decimal r jobs in
        let job : JobStatus = record { id = job_id; status = "queued"; stage = "created" } in
        let jobs' = (create_job decimal r jobs).1 in
        (find job_id jobs ≡ none)
        × AllCounted jobs'
        × (get_job job_id jobs' ≡ (ok job, jobs'))
        × ((other : String)
            → find other jobs' ≡ (if str_eq job_id other then some job else find other jobs))
  unfolding create_job get_job new_job_id
  create_job-AllCounted r jobs all =
      let job_id = id_of r.task_id (length jobs + 1) in
      let job : JobStatus = record { id = job_id; status = "queued"; stage = "created" } in
      (
        find-Counted (length jobs) r.task_id jobs all,
        store-AllCounted r.task_id job jobs all refl,
        rw (find-store_self job_id job jobs) refl,
        λ other. find-store job_id other job jobs,
      )
