-- ===== src/Changes/Guard/Task.antt =====
-- The guard task of the DAG lets a run through only on a registered pipeline without blocking changes.

use schema_sentry.Prelude.{
  String, Bool, true, false, List, [], ◌∷◌, Memᴰ, ◌≡◌, ◌↔◌, inl, inr, refl, arith, ◌==◌, String_eq,
  is_none, Bool-cases, if◌then◌else◌,
}
use schema_sentry.Store.{Db, PipelineRow, find}
use schema_sentry.Changes.Guard.{
  BlockingChange, pass, retry, guard, guard_task, validation_status, reported_safe,
  validate_pipeline, list_open_breaking_changes_for_pipeline,
}
use schema_sentry.Changes.Guard.Correct.{IsBlocking, validate_pipeline_exact}

-- A registered pipeline is one of the rows.
pipeline_of_found :
    (key : String) (ps : List PipelineRow)
    → is_none (find (λ p. p.key == key) ps) ≡ false
    → (p : PipelineRow) × Memᴰ p ps × (p.key ≡ key)
pipeline_of_found key [] h = absurd (ground (arith, h))
pipeline_of_found key (p ∷ ps) h = elim (Bool-cases (p.key == key)) [
  | inl hit ↦ (p, Memᴰ.head refl, (String_eq.test_iff p.key key).0 hit)
  | inr miss ↦ let (q, m, same) = pipeline_of_found key ps (rw miss at h) in (q, Memᴰ.tail m, same)
]

passes_iff : (b : Bool) → (guard (if b then 200 else 409) b ≡ pass) ↔ (b ≡ true)
unfolding guard
passes_iff true = ground arith
passes_iff false = ground arith

-- The task is retried for a pipeline that the store does not know.
not_registered :
    (key : String) (db : Db)
    → is_none (find (λ p. p.key == key) db.pipelines) ≡ true
    → guard_task key db ≡ retry
unfolding guard_task validate_pipeline list_open_breaking_changes_for_pipeline validation_status
    reported_safe guard
not_registered key db h = rw h refl

-- The task passes exactly if the pipeline is registered and no open breaking change reaches it. In
-- particular it does not pass for a pipeline that the store does not know.
pub guard_task-eq-pass_iff :
    (key : String) (db : Db)
    → (guard_task key db ≡ pass) ↔ (
        (p : PipelineRow) × Memᴰ p db.pipelines
        × (p.key ≡ key)
        × ((b : BlockingChange) → ¬ IsBlocking key db b))
unfolding guard_task validation_status reported_safe
guard_task-eq-pass_iff key db = (to, from)
  where
    from :
        (p : PipelineRow) × Memᴰ p db.pipelines
          × (p.key ≡ key)
          × ((b : BlockingChange) → ¬ IsBlocking key db b)
        → guard_task key db ≡ pass
    from (p, m, same, clear) =
        let (v, is, _, safe) = validate_pipeline_exact key db p m same in
        rw (is, guard_task) ((passes_iff v.safe).1 (safe.1 clear))

    to :
        guard_task key db ≡ pass
        → (p : PipelineRow) × Memᴰ p db.pipelines
          × (p.key ≡ key)
          × ((b : BlockingChange) → ¬ IsBlocking key db b)
    to h = elim (Bool-cases (is_none (find (λ p. p.key == key) db.pipelines))) [
      | inl missing ↦ absurd (ground (arith, not_registered key db missing, h))
      | inr found ↦
          let (p, m, same) = pipeline_of_found key db.pipelines found in
          let (v, is, _, safe) = validate_pipeline_exact key db p m same in
          (p, m, same, safe.0 ((passes_iff v.safe).0 (rw (is, guard_task) at h)))
    ]
