-- ===== src/Catalog/Loaded.antt =====
-- What the validators of the configuration leave.
use mathlib.Core.List.Memᴰ
use mathlib.Core.Logic.{⊎_elim}
use schema_sentry.Prelude.{
  Option, none, some, List, [], ◌∷◌, map, length, ◌&&◌, ℕ_eq, String_eq, Memᴰ, ◌≡◌, inl, inr, sym,
  ap, subst, arith, Bool-cases, Memᴰ-cons, IsUnique, to_set, length-to_set-eq_iff,
}
use schema_sentry.Prelude.Result.{ok, returned, ok_injective}
use schema_sentry.Catalog.Config.{
  CatalogConfig, PipelineConfig, PipelineContent, normalize_criticality, configured,
  with_criticality, valid_fields, validate_pipeline_config, validate_pipelines,
  validate_pipeline_identity, identified, load, non_empty,
}
use schema_sentry.Catalog.Sync.Complete.{HasValidSets}

with_criticality-eq-ok :
    (p : PipelineContent) (r : Option _) (c : PipelineConfig)
    → with_criticality p r ≡ ok c
    → (c.inputs ≡ p.inputs) × (c.outputs ≡ p.outputs)
unfolding with_criticality
with_criticality-eq-ok p none c h = absurd (ground (arith, h))
with_criticality-eq-ok p (some k) c h =
    let same = ok_injective (configured p k) c h in
    (sym (ap (λ x. x.inputs) same), sym (ap (λ x. x.outputs) same))

validate_pipeline_config-HasValidSets :
    (p : PipelineContent) (c : PipelineConfig) → validate_pipeline_config p ≡ ok c → HasValidSets c
unfolding validate_pipeline_config HasValidSets
validate_pipeline_config-HasValidSets p c h = elim (Bool-cases (valid_fields p)) [
  | inr refused ↦ absurd (ground (arith, rw (refused, validate_pipeline_config) at h))
  | inl valid ↦
      let (i, o) =
        with_criticality-eq-ok p (normalize_criticality p.criticality) c
          (rw (valid, validate_pipeline_config) at h) in
      rw (i, o) (ground (arith, valid), ground (arith, valid))
]

validate_pipelines-HasValidSets :
    (ps : List PipelineContent) (cs : List PipelineConfig)
    → validate_pipelines ps ≡ ok cs
    → (c : PipelineConfig) → Memᴰ c cs
    → HasValidSets c
unfolding validate_pipelines
validate_pipelines-HasValidSets [] cs h c m =
    absurd (Memᴰ.not-nil (subst (λ l. Memᴰ c l) (sym (ok_injective [] cs h)) m))
validate_pipelines-HasValidSets (p ∷ ps) cs h c m =
    let (first, is, h1) = returned cs (validate_pipeline_config p) _ h in
    let (rest, others, h2) = returned cs (validate_pipelines ps) _ h1 in
    ⊎_elim
      (λ same. subst HasValidSets (sym same) (validate_pipeline_config-HasValidSets p first is))
      (validate_pipelines-HasValidSets ps rest others c)
      ((Memᴰ-cons c first rest).0
        (subst (λ l. Memᴰ c l) (sym (ok_injective (first ∷ rest) cs h2)) m))

identified-eq-ok :
    (ps : List PipelineConfig) (config : CatalogConfig)
    → identified ps ≡ ok config
    → (config.pipelines ≡ ps) × IsUnique (map (λ p. p.key) ps)
unfolding identified validate_pipeline_identity
identified-eq-ok ps config h = elim (Bool-cases (non_empty ps && validate_pipeline_identity ps)) [
  | inr refused ↦ absurd (ground (arith, rw (refused, identified) at h))
  | inl valid ↦
      let keys = map (λ (p : PipelineConfig). p.key) ps in
      (
        sym (
            ap (λ x. x.pipelines)
              (ok_injective (record { pipelines = ps }) config (rw (valid, identified) at h))),
        (length-to_set-eq_iff keys).0
            (ground (arith, valid, ℕ_eq.test_iff (length keys) (length (to_set keys)))),
      )
]

-- A configuration that was loaded has column sets with valid names, and its keys are unique.
pub load-eq-ok :
    (content : Option (List PipelineContent)) (config : CatalogConfig)
    → load content ≡ ok config
    → ((c : PipelineConfig) → Memᴰ c config.pipelines → HasValidSets c)
      × IsUnique (map (λ p. p.key) config.pipelines)
unfolding load
load-eq-ok none config h = absurd (ground (arith, h))
load-eq-ok (some content) config h =
    let (ps, valid, h1) = returned config (validate_pipelines content) _ h in
    let (is, unique) = identified-eq-ok ps config h1 in
    rw (is) (validate_pipelines-HasValidSets content ps valid, unique)
