-- ===== src/Catalog/Accepted.antt =====
-- The validators of the configuration accept exactly the valid files.
use schema_sentry.Prelude.{
  true, Option, none, some, List, [], ◌∷◌, map, all, All, ◌≡◌, ◌≢◌, ◌↔◌, inl, inr, refl, sym, ap,
  ◌∙◌, subst, arith, ◌&&◌, ℕ_eq, String_eq, IsUnique, Bool-cases, Option-cases,
}
use schema_sentry.Prelude.Result.{ok, ok_injective, returned}
use schema_sentry.Catalog.Config.{
  ColumnSetConfig, PipelineContent, PipelineConfig, CatalogConfig, non_empty, validate_column_set,
  normalize_criticality, valid_fields, configured, with_criticality, validate_pipeline_config,
  validate_pipelines, validate_pipeline_identity, identified, load,
}
use schema_sentry.Catalog.Valid.{criticality_name, IsColumnSet, Configures, AllConfigured, IsValid}
use schema_sentry.Catalog.Checked.{
  non_empty_iff, named_iff, is_set_iff, all_iff, validate_column_set_iff, normalize_criticality_iff,
}

-- A pipeline is accepted exactly if it is valid, with the criticality that it names.
validate_pipeline_config_iff :
    (p : PipelineContent) (c : PipelineConfig)
    → (validate_pipeline_config p ≡ ok c) ↔ Configures p c
unfolding validate_pipeline_config with_criticality
validate_pipeline_config_iff p c = (to, from)
  where
    sets_iff :
        (sets : List ColumnSetConfig) → (all validate_column_set sets ≡ true) ↔ All IsColumnSet sets
    sets_iff = all_iff validate_column_set IsColumnSet validate_column_set_iff

    to : validate_pipeline_config p ≡ ok c → Configures p c
    to h = elim (Bool-cases (valid_fields p)) [
      | inr refused ↦ absurd (ground (arith, rw (refused, validate_pipeline_config) at h))
      | inl valid ↦ elim (Option-cases (normalize_criticality p.criticality)) [
        | inl unnamed ↦ absurd (ground (arith, rw (valid, unnamed, validate_pipeline_config) at h))
        | inr (k, named) ↦
            let same : configured p k ≡ c =
              ok_injective (configured p k) c (rw (valid, named, validate_pipeline_config) at h) in
            let is : k ≡ c.criticality = ap (λ x. x.criticality) same in
            record {
              has_key = (named_iff p.key).0 (ground (arith, valid));
              has_dag = (named_iff p.airflow_dag_id).0 (ground (arith, valid));
              has_owner = (named_iff p.owner).0 (ground (arith, valid));
              has_inputs = (non_empty_iff p.inputs).0 (ground (arith, valid));
              has_outputs = (non_empty_iff p.outputs).0 (ground (arith, valid));
              inputs_fine = (sets_iff p.inputs).0 (ground (arith, valid));
              outputs_fine = (sets_iff p.outputs).0 (ground (arith, valid));
              names_criticality =
                  (normalize_criticality_iff p.criticality k).0 named ∙ ap criticality_name is;
              declares = sym same ∙ ap (configured p) is;
            }
      ]
    ]

    from : Configures p c → validate_pipeline_config p ≡ ok c
    from h =
        let valid : valid_fields p ≡ true = ground (
          arith,
          (named_iff p.key).1 h.has_key,
          (named_iff p.airflow_dag_id).1 h.has_dag,
          (named_iff p.owner).1 h.has_owner,
          (non_empty_iff p.inputs).1 h.has_inputs,
          (non_empty_iff p.outputs).1 h.has_outputs,
          (sets_iff p.inputs).1 h.inputs_fine,
          (sets_iff p.outputs).1 h.outputs_fine,
        ) in
        let named = (normalize_criticality_iff p.criticality c.criticality).1 h.names_criticality in
        rw (valid, named, validate_pipeline_config) (ap ok (sym h.declares))

validate_pipelines_iff :
    (ps : List PipelineContent) (cs : List PipelineConfig)
    → (validate_pipelines ps ≡ ok cs) ↔ AllConfigured ps cs
unfolding validate_pipelines
validate_pipelines_iff [] [] = (λ _. tt, λ _. refl)
validate_pipelines_iff [] (c ∷ cs) =
    (λ h. absurd (ground (arith, ok_injective [] (c ∷ cs) h)), λ none_left. absurd none_left)
validate_pipelines_iff (p ∷ ps) [] = (
  λ h.
      let (first, is, h1) = returned [] (validate_pipeline_config p) _ h in
      let (rest, others, h2) = returned [] (validate_pipelines ps) _ h1 in
      absurd (ground (arith, ok_injective (first ∷ rest) [] h2)),
  λ none_left. absurd none_left,
)
validate_pipelines_iff (p ∷ ps) (c ∷ cs) = (
  λ h.
      let (first, is, h1) = returned (c ∷ cs) (validate_pipeline_config p) _ h in
      let (rest, others, h2) = returned (c ∷ cs) (validate_pipelines ps) _ h1 in
      let both = ok_injective (first ∷ rest) (c ∷ cs) h2 in
      let same : first ≡ c = cc both in
      let same_rest : rest ≡ cs = cc both in
      (
        (validate_pipeline_config_iff p c).0 (is ∙ ap ok same),
        (validate_pipelines_iff ps cs).0 (others ∙ ap ok same_rest),
      ),
  λ (first, others).
      rw ((validate_pipeline_config_iff p c).1 first, (validate_pipelines_iff ps cs).1 others) refl,
)

identified_iff :
    (ps : List PipelineConfig) (config : CatalogConfig)
    → (identified ps ≡ ok config) ↔ (
        (config.pipelines ≡ ps)
        × (ps ≢ [])
        × IsUnique (map (λ p. p.key) ps)
        × IsUnique (map (λ p. p.airflow_dag_id) ps))
unfolding identified validate_pipeline_identity
identified_iff ps config = (
  λ h. elim (Bool-cases (non_empty ps && validate_pipeline_identity ps)) [
    | inr refused ↦ absurd (ground (arith, rw (refused, identified) at h))
    | inl valid ↦ (
      sym (
          ap (λ x. x.pipelines)
            (ok_injective (record { pipelines = ps }) config (rw (valid, identified) at h))),
      (non_empty_iff ps).0 (ground (arith, valid)),
      (is_set_iff (map (λ p. p.key) ps)).0 (ground (arith, valid)),
      (is_set_iff (map (λ p. p.airflow_dag_id) ps)).0 (ground (arith, valid)),
    )
  ],
  λ (same, some_left, keys, dags).
      rw
        (
          (non_empty_iff ps).1 some_left,
          (is_set_iff (map (λ p. p.key) ps)).1 keys,
          (is_set_iff (map (λ p. p.airflow_dag_id) ps)).1 dags,
        )
        (ap (λ l. ok (record { pipelines = l })) (sym same)),
)

-- `load` gives the configuration that the content declares, and gives one exactly if the content is valid.
pub load-eq-ok_iff :
    (content : Option (List PipelineContent)) (config : CatalogConfig)
    → (load content ≡ ok config) ↔ IsValid content config
unfolding load
load-eq-ok_iff none config =
    (λ h. absurd (ground (arith, h)), λ v. absurd (ground (arith, v.has_content)))
load-eq-ok_iff (some content) config = (to, from)
  where
    to : load (some content) ≡ ok config → IsValid (some content) config
    to h =
        let (ps, valid, h1) = returned config (validate_pipelines content) _ h in
        let (same, some_left, keys, dags) = (identified_iff ps config).0 h1 in
        record {
          pipelines = content;
          has_content = refl;
          configures =
              (validate_pipelines_iff content config.pipelines).0 (valid ∙ ap ok (sym same));
          has_pipelines = rw same some_left;
          unique_keys = rw same keys;
          unique_dags = rw same dags;
        }

    from : IsValid (some content) config → load (some content) ≡ ok config
    from v =
        let same : content ≡ v.pipelines = cc (v.has_content) in
        let read =
          (validate_pipelines_iff content config.pipelines).1
            (subst (λ l. AllConfigured l config.pipelines) (sym same) v.configures) in
        rw (read) (
          (identified_iff config.pipelines config).1
            (refl, v.has_pipelines, v.unique_keys, v.unique_dags))
