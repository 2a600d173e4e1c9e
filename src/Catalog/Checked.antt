-- ===== src/Catalog/Checked.antt =====
-- The tests of the validators of the configuration, and what they mean.
use schema_sentry.Prelude.{
  String, Bool, true, not, some, List, [], ◌∷◌, all, length, All, ◌≡◌, ◌≢◌, ◌↔◌, inl, inr, refl,
  sym, ap, ◌∙◌, arith, ◌==◌, ℕ_eq, String_eq, IsUnique, to_set, length-to_set-eq_iff, Bool-cases,
}
use schema_sentry.Prelude.Text.{split_on, upper}
use schema_sentry.Domain.Enums.{PipelineCriticality, low, medium, high, critical}
use schema_sentry.Catalog.Config.{
  ColumnSetConfig, non_empty, is_pair_of_texts, validate_dataset_name, is_set, validate_column_set,
  normalize_criticality,
}
use schema_sentry.Catalog.Valid.{criticality_name, IsTableParts, IsColumnSet}

pub non_empty_iff {ℓ} : {A : Type ℓ} (xs : List A) → (non_empty xs ≡ true) ↔ (xs ≢ [])
non_empty_iff [] = (λ h. absurd (ground (arith, h)), λ h. absurd (h refl))
non_empty_iff (x ∷ xs) = (λ _ same. ground (arith, ap non_empty same), λ _. refl)

pub named_iff : (s : String) → (not (s == "") ≡ true) ↔ (s ≢ "")
named_iff s = ground (arith, String_eq.test_iff s "")

pub is_set_iff : (values : List String) → (is_set values ≡ true) ↔ IsUnique values
is_set_iff values =
    let test = ℕ_eq.test_iff (length values) (length (to_set values)) in
    let same = length-to_set-eq_iff values in
    (λ h. same.0 (sym (test.0 h)), λ u. test.1 (sym (same.1 u)))

pub all_iff {ℓ} :
    {A : Type ℓ} (p : A → Bool) (P : A → Type 0)
    → ((x : A) → (p x ≡ true) ↔ P x)
    → (xs : List A) → (all p xs ≡ true) ↔ All P xs
all_iff p P each [] = (λ _. tt, λ _. refl)
all_iff p P each (x ∷ xs) =
    let rest = all_iff p P each xs in
    (
      λ h. ((each x).0 (ground (arith, h)), rest.0 (ground (arith, h))),
      λ (first, others). ground (arith, (each x).1 first, rest.1 others),
    )

is_pair_of_texts_iff : (parts : List String) → (is_pair_of_texts parts ≡ true) ↔ IsTableParts parts
is_pair_of_texts_iff [] =
    (λ h. absurd (ground (arith, h)), λ t. absurd (ground (arith, ap length t.parts_are)))
is_pair_of_texts_iff (a ∷ []) =
    (λ h. absurd (ground (arith, h)), λ t. absurd (ground (arith, ap length t.parts_are)))
is_pair_of_texts_iff (a ∷ b ∷ []) = (
  λ h. record {
    schema = a;
    table = b;
    parts_are = refl;
    has_schema = (named_iff a).0 (ground (arith, h));
    has_table = (named_iff b).0 (ground (arith, h));
  },
  λ t.
      let first : a ≡ t.schema = cc (t.parts_are) in
      let second : b ≡ t.table = cc (t.parts_are) in
      ground (
        arith,
        (named_iff a).1 (λ e. t.has_schema (sym first ∙ e)),
        (named_iff b).1 (λ e. t.has_table (sym second ∙ e)),
      ),
)
is_pair_of_texts_iff (a ∷ b ∷ c ∷ rest) =
    (λ h. absurd (ground (arith, h)), λ t. absurd (ground (arith, ap length t.parts_are)))

pub validate_column_set_iff : (s : ColumnSetConfig) → (validate_column_set s ≡ true) ↔ IsColumnSet s
unfolding validate_column_set validate_dataset_name
validate_column_set_iff s = (
  λ h. record {
    has_columns = (non_empty_iff s.columns).0 (ground (arith, h));
    names_table = (is_pair_of_texts_iff (split_on 46 s.dataset)).0 (ground (arith, h));
    unique_columns = (is_set_iff s.columns).0 (ground (arith, h));
  },
  λ t. ground (
    arith,
    (non_empty_iff s.columns).1 t.has_columns,
    (is_pair_of_texts_iff (split_on 46 s.dataset)).1 t.names_table,
    (is_set_iff s.columns).1 t.unique_columns,
  ),
)

-- Only the name of a criticality is normalised to it.
pub normalize_criticality_iff :
    (value : String) (c : PipelineCriticality)
    → (normalize_criticality value ≡ some c) ↔ (upper value ≡ criticality_name c)
unfolding normalize_criticality
normalize_criticality_iff value c = (to c, from c)
  where
    to :
        (c : PipelineCriticality)
        → normalize_criticality value ≡ some c
        → upper value ≡ criticality_name c
    to c h = elim (Bool-cases (upper value == "LOW")) [
      | inl e ↦ named "LOW" low e c refl (rw (e, normalize_criticality) at h)
      | inr e1 ↦ elim (Bool-cases (upper value == "MEDIUM")) [
        | inl e ↦ named "MEDIUM" medium e c refl (rw (e1, e, normalize_criticality) at h)
        | inr e2 ↦ elim (Bool-cases (upper value == "HIGH")) [
          | inl e ↦ named "HIGH" high e c refl (rw (e1, e2, e, normalize_criticality) at h)
          | inr e3 ↦ elim (Bool-cases (upper value == "CRITICAL")) [
            | inl e ↦
                named "CRITICAL" critical e c refl (rw (e1, e2, e3, e, normalize_criticality) at h)
            | inr e4 ↦ absurd (ground (arith, rw (e1, e2, e3, e4, normalize_criticality) at h))
          ]
        ]
      ]
    ]
      where
        named :
            (t : String) (k : PipelineCriticality)
            → (upper value == t) ≡ true
            → (c : PipelineCriticality) → criticality_name k ≡ t
            → some k ≡ some c
            → upper value ≡ criticality_name c
        named t k e c is same =
            let there : k ≡ c = cc same in
            (String_eq.test_iff (upper value) t).0 e ∙ sym is ∙ ap criticality_name there

    from :
        (c : PipelineCriticality)
        → upper value ≡ criticality_name c
        → normalize_criticality value ≡ some c
    from low h = rw h refl
    from medium h = rw h refl
    from high h = rw h refl
    from critical h = rw h refl
