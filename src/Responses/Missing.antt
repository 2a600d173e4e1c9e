-- ===== src/Responses/Missing.antt =====
-- When the request for a scan answers 404.
use mathlib.Core.List.Memᴰ
use schema_sentry.Prelude.{
  ℕ, false, none, some, List, [], ◌∷◌, Memᴰ, ◌≡◌, ◌≢◌, ◌↔◌, inl, inr, refl, sym, ap, ◌∙◌, arith,
  ◌==◌, ℕ_eq, Option-cases,
}
use schema_sentry.Prelude.Result.{Result-cases}
use schema_sentry.Store.{Db, ScanRunRow, find}
use schema_sentry.Views.{to_persisted, optional_view, get_view}
use schema_sentry.Responses.{missing, respond_detail, get_scan_request}

find-eq-none_iff :
    (id : ℕ) (xs : List ScanRunRow)
    → (find (λ s. s.id == id) xs ≡ none) ↔ ((s : ScanRunRow) → Memᴰ s xs → s.id ≢ id)
find-eq-none_iff id [] = (λ h s m. absurd (Memᴰ.not-nil m), λ h. refl)
find-eq-none_iff id (x ∷ xs) = (to (find-eq-none_iff id xs).0, from (find-eq-none_iff id xs).1)
  where
    to :
        (find (λ s. s.id == id) xs ≡ none → (s : ScanRunRow) → Memᴰ s xs → s.id ≢ id)
        → find (λ s. s.id == id) (x ∷ xs) ≡ none
        → (s : ScanRunRow) → Memᴰ s (x ∷ xs)
        → s.id ≢ id
    to later h s (Memᴰ.head same) is =
        ground (arith, ℕ_eq.test_iff x.id id, ap (λ r. r.id) same, is, h)
    to later h s (Memᴰ.tail m) is = later (ground (arith, h)) s m is

    from :
        (((s : ScanRunRow) → Memᴰ s xs → s.id ≢ id) → find (λ s. s.id == id) xs ≡ none)
        → ((s : ScanRunRow) → Memᴰ s (x ∷ xs) → s.id ≢ id)
        → find (λ s. s.id == id) (x ∷ xs) ≡ none
    from later h =
        ground
          (arith, ℕ_eq.test_iff x.id id, h x (Memᴰ.head refl), later (λ s m. h s (Memᴰ.tail m)))

view_not_missing :
    (db : Db) (s : ScanRunRow) → respond_detail (optional_view false db (some s)) ≢ missing
unfolding respond_detail optional_view
view_not_missing db s h = elim (Result-cases (to_persisted false db s)) [
  | inl (v, shown) ↦ ground (arith, rw (shown, optional_view, respond_detail) at h)
  | inr (e, failure) ↦ ground (arith, rw (failure, optional_view, respond_detail) at h)
]

-- The request for a scan answers 404 exactly if no scan of the store has the id.
pub get_scan_request-eq-missing_iff :
    (scan_id : ℕ) (db : Db)
    → (get_scan_request scan_id db ≡ missing)
      ↔ ((s : ScanRunRow) → Memᴰ s db.scans → s.id ≢ scan_id)
unfolding get_scan_request respond_detail get_view optional_view
get_scan_request-eq-missing_iff scan_id db = (to, from)
  where
    to : get_scan_request scan_id db ≡ missing → (s : ScanRunRow) → Memᴰ s db.scans → s.id ≢ scan_id
    to h = elim (Option-cases (find (λ s. s.id == scan_id) db.scans)) [
      | inl none_there ↦ (find-eq-none_iff scan_id db.scans).0 none_there
      | inr (s, found) ↦ absurd (
          view_not_missing db s
            (ap (λ o. respond_detail (optional_view false db o)) (sym found) ∙ h))
    ]

    from :
        ((s : ScanRunRow) → Memᴰ s db.scans → s.id ≢ scan_id)
        → get_scan_request scan_id db ≡ missing
    from h =
        ap (λ o. respond_detail (optional_view false db o))
          ((find-eq-none_iff scan_id db.scans).1 h)
