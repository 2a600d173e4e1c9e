-- ===== src/Dashboard/Guarded.antt =====
-- Who may use the forms of the dashboard, and what the scan form does.
use schema_sentry.Prelude.{
  ℕ, String, Bool, true, Option, none, some, List, ◌≡◌, ◌⊎◌, inl, inr, refl, ap, ◌∙◌, arith, ℕ_eq,
  String_eq, Bool-cases, Option-cases,
}
use schema_sentry.Prelude.Json.{Json}
use schema_sentry.Prelude.Result.{Result, ok, err}
use schema_sentry.Domain.Enums.{manual}
use schema_sentry.Domain.Models.{ColumnDefinition}
use schema_sentry.Store.{
  Db, Exception, source_not_found, scan_already_running, empty_schema_snapshot, lookup_error,
  key_error, attribute_error, value_error, type_error, driver_error, change_not_found,
  baseline_version_conflict,
}
use schema_sentry.Security.{Settings, OperatorIdentity, api_key, require_operator}
use schema_sentry.Scan.Service.{
  created, Clock, ScanReport, run_scan, respond, end_transaction, post_scan,
}
use schema_sentry.Alerts.{Notifier}
use schema_sentry.Alerts.Context.{ScanAlertContext}
use schema_sentry.Alerts.Dispatcher.{enabled_channels}
use schema_sentry.System.{follow_up, answered, operated, scan_request}
use schema_sentry.Dashboard.{
  ChangeList, ActionResponse, refused, supplied_url, by_api_key, same_location, require_same_origin,
  allowed, protected, finish, after_page, alerted, failure_page, scan_page, scan_action,
}

-- The request names an origin or a referer with the dashboard's location, or it names none and has the key.
unfoldable pub SameOrigin :
    (urlsplit : String → String × String) (origin referer : Option String)
    → OperatorIdentity
    → Settings
    → Type 0
SameOrigin urlsplit origin referer identity s =
    ((url : String) × (supplied_url origin referer ≡ some url)
      × (urlsplit url ≡ urlsplit s.dashboard_base_url))
    ⊎ ((supplied_url origin referer ≡ none) × (identity.mechanism ≡ api_key))

module _ (urlsplit : String → String × String) where
  by_api_key-eq :
      (identity : OperatorIdentity)
      → by_api_key identity.mechanism ≡ true
      → identity.mechanism ≡ api_key
  by_api_key-eq identity h = ground (arith, h)

  same_location-SameOrigin :
      (origin referer url : Option String) (identity : OperatorIdentity) (s : Settings)
      → supplied_url origin referer ≡ url
      → same_location urlsplit url identity s ≡ true
      → SameOrigin urlsplit origin referer identity s
  unfolding same_location SameOrigin
  same_location-SameOrigin origin referer none identity s is h = inr (is, by_api_key-eq identity h)
  same_location-SameOrigin origin referer (some url) identity s is h = inl (
    url,
    is,
    ground (
      arith,
      String_eq.test_iff (urlsplit url).0 (urlsplit s.dashboard_base_url).0,
      String_eq.test_iff (urlsplit url).1 (urlsplit s.dashboard_base_url).1,
      h,
    ),
  )

  -- A form either refuses the request and changes nothing, or the caller is an operator, the request comes
  -- from the dashboard's own location or with the API key, and the form's handler answers.
  pub protected_exact :
      (s : Settings) (x_api_key user origin referer : Option String)
      (handler : Db → ActionResponse × Db) (db : Db)
      → ((code : ℕ) × (protected urlsplit s x_api_key user origin referer handler db
            ≡ (refused code, db)))
        ⊎ ((who : OperatorIdentity) × (require_operator s x_api_key user ≡ some who)
            × SameOrigin urlsplit origin referer who s
            × (protected urlsplit s x_api_key user origin referer handler db ≡ handler db))
  unfolding protected allowed require_same_origin
  protected_exact s x_api_key user origin referer handler db =
      elim (Option-cases (require_operator s x_api_key user)) [
        | inl none_given ↦
            inl (401, ap (λ o. allowed urlsplit origin referer s o handler db) none_given)
        | inr (who, admitted) ↦
            elim (Bool-cases (require_same_origin urlsplit origin referer who s)) [
              | inr foreign ↦ inl (
                403,
                ap (λ o. allowed urlsplit origin referer s o handler db) admitted ∙ rw foreign refl,
              )
              | inl same ↦ inr (
                who,
                admitted,
                same_location-SameOrigin origin referer (supplied_url origin referer) who s refl
                    same,
                ap (λ o. allowed urlsplit origin referer s o handler db) admitted ∙ rw same refl,
              )
            ]
      ]

module _ (digest : Json → String) {M : Type 0} (message : ScanAlertContext → M)
    (show_id : ℕ → String) (slack_notifier : String → Notifier M)
    (email_notifier : List String → Notifier M) (settings : Settings) where
  -- the store of a response, or its failure
  abbrev SameStore : ActionResponse × Db → Db → Type 0
  SameStore r db = (r.1 ≡ db) ⊎ (r.0 ≡ refused 500)

  finish-SameStore :
      (before after : Db) (p : Result Exception ChangeList)
      → SameStore (finish before p after) after
  unfolding finish
  finish-SameStore before after (ok p) = inl refl
  finish-SameStore before after (err e) = inr refl

  after_page-SameStore :
      (report : ScanReport) (key : String) (now : ℕ) (db : Db) (p : Result Exception ChangeList)
      → SameStore
          (after_page digest message show_id slack_notifier email_notifier settings report.scan_id
            now db p)
          (follow_up digest message slack_notifier email_notifier settings
            (created report)
            key
            now
            db)
  unfolding after_page follow_up
  after_page-SameStore report key now db (ok p) = inl refl
  after_page-SameStore report key now db (err e) = inr refl

  scan_page-SameStore :
      (key : String) (now : ℕ) (before after : Db) (r : Result Exception ScanReport)
      → SameStore
          (scan_page digest message show_id slack_notifier email_notifier settings key now before
            (r, after))
          (answered digest message slack_notifier email_notifier settings key now
            (end_transaction before (respond r) after)).1
  unfolding scan_page answered end_transaction respond follow_up alerted failure_page
  scan_page-SameStore key now before after (ok report) = after_page-SameStore report key now after _
  scan_page-SameStore key now before after (err (scan_already_running k)) =
      finish-SameStore before after _
  scan_page-SameStore key now before after (err (source_not_found k)) =
      finish-SameStore before after _
  scan_page-SameStore key now before after (err (driver_error name)) = finish-SameStore _ _ _
  scan_page-SameStore key now before after (err (empty_schema_snapshot k)) = finish-SameStore _ _ _
  scan_page-SameStore key now before after (err lookup_error) = inr refl
  scan_page-SameStore key now before after (err key_error) = inr refl
  scan_page-SameStore key now before after (err attribute_error) = inr refl
  scan_page-SameStore key now before after (err value_error) = inr refl
  scan_page-SameStore key now before after (err type_error) = inr refl
  scan_page-SameStore key now before after (err (change_not_found id)) = inr refl
  scan_page-SameStore key now before after (err (baseline_version_conflict e a)) = inr refl

  -- The scan form, for an operator on the dashboard's own pages, leaves the store that the API's request for a
  -- scan leaves, or it fails with status 500; to any other request it does nothing.
  pub scan_action_exact :
      (urlsplit : String → String × String) (x_api_key user origin referer : Option String)
      (acquired : Bool) (collected : Result Exception (List ColumnDefinition)) (clock : Clock)
      (key : String) (now : ℕ) (db : Db)
      → ((code : ℕ) × (scan_action digest message show_id slack_notifier email_notifier settings
              urlsplit x_api_key user origin referer acquired collected clock key now db
            ≡ (refused code, db)))
        ⊎ ((who : OperatorIdentity) × (require_operator settings x_api_key user ≡ some who)
            × SameOrigin urlsplit origin referer who settings
            × SameStore
                (scan_action digest message show_id slack_notifier email_notifier settings urlsplit
                  x_api_key user origin referer acquired collected clock key now db)
                (scan_request digest message slack_notifier email_notifier settings x_api_key user
                  acquired collected clock key now db).1)
  unfolding scan_action scan_request operated post_scan
  scan_action_exact urlsplit x_api_key user origin referer acquired collected clock key now db =
      let run = run_scan digest (enabled_channels settings) acquired collected clock key manual in
      let handler = λ (d : Db).
        scan_page digest message show_id slack_notifier email_notifier settings key now d (run d) in
      elim (protected_exact urlsplit settings x_api_key user origin referer handler db) [
        | inl refusal ↦ inl refusal
        | inr (who, admitted, same, answers) ↦ inr (
          who,
          admitted,
          same,
          rw (answers, admitted) (scan_page-SameStore key now db (run db).1 (run db).0),
        )
      ]
