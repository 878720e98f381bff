-- ===== src/Incident/Notifications.antt =====
-- services/incident-service/app/services/notifications.py. `strftime` is `datetime.strftime` with the
-- format "%Y-%m-%d %H:%M UTC".
use sc_tpcrs.Prelude.{ℕ, ◌+◌, String, [], ◌∷◌, fstring, text_or, decimal}
use sc_tpcrs.Incident.Lifecycle.{Settings, hours}

module _ (strftime : ℕ → String) where
  unfoldable pub fmt : ℕ → String
  fmt dt = strftime dt

unfoldable pub cbn_deadline : Settings → ℕ → ℕ
cbn_deadline settings opened_at = opened_at + hours settings.cbn_deadline_hours

unfoldable pub ndpa_deadline : Settings → ℕ → ℕ
ndpa_deadline settings opened_at = opened_at + hours settings.ndpa_deadline_hours

module _ (strftime : ℕ → String) (settings : Settings) where
  -- The arguments are `reference`, `vendor_name`, `severity`, `category`, `description`, `opened_at`.
  unfoldable pub build_cbn_notification : String → String → String → String → String → ℕ → String
  unfolding fmt cbn_deadline
  build_cbn_notification reference vendor_name severity category description opened_at =
      let deadline = cbn_deadline settings opened_at in
      fstring (
        "CENTRAL BANK OF NIGERIA — CYBER INCIDENT NOTIFICATION\nIncident reference: "
        ∷ reference
        ∷ "\nReporting deadline: "
        ∷ fmt strftime deadline
        ∷ " ("
        ∷ decimal settings.cbn_deadline_hours
        ∷ "h from detection)\nReporting institution: SC-TPCRS operator (licensed financial institution)\nAffected third party / vendor: "
        ∷ vendor_name
        ∷ "\nIncident severity: "
        ∷ severity
        ∷ "\nIncident category: "
        ∷ category
        ∷ "\nDetected at: "
        ∷ fmt strftime opened_at
        ∷ "\n\nSummary of incident:\n"
        ∷ text_or description
            "A material cyber incident was detected affecting a third-party vendor in the payment ecosystem."
        ∷ "\n\nImmediate actions taken: incident opened in SC-TPCRS, response team engaged, affected vendor exposure under containment review.\nThis is an initial notification; a full report will follow on resolution.\n"
        ∷ [])

  -- The arguments are `reference`, `vendor_name`, `severity`, `description`, `opened_at`.
  unfoldable pub build_ndpc_notification : String → String → String → String → ℕ → String
  unfolding fmt ndpa_deadline
  build_ndpc_notification reference vendor_name severity description opened_at =
      let deadline = ndpa_deadline settings opened_at in
      fstring (
        "NIGERIA DATA PROTECTION COMMISSION (NDPC) — PERSONAL DATA BREACH NOTIFICATION\nFiled under the Nigeria Data Protection Act 2023 (NDPA) / NDPR\nIncident reference: "
        ∷ reference
        ∷ "\nNotification deadline: "
        ∷ fmt strftime deadline
        ∷ " ("
        ∷ decimal settings.ndpa_deadline_hours
        ∷ "h from awareness)\nData controller: SC-TPCRS operator\nData processor / third party involved: "
        ∷ vendor_name
        ∷ "\nAssessed severity: "
        ∷ severity
        ∷ "\nBecame aware at: "
        ∷ fmt strftime opened_at
        ∷ "\n\nNature of the breach:\n"
        ∷ text_or description
            "A security incident with potential exposure of personal data processed by a third-party vendor."
        ∷ "\n\nCategories of data subjects and records: to be confirmed during investigation.\nLikely consequences: under assessment.\nMeasures taken/proposed: incident contained via SC-TPCRS response workflow; affected data subjects to be notified where the risk is high.\n"
        ∷ [])
