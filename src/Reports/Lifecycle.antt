-- ===== src/Reports/Lifecycle.antt =====
-- `approve_report`, `reject_report` and `publish_report` of
-- src/mei/application/services/report_generator.py.
use middle_east_geopolitic.Reports.Models.{
  published_report, is_approved, get_report, approved_report, rejected_report, change_report,
  ReportTables, Report,
}
use middle_east_geopolitic.Common.{none, some, String, ℕ, Option}
use middle_east_geopolitic.Common.Result.{
  Error, ◌>>◌, ok, require, ◌>>=◌, not_found, err, or_raise, Result,
}

module _ {F : Type 0} where
  -- `if report is None: raise NotFoundError`
  abbrev pub changed_or_raise :
      Option (Report F) × ReportTables F → Result (Report F × ReportTables F)
  changed_or_raise (none, s) = err not_found
  changed_or_raise (some r, s) = ok (r, s)

  unfoldable pub approve_report :
      ℕ → ℕ → String → ReportTables F → Result (Report F × ReportTables F)
  approve_report now i by s = changed_or_raise (change_report i (approved_report by now) s)

  unfoldable pub reject_report : ℕ → ReportTables F → Result (Report F × ReportTables F)
  reject_report i s = changed_or_raise (change_report i rejected_report s)

  unfoldable pub publish_report : ℕ → ℕ → ReportTables F → Result (Report F × ReportTables F)
  publish_report now i s = or_raise (get_report i s) not_found >>= λ r.
      require (is_approved r.status) Error.conflict
      >> changed_or_raise (change_report i (published_report now) s)
