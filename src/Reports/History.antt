-- ===== src/Reports/History.antt =====
-- Histories of the reports of src/mei/application/services/report_generator.py.
use middle_east_geopolitic.Reports.Models.{
  rejected_report, approved_report, published_report, is_approved, insert_report, get_report,
  change_report, ReportDraft, Brief, ReportTemplate, ReportType, ReportTables, Report,
}
use middle_east_geopolitic.Reports.Cited.{gather_brief-Cites}
use middle_east_geopolitic.Common.{
  All-impl, Elem, ◌*◌, ◌-◌, All-both, refl, sym, subst, Bool, All-append, true, false, String, none,
  ◌≡◌, ◌==◌, All, ℕ, some, Option,
}
use middle_east_geopolitic.Common.Rows.{first?, update}
use middle_east_geopolitic.Reports.Generator.{
  names_scope, seconds_per_day, or_now, write_report, generate, ReportRequest,
}
use middle_east_geopolitic.Common.Result.{
  require_sound, or_raise_sound, not_found, ok_inj, or_raise, bind-ok, err, ◌>>=◌, ◌>>◌, validation,
  require, Error, ok, Result,
}
use middle_east_geopolitic.Reports.Lifecycle.{
  changed_or_raise, publish_report, reject_report, approve_report,
}
use middle_east_geopolitic.Common.Rows.First.{All-update_two}
use middle_east_geopolitic.Reports.Shelf.{
  Distinct, IsSoundOwn, Distinct-update, published_lem, Distinct-snoc, only_row, IsShelf, IsSound,
}
use middle_east_geopolitic.Common.Rows.Laws.{All-Elem}

guarded-ok :
    {A B : Type 0} (test : Bool) (e : Error) (m : Result A) (f : A → B) (b : B)
    → (require test e >> m >>= λ a. ok (f a)) ≡ ok b
    → (a : A) × (f a ≡ b)
guarded-ok false e m f b p = cc
guarded-ok true e (err x) f b p = cc
guarded-ok true e (ok a) f b p = (a, ok_inj p)

module _ {F : Type 0} where
  -- A call that succeeds, with a new id for a new report. Any model may draft. `own` says which reports are
  -- written by the generator alone: not by `PATCH /reports/{id}`, and not by an investigation.
  pub data Step (own : ℕ → Bool) : ReportTables F → ReportTables F → Type 0 where
    generated :
        (templates : ReportType → ReportTemplate) (name key : String) (now fresh : ℕ)
        (q : ReportRequest) (model : Option (Brief F → Result ReportDraft)) (r : Report F)
        (s t : ReportTables F)
        → All (λ x. (x.id == fresh) ≡ false) s.reports
        → generate templates name key now fresh q model s ≡ ok (r, t)
        → Step own s t
    approved :
        (now i : ℕ) (by : String) (r : Report F) (s t : ReportTables F)
        → approve_report now i by s ≡ ok (r, t)
        → Step own s t
    rejected :
        (i : ℕ) (r : Report F) (s t : ReportTables F) → reject_report i s ≡ ok (r, t) → Step own s t
    published :
        (now i : ℕ) (r : Report F) (s t : ReportTables F)
        → publish_report now i s ≡ ok (r, t)
        → Step own s t
    -- Between the calls the other services change their tables, add reports of other ids, change those, and
    -- delete any report. Ids are the primary key.
    others_wrote :
        (s t : ReportTables F)
        → All (λ r. own r.id ≡ true → Elem r s.reports) t.reports
        → Distinct t.reports
        → Step own s t

  pub data Reach (own : ℕ → Bool) (s : ReportTables F) : ReportTables F → Type 0 where
    here : Reach own s s
    next : {t u : ReportTables F} → Reach own s t → Step own t u → Reach own s u

  -- A change of one report by its id.
  change-IsShelf :
      (own : ℕ → Bool) (i : ℕ) (f : Report F → Report F)
      → ((r : Report F) → (f r).id ≡ r.id)
      → (s : ReportTables F)
      → ((r : Report F) → get_report i s ≡ some r → IsSound r → IsSound (f r))
      → (r' : Report F) (t : ReportTables F) → changed_or_raise (change_report i f s) ≡ ok (r', t)
      → IsShelf own s.reports
      → IsShelf own t.reports
  unfolding change_report get_report
  change-IsShelf own i f keep s vet r' t e h =
      changed_row (first? (λ (x : Report F). x.id == i) s.reports) refl e
    where
      after : ReportTables F
      after = record s { reports = update (λ x. x.id == i) f s.reports }

      own_row : (r : Report F) → get_report i s ≡ some r → IsSoundOwn own r → IsSoundOwn own (f r)
      own_row r p a m = vet r p (a (subst (λ j. own j ≡ true) (keep r) m))

      changed_row :
          (found : Option (Report F))
          → first? (λ (x : Report F). x.id == i) s.reports ≡ found
          → changed_or_raise (elim found [ none ↦ (none, s) | some r ↦ (some (f r), after) ])
            ≡ ok (r', t)
          → IsShelf own t.reports
      changed_row none p q = cc
      changed_row (some r) p q =
          let same : after ≡ t = cc in
          subst (λ u. IsShelf own u.reports) same
            (record {
              sound =
                  All-update_two (IsSoundOwn own) (λ x. x.id == i) f s.reports
                    (All-both (IsSoundOwn own) (λ x. (x.id == i) ≡ true → x ≡ r) _
                      (λ x a k. (
                        a,
                        (λ u.
                            subst (λ y. IsSoundOwn own (f y)) (sym (k u))
                              (own_row r p (subst (IsSoundOwn own) (k u) a))),
                      ))
                      s.reports h.sound (only_row i s.reports r h.distinct p));
              distinct = Distinct-update i f keep s.reports h.distinct;
            })

  rw_row :
      (x y : Report F) {o : Option (Report F)}
      → o ≡ some x
      → o ≡ some y
      → is_approved x.status ≡ true
      → is_approved y.status ≡ true
  rw_row x y p q e =
      let same : x ≡ y = cc in subst (λ (z : Report F). is_approved z.status ≡ true) same e

  write_report-IsShelf :
      (own : ℕ → Bool) (templates : ReportType → ReportTemplate) (name key : String) (now fresh : ℕ)
      (q : ReportRequest) (model : Option (Brief F → Result ReportDraft)) (s : ReportTables F)
      (d : ReportDraft)
      → All (λ x. (x.id == fresh) ≡ false) s.reports
      → IsShelf own s.reports
      → IsShelf own (write_report templates name key now fresh q model s d).1.reports
  unfolding write_report insert_report
  write_report-IsShelf own templates name key now fresh q model s d new h =
      let end = or_now q.as_of now in
      let template = templates q.report_type in
      let start = end - template.period_days * seconds_per_day in
      record {
        sound =
            All-append (IsSoundOwn own) s.reports _ h.sound
              ((λ _. (gather_brief-Cites template.title start end s d, tt)), tt);
        distinct = Distinct-snoc s.reports _ h.distinct new;
      }

  Step-IsShelf :
      {own : ℕ → Bool} {s t : ReportTables F}
      → IsShelf own s.reports
      → Step own s t
      → IsShelf own t.reports
  unfolding generate approve_report reject_report publish_report
  Step-IsShelf {own = own} h (generated templates name key now fresh q model r s t new e) =
      let (d, f) =
        guarded-ok (names_scope q) validation _
          (write_report templates name key now fresh q model s) (r, t) e in
      subst (λ (p : Report F × ReportTables F). IsShelf own p.1.reports) f
        (write_report-IsShelf own templates name key now fresh q model s d new h)
  Step-IsShelf {own = own} h (approved now i by r s t e) =
      change-IsShelf own i (approved_report by now) (λ x. refl) s (λ x _ k. (k.0, (tt, tt))) r t e h
  Step-IsShelf {own = own} h (rejected i r s t e) =
      change-IsShelf own i rejected_report (λ x. refl) s (λ x _ k. (k.0, tt)) r t e h
  Step-IsShelf {own = own} h (published now i r s t e) =
      let (x, found, e1) = bind-ok (or_raise (get_report i s) not_found) _ e in
      let (u, is_fit, e2) = bind-ok (require (is_approved x.status) Error.conflict) _ e1 in
      change-IsShelf own i (published_report now) (λ y. refl) s
        (λ y there k.
          published_lem now y
            (rw_row x y (or_raise_sound (get_report i s) not_found x found) there
              (require_sound (is_approved x.status) Error.conflict is_fit))
            k)
        r t e2 h
  Step-IsShelf {own = own} h (others_wrote s t kept distinct) = record {
    sound =
        All-impl _ (IsSoundOwn own)
          (λ r there m. All-Elem (IsSoundOwn own) s.reports r h.sound (there m) m) t.reports kept;
    distinct = distinct;
  }

  -- In every history of the reports: no two of them share their id, and what follows holds of those that only
  -- the generator writes, whatever the other services write into their tables and into other reports. An
  -- approved or published one names who approved it and when, a published one also when it was published;
  -- and each cites approved events of its period, moving scores and observations since its start, and
  -- active scenarios with an assessment before its end.
  pub Reach-IsShelf :
      {own : ℕ → Bool} {s t : ReportTables F}
      → IsShelf own s.reports
      → Reach own s t
      → IsShelf own t.reports
  Reach-IsShelf h here = h
  Reach-IsShelf h (next path step) = Step-IsShelf (Reach-IsShelf h path) step
