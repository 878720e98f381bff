-- ===== src/Incident/Rows.antt =====
-- What holds of every row of the incident table, with the timeline beside it.
use sc_tpcrs.Prelude.{
  ℕ, String, ◌≡◌, refl, sym, ◌∙◌, ap, inl, inr, Bool, true, false, Option, none, some, List, [],
  ◌∷◌, one_of-All, Option-cases, ◌==◌, arith, All, All-append, All-find_first, update_where,
  eq_refl, Bool-cases, if◌then◌else◌, one_of,
}
use sc_tpcrs.Prelude.Distinct.{str_eq_sym}
use sc_tpcrs.Incident.Lifecycle.{statuses}
use sc_tpcrs.Incident.Lifecycle.Laws.{can_transition_sound}
use sc_tpcrs.Incident.Models.{Incident, IncidentTimeline, Db}
use sc_tpcrs.Incident.Service.{
  Env, Call, NewIncident, new_incident, open_with, moved, moved_db, assign_incident, add_note,
  get_incident, save,
}
use sc_tpcrs.Incident.Effects.{
  latest, status_of, IsFresh, Opened, open_with-Opened, Saved, moved_db-Saved,
  assign_incident-Saved, add_note-Saved, create_incident-Created, transition_status-Transitioned,
}
use sc_tpcrs.Incident.Change.{Change, opened, transitioned, assigned, noted, Reach, here, next}

abbrev is_some : Option ℕ → Bool
is_some none = false
is_some (some _) = true

-- The status is one of the five, and the times of the statuses that it implies are there.
pub record IsStamped (i : Incident) : Type 0 where
  pub known : one_of i.status statuses ≡ true
  pub contained : (i.status == "contained") ≡ true → is_some i.contained_at ≡ true
  pub resolved : (i.status == "resolved") ≡ true → is_some i.resolved_at ≡ true
  pub closed : (i.status == "closed") ≡ true → is_some i.closed_at ≡ true
  pub closing : is_some i.closed_at ≡ true → is_some i.resolved_at ≡ true

-- The timeline tells the status of the incident, and the row is stamped.
abbrev pub IsSound : List IncidentTimeline → Incident → Type 0
IsSound timeline i = (status_of i.id timeline ≡ some i.status) × IsStamped i

abbrev pub AreSound : Db → Type 0
AreSound db = All (IsSound db.timeline) db.incidents

status-moved : (i : Incident) (target : String) (now : ℕ) → (moved i target now).status ≡ target
unfolding moved
status-moved i target now = ground arith

abbrev Stamps : String → Type 0
Stamps target = (i : Incident) (now : ℕ) → IsStamped i → IsStamped (moved i target now)

stay : Stamps "open"
unfolding moved
stay i now h = record {
  known = refl;
  contained = λ e. cc;
  resolved = λ e. cc;
  closed = λ e. cc;
  closing = h.closing;
}

reopen : Stamps "investigating"
unfolding moved
reopen i now h = record {
  known = refl;
  contained = λ e. cc;
  resolved = λ e. cc;
  closed = λ e. cc;
  closing = h.closing;
}

contain : Stamps "contained"
unfolding moved
contain i now h = elim (Option-cases i.contained_at) [
  | inl e ↦ rw e (record {
    known = refl;
    contained = λ e. refl;
    resolved = λ e. cc;
    closed = λ e. cc;
    closing = h.closing;
  })
  | inr (t, e) ↦ rw e (record {
    known = refl;
    contained = λ _. refl;
    resolved = λ e. cc;
    closed = λ e. cc;
    closing = h.closing;
  })
]

resolve : Stamps "resolved"
unfolding moved
resolve i now h = elim (Option-cases i.resolved_at) [
  | inl e ↦ rw e (record {
    known = refl;
    contained = λ e. cc;
    resolved = λ e. refl;
    closed = λ e. cc;
    closing = λ _. refl;
  })
  | inr (t, e) ↦ rw e (record {
    known = refl;
    contained = λ e. cc;
    resolved = λ _. refl;
    closed = λ e. cc;
    closing = λ _. refl;
  })
]

close : Stamps "closed"
unfolding moved
close i now h = elim (Option-cases i.closed_at) [
  | inl e ↦ elim (Option-cases i.resolved_at) [
    | inl e2 ↦
        rw (e, e2)
          (record {
            known = refl;
            contained = λ e. cc;
            resolved = λ e. cc;
            closed = λ e. refl;
            closing = λ _. refl;
          })
    | inr (t, e2) ↦
        rw (e, e2)
          (record {
            known = refl;
            contained = λ e. cc;
            resolved = λ e. cc;
            closed = λ e. refl;
            closing = λ _. refl;
          })
  ]
  | inr (t, e) ↦ rw e (record {
    known = refl;
    contained = λ e. cc;
    resolved = λ e. cc;
    closed = λ _. refl;
    closing = λ _. h.closing (rw e refl);
  })
]

-- Moving to a known status keeps a row stamped.
stamped : (target : String) → one_of target statuses ≡ true → Stamps target
stamped target known =
    one_of-All Stamps target statuses (stay, (reopen, (contain, (resolve, (close, tt))))) known

-- Rows whose identifier the new row has are replaced, and the timeline says so.
All-saved :
    (new : Incident) (status : Option String) (before after : List IncidentTimeline)
    → ((id : String)
        → status_of id after ≡ latest (if new.id == id then status else none) (status_of id before))
    → IsSound after new
    → (xs : List Incident) → All (IsSound before) xs
    → All (IsSound after) (update_where (λ (i : Incident). i.id == new.id) (λ _. new) xs)
All-saved new status before after told sound [] h = tt
All-saved new status before after told sound (x ∷ xs) h =
    (head, All-saved new status before after told sound xs h.1)
  where
    head : IsSound after (if x.id == new.id then new else x)
    head = elim (Bool-cases (x.id == new.id)) [
      | inl hit ↦ rw hit sound
      | inr miss ↦ rw miss ((told x.id ∙ rw (str_eq_sym new.id x.id, miss) h.0.0, h.0.1))
    ]

All-opened :
    (new : Incident) (before after : List IncidentTimeline)
    → ((id : String)
        → status_of id after ≡ (if new.id == id then some "open" else status_of id before))
    → (xs : List Incident) → All (λ (i : Incident). (i.id == new.id) ≡ false) xs
    → All (IsSound before) xs
    → All (IsSound after) xs
All-opened new before after told [] fresh h = tt
All-opened new before after told (x ∷ xs) fresh h = (
  (told x.id ∙ rw (str_eq_sym new.id x.id, fresh.0) h.0.0, h.0.1),
  All-opened new before after told xs fresh.1 h.1,
)

added-AreSound :
    (env : Env) (call : Call) (args : NewIncident) (db : Db) (v : String) (incident : Incident)
    (db' : Db)
    → incident ≡ new_incident env call args v db
    → IsFresh call.new_id db
    → Opened env db incident db'
    → AreSound db
    → AreSound db'
unfolding new_incident
added-AreSound env call args db v incident db' row fresh o h = rw o.incidents (
    All-append (IsSound db'.timeline) db.incidents (incident ∷ [])
      (All-opened incident db.timeline db'.timeline o.statuses db.incidents (rw row fresh.incidents)
        h)
      ((o.statuses incident.id ∙ rw (eq_refl incident.id) (rw row refl), stamps), tt))
  where
    stamps : IsStamped incident
    stamps = rw row (record {
      known = refl;
      contained = λ e. cc;
      resolved = λ e. cc;
      closed = λ e. cc;
      closing = λ e. cc;
    })

stored-AreSound :
    (env : Env) (db db' : Db) (new : Incident) (status : Option String)
    → latest status (status_of new.id db.timeline) ≡ some new.status
    → IsStamped new
    → Saved env db new status db'
    → AreSound db
    → AreSound db'
unfolding save
stored-AreSound env db db' new status tells stamps saved h = rw saved.incidents (
    All-saved new status db.timeline db'.timeline saved.statuses
      (saved.statuses new.id ∙ rw (eq_refl new.id) tells, stamps) db.incidents h)

-- Every change keeps every incident's row sound.
pub Change-AreSound : (env : Env) (db db' : Db) → Change env db db' → AreSound db → AreSound db'
unfolding assign_incident get_incident
Change-AreSound env db db' (opened call args actor incident fresh free e) h =
    let c = create_incident-Created env call actor args db e in
    rw c.tables (
      added-AreSound env call args db c.vendor_uuid incident
        (open_with env call args actor incident db) c.row fresh
        (open_with-Opened env call args actor incident db) h)
Change-AreSound env db db' (transitioned call incident incident' target actor note found e) h =
    let t = transition_status-Transitioned env call incident target actor note db e in
    let old = All-find_first (IsSound db.timeline) _ db.incidents incident h found in
    rw t.tables (
      stored-AreSound env db (moved_db env call incident target actor note db)
        (moved incident target call.now) (some target)
        (ap some (sym (status-moved incident target call.now)))
        (stamped target (can_transition_sound incident.status target t.legal).1 incident call.now
          old.1)
        (moved_db-Saved env call incident target actor note db) h)
Change-AreSound env db db' (assigned call incident assignee actor note found e) h =
    let old = All-find_first (IsSound db.timeline) _ db.incidents incident h found in
    rw e (
      stored-AreSound env db (assign_incident env call incident assignee actor note db).1
        (record incident { assignee = some assignee }) none old.0
        (record {
          known = old.1.known;
          contained = old.1.contained;
          resolved = old.1.resolved;
          closed = old.1.closed;
          closing = old.1.closing;
        })
        (assign_incident-Saved env call incident assignee actor note db) h)
Change-AreSound env db db' (noted call incident message actor e) h =
    let saved = add_note-Saved env call incident message actor db in
    rw (e, saved.0) (All-map-told db.incidents h)
  where
    after : List IncidentTimeline
    after = (add_note env call incident message actor db).1.timeline

    All-map-told : (xs : List Incident) → All (IsSound db.timeline) xs → All (IsSound after) xs
    All-map-told [] a = tt
    All-map-told (x ∷ xs) a = (
      ((add_note-Saved env call incident message actor db).3 x.id ∙ a.0.0, a.0.1),
      All-map-told xs a.1,
    )

-- In tables that openings, transitions, assignments and notes led to from sound ones, every
-- incident is sound: the timeline's last status of it is its status, the status is one of the five,
-- a contained, resolved or closed incident has the matching time, and one with a closing time has a
-- resolution time. Incidents are opened under new identifiers.
pub Reach-AreSound : (env : Env) (db db' : Db) → Reach env db db' → AreSound db → AreSound db'
Reach-AreSound env db db' here h = h
Reach-AreSound env db db' (next {db' = d} r c) h =
    Change-AreSound env d db' c (Reach-AreSound env db d r h)
