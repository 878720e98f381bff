-- ===== src/Incident/Keys.antt =====
-- The keys of the incident table: identifiers, references and source references.
use sc_tpcrs.Prelude.{
  ℕ, zero, suc, String, ◌≡◌, refl, sym, ◌∙◌, ap, inl, inr, false, Option, none, some, List, [], ◌∷◌,
  ◌++◌, map, length, ◌==◌, All, find_first, length-append, length-update_where, Bool-cases,
}
use mathlib.Core.List.{map-append, append-nil}
use native.Mathlib.Numerals.{add-one}
use sc_tpcrs.Prelude.Distinct.{Distinct, Distinct-append, All-map, map-replace}
use sc_tpcrs.Incident.Models.{Incident, Db}
use sc_tpcrs.Incident.Service.{
  Env, Call, NewIncident, reference_of, new_incident, moved, moved_db, assign_incident,
  find_by_source_ref, is_from, next_reference, get_incident, save,
}
use sc_tpcrs.Incident.Effects.{
  IsFresh, Opened, open_with-Opened, Saved, moved_db-Saved, assign_incident-Saved, add_note-Saved,
  create_incident-Created, transition_status-Transitioned, id-moved, reference-moved,
  source_ref-moved,
}
use sc_tpcrs.Incident.Change.{
  Change, opened, transitioned, assigned, noted, IsUnclaimed, Reach, here, next,
}

-- `INC-000001` up to the number.
abbrev pub numbered : ℕ → List String
numbered zero = []
numbered (suc n) = numbered n ++ reference_of (suc n) ∷ []

abbrev pub ids : List Incident → List String
ids = map (λ (i : Incident). i.id)

abbrev pub references : List Incident → List String
references = map (λ (i : Incident). i.reference)

abbrev claims : List (Option String) → List String
claims [] = []
claims (none ∷ os) = claims os
claims (some r ∷ os) = r ∷ claims os

-- The source references of the incidents that have one.
abbrev pub sources : List Incident → List String
sources l = claims (map (λ (i : Incident). i.source_ref) l)

pub record HasKeys (db : Db) : Type 0 where
  pub distinct_ids : Distinct (ids db.incidents)
  pub in_sequence : references db.incidents ≡ numbered (length db.incidents)
  pub one_per_source : Distinct (sources db.incidents)

claims-append : (xs ys : List (Option String)) → claims (xs ++ ys) ≡ claims xs ++ claims ys
claims-append [] ys = refl
claims-append (none ∷ xs) ys = claims-append xs ys
claims-append (some r ∷ xs) ys = ap (λ l. r ∷ l) (claims-append xs ys)

unclaimed_cons :
    (r : String) (o : Option String) (os : List (Option String))
    → is_from r o ≡ false
    → All (λ s. (s == r) ≡ false) (claims os)
    → All (λ s. (s == r) ≡ false) (claims (o ∷ os))
unclaimed_cons r none os h a = a
unclaimed_cons r (some s) os h a = (h, a)

unclaimed :
    (r : String) (xs : List Incident)
    → find_first (λ (i : Incident). is_from r i.source_ref) xs ≡ none
    → All (λ s. (s == r) ≡ false) (sources xs)
unclaimed r [] h = tt
unclaimed r (x ∷ xs) h = elim (Bool-cases (is_from r x.source_ref)) [
  | inl hit ↦ cc (h, hit)
  | inr miss ↦
      unclaimed_cons r x.source_ref (map (λ (i : Incident). i.source_ref) xs) miss
        (unclaimed r xs (rw miss at h))
]

claim :
    (o : Option String) (db : Db)
    → IsUnclaimed o db
    → Distinct (sources db.incidents)
    → Distinct (sources db.incidents ++ claims (o ∷ []))
unfolding find_by_source_ref
claim none db free d = rw append-nil d
claim (some r) db free d =
    Distinct-append (sources db.incidents) r (unclaimed r db.incidents free) d

stored-HasKeys :
    (env : Env) (db db' : Db) (old new : Incident) (status : Option String)
    → get_incident new.id db ≡ some old
    → new.reference ≡ old.reference
    → new.source_ref ≡ old.source_ref
    → new.id ≡ old.id
    → Saved env db new status db'
    → HasKeys db
    → HasKeys db'
unfolding get_incident save
stored-HasKeys env db db' old new status found same_ref same_src same_id saved h = record {
  distinct_ids = rw (saved.incidents, keep (λ (i : Incident). i.id) same_id) h.distinct_ids;
  in_sequence =
      ap references saved.incidents
      ∙ keep (λ (i : Incident). i.reference) same_ref
      ∙ h.in_sequence
      ∙ ap numbered (
          sym (length-update_where (λ (i : Incident). i.id == new.id) (λ _. new) db.incidents)
          ∙ ap length (sym saved.incidents));
  one_per_source =
      rw (saved.incidents, keep (λ (i : Incident). i.source_ref) same_src) h.one_per_source;
}
  where
    keep :
        {K : Type 0} (column : Incident → K)
        → column new ≡ column old
        → map column (save new db).incidents ≡ map column db.incidents
    keep column same =
        map-replace (λ (i : Incident). i.id) column old new db.incidents h.distinct_ids found same

added-HasKeys :
    (env : Env) (call : Call) (args : NewIncident) (db : Db) (v : String) (db' : Db)
    → IsFresh call.new_id db
    → IsUnclaimed args.source_ref db
    → Opened env db (new_incident env call args v db) db'
    → HasKeys db
    → HasKeys db'
unfolding new_incident next_reference
added-HasKeys env call args db v db' fresh free o h = record {
  distinct_ids =
      rw (o.incidents, map-append)
        (Distinct-append (ids db.incidents) call.new_id
          (All-map (λ k. (k == call.new_id) ≡ false) (λ (i : Incident). i.id) db.incidents
            fresh.incidents)
          h.distinct_ids);
  in_sequence = rw (o.incidents, map-append, length-append, h.in_sequence, add-one);
  one_per_source =
      rw (o.incidents, map-append, claims-append) (claim args.source_ref db free h.one_per_source);
}

-- Every change keeps the identifiers different, the references in sequence, and at most one incident
-- for a source reference.
pub Change-HasKeys : (env : Env) (db db' : Db) → Change env db db' → HasKeys db → HasKeys db'
unfolding assign_incident
Change-HasKeys env db db' (opened call args actor incident fresh free e) h =
    let c = create_incident-Created env call actor args db e in
    rw c.tables (
      added-HasKeys env call args db c.vendor_uuid _ fresh free
        (rw c.row (open_with-Opened env call args actor _ db)) h)
Change-HasKeys env db db' (transitioned call incident incident' target actor note found e) h =
    let t = transition_status-Transitioned env call incident target actor note db e in
    rw t.tables (
      stored-HasKeys env db (moved_db env call incident target actor note db) incident
        (moved incident target call.now) (some target) (rw id-moved found)
        (reference-moved incident target call.now) (source_ref-moved incident target call.now)
        (id-moved incident target call.now) (moved_db-Saved env call incident target actor note db)
        h)
Change-HasKeys env db db' (assigned call incident assignee actor note found e) h = rw e (
    stored-HasKeys env db (assign_incident env call incident assignee actor note db).1 incident
      (record incident { assignee = some assignee }) none found refl refl refl
      (assign_incident-Saved env call incident assignee actor note db) h)
Change-HasKeys env db db' (noted call incident message actor e) h =
    let same = (add_note-Saved env call incident message actor db).0 in
    rw e (record {
      distinct_ids = rw same h.distinct_ids;
      in_sequence = rw same h.in_sequence;
      one_per_source = rw same h.one_per_source;
    })

-- In tables that changes led to, the incidents' identifiers are all different, their references are
-- INC-000001 onwards in the order of opening, and no two incidents have the same source reference,
-- if the tables began so. Incidents are opened under new identifiers and for source references that
-- no incident has yet.
pub Reach-HasKeys : (env : Env) (db db' : Db) → Reach env db db' → HasKeys db → HasKeys db'
Reach-HasKeys env db db' here h = h
Reach-HasKeys env db db' (next {db' = d} r c) h =
    Change-HasKeys env d db' c (Reach-HasKeys env db d r h)
