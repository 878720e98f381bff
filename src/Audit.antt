-- ===== src/Audit.antt =====
-- shared/py-common/sc_tpcrs_common/audit_log.py, the hash-chained audit log, and the copies of
-- services/audit.py with which each service appends to its own table.
-- SHA-256, `json.dumps` and the clock are given from outside.
pub mod Chain
mod Tests
use sc_tpcrs.Prelude.{
  String, ◌≡◌, Bool, true, false, not, ◌&&◌, ◌||◌, Option, none, some, List, [], ◌∷◌, ◌++◌, ◌==◌,
  fstring, last?, if◌then◌else◌,
}
use sc_tpcrs.Prelude.Value.{Details}

-- The row without its two hashes, which is what is hashed.
pub record Entry : Type 0 where
  pub actor : String
  pub action : String
  pub resource : String
  pub details : Details
  pub recorded_at : String

pub record AuditRow : Type 0 where
  pub entry : Entry
  pub prev_hash : String
  pub hash : String

-- `sha256_hex` is `hashlib.sha256(s.encode("utf-8")).hexdigest()`; `json_dumps` is `json.dumps` with
-- the arguments of `canonical_json`.
pub record Hashing : Type 0 where
  pub sha256_hex : String → String
  pub json_dumps : Entry → String

-- `"0" * 64`.
abbrev pub genesis_hash : String
genesis_hash = "0000000000000000000000000000000000000000000000000000000000000000"

-- The hash of the last row, or the genesis hash of an empty table.
unfoldable pub prev_hash_of : List AuditRow → String
prev_hash_of log = elim (last? log) [ none ↦ genesis_hash | some row ↦ row.hash ]

module _ (h : Hashing) where
  open h use {sha256_hex, json_dumps}

  unfoldable pub canonical_json : Entry → String
  canonical_json data_entry = json_dumps data_entry

  unfoldable pub compute_entry_hash : String → Entry → String
  unfolding canonical_json
  compute_entry_hash prev_hash entry =
      sha256_hex (fstring (prev_hash ∷ "|" ∷ canonical_json entry ∷ []))

  -- `now` is the clock's text; a missing `details` is the empty dict.
  unfoldable pub build_audit_entry :
      String → String → String → String → Option Details → String → AuditRow
  build_audit_entry prev_hash actor action resource details now =
      let base : Entry = record {
        actor = actor;
        action = action;
        resource = resource;
        details = elim details [ none ↦ [] | some d ↦ d ];
        recorded_at = now;
      } in
      record { entry = base; prev_hash = prev_hash; hash = compute_entry_hash prev_hash base }

  -- The loop of `verify_chain`, from the hash that the next row must name.
  unfoldable pub verify_from : String → List AuditRow → Bool
  verify_from prev [] = true
  verify_from prev (row ∷ rows) =
      let rest = verify_from row.hash rows in
      if not (row.prev_hash == prev) || not (row.hash == compute_entry_hash prev row.entry)
      then false
      else rest

  unfoldable pub verify_chain : List AuditRow → Bool
  unfolding verify_from
  verify_chain entries = verify_from genesis_hash entries

  -- Appends the next row to the table.
  unfoldable pub record_audit_event :
      String → String → String → Option Details → String → List AuditRow → List AuditRow
  unfolding prev_hash_of build_audit_entry
  record_audit_event actor action resource details now log =
      log ++ build_audit_entry (prev_hash_of log) actor action resource details now ∷ []
