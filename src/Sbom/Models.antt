-- ===== src/Sbom/Models.antt =====
-- services/sbom-service/app/models.py, and the world of an ingestion. Rows stand in the order in which they were
-- added. The relational tables are the source of truth, the graph a mirror.
use sc_tpcrs.Prelude.{ℕ, String, Bool, Option, List}
use sc_tpcrs.Sbom.Json.{Json}
use sc_tpcrs.Audit.{AuditRow}
use sc_tpcrs.Kafka.{Bus}

pub record SynthesisedNote : Type 0 where
  pub name : String
  pub version : String
  pub purl : String

pub record RefNote : Type 0 where
  pub url : String
  pub action : String
  pub reason : String

-- A key that is missing from the dict is an empty list here: the code adds no empty one.
pub record ReviewNotes : Type 0 where
  pub synthesised_purls : List SynthesisedNote
  pub external_refs : List RefNote

pub record SbomDocument : Type 0 where
  pub id : String
  pub vendor_id : String
  pub sbom_format : String
  pub spec_version : Option Json
  pub serialization : String
  pub document_name : Option Json
  pub component_count : ℕ
  pub vulnerable_count : ℕ
  pub incomplete : Bool
  pub review_notes : ReviewNotes
  pub ingested_by : String
  pub ingested_at : ℕ

pub record SbomComponent : Type 0 where
  pub id : String
  pub document_id : String
  pub vendor_id : String
  pub component_name : String
  pub version : String
  pub ecosystem : String
  pub purl : String
  pub cpe : Option Json
  pub file_hash : Option Json
  pub purl_synthesised : Bool

pub record Vulnerability (F : Type 0) : Type 0 where
  pub id : String
  pub component_id : String
  pub vendor_id : String
  pub cve_id : String
  pub description : Option String
  pub cvss_score : Option F
  pub cvss_vector : Option String
  pub severity : String
  pub kev_flag : Bool
  pub known_ransomware : Bool
  pub ssvc_priority : String
  pub status : String
  pub detected_at : ℕ

pub record Db (F : Type 0) : Type 0 where
  pub documents : List SbomDocument
  pub components : List SbomComponent
  pub vulnerabilities : List (Vulnerability F)
  pub audit_log : List AuditRow

pub record World (F : Type 0) : Type 0 where
  pub db : Db F
  pub bus : Bus

-- The time, its text, and the values of `uuid4()`: for the document, for the n-th component of the table, and
-- for the n-th vulnerability.
pub record Call : Type 0 where
  pub now : ℕ
  pub now_text : String
  pub document_id : String
  pub component_id : ℕ → String
  pub vulnerability_id : ℕ → String
