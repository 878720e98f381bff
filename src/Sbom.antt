-- ===== src/Sbom.antt =====
-- services/sbom-service/app: software bills of materials are parsed, screened, cross-referenced with known
-- vulnerabilities, stored, and mirrored as a graph.
pub mod Json
pub mod Purl
pub mod Scanner
pub mod Ssrf
pub mod Fetchable
pub mod Parsers
pub mod Detect
pub mod Models
pub mod Ingest
pub mod Tables
pub mod Scanned
pub mod Delivered
pub mod Recorded
pub mod Graph
pub mod WellFormed
mod Tests
