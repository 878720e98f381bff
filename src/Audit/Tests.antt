-- ===== src/Audit/Tests.antt =====
-- Concrete audit tables.
use Prim.Native.String
use sc_tpcrs.Prelude.{String, ◌≡◌, refl, ◌⊎◌, none, List, []}
use sc_tpcrs.Audit.{Hashing, AuditRow, genesis_hash, verify_chain, record_audit_event}
use sc_tpcrs.Audit.Chain.{
  Collision, json_rows, verify_chain-record_audit_event, verify_chain_determined,
}

-- One digest for every text: 64 characters, as SHA-256 has.
abbrev hashing : Hashing
hashing = record { sha256_hex = λ s. genesis_hash; json_dumps = λ e. e.action }

abbrev one_row : List AuditRow
one_row = record_audit_event hashing "ada" "LOGIN" "user:1" none "t0" []

abbrev two_rows : List AuditRow
two_rows = record_audit_event hashing "eve" "LOGOUT" "user:1" none "t1" one_row

verify_chain-record_audit_event_example :
    verify_chain hashing (record_audit_event hashing "eve" "LOGOUT" "user:1" none "t1" one_row)
    ≡ verify_chain hashing one_row
verify_chain-record_audit_event_example =
    verify_chain-record_audit_event hashing "eve" "LOGOUT" "user:1" none "t1" one_row

digest_of_64 : (s : String) → String.count (hashing.sha256_hex s) ≡ 64
digest_of_64 s = refl

verify_chain_determined_example :
    (json_rows hashing two_rows ≡ json_rows hashing two_rows) ⊎ Collision hashing
unfolding verify_chain record_audit_event sc_tpcrs.Audit.compute_entry_hash
verify_chain_determined_example =
    verify_chain_determined hashing digest_of_64 two_rows two_rows refl refl refl refl
