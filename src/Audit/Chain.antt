-- ===== src/Audit/Chain.antt =====
-- The chain of audit_log.py: what appending keeps, and what a verified table fixes.
use Prim.Native.String
use text.Mathlib.TextLemmas.{append_inj, append_cancel_left, append-nil}
use sc_tpcrs.Prelude.{
  String, ◌≡◌, refl, ◌≢◌, sym, ◌∙◌, true, ◌&&◌, ◌⊎◌, inl, inr, none, some, List, [], ◌∷◌, ◌++◌,
  ◌==◌, arith, last?, last?-cons, eq_iff, eq_refl, str_eq_of, str_ne_of, Bool-cases, fstring, map,
  length, Option,
}
use sc_tpcrs.Prelude.Value.{Details}
use sc_tpcrs.Audit.{
  Entry, AuditRow, Hashing, genesis_hash, canonical_json, compute_entry_hash, verify_from,
  verify_chain, prev_hash_of, record_audit_event,
}

-- The hash that the row after `rows` must name.
abbrev pub end_hash : String → List AuditRow → String
end_hash prev [] = prev
end_hash prev (row ∷ rows) = end_hash row.hash rows

end_hash-last? :
    (prev : String) (rows : List AuditRow)
    → end_hash prev rows ≡ (elim (last? rows) [ none ↦ prev | some row ↦ row.hash ])
end_hash-last? prev [] = refl
end_hash-last? prev (row ∷ []) = refl
end_hash-last? prev (row ∷ row' ∷ rows) =
    let (r, e) = last?-cons row' rows in ground (arith, e, end_hash-last? row.hash (row' ∷ rows))

prev_hash_of-end_hash : (log : List AuditRow) → prev_hash_of log ≡ end_hash genesis_hash log
unfolding prev_hash_of
prev_hash_of-end_hash log = sym (end_hash-last? genesis_hash log)

-- Two texts that the hash does not tell apart.
pub record Collision (h : Hashing) : Type 0 where
  pub left : String
  pub right : String
  pub differ : left ≢ right
  pub collide : h.sha256_hex left ≡ h.sha256_hex right

module _ (h : Hashing) where
  -- One row fits after `prev`.
  abbrev IsLink : String → AuditRow → Type 0
  IsLink prev row = (row.prev_hash ≡ prev) × (row.hash ≡ compute_entry_hash h prev row.entry)

  verify_from-cons :
      (prev : String) (row : AuditRow) (rows : List AuditRow)
      → verify_from h prev (row ∷ rows) ≡ true
      → IsLink prev row × (verify_from h row.hash rows ≡ true)
  unfolding verify_from
  verify_from-cons prev row rows v =
      ground
        (arith, eq_iff row.prev_hash prev, eq_iff row.hash (compute_entry_hash h prev row.entry))

  verify_from-append :
      (prev : String) (xs ys : List AuditRow)
      → verify_from h prev (xs ++ ys)
        ≡ (verify_from h prev xs && verify_from h (end_hash prev xs) ys)
  unfolding verify_from
  verify_from-append prev [] ys = refl
  verify_from-append prev (x ∷ xs) ys = ground (arith, verify_from-append x.hash xs ys)

  -- A table with one more row appended by the service verifies if and only if it did before.
  pub verify_chain-record_audit_event :
      (actor action resource : String) (details : Option Details) (now : String)
      (log : List AuditRow)
      → verify_chain h (record_audit_event h actor action resource details now log)
        ≡ verify_chain h log
  unfolding verify_chain record_audit_event
  verify_chain-record_audit_event actor action resource details now log =
      rw (verify_from-append genesis_hash log _, prev_hash_of-end_hash log)
        (simp eq_refl (ground arith))

  abbrev pub json_rows : List AuditRow → List String
  json_rows = map (λ (row : AuditRow). canonical_json h row.entry)

  material : String → Entry → String
  material prev entry = fstring (prev ∷ "|" ∷ canonical_json h entry ∷ [])

  same_hash :
      (p q : String) (d e : Entry)
      → compute_entry_hash h p d ≡ compute_entry_hash h q e
      → (material p d ≡ material q e) ⊎ Collision h
  unfolding compute_entry_hash material
  same_hash p q d e same = elim (Bool-cases (material p d == material q e)) [
    | inl eq ↦ inl (str_eq_of _ _ eq)
    | inr ne ↦ inr (record {
      left = material p d;
      right = material q e;
      differ = str_ne_of _ _ ne;
      collide = same;
    })
  ]

  same_material :
      (p q : String) (d e : Entry)
      → String.count p ≡ String.count q
      → material p d ≡ material q e
      → (p ≡ q) × (canonical_json h d ≡ canonical_json h e)
  unfolding material
  same_material p q d e size same =
      let (heads, tails) = append_inj same size in
      (heads, sym (append-nil _) ∙ append_cancel_left "|" _ _ tails ∙ append-nil _)

  module _ (digest : (s : String) → String.count (h.sha256_hex s) ≡ 64) where
    hash_count : (prev : String) (row : AuditRow) → IsLink prev row → String.count row.hash ≡ 64
    unfolding compute_entry_hash
    hash_count prev row link = rw link.1 (digest _)

    ended_alike :
        (p q : String) (x y : AuditRow)
        → IsLink p x
        → IsLink q y
        → String.count p ≡ String.count q
        → (x.hash ≡ y.hash) ⊎ Collision h
        → ((p ≡ q) × (canonical_json h x.entry ≡ canonical_json h y.entry)) ⊎ Collision h
    ended_alike p q x y lx ly size (inr c) = inr c
    ended_alike p q x y lx ly size (inl same) =
        elim (same_hash p q x.entry y.entry (sym lx.1 ∙ same ∙ ly.1)) [
          | inl m ↦ inl (same_material p q x.entry y.entry size m)
          | inr c ↦ inr c
        ]

    determined_from :
        (p q : String) (xs ys : List AuditRow)
        → String.count p ≡ String.count q
        → length xs ≡ length ys
        → verify_from h p xs ≡ true
        → verify_from h q ys ≡ true
        → end_hash p xs ≡ end_hash q ys
        → ((p ≡ q) × (json_rows xs ≡ json_rows ys)) ⊎ Collision h
    determined_from p q [] [] size len vx vy same = inl (same, refl)
    determined_from p q [] (y ∷ ys) size len vx vy same = absurd (omega arith)
    determined_from p q (x ∷ xs) [] size len vx vy same = absurd (omega arith)
    determined_from p q (x ∷ xs) (y ∷ ys) size len vx vy same =
        let (lx, rx) = verify_from-cons p x xs vx in
        let (ly, ry) = verify_from-cons q y ys vy in
        let rest =
          determined_from x.hash y.hash xs ys (hash_count p x lx ∙ sym (hash_count q y ly))
            (omega arith) rx ry same in
        join rest
          (ended_alike p q x y lx ly size (elim rest [ inl (e, _) ↦ inl e | inr c ↦ inr c ]))
      where
        join :
            ((x.hash ≡ y.hash) × (json_rows xs ≡ json_rows ys)) ⊎ Collision h
            → ((p ≡ q) × (canonical_json h x.entry ≡ canonical_json h y.entry)) ⊎ Collision h
            → ((p ≡ q) × (json_rows (x ∷ xs) ≡ json_rows (y ∷ ys))) ⊎ Collision h
        join (inr c) other = inr c
        join (inl _) (inr c) = inr c
        join (inl (_, js)) (inl (e, j)) = inl (e, cc)

    -- Where SHA-256 digests have 64 characters: two verified tables with as many rows that end in
    -- the same hash have the same canonical JSON row by row, or there are two texts with one
    -- digest.
    pub verify_chain_determined :
        (xs ys : List AuditRow)
        → length xs ≡ length ys
        → verify_chain h xs ≡ true
        → verify_chain h ys ≡ true
        → prev_hash_of xs ≡ prev_hash_of ys
        → (json_rows xs ≡ json_rows ys) ⊎ Collision h
    unfolding verify_chain
    verify_chain_determined xs ys len vx vy same =
        elim (determined_from genesis_hash genesis_hash xs ys refl len vx vy
          (sym (prev_hash_of-end_hash xs) ∙ same ∙ prev_hash_of-end_hash ys)) [
            | inl (_, js) ↦ inl js
            | inr c ↦ inr c
          ]
