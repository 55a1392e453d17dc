-- ===== src/Store/Evidence/Refused.antt =====
-- One item that the database server does not take loses the whole collection.
use valaf.Common.{All, All-In, In, ℕ, true, false, ◌≡◌, refl, arith, List, [], ◌∷◌}
use valaf.Common.Effect.{Error, Result, ok, err, >>=-eq-ok}
use valaf.Core.Alert.{Time}
use valaf.Core.Collect.{EvidenceItem}
use valaf.Store.Tables.{Tables}
use valaf.Store.Sql.{Server, Conn, exec}
use valaf.Store.Sql.Rules.{Gives, Gives-transaction, exec-eq-ok, transaction-err}
use valaf.Store.Evidence.{
  new_evidence, insert_evidence, insert_attachment, insert_items, save_evidence,
}
use valaf.Store.Evidence.Complete.{takes_item}

module _ (server : Server) (now : Time) (incident_id : ℕ) where
  abbrev Taken : EvidenceItem → Type 0
  Taken it = takes_item server it ≡ true

  insert_evidence-Taken :
      (it : EvidenceItem) (t : Tables) (r : ℕ × Tables)
      → insert_evidence server now incident_id it t ≡ ok r
      → Taken it
  unfolding insert_evidence new_evidence
  insert_evidence-Taken it t r h = ground (arith, h)

  insert_items-Taken :
      (items : List EvidenceItem) (c : Conn) (u : Unit) (c' : Conn)
      → insert_items server now incident_id items c ≡ (ok u, c')
      → All Taken items
  unfolding insert_items
  insert_items-Taken [] c u c' h = tt
  insert_items-Taken (it ∷ rest) c u c' h =
      let (id, d, e, h1) = >>=-eq-ok (exec (insert_evidence server now incident_id it)) _ c h in
      let (v, d2, e2, h2) = >>=-eq-ok (insert_attachment server it.attachment id) _ d h1 in
      (
        insert_evidence-Taken it c.tables (id, d.tables)
            (exec-eq-ok (insert_evidence server now incident_id it) c id d e),
        insert_items-Taken rest d2 u c' h2,
      )

  save_evidence-Taken :
      (items : List EvidenceItem)
      → Gives (λ t. Unit) (save_evidence server now incident_id items) (λ u t. All Taken items)
  unfolding save_evidence
  save_evidence-Taken items =
      Gives-transaction (insert_items server now incident_id items)
        (record { at = λ c u c' p h. insert_items-Taken items c u c' h })

  -- Whatever the connection does, a collection with one item whose request or result the server does
  -- not take as jsonb, or whose error it does not take as text, is not saved: the service returns an
  -- error and no item of the collection is stored, gaps and failures included.
  pub save_evidence_refused :
      (items : List EvidenceItem) (c : Conn) (it : EvidenceItem)
      → In it items
      → takes_item server it ≡ false
      → (e : Error) × ((save_evidence server now incident_id items c).0 ≡ err e)
        × ((save_evidence server now incident_id items c).1.tables ≡ c.tables)
  save_evidence_refused items c it i refused =
      let (r, c') = save_evidence server now incident_id items c in go r c' refl
    where
      go :
          (r : Result Unit) (c' : Conn)
          → save_evidence server now incident_id items c ≡ (r, c')
          → (e : Error) × (r ≡ err e) × (c'.tables ≡ c.tables)
      go (ok u) c' h =
          let taken = All-In Taken it items ((save_evidence-Taken items).at c u c' tt h) i in cc
      go (err e) c' h = (
        e,
        refl,
        unfold save_evidence in
            transaction-err (insert_items server now incident_id items) c e c' h,
      )
