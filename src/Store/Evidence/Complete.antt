-- ===== src/Store/Evidence/Complete.antt =====
-- What a collection brings is stored, gaps and failures too, if the database takes its texts.
use valaf.Common.{
  All, ℕ, suc, Bool, ◌&&◌, ◌≡◌, refl, sym, ap, ◌∙◌, true, Option, none, some, List, [], ◌∷◌, ◌++◌,
}
use mathlib.Core.List.{append_assoc, append-nil}
use valaf.Common.Effect.{ok}
use valaf.Core.Alert.{Time}
use valaf.Core.Collect.{EvidenceStatus, captured, gap, failed, Attachment, EvidenceItem}
use valaf.Store.Tables.{EvidenceRow, Tables}
use valaf.Store.Sql.{Server, null_if_empty, up, exec, finish_query, settle, transaction}
use valaf.Store.Jobs.{incident_exists}
use valaf.Store.Evidence.{
  or_object, stored_result, fits, is_legal, is_storage_backend, result_presence, new_evidence,
  insert_evidence, attachment_row, insert_attachment, insert_items, save_evidence,
}

-- the rows of a collection, in its order: what was captured, and the gaps as gaps
abbrev pub Recorded : ℕ → List EvidenceItem → List EvidenceRow → Type 0
Recorded incident_id [] [] = Unit
Recorded incident_id [] (_ ∷ _) = ⊥
Recorded incident_id (_ ∷ _) [] = ⊥
Recorded incident_id (it ∷ items) (r ∷ rows) =
    (r.incident_id ≡ incident_id)
    × (r.collector ≡ it.collector)
    × (r.kind ≡ it.kind)
    × (r.status ≡ it.status)
    × (r.request ≡ or_object it.request)
    × (r.result ≡ stored_result it.status it.result)
    × (r.error ≡ null_if_empty it.error)
    × (result_presence r ≡ true)
    × (r.is_valid ≡ true)
    × Recorded incident_id items rows

new_evidence-presence :
    (now : Time) (id incident_id : ℕ) (it : EvidenceItem) (s : EvidenceStatus)
    → it.status ≡ s
    → result_presence (new_evidence now id incident_id it) ≡ true
unfolding new_evidence
new_evidence-presence now id incident_id it captured e = rw e
new_evidence-presence now id incident_id it gap e = rw e
new_evidence-presence now id incident_id it failed e = rw e

-- what a collector may hand over: the database has enums for collectors, kinds and backends
abbrev pub IsLegal : EvidenceItem → Type 0
IsLegal it =
    (is_legal it ≡ true)
    × ((a : Attachment) → it.attachment ≡ some a → is_storage_backend a.storage_backend ≡ true)

-- the server takes the texts and the JSON of an item, and those of an attachment
abbrev pub takes_item : Server → EvidenceItem → Bool
takes_item server it =
    server.is_jsonb (or_object it.request)
    && (fits server.is_jsonb (stored_result it.status it.result)
        && fits server.is_text (null_if_empty it.error))

abbrev pub takes_blob : Server → Attachment → Bool
takes_blob server a =
    server.is_text a.storage_key
    && (server.is_text a.mime_type && fits server.is_text (null_if_empty a.checksum))

abbrev pub IsStorable : Server → EvidenceItem → Type 0
IsStorable server it =
    (takes_item server it ≡ true)
    × ((a : Attachment) → it.attachment ≡ some a → takes_blob server a ≡ true)

insert_evidence_lem :
    (server : Server) (now : Time) (incident_id : ℕ) (it : EvidenceItem) (t : Tables)
    → is_legal it ≡ true
    → takes_item server it ≡ true
    → incident_exists incident_id t ≡ true
    → insert_evidence server now incident_id it t
      ≡ ok (
        t.next_id,
        record t {
          next_id = suc t.next_id;
          evidence_items = t.evidence_items ++ new_evidence now t.next_id incident_id it ∷ [];
        },
      )
unfolding insert_evidence new_evidence
insert_evidence_lem server now incident_id it t l k e =
    rw l (rw k (rw e (rw (new_evidence-presence now t.next_id incident_id it it.status refl))))

-- what an attachment leaves alone
abbrev Same : Tables → Tables → Type 0
Same t t' = (t'.incidents ≡ t.incidents) × (t'.evidence_items ≡ t.evidence_items)

insert_attachment-up :
    (server : Server) (o : Option Attachment) (id : ℕ) (t : Tables)
    → ((a : Attachment) → o ≡ some a → is_storage_backend a.storage_backend ≡ true)
    → ((a : Attachment) → o ≡ some a → takes_blob server a ≡ true)
    → (t' : Tables) × (insert_attachment server o id (up t) ≡ (ok tt, up t')) × Same t t'
unfolding insert_attachment exec finish_query
insert_attachment-up server none id t legal taken = (t, refl, (refl, refl))
insert_attachment-up server (some a) id t legal taken = (
  record t {
    next_id = suc t.next_id;
    attachments = t.attachments ++ attachment_row t.next_id id a ∷ [];
  },
  rw (legal a refl) (rw (taken a refl) refl),
  (refl, refl),
)

module _ (server : Server) (now : Time) (incident_id : ℕ) where
  insert_items_step :
      (it : EvidenceItem) (rest : List EvidenceItem) (t t2 t3 : Tables)
      → is_legal it ≡ true
      → takes_item server it ≡ true
      → incident_exists incident_id t ≡ true
      → insert_attachment server it.attachment t.next_id (
          up (record t {
            next_id = suc t.next_id;
            evidence_items = t.evidence_items ++ new_evidence now t.next_id incident_id it ∷ [];
          }))
        ≡ (ok tt, up t2)
      → insert_items server now incident_id rest (up t2) ≡ (ok tt, up t3)
      → insert_items server now incident_id (it ∷ rest) (up t) ≡ (ok tt, up t3)
  unfolding insert_items exec finish_query
  insert_items_step it rest t t2 t3 l k e attached done =
      rw (insert_evidence_lem server now incident_id it t l k e) (rw attached done)

  insert_items-up :
      (items : List EvidenceItem) (t : Tables)
      → All IsLegal items
      → All (IsStorable server) items
      → incident_exists incident_id t ≡ true
      → (t' : Tables) × (rows : List EvidenceRow) × (insert_items server now incident_id items
            (up t)
          ≡ (ok tt, up t'))
        × (t'.evidence_items ≡ t.evidence_items ++ rows)
        × Recorded incident_id items rows
  unfolding insert_items
  insert_items-up [] t l k e = (t, [], refl, sym (append-nil t.evidence_items), tt)
  insert_items-up (it ∷ rest) t l k e =
      let row = new_evidence now t.next_id incident_id it in
      let t1 : Tables = record t {
        next_id = suc t.next_id;
        evidence_items = t.evidence_items ++ row ∷ [];
      } in
      let (t2, attached, (same, kept)) =
        insert_attachment-up server it.attachment t.next_id t1 l.0.1 k.0.1 in
      let (t3, rows, done, grown, recorded) = insert_items-up rest t2 l.1 k.1 (rw same e) in
      (
        t3,
        row ∷ rows,
        insert_items_step it rest t t2 t3 l.0.0 k.0.0 e attached done,
        grown
            ∙ ap (λ (x : List EvidenceRow). x ++ rows) kept
            ∙ append_assoc t.evidence_items (row ∷ []) rows,
        (
          unfold new_evidence in refl,
          unfold new_evidence in refl,
          unfold new_evidence in refl,
          unfold new_evidence in refl,
          unfold new_evidence in refl,
          unfold new_evidence in refl,
          unfold new_evidence in refl,
          new_evidence-presence now t.next_id incident_id it it.status refl,
          unfold new_evidence in refl,
          recorded,
        ),
      )

-- On a connection that does not fail, saving evidence of an existing incident succeeds if the
-- database's enums have the collectors, kinds and backends, and the server takes the requests and
-- results as jsonb and the errors and the attachments' fields as text. It adds to the table exactly one
-- valid row for every item, in the order of the items, with the item's status, request and error: a
-- gap or a failure is stored as well, without a result, and a captured item with its own.
pub save_evidence_complete :
    (server : Server) (now : Time) (incident_id : ℕ) (items : List EvidenceItem) (t : Tables)
    → All IsLegal items
    → All (IsStorable server) items
    → incident_exists incident_id t ≡ true
    → (t' : Tables) × (rows : List EvidenceRow) × (save_evidence server now incident_id items (up t)
        ≡ (ok tt, up t'))
      × (t'.evidence_items ≡ t.evidence_items ++ rows)
      × Recorded incident_id items rows
unfolding save_evidence transaction settle
save_evidence_complete server now incident_id items t l k e =
    let (t', rows, done, grown, recorded) = insert_items-up server now incident_id items t l k e in
    (t', rows, rw done refl, grown, recorded)
