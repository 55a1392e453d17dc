-- ===== src/Store/Incidents/Lookup.antt =====
-- Which incident a batch goes to.
use valaf.Common.{
  ℕ, suc, ◌≤◌, ◌≡◌, refl, ap, String, Bool, true, false, Bool-cases, inl, inr, Option, none, some,
  List, [], ◌∷◌, ◌++◌, ltb, select, All, In, arith,
}
use valaf.Common.Effect.{ok}
use valaf.Core.Alert.{AlertBatch, Time}
use valaf.Store.Tables.{IncidentRow, Tables}
use valaf.Store.Sql.{exec}
use valaf.Store.Sql.Rules.{Gives, Gives-query, Gives-bind, Gives-pure, Holds}
use valaf.Store.Incidents.{
  absorbs, latest, later_opened, is_level, new_incident, insert_incident, lookup_incident,
  create_unless, find_or_create,
}

-- the row found is in the list, and none was opened later
abbrev Newest : Option IncidentRow → List IncidentRow → Type 0
Newest none rows = rows ≡ []
Newest (some i) rows = In i rows × All (λ r. r.opened_at ≤ i.opened_at) rows

All-before :
    (a b : ℕ) (rows : List IncidentRow)
    → a ≤ b
    → All (λ r. r.opened_at ≤ a) rows
    → All (λ r. r.opened_at ≤ b) rows
All-before a b [] h k = tt
All-before a b (r ∷ rest) h k = (omega (arith, k.0), All-before a b rest h k.1)

Newest-later :
    (r : IncidentRow) (o : Option IncidentRow) (rest : List IncidentRow)
    → Newest o rest
    → Newest (later_opened r o) (r ∷ rest)
Newest-later r none rest n = (inl refl, (omega arith, rw n tt))
Newest-later r (some k) rest n = elim (Bool-cases (ltb r.opened_at k.opened_at)) [
  | inl e ↦ rw e (inr n.0, (ground arith, n.1))
  | inr e ↦
      rw e (inl refl, (omega arith, All-before k.opened_at r.opened_at rest (ground arith) n.1))
]

latest-Newest : (rows : List IncidentRow) → Newest (latest rows) rows
unfolding latest
latest-Newest [] = refl
latest-Newest (r ∷ rest) = Newest-later r (latest rest) rest (latest-Newest rest)

module _ (now : Time) (batch : AlertBatch) (severity : String) (since : Time) (t0 : Tables) where
  abbrev candidates : List IncidentRow
  candidates = select (absorbs batch.grouping_key since) t0.incidents

  -- the incident that the batch goes to, and the tables then
  abbrev pub Chosen : ℕ × Bool → Tables → Type 0
  Chosen (id, false) t =
      (t ≡ t0)
      × ((i : IncidentRow) × In i candidates
          × All (λ r. r.opened_at ≤ i.opened_at) candidates
          × (id ≡ i.id))
  Chosen (id, true) t =
      (candidates ≡ [])
      × (id ≡ t0.next_id)
      × (is_level severity ≡ true)
      × (t ≡ record t0 {
        next_id = suc t0.next_id;
        incidents = t0.incidents ++ new_incident now t0.next_id batch severity ∷ [];
      })

  abbrev Looked : Option IncidentRow → Tables → Type 0
  Looked o t = (t ≡ t0) × Newest o candidates

  lookup-Looked : Gives (λ t. t ≡ t0) (exec (lookup_incident batch since)) Looked
  unfolding lookup_incident
  lookup-Looked =
      Gives-query (lookup_incident batch since) (λ t e. (e, rw e (latest-Newest candidates)))

  insert_held :
      (t : Tables)
      → candidates ≡ []
      → t ≡ t0
      → Holds (λ id. Chosen (id, true)) (insert_incident now batch severity t)
  unfolding insert_incident
  insert_held t none_found e = elim (Bool-cases (is_level severity)) [
    | inl l ↦ rw l (none_found, ap (λ (x : Tables). x.next_id) e, l, rw e)
    | inr l ↦ rw l tt
  ]

  create_unless-Chosen :
      (o : Option IncidentRow) → Gives (Looked o) (create_unless now batch severity o) Chosen
  unfolding create_unless
  create_unless-Chosen (some i) = Gives-pure (i.id, false) (λ t (e, n). (e, (i, n.0, n.1, refl)))
  create_unless-Chosen none =
      Gives-bind (exec (insert_incident now batch severity)) (λ id. λ c. (ok (id, true), c))
        (λ id. Chosen (id, true))
        (Gives-query (insert_incident now batch severity) (λ t (e, n). insert_held t n e))
        (λ id. Gives-pure (id, true) (λ t h. h))

  pub find_or_create-Chosen : Gives (λ t. t ≡ t0) (find_or_create now batch severity since) Chosen
  unfolding find_or_create
  find_or_create-Chosen =
      Gives-bind (exec (lookup_incident batch since)) (create_unless now batch severity) Looked
        lookup-Looked create_unless-Chosen
