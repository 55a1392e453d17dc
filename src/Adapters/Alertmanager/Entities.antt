-- ===== src/Adapters/Alertmanager/Entities.antt =====
-- The bag of entities of a batch: group labels win over common labels, and of the labels that name an
-- entity the first that is set.
use valaf.Common.{
  String, ◌≡◌, refl, sym, ap, ◌∙◌, List, [], ◌∷◌, Bool-cases, inl, inr, ◌==◌, eq_iff, Option, none,
  some, if◌then◌else◌,
}
use valaf.Common.Effect.{ok}
use valaf.Common.Maps.{Map, find, get, put, find-put}
use valaf.Core.Alert.{RawMessage, AlertBatch}
use valaf.Adapters.Alertmanager.{
  Webhook, AmAlert, or_else, first_label, set_entity, entities_from, entities, put_all, merge,
  batch_of, parse_alerts, parse_webhook, parse,
}

-- the last value of a key, or what stood there before
abbrev pub last_of : Map String → String → Option String → Option String
last_of [] k before = before
last_of ((j, v) ∷ rest) k before = last_of rest k (if j == k then some v else before)

find-put_all : (out m : Map String) (k : String) → find (put_all out m) k ≡ last_of m k (find out k)
unfolding put_all
find-put_all out [] k = refl
find-put_all out ((j, v) ∷ rest) k =
    find-put_all (put out j v) rest k ∙ ap (last_of rest k) (find-put out j k v)

-- the keys of a map are distinct
abbrev pub IsKeyed : Map String → Type 0
IsKeyed [] = Unit
IsKeyed ((k, v) ∷ m) = (find m k ≡ none) × IsKeyed m

abbrev pub overrides : Option String → Option String → Option String
overrides (some v) o = some v
overrides none o = o

overrides-none : (o : Option String) → overrides o none ≡ o
overrides-none none = refl
overrides-none (some v) = refl

last_of_lem :
    (m : Map String) (k : String) (o : Option String)
    → IsKeyed m
    → last_of m k o ≡ overrides (find m k) o
unfolding find
last_of_lem [] k o u = refl
last_of_lem ((j, v) ∷ rest) k o u = elim (Bool-cases (j == k)) [
  | inl e ↦
      let absent : find rest k ≡ none = ap (find rest) (sym ((eq_iff j k).0 e)) ∙ u.0 in
      rw e (last_of_lem rest k (some v) u.1 ∙ ap (λ x. overrides x (some v)) absent)
  | inr e ↦ rw e (last_of_lem rest k o u.1)
]

-- Group labels win over common labels.
find-merge :
    (a b : Map String) (k : String)
    → IsKeyed a
    → IsKeyed b
    → find (merge a b) k ≡ overrides (find b k) (find a k)
unfolding merge find
find-merge a b k ua ub =
    find-put_all (put_all [] a) b k
    ∙ last_of_lem b k (find (put_all [] a) k) ub
    ∙ ap (overrides (find b k))
        (find-put_all [] a k ∙ last_of_lem a k none ua ∙ overrides-none (find a k))

-- the first candidate that is set, by a lookup of labels
abbrev pub chosen : (String → String) → List String → String
chosen look [] = ""
chosen look (c ∷ rest) = or_else (look c) (chosen look rest)

abbrev pub unless_empty : String → Option String
unless_empty v = if v == "" then none else some v

-- one of four, by the name of the entity
abbrev pub by_key : {A : Type 0} → A → A → A → A → A → String → A
by_key s h p e other key =
    if "service" == key
    then s
    else if "host" == key
    then h
    else if "pod" == key
    then p
    else if "env" == key
    then e
    else other

-- the labels that name an entity, in the order of their precedence
abbrev pub candidates : String → List String
candidates =
    by_key ("service" ∷ "service_name" ∷ "job" ∷ "app" ∷ [])
      ("instance" ∷ "host" ∷ "hostname" ∷ "nodename" ∷ "node" ∷ []) ("pod" ∷ "pod_name" ∷ [])
      ("env" ∷ "environment" ∷ "deployment_environment" ∷ []) []

-- a label of the webhook
abbrev pub label_of : Webhook → String → String
label_of wh c = elim (overrides (find wh.group_labels c) (find wh.common_labels c)) [
  | none ↦ ""
  | some v ↦ v
]

find-set_entity :
    (bag : Map String) (k v j : String)
    → find (set_entity bag k v) j
      ≡ (if k == j then overrides (unless_empty v) (find bag j) else find bag j)
unfolding set_entity
find-set_entity bag k v j = elim (Bool-cases (v == "")) [
  | inl e ↦ rw e (elim (Bool-cases (k == j)) [ inl f ↦ rw f refl | inr f ↦ rw f refl ])
  | inr e ↦ rw e (find-put bag k j v)
]

find-four :
    (s h p e key : String)
    → find
        (set_entity (set_entity (set_entity (set_entity [] "service" s) "host" h) "pod" p) "env" e)
        key
      ≡ unless_empty (by_key s h p e "" key)
unfolding find
find-four s h p e key =
    rw
      (find-set_entity (set_entity (set_entity (set_entity [] "service" s) "host" h) "pod" p) "env"
        e key)
      (rw (find-set_entity (set_entity (set_entity [] "service" s) "host" h) "pod" p key) (
        rw (find-set_entity (set_entity [] "service" s) "host" h key) (
          rw (find-set_entity [] "service" s key) (elim (Bool-cases ("service" == key)) [
            | inl k ↦ rw (sym ((eq_iff "service" key).0 k)) (overrides-none (unless_empty s))
            | inr k ↦ rw k (elim (Bool-cases ("host" == key)) [
              | inl l ↦ rw (sym ((eq_iff "host" key).0 l)) (overrides-none (unless_empty h))
              | inr l ↦ rw l (elim (Bool-cases ("pod" == key)) [
                | inl m ↦ rw (sym ((eq_iff "pod" key).0 m)) (overrides-none (unless_empty p))
                | inr m ↦ rw m (elim (Bool-cases ("env" == key)) [
                  | inl n ↦ rw n (overrides-none (unless_empty e))
                  | inr n ↦ rw n refl
                ])
              ])
            ])
          ]))))

ap-by_key :
    {A B : Type 0} (f : A → B) (s h p e other : A) (key : String)
    → f (by_key s h p e other key) ≡ by_key (f s) (f h) (f p) (f e) (f other) key
ap-by_key f s h p e other key = elim (Bool-cases ("service" == key)) [
  | inl k ↦ rw k refl
  | inr k ↦ rw k (elim (Bool-cases ("host" == key)) [
    | inl l ↦ rw l refl
    | inr l ↦ rw l (elim (Bool-cases ("pod" == key)) [
      | inl m ↦ rw m refl
      | inr m ↦ rw m (elim (Bool-cases ("env" == key)) [ inl n ↦ rw n refl | inr n ↦ rw n refl ])
    ])
  ])
]

find-entities :
    (labels : Map String) (key : String)
    → find (entities labels) key ≡ unless_empty (first_label labels (candidates key))
unfolding entities entities_from first_label
find-entities labels key =
    find-four (first_label labels (candidates "service")) (first_label labels (candidates "host"))
      (first_label labels (candidates "pod")) (first_label labels (candidates "env")) key
    ∙ ap unless_empty (
        sym (
          ap-by_key (first_label labels) (candidates "service") (candidates "host")
            (candidates "pod") (candidates "env") [] key))

first_label_lem :
    (m : Map String) (look : String → String) (cs : List String)
    → ((c : String) → get m c ≡ look c)
    → first_label m cs ≡ chosen look cs
unfolding first_label
first_label_lem m look [] h = refl
first_label_lem m look (c ∷ rest) h =
    ap (λ v. or_else v (first_label m rest)) (h c)
    ∙ ap (or_else (look c)) (first_label_lem m look rest h)

get-merge :
    (wh : Webhook) (c : String)
    → IsKeyed wh.common_labels
    → IsKeyed wh.group_labels
    → get (merge wh.common_labels wh.group_labels) c ≡ label_of wh c
unfolding get
get-merge wh c uc ug =
    ap (λ (o : Option String). elim o [ none ↦ "" | some v ↦ v ])
      (find-merge wh.common_labels wh.group_labels c uc ug)

module _ (digest : String → String) (decode : String → Option Webhook)
    (marshal : AmAlert → RawMessage) where
  parse_alerts-eq-ok :
      (alerts : List AmAlert) (wh : Webhook) (batch : AlertBatch)
      → parse_alerts digest decode marshal alerts wh ≡ ok batch
      → batch_of digest decode marshal wh ≡ batch
  unfolding parse_alerts
  parse_alerts-eq-ok [] wh batch k = cc
  parse_alerts-eq-ok (a ∷ rest) wh batch k = cc

  -- The bag of entities of a parsed webhook holds a service, a host, a pod and an environment, each
  -- if one of the labels that name it is set, and then the first of them that is set, where a group
  -- label wins over a common label of the same name; and it holds nothing else.
  pub parse-entity_bag :
      (body : String) (wh : Webhook) (batch : AlertBatch) (key : String)
      → decode body ≡ some wh
      → parse digest decode marshal body ≡ ok batch
      → IsKeyed wh.common_labels
      → IsKeyed wh.group_labels
      → find batch.entity_bag key ≡ unless_empty (chosen (label_of wh) (candidates key))
  unfolding parse parse_webhook batch_of
  parse-entity_bag body wh batch key e h uc ug =
      ap (λ (b : AlertBatch). find b.entity_bag key)
        (sym (
          parse_alerts-eq-ok wh.alerts wh batch
            (ap (parse_webhook digest decode marshal) (sym e) ∙ h)))
      ∙ find-entities (merge wh.common_labels wh.group_labels) key
      ∙ ap unless_empty (
          first_label_lem (merge wh.common_labels wh.group_labels) (label_of wh) (candidates key)
            (λ c. get-merge wh c uc ug))
