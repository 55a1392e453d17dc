-- ===== src/Examples/Prometheus.antt =====
-- The collector of metrics on concrete answers.
use valaf.Common.{ℕ, ◌+◌, ◌≡◌, refl, false, none, some, List, [], ◌∷◌, ◌++◌, map, inr, ltb}
use valaf.Common.Text.{Text, codes}
use valaf.Common.Effect.{err, constraint}
use valaf.Core.Collect.{CollectTarget, EvidenceItem}
use valaf.Store.Tables.{Tables, empty_tables}
use valaf.Store.Sql.{Server, up, exec, transaction}
use valaf.Store.Evidence.{save_evidence}
use valaf.Store.Retrieval.{itoa}
use valaf.Adapters.Http.{answered}
use valaf.Adapters.Prometheus.{Api, http_error, new_item, fail, collect_metrics}
use valaf.Adapters.Prometheus.Queries.{escape_label, build_queries, classify}
use valaf.Adapters.Prometheus.Escape.{read_quoted, read_quoted-escape_label}
use valaf.Adapters.Prometheus.Summary.{Floats, downsample, trend_points}
use valaf.Examples.Data.{lenient}
use valaf.Examples.Notebook.{incident}

-- hundredths as numbers
abbrev hundredths : Floats ℕ
hundredths = record {
  less = ltb;
  add = λ a b. a + b;
  zero_float = 0;
  over = λ a n. a;
  round2 = λ a. a;
}

abbrev points : List ℕ
points = 1 ∷ 2 ∷ 3 ∷ 4 ∷ 5 ∷ 6 ∷ 7 ∷ 8 ∷ 9 ∷ 10 ∷ 11 ∷ 12 ∷ 13 ∷ 14 ∷ 15 ∷ 16 ∷ 17 ∷ 18 ∷ []

-- eighteen points are cut to sixteen
cut :
    downsample hundredths points trend_points
    ≡ some (1 ∷ 2 ∷ 3 ∷ 4 ∷ 5 ∷ 6 ∷ 7 ∷ 8 ∷ 10 ∷ 11 ∷ 12 ∷ 13 ∷ 14 ∷ 15 ∷ 16 ∷ 18 ∷ [])
unfolding downsample
cut = refl

-- a host that tries to leave the quotes
abbrev host : Text
host = codes "db\"} or \\"

read_quoted-escape_label_example :
    read_quoted false (escape_label host ++ b'"' ∷ codes "}") ≡ some (host, codes "}")
read_quoted-escape_label_example =
    read_quoted-escape_label host (codes "}")
      (refl, (refl, (refl, (refl, (refl, (refl, (refl, (refl, (refl, tt)))))))))

abbrev target : CollectTarget
target = record {
  incident_id = 1;
  title = "Disk full";
  alertnames = "NodeDiskUsageHigh" ∷ [];
  entity_bag = ("host", "db1") ∷ [];
  annotations = [];
  window = record { start = 100; end = 200; step = 30 };
}

-- a server that answers with one series
abbrev api : Api ℕ ℕ
api = record {
  get_range = λ timeout r n. (answered 200 "{}", n + 1);
  first_bytes = λ b n. none;
  request_json = λ r. "{}";
  decode_response = λ body. inr (record { status = "success"; data_json = "{}"; error = "" });
  decode_data = λ raw. inr (record { metric = []; values = ("1" ∷ "2" ∷ []) ∷ [] } ∷ []);
  floats = hundredths;
  parse_float = λ raw. some 7;
  summary_json = λ m. some "{}";
}

abbrev tables : Tables
tables = record empty_tables { incidents = incident ∷ [] }

-- a server that does not take the texts of errors
abbrev picky : Server
picky = record lenient { is_text = λ s. false }

abbrev broken : Api ℕ ℕ
broken = record api { get_range = λ timeout r n. (answered 502 "bad gateway", n + 1) }

abbrev spoiled : EvidenceItem
spoiled = fail (new_item "{}") "prometheus http 502: bad gateway"

spoils : (collect_metrics broken 30 target 0).0 ≡ some (spoiled ∷ spoiled ∷ [])
unfolding collect_metrics build_queries classify http_error itoa
spoils = refl

-- the whole collection is lost
lost : (save_evidence picky 250 1 (new_item "{}" ∷ spoiled ∷ []) (up tables)).0 ≡ err constraint
unfolding save_evidence transaction exec
lost = refl

lost_all : (save_evidence picky 250 1 (new_item "{}" ∷ spoiled ∷ []) (up tables)).1.tables ≡ tables
unfolding save_evidence transaction exec
lost_all = refl

two_queries : map (λ q. q.name) (build_queries target) ≡ "disk_used_percent" ∷ "target_up" ∷ []
unfolding build_queries classify
two_queries = refl
