-- ===== src/Adapters/Prometheus/Queries.antt =====
-- Which queries internal/adapters/prometheus/prometheus.go asks for an alert. An expression is a text
-- of code points.
use valaf.Common.{String, Bool, false, ◌||◌, List, [], ◌∷◌, ◌++◌, map, ◌==◌, if◌then◌else◌}
use valaf.Common.Text.{Text, codes, to_lower, contains_text, replace_char, join}
use valaf.Common.Maps.{get}
use valaf.Core.Collect.{CollectTarget}

pub record Query : Type 0 where
  pub name : String
  pub expr : Text

-- a backslash, then a quote
unfoldable pub escape_label : Text → Text
unfolding replace_char
escape_label v = replace_char b'"' (codes "\\\"") (replace_char b'\\' (codes "\\\\") v)

abbrev first_non_empty : List String → String
first_non_empty [] = ""
first_non_empty (v ∷ rest) = if v == "" then first_non_empty rest else v

unfoldable pub contains_any : Text → List String → Bool
unfolding contains_text
contains_any t [] = false
contains_any t (w ∷ rest) = contains_text t (codes w) || contains_any t rest

pub data Category : Type 0 where
  disk memory cpu general : Category

unfoldable pub category_of : Text → Category
unfolding contains_any
category_of j =
    if contains_any j ("disk" ∷ "filesystem" ∷ "inode" ∷ "storage" ∷ "volume" ∷ [])
    then disk
    else if contains_any j ("memory" ∷ "mem" ∷ "oom" ∷ "swap" ∷ [])
    then memory
    else if contains_any j ("cpu" ∷ "load" ∷ "throttl" ∷ [])
    then cpu
    else general

unfoldable pub classify : List Text → Category
unfolding category_of to_lower join
classify hints = category_of (to_lower (join (codes " ") hints))

-- `instance="..."`
unfoldable pub selector : Text → Text
unfolding escape_label
selector host = codes "instance=\"" ++ (escape_label host ++ codes "\"")

abbrev pub disk_used : Text → Query
disk_used sel = record {
  name = "disk_used_percent";
  expr =
      codes "100 - (node_filesystem_avail_bytes{"
      ++ (sel
          ++ (codes ",fstype!~\"tmpfs|overlay|squashfs|ramfs\"} / node_filesystem_size_bytes{"
              ++ (sel ++ codes ",fstype!~\"tmpfs|overlay|squashfs|ramfs\"} * 100)")));
}

abbrev pub mem_used : Text → Query
mem_used sel = record {
  name = "mem_used_percent";
  expr =
      codes "100 * (1 - node_memory_MemAvailable_bytes{"
      ++ (sel ++ (codes "} / node_memory_MemTotal_bytes{" ++ (sel ++ codes "})")));
}

abbrev pub cpu_busy : Text → Query
cpu_busy sel = record {
  name = "cpu_busy_percent";
  expr =
      codes "100 - (avg(rate(node_cpu_seconds_total{mode=\"idle\","
      ++ (sel ++ codes "}[5m])) * 100)");
}

abbrev pub queries_for : Category → Text → List Query
queries_for disk sel = disk_used sel ∷ []
queries_for memory sel = mem_used sel ∷ []
queries_for cpu sel = cpu_busy sel ∷ []
queries_for general sel = cpu_busy sel ∷ mem_used sel ∷ []

abbrev pub target_up : Text → Query
target_up sel = record { name = "target_up"; expr = codes "up{" ++ (sel ++ codes "}") }

abbrev pub targets_up : Query
targets_up = record { name = "targets_up"; expr = codes "up" }

unfoldable pub host_of : CollectTarget → String
unfolding get
host_of t =
    first_non_empty
      (get t.entity_bag "host" ∷ get t.entity_bag "instance" ∷ get t.entity_bag "nodename" ∷ [])

unfoldable pub build_queries : CollectTarget → List Query
unfolding host_of classify selector
build_queries t =
    if host_of t == ""
    then targets_up ∷ []
    else queries_for (classify (map codes (t.alertnames ++ t.title ∷ [])))
        (selector (codes (host_of t)))
      ++ target_up (selector (codes (host_of t))) ∷ []
