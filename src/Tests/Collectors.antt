-- ===== src/Tests/Collectors.antt =====
-- The monitoring at concrete inputs.
use cloud_microservices.Prelude.{
  ℕ, String, ◌≡◌, refl, Bool, true, false, Option, none, some, List, [], ◌∷◌, negsuc, ok, str_ℤ,
  partition_at, map, filter,
}
use cloud_microservices.Prelude.Dict
use cloud_microservices.Prelude.Dict.{Dict}
use cloud_microservices.Http.{Exchange}
use cloud_microservices.Orchestration.Targets.{ServiceTarget}
use cloud_microservices.Monitoring.MetricsCollector.{collect}
use Prim.Native.String
use cloud_microservices.Monitoring.MetricsCollector
use cloud_microservices.Monitoring.MetricsCollector.{
  Files, Round, scraped, scrape_one, scrape_all, dict_of, metrics_url,
}
use cloud_microservices.Monitoring.MetricsCollector.{written, history_cut}
use cloud_microservices.Monitoring.MetricsCollector.Main as CollectorMain
use cloud_microservices.Monitoring.LogAggregator.{Json, object, aggregate, handle_line}
use cloud_microservices.Monitoring.LogAggregator.Laws.{until_stop, has_payload, aggregate_lem}
use cloud_microservices.Monitoring.LogAggregator.Main.{ends, AggregatorOptions, Child}
use cloud_microservices.Monitoring.LogAggregator.Arguments
use cloud_microservices.Monitoring.LogAggregator.Arguments.{parse_args-argv_of}
use cloud_microservices.CommandLine.{
  parsed, parse, consume, classify_all, classify, value_of, is_given,
}
use cloud_microservices.Shared.Env.{Env, env_float}
use cloud_microservices.Monitoring.MetricsCollector.Arguments.{
  CollectorOptions, options_of, path_of, split_slash, stem_and_suffix, last_point,
}
use cloud_microservices.Monitoring.MetricsCollector.Arguments.Paths.{IsApart, parse_args-IsApart}
use cloud_microservices.Tests.Data.{naturals, unreachable}

abbrev dead : String → Exchange ℕ
dead url = unreachable

abbrev one_target : List ServiceTarget
one_target = record { name = "a"; container = "cm-a"; health_url = "u" } ∷ []

-- a decoder that reads every text as the same object
abbrev loads : String → Option (Json ℕ)
loads s = some (object (("level", 3) ∷ ("port", 80) ∷ []))

abbrev log_lines : List (String × Bool)
log_lines = ("cm-a | {}", false) ∷ ("cm-a |", false) ∷ ("cm-a | {}", true) ∷ []

aggregate_lem_example :
    map some (aggregate loads log_lines)
    ≡ map (handle_line loads) (filter (has_payload loads) (until_stop loads log_lines))
aggregate_lem_example = aggregate_lem loads log_lines

abbrev aggregator : AggregatorOptions
aggregator = record { project = "cloud"; follow = false; tail = negsuc 4 }

-- a child that outlives `terminate`
abbrev stubborn : Child
stubborn = record {
  launched = true;
  lines = log_lines;
  behind = ends;
  returncode = none;
  on_terminate = none;
  on_kill = negsuc 8;
}

abbrev no_env : Env
no_env name = none

parse_args-argv_of_example :
    Arguments.parse_args (
      String.◌++◌ "--project" "=cloud"
      ∷ String.◌++◌ "--tail" (String.◌∷◌ "=" (str_ℤ (negsuc 4)))
      ∷ "--no-follow"
      ∷ [])
    ≡ parsed aggregator
parse_args-argv_of_example = parse_args-argv_of aggregator refl

-- `--once --output=m.json`
abbrev collector : CollectorOptions ℕ
collector = record {
  output_path = record { root = ""; parts = "m.json" ∷ [] };
  history_path = record { root = ""; parts = "m.json.history.jsonl" ∷ [] };
  interval_seconds = 10;
  one_shot = true;
}

abbrev rounds : List (Round ℕ)
rounds =
    record { get = dead; now = "t1"; disk = written; stop_set = false }
    ∷ record { get = dead; now = "t2"; disk = history_cut "{"; stop_set = true }
    ∷ []

abbrev files : Files
files = record { output = none; history = "old" }

abbrev stamped : MetricsCollector.Snapshot ℕ → String
stamped s = s.scraped_at

accepted :
    MetricsCollector.Arguments.parse_args naturals no_env ("--on" ∷ "--output" ∷ "./m.json" ∷ [])
    ≡ parsed (ok collector)
unfolding MetricsCollector.Arguments.parse_args options_of parse consume classify_all classify
    Dict.get partition_at path_of split_slash value_of stem_and_suffix env_float is_given last_point
accepted = refl

parse_args-IsApart_example : IsApart naturals collector
parse_args-IsApart_example =
    parse_args-IsApart naturals no_env ("--on" ∷ "--output" ∷ "./m.json" ∷ []) collector accepted
