-- ===== src/Monitoring/LogAggregator/Lines.antt =====
-- monitoring/log_aggregator.py: `_parse_compose_line` on a line with and without a prefix.
use Prim.Native.String
use cloud_microservices.Prelude.{
  String, ◌≡◌, refl, Bool, false, contains, partition_at-append, partition_at-none, strip,
}
use cloud_microservices.Monitoring.LogAggregator.{parse_compose_line}

-- `"|" in s`
abbrev pub has_bar : String → Bool
has_bar = contains b'|'

-- A line of a container's name, a bar and a payload is split at the first bar, and both sides are
-- stripped; a line without a bar is all payload, as it is.
pub parse_compose_line_lem :
    (head tail : String)
    → has_bar head ≡ false
    → (parse_compose_line (String.◌++◌ head (String.◌∷◌ "|" tail)) ≡ (strip head, strip tail))
      × (parse_compose_line head ≡ ("", head))
unfolding parse_compose_line
parse_compose_line_lem head tail h = (
  rw (parse_compose_line, partition_at-append "|" head tail h) refl,
  rw (parse_compose_line, partition_at-none b'|' head h) refl,
)
