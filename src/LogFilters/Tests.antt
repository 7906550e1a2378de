-- ===== src/LogFilters/Tests.antt =====
-- An event with a label, and a filter by its key and a part of its value.
use logalot.Base.{none, true, [], ◌∷◌, codes, Text, ◌≡◌, ◌↔◌}
use logalot.LogTail.{TailLogEvent}
use logalot.LogFilters.{LogFilters, matches_filters}
use logalot.LogFilters.Matches.{IsMatch, matches_filters_iff}

abbrev event : TailLogEvent
event = record {
  tenant_id = codes "t1";
  ts = codes "2026-01-01T00:00:00Z";
  id = none;
  service = codes "api";
  level = codes "info";
  message = codes "request failed";
  labels = (codes "region", codes "eu-west") ∷ [];
  trace_id = none;
  span_id = none;
}

abbrev filters : LogFilters
filters = record {
  service = codes " ap ";
  levels = codes "warn" ∷ codes "info" ∷ [];
  label = codes "region = west";
  text = [];
}

abbrev lower : Text → Text
lower s = s

matches_filters_iff_example :
    (matches_filters lower event filters ≡ true) ↔ IsMatch lower event filters
matches_filters_iff_example = matches_filters_iff lower event filters
