-- ===== src/Query/Tests.antt =====
-- A query with dryRun, escaped and back.
use cluster_gateway.Base.{◌≡◌, refl, none, [], ◌∷◌}
use cluster_gateway.Base.Maps.{lookup, IsMap}
use cluster_gateway.Query.{Values, escape_query_values, unescape_query_values}
use cluster_gateway.Query.RoundTrip.{delivered, unescape-escape}

abbrev dry_run : Values
dry_run = ("limit", "5" ∷ []) ∷ ("dryRun", "All" ∷ []) ∷ []

dry_run-IsMap : IsMap dry_run
unfolding lookup
dry_run-IsMap = (refl, (refl, tt))

plain : lookup "__dryRun" dry_run ≡ none
unfolding lookup
plain = refl

unescape-escape_example :
    lookup "dryRun" (unescape_query_values (escape_query_values dry_run))
    ≡ delivered "dryRun" dry_run
unescape-escape_example = unescape-escape "dryRun" dry_run dry_run-IsMap plain
