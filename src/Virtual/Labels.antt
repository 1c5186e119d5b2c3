-- ===== src/Virtual/Labels.antt =====
-- The labels of a virtual cluster.
use cluster_gateway.Base.{
  String, ◌≡◌, Option, none, some, is_some, [], ◌∷◌, arith, eq_iff, str_eq, if◌then◌else◌,
}
use cluster_gateway.Base.Text.{has_prefix}
use cluster_gateway.Base.Maps.{Map, lookup, lookup-insert}
use cluster_gateway.Api.{api_group}
use cluster_gateway.Convert.{format_bool}
use cluster_gateway.Virtual.{Object, extract_labels, new_virtual_cluster, label_control_plane}

lookup-extract_labels :
    (k : String) (m : Map String)
    → lookup k (extract_labels m) ≡ (if has_prefix k api_group then none else lookup k m)
unfolding lookup extract_labels
lookup-extract_labels k [] = ground arith
lookup-extract_labels k ((j, v) ∷ m) = ground (arith, lookup-extract_labels k m, eq_iff j k)

-- The labels of an object, of which the hub has none.
abbrev pub object_labels : Option Object → Map String
object_labels none = []
object_labels (some obj) = obj.labels

-- The label of a virtual cluster says whether it is the hub, which stands for no object; it has no
-- other label of the gateway's own group, and every other label of the object that it stands for.
pub lookup-new_virtual_cluster :
    (k : String) (o : Option Object)
    → lookup k (new_virtual_cluster o).labels ≡ (
        if str_eq label_control_plane k
        then some (if is_some o then "false" else "true")
        else if has_prefix k api_group
        then none
        else lookup k (object_labels o))
unfolding new_virtual_cluster format_bool lookup
lookup-new_virtual_cluster k none =
    ground (arith, lookup-insert {V = String} label_control_plane k "true" [])
lookup-new_virtual_cluster k (some obj) = ground (
  arith,
  lookup-insert label_control_plane k "false" (extract_labels obj.labels),
  lookup-extract_labels k obj.labels,
)
