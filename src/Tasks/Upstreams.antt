-- ===== src/Tasks/Upstreams.antt =====
-- `fetch_runtime_upstreams` of deployer/services/deployment.py, and the entries of a stored deployment
-- that the synchronisations read.
use cluster_deployer.Common.{foldl, String, List, [], ◌∷◌}
use cluster_deployer.Common.Result.{ok, err, ◌>>=◌}
use cluster_deployer.Services.Deployment.Upstreams.{port_text}
use cluster_deployer.Services.Deployment.Ports.{Port, no_port, get_exposed_ports}
use cluster_deployer.Services.Proxy.{use_version}
use cluster_deployer.Tasks.Platform.{Platform}
use cluster_deployer.Util.Merge.{dict_merge}
use cluster_deployer.Value.{
  Value, null, str, arr, obj, Items, nil, cons, Fields, end, field, set_field,
}
use cluster_deployer.Value.Access.{as_text, Access, item, item_at, get, wrong_type}

-- the mode; a mode that is missing is none of the modes
abbrev pub mode_text : Value → Access String
mode_text null = ok ""
mode_text (str s) = ok s
mode_text _ = err wrong_type

-- `deployment['deployment']['name']` and `deployment['deployment']['version']`
abbrev pub name_and_version : Value → Access (String × String)
name_and_version deployment = do
  name_value ← item_at ("deployment" ∷ "name" ∷ []) deployment
  name ← as_text name_value
  version_value ← item_at ("deployment" ∷ "version" ∷ []) deployment
  version ← as_text version_value
  ok (name, version)

-- `deployment['id']`
abbrev pub id_of : Fields → Access String
id_of d = item "id" (obj d) >>= as_text

-- the nodes with their names, `[dict_merge({'name': name}, upstream) ...]`
abbrev pub named_nodes : List (String × Value) → Items
named_nodes [] = nil
named_nodes ((name, node) ∷ ns) =
    cons (dict_merge (obj (field "name" (str name) end) ∷ node ∷ [])) (named_nodes ns)

module _ (p : Platform) where
  -- the nodes of a port, with their meta-information
  abbrev pub nodes_of : (app_name version mode : String) → p.Cluster → Port → Items
  nodes_of app_name version mode c no_port = nil
  nodes_of app_name version mode c port =
      named_nodes (
        p.get_nodes_with_meta (p.as_upstream app_name (port_text port) (use_version version mode))
          c)

  -- the entry of one port
  abbrev pub add_nodes : (app_name version mode : String) → p.Cluster → Fields → Port → Fields
  add_nodes app_name version mode c d port =
      set_field (port_text port) (arr (nodes_of app_name version mode c port)) d

  abbrev pub upstream_fields : (app_name version mode : String) → p.Cluster → List Port → Fields
  upstream_fields app_name version mode c ports =
      foldl (add_nodes app_name version mode c) end ports

  -- `fetch_runtime_upstreams`
  unfoldable pub fetch_runtime_upstreams : Value → p.Cluster → Access Value
  unfolding item get get_exposed_ports set_field
  fetch_runtime_upstreams deployment c = do
    (name, version) ← name_and_version deployment
    of_deployment ← item "deployment" deployment
    mode_value ← get "mode" null of_deployment
    mode ← mode_text mode_value
    ports ← get_exposed_ports deployment
    ok (obj (upstream_fields name version mode c ports))
