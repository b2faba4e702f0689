-- ===== src/Join/Gateway.antt =====
-- controllers/join_broker.go: the node that `HandleNodeLabels` labels as the gateway. The lists of nodes
-- by label and the patch that sets the label are parameters.
pub mod Labels
use cluster_fabric_operator.Base.{
  Text, codes, List, [], ◌∷◌, Option, none, some, Result, ok, err, ◌>>=◌, Error.no_worker_node,
}

-- The first node of a list.
abbrev pub first_or_error : List Text → Result Text
first_or_error [] = err no_worker_node
first_or_error (node ∷ rest) = ok node

module _ (list_nodes : Text → Result (List Text)) where
  -- `getWorkerNodeForGateway`: a worker, or where none is labelled so, a node that is no master.
  unfoldable pub get_worker_node_for_gateway : Result Text
  get_worker_node_for_gateway = do
    workers ← list_nodes (codes "node-role.kubernetes.io/worker")
    elim workers [
      | [] ↦ list_nodes (codes "!node-role.kubernetes.io/master") >>= first_or_error
      | node ∷ rest ↦ ok node
    ]

  -- `HandleNodeLabels`: the node to label, or none where a gateway is labelled already.
  unfoldable pub handle_node_labels : Result (Option Text)
  handle_node_labels = do
    gateways ← list_nodes (codes "submariner.io/gateway=true")
    elim gateways [
      | [] ↦ get_worker_node_for_gateway >>= λ node. ok (some node)
      | gateway ∷ rest ↦ ok none
    ]
