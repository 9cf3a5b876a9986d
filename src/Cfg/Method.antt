-- ===== src/Cfg/Method.antt =====
-- `_build_method_cfg` of worker/app/graphs/service/cfg_builder/java.py.
use retro_doc.Prelude.{
  ℕ, ◌+◌, ◌-◌, ◌*◌, ltb, max, Text, text, none, List, [], ◌∷◌, ◌==◌, if◌then◌else◌,
}
use retro_doc.Java.Syntax.{Stmts}
use retro_doc.Cfg.Graph.{Env, Node, Build, add_node, add_edge, is_nil}
use retro_doc.Cfg.Statement.{process_statement, process_block}

abbrev pub terminal : Text → Text → ℕ → Node
terminal node_type label nid = record {
  id = nid;
  node_type = node_type;
  label = label;
  source_ref = none;
  stmt_key = none;
  normalized_text = none;
}

module _ (env : Env) where
  -- `for nid in last_nodes: if nid != exit_node: self._add_edge(graph, nid, exit_node)`
  unfoldable pub close_body : List ℕ → ℕ → Build env → Build env
  unfolding add_edge
  close_body [] exit_id b = b
  close_body (n ∷ ns) exit_id b =
      close_body ns exit_id (if n == exit_id then b else add_edge env n exit_id [] b)

  abbrev pub no_build : Build env
  no_build = record { graph = env.nx.empty; counter = 0 }

  -- The graph with ENTRY and EXIT alone.
  unfoldable pub start : Build env
  unfolding add_node
  start =
      let (entry, b) = add_node env no_build (terminal (text "entry") (text "ENTRY")) in
      let (exit_node, b') = add_node env b (terminal (text "exit") (text "EXIT")) in b'

  -- ENTRY is node 0 and EXIT is node 1.
  unfoldable pub build_graph : Stmts → Build env
  unfolding start process_statement close_body is_nil add_edge
  build_graph body =
      let (last_nodes, b) = process_block env body 0 1 start in
      if is_nil body then add_edge env 0 1 [] start else close_body last_nodes 1 b

  -- `max(1, edges - nodes + 2 * components)`: where the difference is negative, the maximum is 1.
  unfoldable pub complexity : ℕ → ℕ → ℕ → ℕ
  complexity edges nodes components =
      if ltb 0 nodes then max 1 (edges + 2 * components - nodes) else 1

  pub record MethodCfg : Type 0 where
    pub method_name : Text
    pub scope : Text
    pub graph : env.nx.Graph
    pub nodes_count : ℕ
    pub edges_count : ℕ
    pub cyclomatic_complexity : ℕ

  unfoldable pub build_method_cfg : Text → Stmts → Text → MethodCfg
  unfolding build_graph complexity
  build_method_cfg method_name body scope =
      let g = (build_graph body).graph in
      let nodes = env.nx.number_of_nodes g in
      let edges = env.nx.number_of_edges g in
      record {
        method_name = method_name;
        scope = scope;
        graph = g;
        nodes_count = nodes;
        edges_count = edges;
        cyclomatic_complexity =
            complexity edges nodes
              (if ltb 0 nodes then env.nx.number_weakly_connected_components g else 1);
      }
