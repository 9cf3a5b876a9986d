-- ===== src/Cfg/Graph.antt =====
-- The CFG builder, worker/app/graphs/service/cfg_builder/java.py: its state and graph
-- operations, and the small steps of the statement handlers. The mutable graph and counter are a state that
-- each function returns beside its result. `hashlib.sha1(text).hexdigest()[:8]` is a parameter.
use retro_doc.Prelude.{
  ℕ, suc, Text, text, show_nat, Option, some, List, [], ◌∷◌, ◌++◌, if◌then◌else◌, Bool, true, false,
}
use retro_doc.Java.Syntax.{Expr, Stmt, Stmts, truthy}
use mathlib.Core.Option
use retro_doc.Cfg.Label.{label, stmt_label}
use retro_doc.Digraph.{Digraph}

pub record SourceRef : Type 0 where
  pub file : Text
  pub line_start : ℕ
  pub line_end : ℕ

-- The attributes of a node; the last three are its `metadata`.
pub record Node : Type 0 where
  pub id : ℕ
  pub node_type : Text
  pub label : Text
  pub source_ref : Option SourceRef
  pub stmt_key : Option Text
  pub normalized_text : Option Text

unfoldable pub make_source_ref : Text → ℕ → SourceRef
make_source_ref file_path line = record { file = file_path; line_start = line; line_end = line }

-- `entry_nodes[0] if entry_nodes else exit_id`
unfoldable pub first_or : List ℕ → ℕ → ℕ
first_or [] exit_id = exit_id
first_or (n ∷ ns) exit_id = n

unfoldable pub is_nil : Stmts → Bool
is_nil Stmts.nil = true
is_nil (Stmts.cons s ss) = false

unfoldable pub return_label : Expr → Text
unfolding truthy label
return_label e = if truthy e then text "return " ++ label e else text "return"

unfoldable pub case_label : Expr → Text
unfolding truthy label
case_label e = if truthy e then text "case " ++ label e else text "default"

unfoldable pub case_edge_label : Expr → Text
unfolding truthy label
case_edge_label e = if truthy e then text "case:" ++ label e else text "default"

-- What is fixed during one build: the graph library, the hash, the file.
pub record Env : Type 1 where
  pub nx : Digraph Node Text
  pub sha1_prefix : Text → Text
  pub file_path : Text

module _ (env : Env) where
  open env use {nx, sha1_prefix, file_path}

  pub record Build : Type 0 where
    pub graph : nx.Graph
    pub counter : ℕ

  unfoldable pub compute_stmt_key : ℕ → Text → Text → Text
  unfolding show_nat
  compute_stmt_key line kind label =
      text "stmt:"
      ++ file_path
      ++ text ":"
      ++ show_nat line
      ++ text ":"
      ++ kind
      ++ text ":"
      ++ sha1_prefix label

  unfoldable pub add_node : Build → (ℕ → Node) → ℕ × Build
  add_node b attrs = (
    b.counter,
    record { graph = nx.add_node b.graph b.counter (attrs b.counter); counter = suc b.counter },
  )

  -- The attributes that `_add_statement_node` gives a node.
  unfoldable pub statement_attrs : Option ℕ → Text → Text → Text → ℕ → Node
  unfolding make_source_ref compute_stmt_key
  statement_attrs line node_type label kind nid = record {
    id = nid;
    node_type = node_type;
    label = label;
    source_ref = Option.map (make_source_ref file_path) line;
    stmt_key = Option.map (λ l. compute_stmt_key l kind label) line;
    normalized_text = some label;
  }

  unfoldable pub add_statement_node : Option ℕ → Text → Text → Text → Build → ℕ × Build
  unfolding add_node statement_attrs
  add_statement_node line node_type label kind b =
      add_node b (statement_attrs line node_type label kind)

  unfoldable pub add_edge : ℕ → ℕ → Text → Build → Build
  add_edge src dst label b = record b { graph = nx.add_edge b.graph src dst label }

  -- `for nid in nodes: self._add_edge(graph, nid, dst, label)`
  unfoldable pub add_edges_from : List ℕ → ℕ → Text → Build → Build
  unfolding add_edge
  add_edges_from [] dst label b = b
  add_edges_from (n ∷ ns) dst label b = add_edges_from ns dst label (add_edge n dst label b)

  -- `if last: self._add_edge(graph, src, last[0], label)`
  unfoldable pub add_edge_to_first : ℕ → List ℕ → Text → Build → Build
  unfolding add_edge
  add_edge_to_first src [] label b = b
  add_edge_to_first src (n ∷ ns) label b = add_edge src n label b

  -- A node and the edges from the entries into it: the start of most statements.
  unfoldable pub enter : Option ℕ → Text → Text → Text → Text → List ℕ → Build → ℕ × Build
  unfolding add_statement_node add_edges_from
  enter line node_type label kind edge_label entries b =
      let (nid, b') = add_statement_node line node_type label kind b in
      (nid, add_edges_from entries nid edge_label b')

  -- What `_process_while` and `_process_for` do after the body.
  unfoldable pub close_loop : ℕ → List ℕ × Build → List ℕ × Build
  unfolding add_edge_to_first add_edges_from
  close_loop cond (body_last, b) = (
    cond ∷ [],
    add_edges_from body_last cond (text "loop") (add_edge_to_first cond body_last (text "true") b),
  )

  -- `last_nodes if last_nodes else [switch]`
  unfoldable pub or_switch : ℕ → List ℕ × Build → List ℕ × Build
  or_switch switch ([], b) = (switch ∷ [], b)
  or_switch switch (n ∷ ns, b) = (n ∷ ns, b)

  unfoldable pub process_simple : Stmt → Option ℕ → List ℕ → Build → List ℕ × Build
  unfolding enter stmt_label
  process_simple stmt line entries b =
      let (nid, b') = enter line (text "statement") (stmt_label stmt) (text "stmt") [] entries b in
      (nid ∷ [], b')
