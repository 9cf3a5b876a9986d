-- ===== src/Dfg/Samples.antt =====
-- Tests and concrete applications for the DFG builder, with the graph kept as lists. The method is
-- `f(x) { int y = x; y = y + this.total; return y; }` with the field `total`.
use retro_doc.Prelude.{ℕ, ◌+◌, ◌<◌, text, true, false, none, some, List, [], ◌∷◌, ◌≡◌, refl, map}
use retro_doc.Digraph.Listed.{listed, find_node, find_edge, put_node, put_edge, add_both}
use retro_doc.Java.Syntax.{
  Expr, Exprs, Stmt, Stmts, none_value, this, member_reference, assignment, binary_operation,
}
use retro_doc.Dfg.Extract.{FieldContext}
use retro_doc.Dfg.State.{
  Env, VarNode, FlowEdge, usage, local, def_use, init_of, effective_key, make_var_key,
}
use retro_doc.Dfg.Analysis.{analyze_block}
use retro_doc.Dfg.Method.{Parameter, no_state, build_state, defs_count, uses_count}
use retro_doc.Dfg.Invariant.{kind, tag, Shares}
use retro_doc.Dfg.Nodes.{empty-IsSound}
use retro_doc.Dfg.Flow.{
  name, build_state-def_use, build_state-inflow, build_state-counts, assignment_reaches_return,
}

abbrev blank : VarNode
blank = record {
  id = 0;
  variable = [];
  var_kind = local;
  operation = usage;
  line = none;
  var_key = [];
  source_ref = none;
  stmt_key = none;
  owner_fqn = none;
  type_simple = none;
  type_fqn = none;
}

abbrev total : FieldContext
total = record {
  key = text "field:A#total";
  owner_fqn = some (text "A");
  type_simple = none;
  type_fqn = none;
}

abbrev env : Env
env = record {
  nx = listed blank;
  sha1_prefix = λ s. s;
  node_str = λ e. [];
  file_path = text "A.java";
  method_key = text "method:A#f(int):int";
  class_fields = (text "total", total) ∷ [];
}

abbrev parameters : List Parameter
parameters = record { name = text "x"; type_simple = none; type_fqn = none } ∷ []

abbrev this_total : Expr
this_total = this (Exprs.cons (member_reference none_value (text "total") Exprs.nil) Exprs.nil)

abbrev body : Stmts
body =
    Stmts.cons
      (Stmt.local_variable (some 2) (text "int")
        (record { name = text "y"; initializer = name (text "x") } ∷ []))
      (Stmts.cons
        (Stmt.expression (some 3)
          (assignment (name (text "y")) (binary_operation (text "+") (name (text "y")) this_total)))
        (Stmts.cons (Stmt.return_value (some 4) (name (text "y"))) Stmts.nil))

abbrev edges : List (ℕ × ℕ × FlowEdge)
edges = (build_state env parameters body).graph.edges

-- Nodes: 0 is `x`, 1 the declared `y`, 2 its initializer, 3 and 4 the right side, 5 the written `y`
-- and 6 the returned one.
edges-body :
    map {B = ℕ × ℕ} (λ e. (e.0, e.1)) edges
    ≡ (0, 2) ∷ (2, 1) ∷ (1, 3) ∷ (3, 5) ∷ (4, 5) ∷ (5, 6) ∷ []
unfolding build_state put_node put_edge add_both find_edge
edges-body = refl

run : Unit {0}
unfolding build_state put_node put_edge add_both find_edge kind find_node
run = tt

def_use_example :
    let g = (build_state env parameters body).graph in
    (kind env g 0 ≡ some true)
    × (kind env g 2 ≡ some false)
    × (0 < 2)
    × Shares (text "local:method:A#f(int):int:0:x") (tag env g 0) (tag env g 2)
def_use_example =
    build_state-def_use env parameters body 0 2
      (record { edge_type = def_use; var_key = text "local:method:A#f(int):int:0:x" })
      (unfold run in refl) refl

inflow_example :
    let g = (build_state env parameters body).graph in
    (kind env g 2 ≡ some false) × (kind env g 1 ≡ some true)
inflow_example =
    build_state-inflow env parameters body 2 1
      (record { edge_type = init_of; var_key = text "local:method:A#f(int):int:0:y" })
      (unfold run in refl) (λ e. cc)

counts_example :
    let s = build_state env parameters body in
    defs_count env s + uses_count env s ≡ env.nx.number_of_nodes s.graph
counts_example = build_state-counts env parameters body

reaches_example :
    let t =
      analyze_block env
        (Stmts.cons
          (Stmt.expression none (assignment (name (text "y")) (name (text "x"))))
          (Stmts.cons (Stmt.return_value none (name (text "y"))) Stmts.nil))
        (no_state env) in
    env.nx.edge? t.graph 1 2
    ≡ some (record {
      edge_type = def_use;
      var_key = effective_key (make_var_key env (text "y")) (text "y");
    })
unfolding run
reaches_example =
    assignment_reaches_return env (text "y") (name (text "x")) none none (no_state env)
      (empty-IsSound env) refl
