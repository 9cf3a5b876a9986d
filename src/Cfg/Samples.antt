-- ===== src/Cfg/Samples.antt =====
-- Tests and concrete applications for the CFG builder, with the graph kept as lists. The method is
-- `while (x) { a; if (y) { b; c; } } return z;`.
use retro_doc.Prelude.{ℕ, Text, text, none, some, List, [], ◌∷◌, ◌≡◌, refl, map, arith, ◌+◌}
use retro_doc.Digraph.Listed.{listed, put_edge, put_node, add_both, components}
use retro_doc.Java.Syntax.{Stmt, Stmts, no_catch, other}
use retro_doc.Cfg.Graph.{Env}
use retro_doc.Cfg.Method.{terminal, start, build_graph, build_method_cfg}
use retro_doc.Cfg.WellFormed.{
  IsWellFormed, start-IsWellFormed, build_graph-IsWellFormed, build_graph-entry_first,
}
use retro_doc.Cfg.Metrics.{build_method_cfg-nodes_count, build_method_cfg-straight, straight}
use retro_doc.Cfg.Gaps.{plain, two, if_then-true_edge, block-drops_entries, finally-unreached}
use retro_doc.Cfg.Statement.{process_statement, process_block}
use retro_doc.Cfg.Size.{size_block}

abbrev env : Env
env = record { nx = listed (terminal [] [] 0); sha1_prefix = λ s. s; file_path = text "A.java" }

abbrev call : Text → Stmt
call name = Stmt.expression (some 3) (other name)

abbrev two_calls : Stmt
two_calls = Stmt.block (Stmts.cons (call (text "b")) (Stmts.cons (call (text "c")) Stmts.nil))

abbrev loop_body : Stmt
loop_body = Stmt.block (
    Stmts.cons (call (text "a"))
      (Stmts.cons (Stmt.if_then (some 4) (other (text "y")) two_calls) Stmts.nil))

abbrev body : Stmts
body =
    Stmts.cons (Stmt.while_loop (some 2) (other (text "x")) loop_body)
      (Stmts.cons (Stmt.return_value (some 9) (other (text "z"))) Stmts.nil)

abbrev edges : Stmts → List (ℕ × ℕ)
edges b = map (λ e. (e.0, e.1)) (build_graph env b).graph.edges

edges-body :
    edges body
    ≡ (0, 2)
      ∷ (2, 3)
      ∷ (3, 4)
      ∷ (4, 5)
      ∷ (5, 6)
      ∷ (4, 6)
      ∷ (2, 6)
      ∷ (6, 2)
      ∷ (4, 2)
      ∷ (2, 7)
      ∷ (7, 1)
      ∷ []
unfolding build_graph put_edge put_node add_both
edges-body = refl

build_graph-IsWellFormed_example : IsWellFormed env (build_graph env body)
build_graph-IsWellFormed_example = build_graph-IsWellFormed env body

build_graph-entry_first_example : env.nx.edge? (build_graph env body).graph 2 0 ≡ none
build_graph-entry_first_example = build_graph-entry_first env body 2

nodes_count_example :
    (build_method_cfg env (text "run") body (text "key")).nodes_count ≡ 2 + size_block body
nodes_count_example = build_method_cfg-nodes_count env (text "run") (text "key") body

straight_example :
    let m =
      build_method_cfg env
        (text "f")
        (straight ((some 2, other (text "a")) ∷ (some 3, other (text "b")) ∷ []))
        (text "k") in
    (m.nodes_count ≡ 4) × (m.edges_count ≡ 3) × (m.cyclomatic_complexity ≡ 1)
unfolding build_method_cfg put_edge put_node add_both components
straight_example =
    build_method_cfg-straight env (text "f") (text "k") (some 2, other (text "a"))
      ((some 3, other (text "b")) ∷ []) refl

abbrev both_return : Stmt
both_return =
    Stmt.if_else (some 5) (other (text "c")) (Stmt.return_value (some 6) (other (text "z"))) (
      Stmt.block (
        Stmts.cons (call (text "a"))
          (Stmts.cons (Stmt.return_value (some 7) (other (text "y"))) Stmts.nil)))

true_edge_example :
    let r =
      process_statement env
        (Stmt.if_then
          (some 7)
          (other (text "c"))
          (Stmt.block (two (plain (some 9, other (text "p"))) (plain (some 9, other (text "q"))))))
        (0 ∷ [])
        1
        (start env) in
    (env.nx.edge? r.1.graph 2 3 ≡ some []) × (env.nx.edge? r.1.graph 2 4 ≡ some (text "true"))
unfolding start
true_edge_example =
    if_then-true_edge env (start env) (start-IsWellFormed env) (some 7) (other (text "c"))
      (some 9, other (text "p")) (some 9, other (text "q")) 0 1 (omega arith) (omega arith)

drops_example :
    let r =
      process_block env
        (two
          (Stmt.if_else
            (some 7)
            (other (text "c"))
            (plain (some 9, other (text "p")))
            (plain (some 9, other (text "q"))))
          (Stmt.block (Stmts.cons (plain (some 9, other (text "d"))) Stmts.nil)))
        0
        1
        (start env) in
    (env.nx.edge? r.1.graph 3 5 ≡ some []) × ((v : ℕ) → env.nx.edge? r.1.graph 4 v ≡ none)
unfolding start
drops_example =
    block-drops_entries env (start env) (start-IsWellFormed env) (some 7) (other (text "c"))
      (some 9, other (text "p")) (some 9, other (text "q")) (some 9, other (text "d")) 0 1
      (omega arith) (omega arith)

finally_example :
    let r =
      process_statement env
        (Stmt.try_catch
          (some 7)
          (Stmts.cons (Stmt.return_value (some 8) (other (text "e"))) Stmts.nil)
          no_catch
          (Stmts.cons (plain (some 9, other (text "f"))) Stmts.nil))
        (0 ∷ [])
        1
        (start env) in
    env.nx.edge? r.1.graph 2 3 ≡ none
unfolding start
finally_example =
    finally-unreached env (start env) (start-IsWellFormed env) (some 7) (some 8) (other (text "e"))
      (some 9, other (text "f")) 0 1 2 (omega arith) (omega arith)
