-- ===== src/Cfg/Metrics.antt =====
-- The metrics of `_build_method_cfg`.
use retro_doc.Prelude.{
  ℕ, suc, ◌+◌, ◌<◌, Text, text, Option, none, true, false, List, [], ◌∷◌, ◌≡◌, ◌≢◌, ◌∙◌, refl,
  Bool-cases, if◌then◌else◌, ◌==◌, inl, inr, arith, length,
}
use retro_doc.Java.Syntax.{Expr, Stmt, Stmts}
use retro_doc.Cfg.Label.{label}
use retro_doc.Cfg.Graph.{Env, Build, add_edge, add_statement_node, statement_attrs, is_nil}
use retro_doc.Cfg.Statement.{process_statement, process_block, process_rest}
use retro_doc.Cfg.Method.{start, close_body, build_graph, build_method_cfg}
use retro_doc.Cfg.Size.{size_block, block-counter}
use retro_doc.Cfg.WellFormed.{
  IsWellFormed, add_node-IsWellFormed, add_edge-IsWellFormed, build_graph-IsWellFormed,
  Trace-IsWellFormed, no_build-IsWellFormed, start-Trace,
}

-- A body of expression statements only, each with its source line, if it has one.
abbrev pub straight : List (Option ℕ × Expr) → Stmts
straight [] = Stmts.nil
straight (e ∷ es) = Stmts.cons (Stmt.expression e.0 e.1) (straight es)

module _ (env : Env) where
  open env use {nx}

  close_body-counter :
      (ns : List ℕ) (x : ℕ) (b : Build env) → (close_body env ns x b).counter ≡ b.counter
  unfolding close_body add_edge
  close_body-counter [] x b = refl
  close_body-counter (n ∷ ns) x b =
      let b' = if n == x then b else add_edge env n x [] b in
      close_body-counter ns x b' ∙ ground arith

  empty_body :
      (body : Stmts) → is_nil body ≡ true → (build_graph env body).counter ≡ 2 + size_block body
  unfolding build_graph size_block
  empty_body Stmts.nil e = omega arith
  empty_body (Stmts.cons s ss) e = cc

  full_body :
      (body : Stmts)
      → is_nil body ≡ false
      → let r = process_block env body 0 1 (start env) in
        (build_graph env body).counter ≡ (close_body env r.0 1 r.1).counter
  unfolding build_graph
  full_body body e = rw e

  -- The reported `nodes_count` is 2, for ENTRY and EXIT, plus one for each `if`, `while`, `for`,
  -- `switch`, `case`, `catch`, non-empty `finally`, `return` and other statement of the body that is
  -- neither a block nor a `try`; a block, a `try` and an empty `finally` add none of their own, and
  -- what another statement such as `do` or `synchronized` holds is not counted.
  pub build_method_cfg-nodes_count :
      (name scope : Text) (body : Stmts)
      → (build_method_cfg env name body scope).nodes_count ≡ 2 + size_block body
  unfolding build_method_cfg
  build_method_cfg-nodes_count name scope body =
      let r = process_block env body 0 1 (start env) in
      let w = (build_graph-IsWellFormed env body).count in
      let body_nodes = block-counter env body 0 1 (start env) in
      elim (Bool-cases (is_nil body)) [
        | inl e ↦ omega (arith, w, empty_body body e)
        | inr e ↦ omega (arith, w, full_body body e, close_body-counter r.0 1 r.1, body_nodes)
      ]

  -- One more plain statement after node `n`, which has no successor yet.
  record Fresh (n : ℕ) (b : Build env) : Type 0 where
    well_formed : IsWellFormed env b
    exists : n < b.counter
    exit_exists : 1 < b.counter
    not_exit : n ≢ 1
    no_successor : (v : ℕ) → nx.edge? b.graph n v ≡ none

  step-Fresh :
      (e : Option ℕ × Expr) (n : ℕ) (b : Build env)
      → Fresh n b
      → let r = process_statement env (Stmt.expression e.0 e.1) (n ∷ []) 1 b in
        (r.0 ≡ b.counter ∷ [])
        × Fresh b.counter r.1
        × (nx.number_of_edges r.1.graph ≡ suc (nx.number_of_edges b.graph))
  unfolding process_statement
  step-Fresh e n b f =
      let a = statement_attrs env e.0 (text "statement") (label e.1) (text "stmt") in
      let m = add_statement_node env e.0 (text "statement") (label e.1) (text "stmt") b in
      let wm = add_node-IsWellFormed env b a f.well_formed in
      (
        refl,
        record {
          well_formed =
              add_edge-IsWellFormed env n b.counter [] m.1 (omega (arith, f.exists)) (omega arith)
                wm;
          exists = omega arith;
          exit_exists = omega (arith, f.exit_exists);
          not_exit = omega (arith, f.exit_exists);
          no_successor = λ v. ground (
            arith,
            nx.edge?-add_edge m.1.graph n b.counter [] b.counter v,
            nx.edge?-add_node b.graph b.counter (a b.counter) b.counter v,
            f.well_formed.ends b.counter v,
            f.exists,
          );
        },
        ground (
          arith,
          nx.edges-add_edge m.1.graph n b.counter [],
          nx.edge?-add_node b.graph b.counter (a b.counter) n b.counter,
          nx.edges-add_node b.graph b.counter (a b.counter),
          f.no_successor b.counter,
        ),
      )

  straight-edges :
      (es : List (Option ℕ × Expr)) (n : ℕ) (b : Build env)
      → Fresh n b
      → let r = process_rest env (straight es) (n ∷ []) 1 b in
        nx.number_of_edges (close_body env r.0 1 r.1).graph
        ≡ nx.number_of_edges b.graph + length es + 1
  unfolding process_statement close_body add_edge
  straight-edges [] n b f =
      ground (arith, f.not_exit, nx.edges-add_edge b.graph n 1 [], f.no_successor 1)
  straight-edges (e ∷ es) n b f =
      let s = step-Fresh e n b f in
      let r = process_statement env (Stmt.expression e.0 e.1) (n ∷ []) 1 b in
      omega (arith, s.2, straight-edges es b.counter r.1 s.1)

  start-Fresh : Fresh 0 (start env)
  unfolding start
  start-Fresh = record {
    well_formed = Trace-IsWellFormed env (no_build-IsWellFormed env) (start-Trace env);
    exists = omega arith;
    exit_exists = omega arith;
    not_exit = omega arith;
    no_successor =
        λ v. nx.edge?-add_node _ _ _ 0 v ∙ nx.edge?-add_node _ _ _ 0 v ∙ nx.edge?-empty 0 v;
  }

  start-edges : nx.number_of_edges (start env).graph ≡ 0
  unfolding start
  start-edges = nx.edges-add_node _ _ _ ∙ nx.edges-add_node _ _ _ ∙ nx.edges-empty

  size-straight : (es : List (Option ℕ × Expr)) → size_block (straight es) ≡ length es
  unfolding size_block
  size-straight [] = refl
  size-straight (e ∷ es) = omega (arith, size-straight es)

  -- A method whose body is a sequence of `n` expression statements, at least one and on any lines,
  -- has `n + 2` nodes and `n + 1` edges, and if its graph is weakly connected its cyclomatic
  -- complexity is 1.
  pub build_method_cfg-straight :
      (name scope : Text) (e : Option ℕ × Expr) (es : List (Option ℕ × Expr))
      → nx.number_weakly_connected_components
          (build_method_cfg env name (straight (e ∷ es)) scope).graph
        ≡ 1
      → let m = build_method_cfg env name (straight (e ∷ es)) scope in
        (m.nodes_count ≡ length es + 3)
        × (m.edges_count ≡ length es + 2)
        × (m.cyclomatic_complexity ≡ 1)
  unfolding build_method_cfg
  build_method_cfg-straight name scope e es connected =
      let nodes = build_method_cfg-nodes_count name scope (straight (e ∷ es)) in
      let edges = straight-edges (e ∷ es) 0 (start env) start-Fresh in
      ground (arith, nodes, size-straight (e ∷ es), edges, start-edges, connected)
