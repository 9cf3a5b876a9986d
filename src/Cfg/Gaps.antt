-- ===== src/Cfg/Gaps.antt =====
-- Where the graph departs from the method's control flow.
use retro_doc.Prelude.{ℕ, Option, ◌+◌, ◌≤◌, ◌<◌, text, none, some, [], ◌∷◌, ◌≡◌, arith}
use retro_doc.Java.Syntax.{Expr, Stmt, Stmts, no_catch}
use retro_doc.Cfg.Graph.{Env, Build}
use retro_doc.Cfg.Statement.{process_statement, process_block}
use retro_doc.Cfg.WellFormed.{IsWellFormed}

-- An expression statement and its source line, if it has one.
abbrev pub plain : Option ℕ × Expr → Stmt
plain e = Stmt.expression e.0 e.1

abbrev pub two : Stmt → Stmt → Stmts
two s t = Stmts.cons s (Stmts.cons t Stmts.nil)

module _ (env : Env) (b : Build env) (w : IsWellFormed env b) where
  open env use {nx}

  -- An edge that no node of a well-formed graph has: one of its ends is new.
  new_edge : (u v : ℕ) → (b.counter ≤ v) → nx.edge? b.graph u v ≡ none
  new_edge u v h = ground (arith, w.ends u v)

  -- In a well-formed graph, `if (c) { p; q; }` with expression statements `p` and `q` on any lines
  -- gets a "true" edge from the condition to `q`, the last statement of the branch, beside the
  -- unlabelled one to `p`, the first.
  pub if_then-true_edge :
      (line : Option ℕ) (c : Expr) (p q : Option ℕ × Expr) (entry x : ℕ)
      → entry < b.counter
      → x < b.counter
      → let r =
          process_statement env
            (Stmt.if_then line c (Stmt.block (two (plain p) (plain q))))
            (entry ∷ [])
            x
            b in
        let cond = b.counter in
        (nx.edge? r.1.graph cond (cond + 1) ≡ some [])
        × (nx.edge? r.1.graph cond (cond + 2) ≡ some (text "true"))
  unfolding process_statement
  if_then-true_edge line c p q entry x he hx = (
    simp (nx.edge?-add_edge, nx.edge?-add_node) (ground arith),
    simp (nx.edge?-add_edge, nx.edge?-add_node) (ground arith),
  )

  -- In a well-formed graph, after `if (c) p; else q; { d; }` with expression statements `p`, `q` and
  -- `d` on any lines, the node of `q` has no successor, and that of `p` leads to `d`.
  pub block-drops_entries :
      (line : Option ℕ) (c : Expr) (p q d : Option ℕ × Expr) (entry x : ℕ)
      → entry < b.counter
      → x < b.counter
      → let r =
          process_block env
            (two
              (Stmt.if_else line c (plain p) (plain q))
              (Stmt.block (Stmts.cons (plain d) Stmts.nil)))
            entry
            x
            b in
        let cond = b.counter in
        (nx.edge? r.1.graph (cond + 1) (cond + 3) ≡ some [])
        × ((v : ℕ) → nx.edge? r.1.graph (cond + 2) v ≡ none)
  unfolding process_statement
  block-drops_entries line c p q d entry x he hx = (
    simp (nx.edge?-add_edge, nx.edge?-add_node) (ground arith),
    λ v. simp (nx.edge?-add_edge, nx.edge?-add_node) (ground (arith, w.ends (b.counter + 2) v)),
  )

  -- In a well-formed graph, after `try { return e; } finally { f; }` with an expression statement `f`,
  -- on any lines, no edge leads to the node of the `finally`.
  pub finally-unreached :
      (line ret : Option ℕ) (e : Expr) (f : Option ℕ × Expr) (entry x u : ℕ)
      → entry < b.counter
      → x < b.counter
      → let r =
          process_statement env
            (Stmt.try_catch line
              (Stmts.cons (Stmt.return_value ret e) Stmts.nil)
              no_catch
              (Stmts.cons (plain f) Stmts.nil))
            (entry ∷ [])
            x
            b in
        nx.edge? r.1.graph u (b.counter + 1) ≡ none
  unfolding process_statement
  finally-unreached line ret e f entry x u he hx =
      simp (nx.edge?-add_edge, nx.edge?-add_node) (ground (arith, w.ends u (b.counter + 1)))
