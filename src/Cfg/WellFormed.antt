-- ===== src/Cfg/WellFormed.antt =====
-- The graph of a method: which nodes and edges it has.
use retro_doc.Prelude.{
  ℕ, ◌<◌, Text, text, none, is_some, List, [], ◌∷◌, ◌≡◌, refl, inl, inr, All, true, Bool-cases,
  Option-cases, ◌==◌, arith,
}
use retro_doc.Digraph.Numbered.{
  IsNumbered, empty-IsNumbered, add_node-IsNumbered, add_edge-IsNumbered,
}
use retro_doc.Java.Syntax.{Stmts}
use retro_doc.Cfg.Graph.{Env, Node, Build, add_node, add_edge, is_nil}
use retro_doc.Cfg.Trace.{IsTarget, Trace, node, edge, done, Trace-trans}
use retro_doc.Cfg.Outcomes.{block-Outcome}
use retro_doc.Cfg.Method.{terminal, start, no_build, close_body, build_graph}

module _ (env : Env) where
  open env use {nx}

  -- The nodes are 0 to `counter - 1`, and every edge joins two of them.
  abbrev pub IsWellFormed : Build env → Type 0
  IsWellFormed b = IsNumbered nx b.graph b.counter

  pub add_node-IsWellFormed :
      (b : Build env) (attrs : ℕ → Node) → IsWellFormed b → IsWellFormed (add_node env b attrs).1
  unfolding add_node
  add_node-IsWellFormed b attrs w = add_node-IsNumbered nx b.graph b.counter (attrs b.counter) w

  pub add_edge-IsWellFormed :
      (u v : ℕ) (label : Text) (b : Build env)
      → u < b.counter
      → v < b.counter
      → IsWellFormed b
      → IsWellFormed (add_edge env u v label b)
  unfolding add_edge
  add_edge-IsWellFormed u v label b hu hv w =
      add_edge-IsNumbered nx b.graph b.counter u v label hu hv w

  pub Trace-IsWellFormed :
      {lo exit_id : ℕ} {b c : Build env}
      → IsWellFormed b
      → Trace env lo exit_id b c
      → IsWellFormed c
  Trace-IsWellFormed w done = w
  Trace-IsWellFormed w (node {c} attrs t) = add_node-IsWellFormed c attrs (Trace-IsWellFormed w t)
  Trace-IsWellFormed w (edge {c} u v label hu hv target t) =
      add_edge-IsWellFormed u v label c hu hv (Trace-IsWellFormed w t)

  -- Every edge leads to EXIT or into the body.
  abbrev HasTargets : ℕ → ℕ → Build env → Type 0
  HasTargets lo exit_id b =
      (u v : ℕ) → is_some (nx.edge? b.graph u v) ≡ true → IsTarget lo exit_id v

  Trace-HasTargets :
      {lo exit_id : ℕ} {b c : Build env}
      → HasTargets lo exit_id b
      → Trace env lo exit_id b c
      → HasTargets lo exit_id c
  unfolding add_node add_edge
  Trace-HasTargets h done = h
  Trace-HasTargets h (node {c} attrs t) =
      λ u v p. Trace-HasTargets h t u v (rw nx.edge?-add_node at p)
  Trace-HasTargets h (edge {c} u v label hu hv target t) =
      λ a d p. ground (arith, nx.edge?-add_edge c.graph u v label a d, Trace-HasTargets h t a d)

  pub no_build-IsWellFormed : IsWellFormed (no_build env)
  no_build-IsWellFormed = empty-IsNumbered nx

  no_build-HasTargets : HasTargets 2 1 (no_build env)
  no_build-HasTargets u v h = cc (nx.edge?-empty u v)

  pub start-Trace : Trace env 2 1 (no_build env) (start env)
  unfolding start
  start-Trace =
      node (terminal (text "exit") (text "EXIT"))
        (node (terminal (text "entry") (text "ENTRY")) done)

  close_body-Trace :
      (ns : List ℕ) (b : Build env)
      → 1 < b.counter
      → All (λ n. n < b.counter) ns
      → Trace env 2 1 b (close_body env ns 1 b)
  unfolding close_body
  close_body-Trace [] b e h = done
  close_body-Trace (n ∷ ns) b e h = elim (Bool-cases (n == 1)) [
    | inl is_exit ↦ rw is_exit (close_body-Trace ns b e h.1)
    | inr other ↦ rw other (
        Trace-trans env 2 1 (edge n 1 [] h.0 e (inl refl) done)
          (close_body-Trace ns (add_edge env n 1 [] b) e h.1))
  ]

  pub build_graph-Trace : (body : Stmts) → Trace env 2 1 (no_build env) (build_graph env body)
  unfolding build_graph
  build_graph-Trace body =
      let o = block-Outcome env 2 1 body 0 (start env) (omega arith) (omega arith) (omega arith) in
      Trace-trans env 2 1 start-Trace (elim (Bool-cases (is_nil body)) [
        | inl e ↦ rw e (edge 0 1 [] (omega arith) (omega arith) (inl refl) done)
        | inr e ↦
            rw e
              (Trace-trans env 2 1 o.trace (close_body-Trace _ _ (omega (arith, o.grows)) o.below))
      ])

  pub start-IsWellFormed : IsWellFormed (start env)
  start-IsWellFormed = Trace-IsWellFormed no_build-IsWellFormed start-Trace

  -- The CFG of any method body is well formed: its nodes are numbered from 0 without a gap, as many
  -- as the graph counts, and every edge joins two of them.
  pub build_graph-IsWellFormed : (body : Stmts) → IsWellFormed (build_graph env body)
  build_graph-IsWellFormed body = Trace-IsWellFormed no_build-IsWellFormed (build_graph-Trace body)

  -- No edge of the CFG of any method body leads to ENTRY, node 0.
  pub build_graph-entry_first :
      (body : Stmts) (u : ℕ) → nx.edge? (build_graph env body).graph u 0 ≡ none
  build_graph-entry_first body u =
      let h = Trace-HasTargets no_build-HasTargets (build_graph-Trace body) u 0 in
      elim (Option-cases (nx.edge? (build_graph env body).graph u 0)) [
        | inl e ↦ e
        | inr (l, e) ↦ ground (arith, h, e)
      ]
