-- ===== src/Dfg/Flow.antt =====
-- What the edges and the metrics of a DFG say.
use retro_doc.Prelude.{
  ℕ, suc, ◌+◌, ◌<◌, Text, text_eq_refl, lookup, lookup-put, Bool, true, false, Option, none, some,
  is_empty, List, [], ◌∷◌, ◌≡◌, ◌≢◌, ◌∙◌, ap, subst, refl, arith,
}
use retro_doc.Java.Syntax.{Expr, Exprs, Stmt, Stmts, none_value, member_reference, assignment}
use retro_doc.Dfg.Extract.{extract_vars}
use retro_doc.Dfg.State.{
  Env, State, FlowEdge, write, usage, EdgeType, def_use, flow, init_of, add_edge, effective_key,
  make_var_key,
}
use retro_doc.Dfg.Analysis.{
  vars, add_var_node, add_uses, add_edges_from, add_writes, last_definition, connect_def_to_use,
  add_def_use, analyze_statement, analyze_block,
}
use retro_doc.Dfg.Method.{Parameter, build_state, defs_count, uses_count}
use retro_doc.Dfg.Invariant.{kind, tag, Shares, IsSound, IsTyped}
use retro_doc.Dfg.Soundness.{add_uses-Extends, add_writes-Extends}
use retro_doc.Dfg.Handlers.{build_state-IsSound}

-- A plain variable.
abbrev pub name : Text → Expr
name x = member_reference none_value x Exprs.nil

module _ (env : Env) where
  open env use {nx}

  -- In the DFG of any method every def-use edge leads from a node that defines a variable to a node
  -- that uses one and was added later; the two are of the same variable name or of the same effective
  -- key, and the key on the edge is the effective key of the variable that is used.
  pub build_state-def_use :
      (ps : List Parameter) (body : Stmts) (u v : ℕ) (e : FlowEdge)
      → nx.edge? (build_state env ps body).graph u v ≡ some e
      → e.edge_type ≡ def_use
      → let g = (build_state env ps body).graph in
        (kind env g u ≡ some true)
        × (kind env g v ≡ some false)
        × (u < v)
        × Shares e.var_key (tag env g u) (tag env g v)
  build_state-def_use ps body u v e h t =
      let w = build_state-IsSound env ps body in
      let p = w.typed u v e h in
      let q : IsTyped def_use _ _ = rw t at p in (q.0, q.1, w.forward u v e h t, w.shared u v e h t)

  -- In the DFG of any method every edge that is no def-use edge leads from a node that uses its
  -- variable to a node that defines its variable.
  pub build_state-inflow :
      (ps : List Parameter) (body : Stmts) (u v : ℕ) (e : FlowEdge)
      → nx.edge? (build_state env ps body).graph u v ≡ some e
      → e.edge_type ≢ def_use
      → let g = (build_state env ps body).graph in
        (kind env g u ≡ some false) × (kind env g v ≡ some true)
  build_state-inflow ps body u v e h t =
      let w = build_state-IsSound env ps body in inflow e.edge_type _ _ (w.typed u v e h) t
    where
      inflow :
          (ty : EdgeType) (a b : Option Bool)
          → IsTyped ty a b
          → ty ≢ def_use
          → (a ≡ some false) × (b ≡ some true)
      inflow def_use a b p t = absurd (t refl)
      inflow flow a b p t = p
      inflow init_of a b p t = p

  -- The reported counts of definitions and uses of any method add up to the number of nodes of its
  -- DFG.
  pub build_state-counts :
      (ps : List Parameter) (body : Stmts)
      → let s = build_state env ps body in
        defs_count env s + uses_count env s ≡ nx.number_of_nodes s.graph
  unfolding defs_count uses_count
  build_state-counts ps body =
      let w = build_state-IsSound env ps body in omega (arith, w.counted, w.numbered.count)

  add_edges_from-fields :
      (ns : List ℕ) (dst : ℕ) (ty : EdgeType) (key : Text) (s : State env)
      → ((add_edges_from env ns dst ty key s).last_def ≡ s.last_def)
        × ((add_edges_from env ns dst ty key s).counter ≡ s.counter)
  unfolding add_edges_from
  add_edges_from-fields [] dst ty key s = (refl, refl)
  add_edges_from-fields (n ∷ ns) dst ty key s =
      let r = add_edges_from-fields ns dst ty key (add_edge env n dst ty key s) in
      (r.0 ∙ ground arith, r.1 ∙ ground arith)

  last_definition-key :
      (x : Text) (d : ℕ) (s : State env)
      → lookup (effective_key (make_var_key env x) x) s.last_def ≡ some d
      → last_definition env x s ≡ some d
  unfolding last_definition
  last_definition-key x d s h = ground (arith, h)

  add_edge-new :
      (u v : ℕ) (ty : EdgeType) (key : Text) (s : State env)
      → nx.edge? s.graph u v ≡ none
      → nx.edge? (add_edge env u v ty key s).graph u v
        ≡ some (record { edge_type = ty; var_key = key })
  unfolding add_edge
  add_edge-new u v ty key s h =
      rw h (
        ground
          (arith, nx.edge?-add_edge s.graph u v (record { edge_type = ty; var_key = key }) u v))

  connect-last :
      (x : Text) (d nid : ℕ) (s : State env)
      → lookup (effective_key (make_var_key env x) x) s.last_def ≡ some d
      → nx.edge? s.graph d nid ≡ none
      → nx.edge? (connect_def_to_use env x nid s).graph d nid
        ≡ some (record { edge_type = def_use; var_key = effective_key (make_var_key env x) x })
  unfolding connect_def_to_use add_def_use
  connect-last x d nid s h free =
      rw (last_definition-key x d s h) (add_edge-new d nid def_use _ s free)

  -- A use right behind the last definition of its key gets the edge from it.
  use_of_last :
      (x : Text) (d : ℕ) (line : Option ℕ) (s : State env)
      → IsSound env s
      → lookup (effective_key (make_var_key env x) x) s.last_def ≡ some d
      → nx.edge? (add_uses env (x ∷ []) line s).1.graph d s.counter
        ≡ some (record { edge_type = def_use; var_key = effective_key (make_var_key env x) x })
  unfolding add_uses
  use_of_last x d line s w h =
      connect-last x d s.counter (add_var_node env x usage line s).1 h
        (nx.edge?-add_node _ _ _ d s.counter ∙ free)
    where
      free : nx.edge? s.graph d s.counter ≡ none
      free = ground (arith, w.numbered.ends d s.counter)

  -- After the write of one variable its key's last definition is the new node.
  write_last :
      (x : Text) (ns : List ℕ) (line : Option ℕ) (s : State env)
      → let t = add_writes env (x ∷ []) ns line s in
        (lookup (effective_key (make_var_key env x) x) t.last_def ≡ some s.counter)
        × (t.counter ≡ suc s.counter)
  unfolding add_writes
  write_last x ns line s =
      let f =
        add_edges_from-fields ns s.counter flow (make_var_key env x)
          (add_var_node env x write line s).1 in
      (
        ap (lookup (effective_key (make_var_key env x) x)) f.0
            ∙ (lookup-put _ _ s.counter s.last_def ∙ rw text_eq_refl),
        f.1,
      )

  vars-name : (x : Text) → is_empty x ≡ false → vars env (name x) ≡ x ∷ []
  unfolding vars extract_vars
  vars-name x h = rw h

  -- `x = e; return x;`: from any state that meets the invariant of the construction, the DFG gets a def-use edge
  -- from the node that writes `x` to the node that uses it, the last one.
  pub assignment_reaches_return :
      (x : Text) (e : Expr) (line line' : Option ℕ) (s : State env)
      → IsSound env s
      → is_empty x ≡ false
      → let t =
          analyze_block env
            (Stmts.cons
              (Stmt.expression line (assignment (name x) e))
              (Stmts.cons (Stmt.return_value line' (name x)) Stmts.nil))
            s in
        let d = (add_uses env (vars env e) line s).1.counter in
        nx.edge? t.graph d (suc d)
        ≡ some (record { edge_type = def_use; var_key = effective_key (make_var_key env x) x })
  unfolding analyze_statement
  assignment_reaches_return x e line line' s w h =
      let r = add_uses env (vars env e) line s in
      let u = add_uses-Extends env (vars env e) line s w in
      let t = add_writes env (x ∷ []) r.0 line r.1 in
      let p = add_writes-Extends env (x ∷ []) r.0 line r.1 u.0.sound u.1 in
      let l = write_last x r.0 line r.1 in
      let key = effective_key (make_var_key env x) x in
      rw h (
        subst
          (λ n.
            nx.edge? (add_uses env (x ∷ []) line' t).1.graph r.1.counter n
            ≡ some (record { edge_type = def_use; var_key = key }))
          l.1 (use_of_last x r.1.counter line' t p.sound l.0))
