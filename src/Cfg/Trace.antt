-- ===== src/Cfg/Trace.antt =====
-- What a run of the CFG builder does to the graph, as a sequence of node and edge insertions.
-- `lo` is the first node of the body and `exit_id` the EXIT node.
use retro_doc.Prelude.{
  ℕ, suc, ◌≤◌, ◌<◌, Text, Option, List, [], ◌∷◌, ◌≡◌, refl, ◌⊎◌, inr, All, All-map, arith,
}
use retro_doc.Cfg.Graph.{
  Env, Node, Build, add_node, statement_attrs, add_statement_node, add_edge, add_edges_from,
  add_edge_to_first, enter,
}

-- Nodes that edges may lead to: EXIT, and the nodes of the body.
abbrev pub IsTarget : ℕ → ℕ → ℕ → Type 0
IsTarget lo exit_id n = (n ≡ exit_id) ⊎ (lo ≤ n)

module _ (env : Env) where
  -- Both ends of an inserted edge are there already.
  pub data Trace (lo exit_id : ℕ) (b : Build env) : Build env → Type 0 where
    done : Trace lo exit_id b b
    node :
        {c : Build env} (attrs : ℕ → Node)
        → Trace lo exit_id b c
        → Trace lo exit_id b (add_node env c attrs).1
    edge :
        {c : Build env} (u v : ℕ) (label : Text)
        → u < c.counter
        → v < c.counter
        → IsTarget lo exit_id v
        → Trace lo exit_id b c
        → Trace lo exit_id b (add_edge env u v label c)

module _ (env : Env) (lo exit_id : ℕ) where
  pub Trace-trans :
      {b c d : Build env}
      → Trace env lo exit_id b c
      → Trace env lo exit_id c d
      → Trace env lo exit_id b d
  Trace-trans t done = t
  Trace-trans t (node attrs s) = node attrs (Trace-trans t s)
  Trace-trans t (edge u v label hu hv target s) = edge u v label hu hv target (Trace-trans t s)

  -- The outcome of a handler that starts in `b` from `entries`: its insertions, and its last nodes,
  -- which exist and are targets if the entries are.
  pub record Outcome (b : Build env) (entries : List ℕ) (r : List ℕ × Build env) : Type 0 where
    pub trace : Trace env lo exit_id b r.1
    pub grows : b.counter ≤ r.1.counter
    pub below : All (λ n. n < r.1.counter) r.0
    pub targets : All (IsTarget lo exit_id) entries → All (IsTarget lo exit_id) r.0

  pub add_edges_from-Trace :
      (ns : List ℕ) (dst : ℕ) (label : Text) (b : Build env)
      → All (λ n. n < b.counter) ns
      → dst < b.counter
      → IsTarget lo exit_id dst
      → Trace env lo exit_id b (add_edges_from env ns dst label b)
        × ((add_edges_from env ns dst label b).counter ≡ b.counter)
  unfolding add_edges_from
  add_edges_from-Trace [] dst label b h d t = (done, refl)
  add_edges_from-Trace (n ∷ ns) dst label b h d t =
      let rest = add_edges_from-Trace ns dst label (add_edge env n dst label b) h.1 d t in
      (Trace-trans (edge n dst label h.0 d t done) rest.0, rest.1)

  pub add_edge_to_first-Trace :
      (src : ℕ) (last : List ℕ) (label : Text) (b : Build env)
      → src < b.counter
      → All (λ n. n < b.counter) last
      → All (IsTarget lo exit_id) last
      → Trace env lo exit_id b (add_edge_to_first env src last label b)
        × ((add_edge_to_first env src last label b).counter ≡ b.counter)
  unfolding add_edge_to_first
  add_edge_to_first-Trace src [] label b s h t = (done, refl)
  add_edge_to_first-Trace src (n ∷ ns) label b s h t = (edge src n label s h.0 t.0 done, refl)

  pub enter-Outcome :
      (line : Option ℕ) (ty label kind edge_label : Text) (entries : List ℕ) (b : Build env)
      → lo ≤ b.counter
      → All (λ n. n < b.counter) entries
      → let r = enter env line ty label kind edge_label entries b in
        Outcome b entries (r.0 ∷ [], r.1) × (r.0 ≡ b.counter) × (r.1.counter ≡ suc b.counter)
  unfolding enter
  enter-Outcome line ty label kind edge_label entries b low h =
      let m = add_statement_node env line ty label kind b in
      let below_m : All (λ n. n < suc b.counter) entries =
        All-map (λ n. n < b.counter) _ entries (λ n hn. omega arith) h in
      let e =
        add_edges_from-Trace entries b.counter edge_label m.1 below_m (omega arith) (inr low) in
      (
        record {
          trace = Trace-trans (node (statement_attrs env line ty label kind) done) e.0;
          grows = omega (arith, e.1);
          below = (omega (arith, e.1), tt);
          targets = λ _. (inr low, tt);
        },
        refl,
        e.1,
      )
