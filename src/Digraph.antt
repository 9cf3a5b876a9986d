-- ===== src/Digraph.antt =====
-- networkx's `DiGraph`, as far as the graph builders call it: a parameter of the model. The laws
-- are what its documentation says: `add_edge` adds missing ends, writes the attributes of an edge
-- that is there already anew, and `add_node` of a new node leaves the rest of the graph alone.
pub mod Listed
pub mod Numbered
use retro_doc.Prelude.{ℕ, suc, ◌≡◌, Bool, ◌&&◌, Option, none, some, ◌==◌, if◌then◌else◌, is_some}
use retro_doc.Prelude.{true, ◌+◌}

-- `A` is the type of a node's attributes, `L` that of an edge's.
pub record Digraph (A L : Type 0) : Type 1 where
  pub Graph : Type 0
  pub empty : Graph
  pub add_node : Graph → ℕ → A → Graph
  pub add_edge : Graph → ℕ → ℕ → L → Graph
  -- `graph.nodes[n]` and `graph.edges[u, v]`, `none` for what is not in the graph
  pub node? : Graph → ℕ → Option A
  pub edge? : Graph → ℕ → ℕ → Option L
  pub number_of_nodes : Graph → ℕ
  pub number_of_edges : Graph → ℕ
  pub number_weakly_connected_components : Graph → ℕ
  pub node?-empty : (n : ℕ) → node? empty n ≡ none
  pub edge?-empty : (u v : ℕ) → edge? empty u v ≡ none
  pub nodes-empty : number_of_nodes empty ≡ 0
  pub edges-empty : number_of_edges empty ≡ 0
  pub node?-add_node :
      (g : Graph) (n : ℕ) (a : A) (m : ℕ)
      → node? g n ≡ none
      → node? (add_node g n a) m ≡ (if n == m then some a else node? g m)
  pub edge?-add_node :
      (g : Graph) (n : ℕ) (a : A) (u v : ℕ) → edge? (add_node g n a) u v ≡ edge? g u v
  pub nodes-add_node :
      (g : Graph) (n : ℕ) (a : A)
      → node? g n ≡ none
      → number_of_nodes (add_node g n a) ≡ suc (number_of_nodes g)
  pub edges-add_node :
      (g : Graph) (n : ℕ) (a : A) → number_of_edges (add_node g n a) ≡ number_of_edges g
  pub node?-add_edge :
      (g : Graph) (u v : ℕ) (l : L) (m : ℕ)
      → is_some (node? g u) ≡ true
      → is_some (node? g v) ≡ true
      → node? (add_edge g u v l) m ≡ node? g m
  pub edge?-add_edge :
      (g : Graph) (u v : ℕ) (l : L) (a b : ℕ)
      → edge? (add_edge g u v l) a b ≡ (if u == a && v == b then some l else edge? g a b)
  pub nodes-add_edge :
      (g : Graph) (u v : ℕ) (l : L)
      → is_some (node? g u) ≡ true
      → is_some (node? g v) ≡ true
      → number_of_nodes (add_edge g u v l) ≡ number_of_nodes g
  pub edges-add_edge :
      (g : Graph) (u v : ℕ) (l : L)
      → number_of_edges (add_edge g u v l)
        ≡ (if is_some (edge? g u v) then number_of_edges g else suc (number_of_edges g))
