-- ===== src/Digraph/Numbered.antt =====
-- Graphs whose nodes are numbered from 0 in the order of insertion.
use retro_doc.Prelude.{ℕ, suc, ◌≤◌, ◌<◌, none, is_some, ◌≡◌, true, arith}
use retro_doc.Digraph.{Digraph}

module _ {A L : Type 0} (nx : Digraph A L) where
  -- The nodes are 0 to `n - 1`, and every edge joins two of them.
  pub record IsNumbered (g : nx.Graph) (n : ℕ) : Type 0 where
    pub present : (m : ℕ) → m < n → is_some (nx.node? g m) ≡ true
    pub absent : (m : ℕ) → n ≤ m → nx.node? g m ≡ none
    pub count : nx.number_of_nodes g ≡ n
    pub ends : (u v : ℕ) → is_some (nx.edge? g u v) ≡ true → (u < n) × (v < n)

  pub empty-IsNumbered : IsNumbered nx.empty 0
  empty-IsNumbered = record {
    present = λ n h. absurd (omega arith);
    absent = λ n h. nx.node?-empty n;
    count = nx.nodes-empty;
    ends = λ u v h. cc (nx.edge?-empty u v);
  }

  pub add_node-IsNumbered :
      (g : nx.Graph) (n : ℕ) (a : A) → IsNumbered g n → IsNumbered (nx.add_node g n a) (suc n)
  add_node-IsNumbered g n a w =
      let fresh = w.absent n (omega arith) in
      record {
        present = λ m h. ground (arith, nx.node?-add_node g n a m fresh, w.present m);
        absent = λ m h. ground (arith, nx.node?-add_node g n a m fresh, w.absent m);
        count = ground (arith, nx.nodes-add_node g n a fresh, w.count);
        ends = λ u v h. ground (arith, nx.edge?-add_node g n a u v, w.ends u v);
      }

  pub add_edge-IsNumbered :
      (g : nx.Graph) (n u v : ℕ) (l : L)
      → u < n
      → v < n
      → IsNumbered g n
      → IsNumbered (nx.add_edge g u v l) n
  add_edge-IsNumbered g n u v l hu hv w =
      let pu = w.present u hu in
      let pv = w.present v hv in
      record {
        present = λ m h. ground (arith, nx.node?-add_edge g u v l m pu pv, w.present m);
        absent = λ m h. ground (arith, nx.node?-add_edge g u v l m pu pv, w.absent m);
        count = ground (arith, nx.nodes-add_edge g u v l pu pv, w.count);
        ends = λ a c h. ground (arith, nx.edge?-add_edge g u v l a c, w.ends a c);
      }
