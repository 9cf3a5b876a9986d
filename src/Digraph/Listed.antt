-- ===== src/Digraph/Listed.antt =====
-- A directed graph as two lists, which meets the laws that the model asks of networkx: the theorems
-- are applied to it at concrete methods.
use retro_doc.Prelude.{
  ℕ, suc, ◌+◌, ◌≡◌, refl, ap, true, ◌&&◌, Option, none, some, List, [], ◌∷◌, map, ◌==◌,
  if◌then◌else◌, is_some, length, arith,
}
use retro_doc.Digraph.{Digraph}

module _ {A : Type 0} where
  unfoldable pub find_node : List (ℕ × A) → ℕ → Option A
  find_node [] n = none
  find_node ((m, a) ∷ ns) n = if m == n then some a else find_node ns n

  pub find_node-nil : (n : ℕ) → find_node [] n ≡ none
  unfolding find_node
  find_node-nil n = refl

  -- A node that is there already is written anew.
  unfoldable pub put_node : List (ℕ × A) → ℕ → A → List (ℕ × A)
  put_node [] n a = (n, a) ∷ []
  put_node ((m, c) ∷ ns) n a = if m == n then (n, a) ∷ ns else (m, c) ∷ put_node ns n a

  -- A missing end of an edge is added.
  unfoldable pub add_end : A → List (ℕ × A) → ℕ → List (ℕ × A)
  unfolding find_node put_node
  add_end blank ns n = if is_some (find_node ns n) then ns else put_node ns n blank

  pub find_node-put_node :
      (ns : List (ℕ × A)) (n : ℕ) (a : A) (m : ℕ)
      → find_node (put_node ns n a) m ≡ (if n == m then some a else find_node ns m)
  unfolding find_node put_node
  find_node-put_node [] n a m = refl
  find_node-put_node ((k, c) ∷ ns) n a m = ground (arith, find_node-put_node ns n a m)

  pub length-put_node :
      (ns : List (ℕ × A)) (n : ℕ) (a : A)
      → find_node ns n ≡ none
      → length (put_node ns n a) ≡ suc (length ns)
  unfolding find_node put_node
  length-put_node [] n a h = refl
  length-put_node ((k, c) ∷ ns) n a h = ground (arith, length-put_node ns n a)

module _ {L : Type 0} where
  unfoldable pub find_edge : List (ℕ × ℕ × L) → ℕ → ℕ → Option L
  find_edge [] u v = none
  find_edge ((a, b, l) ∷ es) u v = if a == u && b == v then some l else find_edge es u v

  pub find_edge-nil : (u v : ℕ) → find_edge [] u v ≡ none
  unfolding find_edge
  find_edge-nil u v = refl

  unfoldable pub put_edge : List (ℕ × ℕ × L) → ℕ → ℕ → L → List (ℕ × ℕ × L)
  put_edge [] u v l = (u, v, l) ∷ []
  put_edge ((a, b, k) ∷ es) u v l =
      if a == u && b == v then (u, v, l) ∷ es else (a, b, k) ∷ put_edge es u v l

  pub find_edge-put_edge :
      (es : List (ℕ × ℕ × L)) (u v : ℕ) (l : L) (a b : ℕ)
      → find_edge (put_edge es u v l) a b ≡ (if u == a && v == b then some l else find_edge es a b)
  unfolding find_edge put_edge
  find_edge-put_edge [] u v l a b = refl
  find_edge-put_edge ((c, d, k) ∷ es) u v l a b = ground (arith, find_edge-put_edge es u v l a b)

  pub length-put_edge :
      (es : List (ℕ × ℕ × L)) (u v : ℕ) (l : L)
      → length (put_edge es u v l)
        ≡ (if is_some (find_edge es u v) then length es else suc (length es))
  unfolding find_edge put_edge
  length-put_edge [] u v l = refl
  length-put_edge ((c, d, k) ∷ es) u v l = ground (arith, length-put_edge es u v l)

-- Weakly connected components: every node starts as its own representative, and each edge gives
-- the nodes of one end's component the representative of the other.
unfoldable pub representative : List (ℕ × ℕ) → ℕ → ℕ
representative [] n = n
representative ((m, r) ∷ rs) n = if m == n then r else representative rs n

unfoldable pub merge : {L : Type 0} → List (ℕ × ℕ × L) → List (ℕ × ℕ) → List (ℕ × ℕ)
unfolding representative
merge [] rs = rs
merge ((u, v, l) ∷ es) rs =
    let old = representative rs u in
    let new = representative rs v in merge es (map (λ p. (p.0, if p.1 == old then new else p.1)) rs)

unfoldable pub count_own : List (ℕ × ℕ) → ℕ
count_own [] = 0
count_own ((n, r) ∷ rs) = (if n == r then 1 else 0) + count_own rs

pub record Lists (A L : Type 0) : Type 0 where
  pub nodes : List (ℕ × A)
  pub edges : List (ℕ × ℕ × L)

unfoldable pub components : {A L : Type 0} → Lists A L → ℕ
unfolding merge count_own
components g = count_own (merge g.edges (map (λ p. (p.0, p.0)) g.nodes))

module _ {A L : Type 0} (blank : A) where
  unfoldable pub add_both : Lists A L → ℕ → ℕ → List (ℕ × A)
  unfolding add_end
  add_both g u v = add_end blank (add_end blank g.nodes u) v

  pub add_both-present :
      (g : Lists A L) (u v : ℕ)
      → is_some (find_node g.nodes u) ≡ true
      → is_some (find_node g.nodes v) ≡ true
      → add_both g u v ≡ g.nodes
  unfolding add_both
  add_both-present g u v hu hv = rw (hu, hv)

  abbrev pub listed : Digraph A L
  listed = record {
    Graph = Lists A L;
    empty = record { nodes = []; edges = [] };
    add_node = λ g n a. record g { nodes = put_node g.nodes n a };
    add_edge = λ g u v l. record { nodes = add_both g u v; edges = put_edge g.edges u v l };
    node? = λ g n. find_node g.nodes n;
    edge? = λ g u v. find_edge g.edges u v;
    number_of_nodes = λ g. length g.nodes;
    number_of_edges = λ g. length g.edges;
    number_weakly_connected_components = components;
    node?-empty = find_node-nil;
    edge?-empty = find_edge-nil;
    nodes-empty = refl;
    edges-empty = refl;
    node?-add_node = λ g n a m h. find_node-put_node g.nodes n a m;
    edge?-add_node = λ g n a u v. refl;
    nodes-add_node = λ g n a h. length-put_node g.nodes n a h;
    edges-add_node = λ g n a. refl;
    node?-add_edge = λ g u v l m hu hv. ap (λ ns. find_node ns m) (add_both-present g u v hu hv);
    edge?-add_edge = λ g u v l a b. find_edge-put_edge g.edges u v l a b;
    nodes-add_edge = λ g u v l hu hv. ap length (add_both-present g u v hu hv);
    edges-add_edge = λ g u v l. length-put_edge g.edges u v l;
  }
