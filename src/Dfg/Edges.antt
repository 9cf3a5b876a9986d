-- ===== src/Dfg/Edges.antt =====
-- Adding an edge keeps what holds of a DFG at every point of its construction.
use retro_doc.Prelude.{
  ℕ, ◌≤◌, ◌<◌, Text, true, false, some, is_some, ◌≡◌, ◌∙◌, subst, if◌then◌else◌, ◌==◌, ◌&&◌,
  Bool-cases, inl, inr, arith,
}
use mathlib.Core.Option.{some-injective}
use retro_doc.Digraph.Numbered.{add_edge-IsNumbered}
use retro_doc.Dfg.State.{Env, State, EdgeType, def_use, flow, init_of, FlowEdge, add_edge}
use retro_doc.Dfg.Invariant.{kind, tag, IsTyped, IsShared, IsSound, kind-below}

module _ (env : Env) where
  open env use {nx}

  tag-add_edge :
      (s : State env) (u v : ℕ) (l : FlowEdge) (n : ℕ)
      → IsSound env s
      → u < s.counter
      → v < s.counter
      → tag env (nx.add_edge s.graph u v l) n ≡ tag env s.graph n
  unfolding tag
  tag-add_edge s u v l n w hu hv =
      rw (nx.node?-add_edge s.graph u v l n (w.numbered.present u hu) (w.numbered.present v hv))

  kind-add_edge :
      (s : State env) (u v : ℕ) (l : FlowEdge) (n : ℕ)
      → IsSound env s
      → u < s.counter
      → v < s.counter
      → kind env (nx.add_edge s.graph u v l) n ≡ kind env s.graph n
  unfolding kind
  kind-add_edge s u v l n w hu hv =
      rw (nx.node?-add_edge s.graph u v l n (w.numbered.present u hu) (w.numbered.present v hv))

  -- A new edge and the old ones.
  IsTyped-edge :
      (g : nx.Graph) (u v : ℕ) (l : FlowEdge) (a b : ℕ) (e : FlowEdge)
      → IsTyped l.edge_type (kind env g u) (kind env g v)
      → (nx.edge? g a b ≡ some e → IsTyped e.edge_type (kind env g a) (kind env g b))
      → (if u == a && v == b then some l else nx.edge? g a b) ≡ some e
      → IsTyped e.edge_type (kind env g a) (kind env g b)
  IsTyped-edge g u v l a b e t old h = ground arith

  IsShared-edge :
      (g : nx.Graph) (u v : ℕ) (l : FlowEdge) (a b : ℕ) (e : FlowEdge)
      → IsShared l (tag env g u) (tag env g v)
      → (nx.edge? g a b ≡ some e → IsShared e (tag env g a) (tag env g b))
      → (if u == a && v == b then some l else nx.edge? g a b) ≡ some e
      → IsShared e (tag env g a) (tag env g b)
  IsShared-edge g u v l a b e t old h = elim (Bool-cases (u == a && v == b)) [
    | inl k ↦
        let ends : (u ≡ a) × (v ≡ b) = (ground (arith, k), ground (arith, k)) in
        let same : l ≡ e = some-injective _ _ (rw k at h) in
        subst (λ x. IsShared x (tag env g a) (tag env g b)) same
          (subst (λ n. IsShared l (tag env g a) (tag env g n)) ends.1
            (subst (λ n. IsShared l (tag env g n) (tag env g v)) ends.0 t))
    | inr k ↦ old (rw k at h)
  ]

  insert_edge-IsSound :
      (u v : ℕ) (l : FlowEdge) (s : State env)
      → IsSound env s
      → IsTyped l.edge_type (kind env s.graph u) (kind env s.graph v)
      → u < s.counter
      → v < s.counter
      → (l.edge_type ≡ def_use → u < v)
      → IsShared l (tag env s.graph u) (tag env s.graph v)
      → IsSound env (record s { graph = nx.add_edge s.graph u v l })
  insert_edge-IsSound u v l s w t hu hv f g =
      let same = λ (n : ℕ). kind-add_edge s u v l n w hu hv in
      let same_tag = λ (n : ℕ). tag-add_edge s u v l n w hu hv in
      record {
        numbered = add_edge-IsNumbered nx s.graph s.counter u v l hu hv w.numbered;
        counted = w.counted;
        last_defines = λ k d h. same d ∙ w.last_defines k d h;
        by_name_defines = λ k d h. same d ∙ w.by_name_defines k d h;
        last_key = λ k d h. let (x, q) = w.last_key k d h in (x, same_tag d ∙ q);
        by_name_name = λ k d h. let (key, q) = w.by_name_name k d h in (key, same_tag d ∙ q);
        shared = λ a b e h.
            rw (same_tag a, same_tag b)
              (IsShared-edge s.graph u v l a b e g (w.shared a b e) (rw nx.edge?-add_edge at h));
        typed = λ a b e h.
            rw (same a, same b)
              (IsTyped-edge s.graph u v l a b e t (w.typed a b e) (rw nx.edge?-add_edge at h));
        forward = λ a b e h. ground (arith, nx.edge?-add_edge s.graph u v l a b, w.forward a b e);
      }

  typed_ends :
      (ty : EdgeType) (s : State env) (u v : ℕ)
      → IsSound env s
      → IsTyped ty (kind env s.graph u) (kind env s.graph v)
      → (u < s.counter) × (v < s.counter)
  typed_ends def_use s u v w t = (kind-below env s u true w t.0, kind-below env s v false w t.1)
  typed_ends flow s u v w t = (kind-below env s u false w t.0, kind-below env s v true w t.1)
  typed_ends init_of s u v w t = (kind-below env s u false w t.0, kind-below env s v true w t.1)

  pub add_edge-IsSound :
      (u v : ℕ) (ty : EdgeType) (key : Text) (s : State env)
      → IsSound env s
      → IsTyped ty (kind env s.graph u) (kind env s.graph v)
      → (ty ≡ def_use → u < v)
      → IsShared (record { edge_type = ty; var_key = key }) (tag env s.graph u) (tag env s.graph v)
      → IsSound env (add_edge env u v ty key s)
  unfolding add_edge
  add_edge-IsSound u v ty key s w t f g =
      let e = typed_ends ty s u v w t in
      elim (Bool-cases (is_some (nx.edge? s.graph u v))) [
        | inl old ↦ rw old w
        | inr new ↦
            rw new
              (insert_edge-IsSound u v (record { edge_type = ty; var_key = key }) s w t e.0 e.1 f g)
      ]

  -- What a change of the state leaves alone.
  pub record Extends (s t : State env) : Type 0 where
    pub sound : IsSound env t
    pub grows : s.counter ≤ t.counter
    pub kept : (n : ℕ) → n < s.counter → kind env t.graph n ≡ kind env s.graph n

  pub add_edge-Extends :
      (u v : ℕ) (ty : EdgeType) (key : Text) (s : State env)
      → IsSound env s
      → IsTyped ty (kind env s.graph u) (kind env s.graph v)
      → (ty ≡ def_use → u < v)
      → IsShared (record { edge_type = ty; var_key = key }) (tag env s.graph u) (tag env s.graph v)
      → Extends s (add_edge env u v ty key s)
  unfolding add_edge
  add_edge-Extends u v ty key s w t f g =
      let e = typed_ends ty s u v w t in
      let l : FlowEdge = record { edge_type = ty; var_key = key } in
      record {
        sound = add_edge-IsSound u v ty key s w t f g;
        grows = ground arith;
        kept = λ n h. ground (arith, kind-add_edge s u v l n w e.0 e.1);
      }
