-- ===== src/Dfg/Nodes.antt =====
-- A new node keeps what holds of a DFG at every point of its construction; the empty DFG has it.
use retro_doc.Prelude.{
  ℕ, suc, ◌<◌, Text, Dict, lookup, push, lookup-put, lookup-nil, count_values, count_values-push,
  text_eq, text_eq_sound, sym, subst, Bool, true, Option, some, List, [], ap, ◌≡◌, refl, ◌∙◌,
  if◌then◌else◌, Bool-cases, inl, inr, arith,
}
use mathlib.Core.Option.{some-injective}
use retro_doc.Digraph.Numbered.{empty-IsNumbered, add_node-IsNumbered}
use retro_doc.Dfg.State.{
  Env, State, VarNode, Operation, def_use, FlowEdge, defines, track, add_node, effective_key,
}
use retro_doc.Dfg.Invariant.{
  kind, tag, IsTyped, IsShared, IsSound, kind-new, kind-add_node, kind-below, tag-new, tag-add_node,
  tag-below,
}
use retro_doc.Dfg.Edges.{Extends}

module _ (env : Env) where
  open env use {nx}

  module _ (s : State env) (a : VarNode) (w : IsSound env s) where
    abbrev grown : nx.Graph
    grown = nx.add_node s.graph s.counter a

    -- A last definition is the new node or an old one.
    defined :
        (b : Bool) (o : Option ℕ) (d : ℕ)
        → defines a.operation ≡ true
        → (o ≡ some d → kind env s.graph d ≡ some true)
        → (if b then some s.counter else o) ≡ some d
        → kind env grown d ≡ some true
    defined b o d e old h =
        ground (arith, kind-new env s a w, kind-add_node env s a d w, kind-below env s d true w)

    old_defined : (d : ℕ) → kind env s.graph d ≡ some true → kind env grown d ≡ some true
    old_defined d h = kind-add_node env s a d w (kind-below env s d true w h) ∙ h

    -- What is known of the tag of an old definition is known of it in the new graph.
    old_tag : (d : ℕ) (x : Text × Text) → tag env s.graph d ≡ some x → tag env grown d ≡ some x
    old_tag d x h = tag-add_node env s a d w (tag-below env s d x w h) ∙ h

    last_tag :
        (key : Text) (k : Text) (d : ℕ)
        → key ≡ effective_key a.var_key a.variable
        → (if text_eq key k then some s.counter else lookup k s.last_def) ≡ some d
        → (x : Text) × (tag env grown d ≡ some (x, k))
    last_tag key k d q h = elim (Bool-cases (text_eq key k)) [
      | inl e ↦
          let same : s.counter ≡ d = some-injective _ _ (rw e at h) in
          let here : effective_key a.var_key a.variable ≡ k = sym q ∙ text_eq_sound key k e in
          (
            a.variable,
            subst (λ n. tag env grown n ≡ some (a.variable, k)) same
                (tag-new env s a w ∙ ap (λ y. some (a.variable, y)) here),
          )
      | inr e ↦ let (x, t) = w.last_key k d (rw e at h) in (x, old_tag d (x, k) t)
    ]

    by_name_tag :
        (k : Text) (d : ℕ)
        → (if text_eq a.variable k then some s.counter else lookup k s.last_def_by_name) ≡ some d
        → (key : Text) × (tag env grown d ≡ some (k, key))
    by_name_tag k d h = elim (Bool-cases (text_eq a.variable k)) [
      | inl e ↦
          let same : s.counter ≡ d = some-injective _ _ (rw e at h) in
          let key = effective_key a.var_key a.variable in
          (
            key,
            subst (λ n. tag env grown n ≡ some (k, key)) same
                (tag-new env s a w ∙ ap (λ y. some (y, key)) (text_eq_sound a.variable k e)),
          )
      | inr e ↦ let (key, t) = w.by_name_name k d (rw e at h) in (key, old_tag d (k, key) t)
    ]

    old-IsShared :
        (u v : ℕ) (e : FlowEdge)
        → nx.edge? grown u v ≡ some e
        → IsShared e (tag env grown u) (tag env grown v)
    old-IsShared u v e h =
        let h' : nx.edge? s.graph u v ≡ some e = rw nx.edge?-add_node at h in
        let ends = w.numbered.ends u v (rw h' refl) in
        rw (tag-add_node env s a u w ends.0, tag-add_node env s a v w ends.1) (w.shared u v e h')

    old-IsTyped :
        (u v : ℕ) (e : FlowEdge)
        → nx.edge? grown u v ≡ some e
        → IsTyped e.edge_type (kind env grown u) (kind env grown v)
    old-IsTyped u v e h =
        let h' : nx.edge? s.graph u v ≡ some e = rw nx.edge?-add_node at h in
        let ends = w.numbered.ends u v (rw h' refl) in
        rw (kind-add_node env s a u w ends.0, kind-add_node env s a v w ends.1) (w.typed u v e h')

    old_forward :
        (u v : ℕ) (e : FlowEdge) → nx.edge? grown u v ≡ some e → e.edge_type ≡ def_use → u < v
    old_forward u v e h = w.forward u v e (rw nx.edge?-add_node at h)

    track-IsSound :
        (key : Text) (vs : Dict (List ℕ))
        → key ≡ effective_key a.var_key a.variable
        → IsSound env (
            track env a.operation key a.variable s.counter
              (record s { graph = grown; counter = suc s.counter; variables = vs }))
    unfolding track
    track-IsSound key vs q = elim (Bool-cases (defines a.operation)) [
      | inl e ↦ rw e (record {
        numbered = add_node-IsNumbered nx s.graph s.counter a w.numbered;
        counted = omega (arith, count_values-push key s.counter s.defs, w.counted);
        last_defines = λ k d h.
            defined (text_eq key k) (lookup k s.last_def) d e (w.last_defines k d)
              (rw lookup-put at h);
        by_name_defines = λ k d h.
            defined (text_eq a.variable k) (lookup k s.last_def_by_name) d e (w.by_name_defines k d)
              (rw lookup-put at h);
        last_key = λ k d h. last_tag key k d q (rw lookup-put at h);
        by_name_name = λ k d h. by_name_tag k d (rw lookup-put at h);
        shared = old-IsShared;
        typed = old-IsTyped;
        forward = old_forward;
      })
      | inr e ↦ rw e (record {
        numbered = add_node-IsNumbered nx s.graph s.counter a w.numbered;
        counted = omega (arith, count_values-push key s.counter s.uses, w.counted);
        last_defines = λ k d h. old_defined d (w.last_defines k d h);
        by_name_defines = λ k d h. old_defined d (w.by_name_defines k d h);
        last_key = λ k d h. let (x, t) = w.last_key k d h in (x, old_tag d (x, k) t);
        by_name_name = λ k d h. let (y, t) = w.by_name_name k d h in (y, old_tag d (k, y) t);
        shared = old-IsShared;
        typed = old-IsTyped;
        forward = old_forward;
      })
    ]

  track_graph :
      (op : Operation) (key variable : Text) (n : ℕ) (s : State env)
      → ((track env op key variable n s).graph ≡ s.graph)
        × ((track env op key variable n s).counter ≡ s.counter)
  unfolding track
  track_graph op key variable n s = ground arith

  pub add_node-Extends :
      (attrs : ℕ → VarNode) (s : State env)
      → IsSound env s
      → let r = add_node env attrs s in
        Extends env s r.1
        × (r.0 ≡ s.counter)
        × (r.1.counter ≡ suc s.counter)
        × (kind env r.1.graph s.counter ≡ some (defines (attrs s.counter).operation))
        × (tag env r.1.graph s.counter
            ≡ some (
              (attrs s.counter).variable,
              effective_key (attrs s.counter).var_key (attrs s.counter).variable,
            ))
  unfolding add_node
  add_node-Extends attrs s w =
      let a = attrs s.counter in
      let vs = push a.variable s.counter s.variables in
      let key = effective_key a.var_key a.variable in
      let g = track_graph a.operation key a.variable s.counter (record s {
        graph = nx.add_node s.graph s.counter a;
        counter = suc s.counter;
        variables = vs;
      }) in
      (
        record {
          sound = track-IsSound s a w key vs refl;
          grows = omega (arith, g.1);
          kept = λ n h. ap (λ (x : nx.Graph). kind env x n) g.0 ∙ kind-add_node env s a n w h;
        },
        refl,
        g.1,
        ap (λ (x : nx.Graph). kind env x s.counter) g.0 ∙ kind-new env s a w,
        ap (λ (x : nx.Graph). tag env x s.counter) g.0 ∙ tag-new env s a w,
      )

  pub empty-IsSound : IsSound env (record {
    graph = nx.empty;
    counter = 0;
    defs = [];
    uses = [];
    last_def = [];
    last_def_by_name = [];
    variables = [];
  })
  unfolding count_values
  empty-IsSound = record {
    numbered = empty-IsNumbered nx;
    counted = omega arith;
    last_defines = λ k d h. cc (lookup-nil {V = ℕ} k);
    by_name_defines = λ k d h. cc (lookup-nil {V = ℕ} k);
    last_key = λ k d h. cc (lookup-nil {V = ℕ} k);
    by_name_name = λ k d h. cc (lookup-nil {V = ℕ} k);
    shared = λ u v e h. cc (nx.edge?-empty u v);
    typed = λ u v e h. cc (nx.edge?-empty u v);
    forward = λ u v e h. cc (nx.edge?-empty u v);
  }
