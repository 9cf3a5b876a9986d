-- ===== src/Dfg/Soundness.antt =====
-- Uses, writes and initializers extend a sound state of the DFG construction to a sound state.
use retro_doc.Prelude.{
  ℕ, suc, ◌<◌, Text, true, false, Option, none, some, List, [], ◌∷◌, ◌≡◌, ◌∙◌, sym, subst, refl,
  lookup, Option-cases, inl, inr, All, arith,
}
use retro_doc.Dfg.State.{
  Env, State, write, usage, flow, def_use, init_of, make_var_key, effective_key,
}
use retro_doc.Dfg.Analysis.{
  var_attrs, add_var_node, last_definition, connect_def_to_use, add_def_use, add_uses,
  add_edges_from, add_writes, add_initializers,
}
use retro_doc.Dfg.Invariant.{kind, tag, Shares, IsSound}
use retro_doc.Dfg.Edges.{Extends, add_edge-Extends}
use retro_doc.Dfg.Nodes.{add_node-Extends}

module _ (env : Env) where
  abbrev pub Ext : State env → State env → Type 0
  Ext = Extends env

  abbrev pub Sound : State env → Type 0
  Sound = IsSound env

  abbrev pub IsUse : State env → ℕ → Type 0
  IsUse s n = (n < s.counter) × (kind env s.graph n ≡ some false)

  abbrev pub IsDef : State env → ℕ → Type 0
  IsDef s n = (n < s.counter) × (kind env s.graph n ≡ some true)

  pub Extends_refl : (s : State env) → Sound s → Ext s s
  Extends_refl s w = record { sound = w; grows = omega arith; kept = λ n h. refl }

  pub Extends_trans : {s t u : State env} → Ext s t → Ext t u → Ext s u
  Extends_trans p q = record {
    sound = q.sound;
    grows = omega (arith, p.grows, q.grows);
    kept = λ n h. q.kept n (omega (arith, p.grows)) ∙ p.kept n h;
  }

  IsUse-kept : {s t : State env} (n : ℕ) → Ext s t → IsUse s n → IsUse t n
  IsUse-kept n p h = (omega (arith, p.grows), p.kept n h.0 ∙ h.1)

  IsDef-kept : {s t : State env} (n : ℕ) → Ext s t → IsDef s n → IsDef t n
  IsDef-kept n p h = (omega (arith, p.grows), p.kept n h.0 ∙ h.1)

  uses_kept : {s t : State env} (ns : List ℕ) → Ext s t → All (IsUse s) ns → All (IsUse t) ns
  uses_kept [] p h = tt
  uses_kept (n ∷ ns) p h = (IsUse-kept n p h.0, uses_kept ns p h.1)

  -- The tag of a use of this name.
  abbrev pub tag_of : Text → Option (Text × Text)
  tag_of name = some (name, effective_key (make_var_key env name) name)

  -- What is known of the definition that a use is connected to.
  abbrev Defines : Text → State env → ℕ → Type 0
  Defines name s d =
      (kind env s.graph d ≡ some true)
      × Shares (effective_key (make_var_key env name) name) (tag env s.graph d) (tag_of name)

  last_definition-Defines :
      (name : Text) (s : State env) (d : ℕ)
      → Sound s
      → last_definition env name s ≡ some d
      → Defines name s d
  unfolding last_definition
  last_definition-Defines name s d w h =
      let key = effective_key (make_var_key env name) name in
      elim (Option-cases (lookup key s.last_def)) [
        | inr (n, e) ↦
            let e' : lookup key s.last_def ≡ some d = e ∙ (rw (e, last_definition) at h) in
            let (x, t) = w.last_key key d e' in
            (w.last_defines key d e', ((x, key), (name, key), t, refl, refl, inr refl))
        | inl e ↦
            let e' : lookup name s.last_def_by_name ≡ some d = rw (e, last_definition) at h in
            let (y, t) = w.by_name_name name d e' in
            (w.by_name_defines name d e', ((name, y), (name, key), t, refl, refl, inl refl))
      ]

  -- A definition stands before a use that was added last.
  earlier :
      (s : State env) (d nid : ℕ)
      → Sound s
      → s.counter ≡ suc nid
      → kind env s.graph d ≡ some true
      → kind env s.graph nid ≡ some false
      → d < nid
  unfolding kind
  earlier s d nid w last kd k = ground (arith, w.numbered.absent d)

  add_def_use-Extends :
      (o : Option ℕ) (name : Text) (nid : ℕ) (s : State env)
      → Sound s
      → ((d : ℕ) → o ≡ some d → Defines name s d)
      → s.counter ≡ suc nid
      → kind env s.graph nid ≡ some false
      → tag env s.graph nid ≡ tag_of name
      → Ext s (add_def_use env o (effective_key (make_var_key env name) name) nid s)
  unfolding add_def_use
  add_def_use-Extends none name nid s w defined last k t = Extends_refl s w
  add_def_use-Extends (some d) name nid s w defined last k t =
      let key = effective_key (make_var_key env name) name in
      let (kd, shares) = defined d refl in
      add_edge-Extends env d nid def_use key s w (kd, k) (λ _. earlier s d nid w last kd k)
        (λ _. subst (Shares key (tag env s.graph d)) (sym t) shares)

  -- `nid` is the node that was added last.
  connect-Extends :
      (name : Text) (nid : ℕ) (s : State env)
      → Sound s
      → s.counter ≡ suc nid
      → kind env s.graph nid ≡ some false
      → tag env s.graph nid ≡ tag_of name
      → Ext s (connect_def_to_use env name nid s)
  unfolding connect_def_to_use
  connect-Extends name nid s w last k t =
      add_def_use-Extends (last_definition env name s) name nid s w
        (λ d. last_definition-Defines name s d w) last k t

  pub add_uses-Extends :
      (vs : List Text) (line : Option ℕ) (s : State env)
      → Sound s
      → let r = add_uses env vs line s in Ext s r.1 × All (IsUse r.1) r.0
  unfolding add_uses
  add_uses-Extends [] line s w = (Extends_refl s w, tt)
  add_uses-Extends (v ∷ vs) line s w =
      let n = add_node-Extends env (var_attrs env v usage line) s w in
      let s1 = (add_var_node env v usage line s).1 in
      let c = connect-Extends v s.counter s1 n.0.sound n.2 n.3 n.4 in
      let r = add_uses-Extends vs line (connect_def_to_use env v s.counter s1) c.sound in
      let p = Extends_trans c r.0 in
      (Extends_trans n.0 p, (IsUse-kept s.counter p (omega (arith, n.2), n.3), r.1))

  pub add_edges_from-Extends :
      (ns : List ℕ) (dst : ℕ) (key : Text) (s : State env)
      → Sound s
      → All (IsUse s) ns
      → IsDef s dst
      → Ext s (add_edges_from env ns dst flow key s)
  unfolding add_edges_from
  add_edges_from-Extends [] dst key s w h d = Extends_refl s w
  add_edges_from-Extends (n ∷ ns) dst key s w h d =
      let e = add_edge-Extends env n dst flow key s w (h.0.1, d.1) (λ x. cc) (λ x. cc) in
      Extends_trans e
        (add_edges_from-Extends ns dst key _ e.sound (uses_kept ns e h.1) (IsDef-kept dst e d))

  pub add_writes-Extends :
      (vs : List Text) (ns : List ℕ) (line : Option ℕ) (s : State env)
      → Sound s
      → All (IsUse s) ns
      → Ext s (add_writes env vs ns line s)
  unfolding add_writes
  add_writes-Extends [] ns line s w h = Extends_refl s w
  add_writes-Extends (v ∷ vs) ns line s w h =
      let n = add_node-Extends env (var_attrs env v write line) s w in
      let e =
        add_edges_from-Extends ns s.counter (make_var_key env v) _ n.0.sound (uses_kept ns n.0 h)
          (omega (arith, n.2), n.3) in
      let p = Extends_trans n.0 e in
      Extends_trans p (add_writes-Extends vs ns line _ e.sound (uses_kept ns p h))

  pub add_initializers-Extends :
      (vs : List Text) (dst : ℕ) (key : Text) (line : Option ℕ) (s : State env)
      → Sound s
      → IsDef s dst
      → Ext s (add_initializers env vs dst key line s)
  unfolding add_initializers
  add_initializers-Extends [] dst key line s w d = Extends_refl s w
  add_initializers-Extends (v ∷ vs) dst key line s w d =
      let n = add_node-Extends env (var_attrs env v usage line) s w in
      let s1 = (add_var_node env v usage line s).1 in
      let c = connect-Extends v s.counter s1 n.0.sound n.2 n.3 n.4 in
      let p = Extends_trans n.0 c in
      let u = IsUse-kept s.counter c (omega (arith, n.2), n.3) in
      let d' = IsDef-kept dst p d in
      let e =
        add_edge-Extends env s.counter dst init_of key _ c.sound (u.1, d'.1) (λ x. cc) (λ x. cc) in
      Extends_trans p
        (Extends_trans e (add_initializers-Extends vs dst key line _ e.sound (IsDef-kept dst e d')))
