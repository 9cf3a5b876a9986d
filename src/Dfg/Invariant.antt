-- ===== src/Dfg/Invariant.antt =====
-- What holds of a DFG at every point of its construction.
use retro_doc.Prelude.{
  ℕ, ◌+◌, ◌<◌, Text, lookup, count_values, Bool, true, false, Option, some, ◌≡◌, ◌⊎◌, arith,
}
use mathlib.Core.Option
use mathlib.Core.Option.{some-injective}
use retro_doc.Digraph.Numbered.{IsNumbered}
use retro_doc.Dfg.State.{
  Env, State, VarNode, EdgeType, def_use, flow, init_of, FlowEdge, defines, effective_key,
}

module _ (env : Env) where
  open env use {nx}

  -- Whether a node of the graph defines its variable; `none` if there is no such node.
  unfoldable pub kind : nx.Graph → ℕ → Option Bool
  unfolding defines
  kind g n = Option.map (λ a. defines a.operation) (nx.node? g n)

  -- The variable of a node and its effective key; `none` if there is no such node.
  unfoldable pub tag : nx.Graph → ℕ → Option (Text × Text)
  unfolding effective_key
  tag g n = Option.map (λ a. (a.variable, effective_key a.var_key a.variable)) (nx.node? g n)

-- A definition and a use are of one variable: the same name or the same key; `key` is that of the use.
abbrev pub Shares : Text → Option (Text × Text) → Option (Text × Text) → Type 0
Shares key u v =
    (x y : Text × Text) × (u ≡ some x) × (v ≡ some y) × (y.1 ≡ key) × ((x.0 ≡ y.0) ⊎ (x.1 ≡ y.1))

-- What is asked of an edge beside the kinds of its ends.
abbrev pub IsShared : FlowEdge → Option (Text × Text) → Option (Text × Text) → Type 0
IsShared e u v = e.edge_type ≡ def_use → Shares e.var_key u v

-- A def-use edge leads from a definition to a use, any other from a use to a definition.
abbrev pub IsTyped : EdgeType → Option Bool → Option Bool → Type 0
IsTyped def_use u v = (u ≡ some true) × (v ≡ some false)
IsTyped flow u v = (u ≡ some false) × (v ≡ some true)
IsTyped init_of u v = (u ≡ some false) × (v ≡ some true)

module _ (env : Env) where
  open env use {nx}

  pub record IsSound (s : State env) : Type 0 where
    pub numbered : IsNumbered nx s.graph s.counter
    -- every node is a definition or a use, counted once
    pub counted : count_values s.defs + count_values s.uses ≡ s.counter
    pub last_defines :
        (k : Text) (d : ℕ) → lookup k s.last_def ≡ some d → kind env s.graph d ≡ some true
    pub by_name_defines :
        (k : Text) (d : ℕ) → lookup k s.last_def_by_name ≡ some d → kind env s.graph d ≡ some true
    pub last_key :
        (k : Text) (d : ℕ)
        → lookup k s.last_def ≡ some d
        → (x : Text) × (tag env s.graph d ≡ some (x, k))
    pub by_name_name :
        (k : Text) (d : ℕ)
        → lookup k s.last_def_by_name ≡ some d
        → (key : Text) × (tag env s.graph d ≡ some (k, key))
    pub shared :
        (u v : ℕ) (e : FlowEdge)
        → nx.edge? s.graph u v ≡ some e
        → IsShared e (tag env s.graph u) (tag env s.graph v)
    pub typed :
        (u v : ℕ) (e : FlowEdge)
        → nx.edge? s.graph u v ≡ some e
        → IsTyped e.edge_type (kind env s.graph u) (kind env s.graph v)
    pub forward :
        (u v : ℕ) (e : FlowEdge) → nx.edge? s.graph u v ≡ some e → e.edge_type ≡ def_use → u < v

  pub kind-add_node :
      (s : State env) (a : VarNode) (n : ℕ)
      → IsSound s
      → n < s.counter
      → kind env (nx.add_node s.graph s.counter a) n ≡ kind env s.graph n
  unfolding kind
  kind-add_node s a n w h =
      ground
        (arith, nx.node?-add_node s.graph s.counter a n (w.numbered.absent s.counter (omega arith)))

  pub kind-new :
      (s : State env) (a : VarNode)
      → IsSound s
      → kind env (nx.add_node s.graph s.counter a) s.counter ≡ some (defines a.operation)
  unfolding kind
  kind-new s a w = ground (
    arith,
    nx.node?-add_node s.graph s.counter a s.counter (w.numbered.absent s.counter (omega arith)),
  )

  pub kind-below :
      (s : State env) (n : ℕ) (b : Bool) → IsSound s → kind env s.graph n ≡ some b → n < s.counter
  unfolding kind
  kind-below s n b w h = ground (arith, w.numbered.absent n)

  pub tag-add_node :
      (s : State env) (a : VarNode) (n : ℕ)
      → IsSound s
      → n < s.counter
      → tag env (nx.add_node s.graph s.counter a) n ≡ tag env s.graph n
  unfolding tag
  tag-add_node s a n w h =
      ground
        (arith, nx.node?-add_node s.graph s.counter a n (w.numbered.absent s.counter (omega arith)))

  pub tag-new :
      (s : State env) (a : VarNode)
      → IsSound s
      → tag env (nx.add_node s.graph s.counter a) s.counter
        ≡ some (a.variable, effective_key a.var_key a.variable)
  unfolding tag
  tag-new s a w = ground (
    arith,
    nx.node?-add_node s.graph s.counter a s.counter (w.numbered.absent s.counter (omega arith)),
  )

  pub tag-below :
      (s : State env) (n : ℕ) (x : Text × Text)
      → IsSound s
      → tag env s.graph n ≡ some x
      → n < s.counter
  unfolding tag
  tag-below s n x w h = ground (arith, w.numbered.absent n)
