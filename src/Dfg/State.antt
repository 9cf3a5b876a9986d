-- ===== src/Dfg/State.antt =====
-- `_DFGState` of worker/app/graphs/service/dfg_builder/java.py, its nodes and edges, and the
-- functions that add them.
use retro_doc.Prelude.{
  ℕ, suc, Text, text, show_nat, Dict, lookup, put, push, Bool, true, false, Option, none, some,
  List, ◌++◌, is_empty, is_some, if◌then◌else◌,
}
use mathlib.Core.Option
use retro_doc.Digraph.{Digraph}
use retro_doc.Java.Syntax.{Expr}
use retro_doc.Cfg.Graph.{SourceRef}
use retro_doc.Dfg.Extract.{ClassFields, is_field}

pub data VarKind : Type 0 where
  param field local : VarKind

-- `use` is a reserved word here.
pub data Operation : Type 0 where
  def write init read usage : Operation

unfoldable pub operation_text : Operation → Text
operation_text def = text "def"
operation_text write = text "write"
operation_text init = text "init"
operation_text read = text "read"
operation_text usage = text "use"

-- `operation in ("def", "write", "init")`; the others are `("use", "read")`.
unfoldable pub defines : Operation → Bool
defines def = true
defines write = true
defines init = true
defines read = false
defines usage = false

-- The attributes of a node; `type` is `var_kind` again, and `id` the node's number.
pub record VarNode : Type 0 where
  pub id : ℕ
  pub variable : Text
  pub var_kind : VarKind
  pub operation : Operation
  pub line : Option ℕ
  pub var_key : Text
  pub source_ref : Option SourceRef
  pub stmt_key : Option Text
  pub owner_fqn : Option Text
  pub type_simple : Option Text
  pub type_fqn : Option Text

pub data EdgeType : Type 0 where
  flow def_use init_of : EdgeType

-- The attributes of an edge; every call leaves `confidence` at 1.0.
pub record FlowEdge : Type 0 where
  pub edge_type : EdgeType
  pub var_key : Text

-- The kind of a body variable.
unfoldable pub var_kind_of : Text → ClassFields → VarKind
unfolding is_field
var_kind_of name fields = if is_field name fields then field else local

-- `var_key or variable`
unfoldable pub effective_key : Text → Text → Text
effective_key var_key variable = if is_empty var_key then variable else var_key

-- What is fixed while one method is built: the fields of `_DFGState` that are never written, the
-- graph library, the hash and `str` of a node.
pub record Env : Type 1 where
  pub nx : Digraph VarNode FlowEdge
  pub sha1_prefix : Text → Text
  pub node_str : Expr → Text
  pub file_path : Text
  pub method_key : Text
  pub class_fields : ClassFields

module _ (env : Env) where
  open env use {nx, sha1_prefix, file_path, method_key, class_fields}

  pub record State : Type 0 where
    pub graph : nx.Graph
    pub counter : ℕ
    pub defs : Dict (List ℕ)
    pub uses : Dict (List ℕ)
    pub last_def : Dict ℕ
    pub last_def_by_name : Dict ℕ
    pub variables : Dict (List ℕ)

  -- `_make_stmt_key`, with `_compute_stmt_key`
  unfoldable pub make_stmt_key : Text → Text → Option ℕ → Option Text
  unfolding show_nat
  make_stmt_key kind label line =
      Option.map
        (λ l.
          text "stmt:"
          ++ file_path
          ++ text ":"
          ++ show_nat l
          ++ text ":"
          ++ kind
          ++ text ":"
          ++ sha1_prefix label)
        line

  -- The lists and dictionaries that `_add_node` updates.
  unfoldable pub track : Operation → Text → Text → ℕ → State → State
  unfolding put push defines
  track operation key variable nid s =
      if defines operation
      then record s {
        defs = push key nid s.defs;
        last_def = put key nid s.last_def;
        last_def_by_name = put variable nid s.last_def_by_name;
      }
      else record s { uses = push key nid s.uses }

  -- The node is new, so its attributes are given as a function of its number.
  unfoldable pub add_node : (ℕ → VarNode) → State → ℕ × State
  unfolding track effective_key push
  add_node attrs s =
      let nid = s.counter in
      let a = attrs nid in
      let s1 = record s {
        graph = nx.add_node s.graph nid a;
        counter = suc nid;
        variables = push a.variable nid s.variables;
      } in
      (nid, track a.operation (effective_key a.var_key a.variable) a.variable nid s1)

  -- An edge that is there already is left as it is.
  unfoldable pub add_edge : ℕ → ℕ → EdgeType → Text → State → State
  add_edge src dst edge_type var_key s =
      if is_some (nx.edge? s.graph src dst) then s else record s {
        graph = nx.add_edge s.graph src dst (record { edge_type = edge_type; var_key = var_key });
      }

  unfoldable pub local_key : Text → Text
  local_key name = text "local:" ++ method_key ++ text ":0:" ++ name

  -- A name that is a field has its field's key, any other is a local of the method.
  unfoldable pub make_var_key : Text → Text
  unfolding local_key lookup
  make_var_key name = elim (lookup name class_fields) [ some ctx ↦ ctx.key | none ↦ local_key name ]
