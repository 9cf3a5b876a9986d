-- ===== src/Dfg/Method.antt =====
-- `_build_method_dfg` of worker/app/graphs/service/dfg_builder/java.py.
use retro_doc.Prelude.{ℕ, Text, text, count_values, Option, none, List, [], ◌∷◌, ◌++◌}
use retro_doc.Java.Syntax.{Stmts}
use retro_doc.Dfg.State.{Env, State, VarNode, param, def, add_node}
use retro_doc.Dfg.Analysis.{analyze_block, analyze_statement}

-- A parameter as the AST resolved it.
pub record Parameter : Type 0 where
  pub name : Text
  pub type_simple : Option Text
  pub type_fqn : Option Text

module _ (env : Env) where
  open env use {nx, method_key}

  abbrev pub no_state : State env
  no_state = record {
    graph = nx.empty;
    counter = 0;
    defs = [];
    uses = [];
    last_def = [];
    last_def_by_name = [];
    variables = [];
  }

  unfoldable pub param_attrs : Parameter → ℕ → VarNode
  param_attrs p nid = record {
    id = nid;
    variable = p.name;
    var_kind = param;
    operation = def;
    line = none;
    var_key = text "param:" ++ method_key ++ text ":" ++ p.name;
    source_ref = none;
    stmt_key = none;
    owner_fqn = none;
    type_simple = p.type_simple;
    type_fqn = p.type_fqn;
  }

  -- Parameters are definitions.
  unfoldable pub add_parameters : List Parameter → State env → State env
  unfolding add_node param_attrs
  add_parameters [] s = s
  add_parameters (p ∷ ps) s = add_parameters ps (add_node env (param_attrs p) s).1

  unfoldable pub build_state : List Parameter → Stmts → State env
  unfolding add_parameters analyze_statement
  build_state parameters body = analyze_block env body (add_parameters parameters no_state)

  unfoldable pub defs_count : State env → ℕ
  unfolding count_values
  defs_count s = count_values s.defs

  unfoldable pub uses_count : State env → ℕ
  unfolding count_values
  uses_count s = count_values s.uses
