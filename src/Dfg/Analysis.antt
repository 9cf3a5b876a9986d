-- ===== src/Dfg/Analysis.antt =====
-- The statement analysis of worker/app/graphs/service/dfg_builder/java.py. `line` stands for the
-- statement that a node's position is taken from.
use retro_doc.Prelude.{
  ℕ, Text, text, lookup, Option, none, some, List, [], ◌∷◌, ◌++◌, if◌then◌else◌,
}
use mathlib.Core.Option
use retro_doc.Java.Syntax.{
  Expr, Exprs, Declarator, Control, Stmt, Stmts, Catches, no_catch, catch, method_invocation,
  assignment, binary_operation, this, truthy, for_control, enhanced, no_control,
}
use retro_doc.Cfg.Graph.{make_source_ref}
use retro_doc.Dfg.Extract.{extract_vars, extract_all}
use retro_doc.Dfg.State.{
  Env, State, VarNode, local, Operation, def, write, usage, operation_text, EdgeType, flow, def_use,
  init_of, var_kind_of, effective_key, make_stmt_key, add_node, add_edge, make_var_key, local_key,
}

module _ (env : Env) where
  open env use {node_str, file_path, class_fields}

  unfoldable pub vars : Expr → List Text
  unfolding extract_vars
  vars e = extract_vars node_str class_fields e

  -- The attributes that `_add_var_node` gives a node.
  unfoldable pub var_attrs : Text → Operation → Option ℕ → ℕ → VarNode
  unfolding var_kind_of make_var_key make_source_ref make_stmt_key operation_text lookup
  var_attrs name operation line nid =
      let ctx = lookup name class_fields in
      record {
        id = nid;
        variable = name;
        var_kind = var_kind_of name class_fields;
        operation = operation;
        line = line;
        var_key = make_var_key env name;
        source_ref = Option.map (make_source_ref file_path) line;
        stmt_key = make_stmt_key env (operation_text operation) name line;
        owner_fqn = Option.bind ctx (λ c. c.owner_fqn);
        type_simple = Option.bind ctx (λ c. c.type_simple);
        type_fqn = Option.bind ctx (λ c. c.type_fqn);
      }

  unfoldable pub add_var_node : Text → Operation → Option ℕ → State env → ℕ × State env
  unfolding add_node var_attrs
  add_var_node name operation line s = add_node env (var_attrs name operation line) s

  -- The last definition of a variable: by its key, or else by its name.
  unfoldable pub last_definition : Text → State env → Option ℕ
  unfolding effective_key make_var_key lookup
  last_definition name s = elim (lookup (effective_key (make_var_key env name) name) s.last_def) [
    | some d ↦ some d
    | none ↦ lookup name s.last_def_by_name
  ]

  unfoldable pub add_def_use : Option ℕ → Text → ℕ → State env → State env
  unfolding add_edge
  add_def_use none key nid s = s
  add_def_use (some d) key nid s = add_edge env d nid def_use key s

  unfoldable pub connect_def_to_use : Text → ℕ → State env → State env
  unfolding add_def_use last_definition effective_key make_var_key
  connect_def_to_use name nid s =
      add_def_use (last_definition name s) (effective_key (make_var_key env name) name) nid s

  -- A use node for each name, connected to its last definition.
  unfoldable pub add_uses : List Text → Option ℕ → State env → List ℕ × State env
  unfolding add_var_node connect_def_to_use
  add_uses [] line s = ([], s)
  add_uses (v ∷ vs) line s =
      let (nid, s1) = add_var_node v usage line s in
      let (nids, s2) = add_uses vs line (connect_def_to_use v nid s1) in (nid ∷ nids, s2)

  -- `for use_nid in nids: self._add_edge(state, use_nid, dst, edge_type, var_key=var_key)`
  unfoldable pub add_edges_from : List ℕ → ℕ → EdgeType → Text → State env → State env
  unfolding add_edge
  add_edges_from [] dst edge_type key s = s
  add_edges_from (n ∷ ns) dst edge_type key s =
      add_edges_from ns dst edge_type key (add_edge env n dst edge_type key s)

  -- The written variables of an assignment.
  unfoldable pub add_writes : List Text → List ℕ → Option ℕ → State env → State env
  unfolding add_var_node add_edges_from make_var_key
  add_writes [] right_nids line s = s
  add_writes (v ∷ vs) right_nids line s =
      let (nid, s1) = add_var_node v write line s in
      add_writes vs right_nids line (add_edges_from right_nids nid flow (make_var_key env v) s1)

  -- The uses of an initializer, each with its edge to the declared variable.
  unfoldable pub add_initializers : List Text → ℕ → Text → Option ℕ → State env → State env
  unfolding add_var_node connect_def_to_use add_edge
  add_initializers [] def_nid key line s = s
  add_initializers (v ∷ vs) def_nid key line s =
      let (nid, s1) = add_var_node v usage line s in
      add_initializers vs def_nid key line
        (add_edge env nid def_nid init_of key (connect_def_to_use v nid s1))

  unfoldable pub declaration_attrs : Text → Text → Option ℕ → ℕ → VarNode
  unfolding local_key make_source_ref make_stmt_key operation_text
  declaration_attrs type_name name line nid = record {
    id = nid;
    variable = name;
    var_kind = local;
    operation = def;
    line = line;
    var_key = local_key env name;
    source_ref = Option.map (make_source_ref file_path) line;
    stmt_key = make_stmt_key env (operation_text def) (type_name ++ text " " ++ name) line;
    owner_fqn = none;
    type_simple = some type_name;
    type_fqn = none;
  }

  -- `_analyze_local_var_decl`
  unfoldable pub analyze_declarators : Text → Option ℕ → List Declarator → State env → State env
  unfolding add_node declaration_attrs add_initializers local_key truthy vars extract_vars
  analyze_declarators type_name line [] s = s
  analyze_declarators type_name line (d ∷ ds) s =
      let (nid, s1) = add_node env (declaration_attrs type_name d.name line) s in
      let used = if truthy d.initializer then vars d.initializer else [] in
      analyze_declarators type_name line ds
        (add_initializers used nid (local_key env d.name) line s1)

  -- A method invocation: its qualifier, then its arguments.
  unfoldable pub analyze_invocation : Expr → Exprs → Option ℕ → State env → State env
  unfolding add_uses truthy vars extract_vars
  analyze_invocation q args line s =
      let s1 = if truthy q then (add_uses (vars q) line s).1 else s in
      (add_uses (extract_all node_str class_fields args) line s1).1

  -- The selectors of `this`: method invocations alone are analyzed.
  unfoldable pub analyze_this : Exprs → Option ℕ → State env → State env
  unfolding analyze_invocation
  analyze_this Exprs.nil line s = s
  analyze_this (Exprs.cons (method_invocation q m args) es) line s =
      analyze_this es line (analyze_invocation q args line s)
  analyze_this (Exprs.cons e es) line s = analyze_this es line s

  unfoldable pub analyze_expression : Expr → Option ℕ → State env → State env
  unfolding add_uses add_writes analyze_invocation analyze_this vars extract_vars
  analyze_expression (assignment l r) line s =
      let (right_nids, s1) = add_uses (vars r) line s in add_writes (vars l) right_nids line s1
  analyze_expression (method_invocation q m args) line s = analyze_invocation q args line s
  analyze_expression (binary_operation op l r) line s = (add_uses (vars l ++ vars r) line s).1
  analyze_expression (this sels) line s = analyze_this sels line s
  analyze_expression _ line s = s

  unfoldable pub analyze_control : Control → Option ℕ → State env → State env
  unfolding analyze_expression
  analyze_control (for_control c init condition) line s =
      analyze_expression condition line (analyze_expression init line s)
  analyze_control (enhanced c) line s = s
  analyze_control no_control line s = s

  unfoldable mutual
    unfolding add_uses analyze_declarators analyze_expression analyze_control truthy vars

    pub analyze_statement : Stmt → State env → State env
    analyze_statement (Stmt.local_variable line ty ds) s = analyze_declarators ty line ds s
    analyze_statement (Stmt.expression line e) s = analyze_expression e line s
    analyze_statement (Stmt.if_then line c t) s = analyze_statement t (add_uses (vars c) line s).1
    analyze_statement (Stmt.if_else line c t e) s =
        analyze_statement e (analyze_statement t (add_uses (vars c) line s).1)
    analyze_statement (Stmt.while_loop line c body) s =
        analyze_statement body (add_uses (vars c) line s).1
    analyze_statement (Stmt.for_loop line control body) s =
        analyze_statement body (analyze_control control line s)
    analyze_statement (Stmt.return_value line e) s =
        if truthy e then (add_uses (vars e) line s).1 else s
    analyze_statement (Stmt.block ss) s = analyze_block ss s
    analyze_statement (Stmt.try_catch line blk catches fin) s =
        analyze_block fin (analyze_catches catches (analyze_block blk s))
    analyze_statement (Stmt.switch line e cases) s = s
    analyze_statement (Stmt.other_stmt line c) s = s

    pub analyze_block : Stmts → State env → State env
    analyze_block Stmts.nil s = s
    analyze_block (Stmts.cons t ts) s = analyze_block ts (analyze_statement t s)

    pub analyze_catches : Catches → State env → State env
    analyze_catches no_catch s = s
    analyze_catches (catch line parameter blk rest) s = analyze_catches rest (analyze_block blk s)
