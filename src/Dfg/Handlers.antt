-- ===== src/Dfg/Handlers.antt =====
-- Every handler of the DFG analysis extends a sound state to a sound state, and so does the whole
-- construction.
use retro_doc.Prelude.{
  ℕ, Text, Bool, true, false, Option, List, [], ◌∷◌, ◌++◌, if◌then◌else◌, arith,
}
use retro_doc.Java.Syntax.{
  Expr, Exprs, Declarator, Control, Stmt, Stmts, Catches, no_catch, catch, method_invocation,
  assignment, binary_operation, this, truthy, for_control, enhanced, no_control,
}
use retro_doc.Dfg.Extract.{extract_all}
use retro_doc.Dfg.State.{Env, State, local_key}
use retro_doc.Dfg.Analysis.{
  vars, declaration_attrs, analyze_declarators, analyze_invocation, analyze_this,
  analyze_expression, analyze_control, analyze_statement, analyze_block, analyze_catches,
}
use retro_doc.Dfg.Method.{Parameter, param_attrs, add_parameters, build_state}
use retro_doc.Dfg.Invariant.{IsSound}
use retro_doc.Dfg.Edges.{Extends}
use retro_doc.Dfg.Nodes.{add_node-Extends, empty-IsSound}
use retro_doc.Dfg.Soundness.{
  Extends_refl, Extends_trans, add_uses-Extends, add_writes-Extends, add_initializers-Extends,
}

module _ (env : Env) where
  abbrev pub Ext : State env → State env → Type 0
  Ext = Extends env

  abbrev pub Sound : State env → Type 0
  Sound = IsSound env

  declarators-Extends :
      (ty : Text) (line : Option ℕ) (ds : List Declarator) (s : State env)
      → Sound s
      → Ext s (analyze_declarators env ty line ds s)
  unfolding analyze_declarators
  declarators-Extends ty line [] s w = Extends_refl env s w
  declarators-Extends ty line (d ∷ ds) s w =
      let n = add_node-Extends env (declaration_attrs env ty d.name line) s w in
      let i =
        add_initializers-Extends env (if truthy d.initializer then vars env d.initializer else [])
          s.counter (local_key env d.name) line _ n.0.sound (omega (arith, n.2), n.3) in
      Extends_trans env n.0 (Extends_trans env i (declarators-Extends ty line ds _ i.sound))

  if-Extends : (b : Bool) {s t : State env} → Sound s → Ext s t → Ext s (if b then t else s)
  if-Extends true w e = e
  if-Extends false w e = Extends_refl env _ w

  invocation-Extends :
      (q : Expr) (args : Exprs) (line : Option ℕ) (s : State env)
      → Sound s
      → Ext s (analyze_invocation env q args line s)
  unfolding analyze_invocation
  invocation-Extends q args line s w =
      let e = if-Extends (truthy q) w (add_uses-Extends env (vars env q) line s w).0 in
      Extends_trans env e
        (add_uses-Extends env (extract_all env.node_str env.class_fields args) line _ e.sound).0

  this-Extends :
      (sels : Exprs) (line : Option ℕ) (s : State env)
      → Sound s
      → Ext s (analyze_this env sels line s)
  unfolding analyze_this
  this-Extends Exprs.nil line s w = Extends_refl env s w
  this-Extends (Exprs.cons (method_invocation q m args) es) line s w =
      let e = invocation-Extends q args line s w in
      Extends_trans env e (this-Extends es line _ e.sound)
  this-Extends (Exprs.cons e es) line s w = this-Extends es line s w

  expression-Extends :
      (e : Expr) (line : Option ℕ) (s : State env)
      → Sound s
      → Ext s (analyze_expression env e line s)
  unfolding analyze_expression
  expression-Extends (assignment l r) line s w =
      let u = add_uses-Extends env (vars env r) line s w in
      Extends_trans env u.0 (add_writes-Extends env (vars env l) _ line _ u.0.sound u.1)
  expression-Extends (method_invocation q m args) line s w = invocation-Extends q args line s w
  expression-Extends (binary_operation op l r) line s w =
      (add_uses-Extends env (vars env l ++ vars env r) line s w).0
  expression-Extends (this sels) line s w = this-Extends sels line s w
  expression-Extends _ line s w = Extends_refl env s w

  control-Extends :
      (c : Control) (line : Option ℕ) (s : State env)
      → Sound s
      → Ext s (analyze_control env c line s)
  unfolding analyze_control
  control-Extends (for_control c i condition) line s w =
      let e = expression-Extends i line s w in
      Extends_trans env e (expression-Extends condition line _ e.sound)
  control-Extends (enhanced c) line s w = Extends_refl env s w
  control-Extends no_control line s w = Extends_refl env s w

  mutual
    unfolding analyze_statement

    statement-Extends : (t : Stmt) (s : State env) → Sound s → Ext s (analyze_statement env t s)
    statement-Extends (Stmt.local_variable line ty ds) s w = declarators-Extends ty line ds s w
    statement-Extends (Stmt.expression line e) s w = expression-Extends e line s w
    statement-Extends (Stmt.if_then line c t) s w =
        let u = (add_uses-Extends env (vars env c) line s w).0 in
        Extends_trans env u (statement-Extends t _ u.sound)
    statement-Extends (Stmt.if_else line c t e) s w =
        let u = (add_uses-Extends env (vars env c) line s w).0 in
        let v = Extends_trans env u (statement-Extends t _ u.sound) in
        Extends_trans env v (statement-Extends e _ v.sound)
    statement-Extends (Stmt.while_loop line c body) s w =
        let u = (add_uses-Extends env (vars env c) line s w).0 in
        Extends_trans env u (statement-Extends body _ u.sound)
    statement-Extends (Stmt.for_loop line c body) s w =
        let u = control-Extends c line s w in Extends_trans env u (statement-Extends body _ u.sound)
    statement-Extends (Stmt.return_value line e) s w =
        if-Extends (truthy e) w (add_uses-Extends env (vars env e) line s w).0
    statement-Extends (Stmt.block ss) s w = block-Extends ss s w
    statement-Extends (Stmt.try_catch line blk cs fin) s w =
        let b = block-Extends blk s w in
        let c = Extends_trans env b (catches-Extends cs _ b.sound) in
        Extends_trans env c (block-Extends fin _ c.sound)
    statement-Extends (Stmt.switch line e cases) s w = Extends_refl env s w
    statement-Extends (Stmt.other_stmt line c) s w = Extends_refl env s w

    block-Extends : (ss : Stmts) (s : State env) → Sound s → Ext s (analyze_block env ss s)
    block-Extends Stmts.nil s w = Extends_refl env s w
    block-Extends (Stmts.cons t ts) s w =
        let e = statement-Extends t s w in Extends_trans env e (block-Extends ts _ e.sound)

    catches-Extends : (cs : Catches) (s : State env) → Sound s → Ext s (analyze_catches env cs s)
    catches-Extends no_catch s w = Extends_refl env s w
    catches-Extends (catch line parameter blk rest) s w =
        let e = block-Extends blk s w in Extends_trans env e (catches-Extends rest _ e.sound)

  parameters-IsSound :
      (ps : List Parameter) (s : State env) → Sound s → Sound (add_parameters env ps s)
  unfolding add_parameters
  parameters-IsSound [] s w = w
  parameters-IsSound (p ∷ ps) s w =
      parameters-IsSound ps _ (add_node-Extends env (param_attrs env p) s w).0.sound

  -- The DFG of any method is sound.
  pub build_state-IsSound : (ps : List Parameter) (body : Stmts) → Sound (build_state env ps body)
  unfolding build_state
  build_state-IsSound ps body =
      (block-Extends body _ (parameters-IsSound ps _ (empty-IsSound env))).sound
