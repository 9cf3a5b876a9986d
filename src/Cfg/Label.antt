-- ===== src/Cfg/Label.antt =====
-- The labels of CFG nodes: `_label` and `_label_args` of
-- worker/app/graphs/service/cfg_builder/java.py. No access below can raise on these trees, so the
-- `except` branch is never taken, and the cut at `max_length` is never reached, since every Python
-- object has a `__class__`.
use retro_doc.Prelude.{
  Text, text, text_eq, ◌||◌, Option, none, some, List, [], ◌∷◌, ◌++◌, if◌then◌else◌, ◌+◌, ◌&&◌, leb,
  map, ℕ,
}
use retro_doc.Java.Syntax.{
  Expr, Exprs, Declarator, Control, CatchType, Stmt, none_value, str_value, member_reference,
  method_invocation, assignment, binary_operation, literal, this, class_creator, cast, ternary,
  other, for_control, enhanced, no_control, types, type_name, no_type, truthy,
}

-- `str.lower` on ASCII.
unfoldable pub lower : ℕ → ℕ
lower c = if leb b'A' c && leb c b'Z' then c + 32 else c

unfoldable pub literal_label : Option Text → Text
unfolding lower text_eq
literal_label none = text "null"
literal_label (some v) =
    let w = map lower v in
    if text_eq w (text "null")
    then text "null"
    else if text_eq w (text "true") || text_eq w (text "false")
    then w
    else text "\"" ++ v ++ text "\""

unfoldable mutual
  unfolding literal_label truthy

  pub label : Expr → Text
  label none_value = []
  label (str_value s) = text "str"
  label (member_reference q m sels) =
      (if truthy q then label q ++ text "." ++ m else m) ++ label_selectors sels
  label (method_invocation q m args) =
      (if truthy q then label q ++ text "." else []) ++ m ++ text "(" ++ label_args args ++ text ")"
  label (assignment l r) = label l ++ text " = " ++ label r
  label (binary_operation op l r) = label l ++ text " " ++ op ++ text " " ++ label r
  label (literal v) = literal_label v
  label (this sels) = text "this" ++ label_this_selectors sels
  label (class_creator ty args) = text "new " ++ ty ++ text "(" ++ label_args args ++ text ")"
  label (cast ty e) = text "(" ++ ty ++ text ") " ++ label e
  label (ternary c t f) = label c ++ text " ? " ++ label t ++ text " : " ++ label f
  label (other c) = c

  -- `", ".join(self._label(arg) for arg in arguments)`
  pub label_args : Exprs → Text
  label_args Exprs.nil = []
  label_args (Exprs.cons e Exprs.nil) = label e
  label_args (Exprs.cons e (Exprs.cons f es)) = label e ++ text ", " ++ label_args (Exprs.cons f es)

  -- The selectors of a member reference: other classes add nothing.
  pub label_selectors : Exprs → Text
  label_selectors Exprs.nil = []
  label_selectors (Exprs.cons (method_invocation q m args) es) =
      text "." ++ m ++ text "(" ++ label_args args ++ text ")" ++ label_selectors es
  label_selectors (Exprs.cons (member_reference q m sels) es) = text "." ++ m ++ label_selectors es
  label_selectors (Exprs.cons e es) = label_selectors es

  -- The selectors of `this`: other classes add their own label.
  pub label_this_selectors : Exprs → Text
  label_this_selectors Exprs.nil = []
  label_this_selectors (Exprs.cons (method_invocation q m args) es) =
      text "." ++ m ++ text "(" ++ label_args args ++ text ")" ++ label_this_selectors es
  label_this_selectors (Exprs.cons (member_reference q m sels) es) =
      text "." ++ m ++ label_this_selectors es
  label_this_selectors (Exprs.cons e es) = text "." ++ label e ++ label_this_selectors es

-- `", ".join(parts)`
unfoldable pub join_comma : List Text → Text
join_comma [] = []
join_comma (p ∷ []) = p
join_comma (p ∷ q ∷ ps) = p ++ text ", " ++ join_comma (q ∷ ps)

unfoldable pub declarator_label : Declarator → Text
unfolding truthy label
declarator_label d =
    if truthy d.initializer then d.name ++ text " = " ++ label d.initializer else d.name

-- `_label` on a statement that becomes a plain node.
unfoldable pub stmt_label : Stmt → Text
unfolding label join_comma declarator_label
stmt_label (Stmt.expression line e) = label e
stmt_label (Stmt.local_variable line ty ds) = ty ++ text " " ++ join_comma (map declarator_label ds)
stmt_label (Stmt.other_stmt line c) = c
stmt_label (Stmt.if_then line c t) = text "IfStatement"
stmt_label (Stmt.if_else line c t e) = text "IfStatement"
stmt_label (Stmt.while_loop line c b) = text "WhileStatement"
stmt_label (Stmt.for_loop line c b) = text "ForStatement"
stmt_label (Stmt.try_catch line b cs f) = text "TryStatement"
stmt_label (Stmt.switch line e cs) = text "SwitchStatement"
stmt_label (Stmt.return_value line e) = text "ReturnStatement"
stmt_label (Stmt.block ss) = text "BlockStatement"

-- The label of `stmt.control`, which is no class that `_label` knows.
unfoldable pub control_label : Control → Text
control_label (for_control c init condition) = c
control_label (enhanced c) = c
control_label no_control = text "..."

unfoldable pub catch_type : CatchType → Text
catch_type (types t []) = t
catch_type (types t (u ∷ us)) = t ++ text " | " ++ catch_type (types u us)
catch_type (type_name n) = n
catch_type no_type = text "Exception"
