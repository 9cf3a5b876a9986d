-- ===== src/Java/Syntax.antt =====
-- The parts of javalang's syntax trees that the CFG and DFG builders read. Each constructor is a
-- class that a builder names in `isinstance`; `other` is any other class, by its `__name__`.
use retro_doc.Prelude.{ℕ, Bool, true, false, Text, Option, List, []}

mutual
  -- A value where an expression is expected: a javalang node, `None`, or a plain Python `str`.
  pub data Expr : Type 0 where
    none_value : Expr
    str_value : (s : Text) → Expr
    -- An empty `selectors` stands for a missing, `None` or empty list.
    member_reference : (qualifier : Expr) (member : Text) (selectors : Exprs) → Expr
    method_invocation : (qualifier : Expr) (member : Text) (arguments : Exprs) → Expr
    assignment : (expressionl value : Expr) → Expr
    binary_operation : (operator : Text) (operandl operandr : Expr) → Expr
    literal : (value : Option Text) → Expr
    this : (selectors : Exprs) → Expr
    class_creator : (type_name : Text) (arguments : Exprs) → Expr
    cast : (type_name : Text) (expression : Expr) → Expr
    ternary : (condition if_true if_false : Expr) → Expr
    other : (class_name : Text) → Expr

  pub data Exprs : Type 0 where
    nil : Exprs
    cons : Expr → Exprs → Exprs

-- A declarator of a local variable: its name and its initializer, `none_value` if it has none.
pub record Declarator : Type 0 where
  pub name : Text
  pub initializer : Expr

-- `ForStatement.control`: a class with `init` and `condition`, or one without (a for-each).
pub data Control : Type 0 where
  for_control : (class_name : Text) (init condition : Expr) → Control
  enhanced : (class_name : Text) → Control
  no_control : Control

-- The catch parameter: `types`, or else the name of `type`, or neither.
pub data CatchType : Type 0 where
  types : (first : Text) (rest : List Text) → CatchType
  type_name : Text → CatchType
  no_type : CatchType

-- `line` is `node.position.line`, `none` where the node has no position.
mutual
  pub data Stmt : Type 0 where
    if_then : (line : Option ℕ) (condition : Expr) (then_statement : Stmt) → Stmt
    if_else : (line : Option ℕ) (condition : Expr) (then_statement else_statement : Stmt) → Stmt
    while_loop : (line : Option ℕ) (condition : Expr) (body : Stmt) → Stmt
    for_loop : (line : Option ℕ) (control : Control) (body : Stmt) → Stmt
    -- An empty `finally_block` stands for a missing one: both are falsy.
    try_catch : (line : Option ℕ) (block : Stmts) (catches : Catches) (finally_block : Stmts) → Stmt
    switch : (line : Option ℕ) (expression : Expr) (cases : Cases) → Stmt
    return_value : (line : Option ℕ) (expression : Expr) → Stmt
    block : (statements : Stmts) → Stmt
    expression : (line : Option ℕ) (e : Expr) → Stmt
    local_variable : (line : Option ℕ) (type_name : Text) (declarators : List Declarator) → Stmt
    other_stmt : (line : Option ℕ) (class_name : Text) → Stmt

  pub data Stmts : Type 0 where
    nil : Stmts
    cons : Stmt → Stmts → Stmts

  pub data Catches : Type 0 where
    no_catch : Catches
    catch : (line : Option ℕ) (parameter : CatchType) (block : Stmts) → Catches → Catches

  -- A case has the first of its values, or `none_value` for `default`.
  pub data Cases : Type 0 where
    no_case : Cases
    case : (line : Option ℕ) (value : Expr) (statements : Stmts) → Cases → Cases

-- Python's truth of a value: `None` and `""` are false, a node is true.
unfoldable pub truthy : Expr → Bool
truthy none_value = false
truthy (str_value []) = false
truthy _ = true
