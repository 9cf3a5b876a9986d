-- ===== src/Dfg/Extract.antt =====
-- `_extract_vars` of worker/app/graphs/service/dfg_builder/java.py: the variable names of an
-- expression. No access below can raise on these trees, so the `except` branch is never taken.
-- `str(node)` of a javalang node is the parameter `node_str`.
use retro_doc.Prelude.{
  Text, text, text_eq, Dict, lookup, Bool, ◌&&◌, ◌||◌, Option, is_some, List, [], ◌∷◌, ◌++◌, map,
  is_empty, not, if◌then◌else◌,
}
use retro_doc.Java.Syntax.{
  Expr, Exprs, none_value, str_value, member_reference, method_invocation, assignment,
  binary_operation, literal, this, class_creator, cast, ternary, other, truthy,
}
use retro_doc.Cfg.Label.{lower}
use retro_doc.Strings.{contains}

-- The AST's context of a field of the owner.
pub record FieldContext : Type 0 where
  pub key : Text
  pub owner_fqn : Option Text
  pub type_simple : Option Text
  pub type_fqn : Option Text

abbrev pub ClassFields : Type 0
ClassFields = Dict FieldContext

-- `var_name in class_fields`
unfoldable pub is_field : Text → ClassFields → Bool
unfolding lookup text_eq
is_field name fields = is_some (lookup name fields)

module _ (node_str : Expr → Text) where
  -- `str(value)`
  unfoldable pub py_str : Expr → Text
  py_str none_value = text "None"
  py_str (str_value s) = s
  py_str e = node_str e

  -- `qualifier_str == "" or "this" in qualifier_str.lower()`
  unfoldable pub names_this : Expr → Bool
  unfolding py_str contains lower
  names_this q = is_empty (py_str q) || contains (text "this") (map lower (py_str q))

  unfoldable mutual
    unfolding truthy names_this is_field

    pub extract_vars : ClassFields → Expr → List Text
    extract_vars fields none_value = []
    extract_vars fields (str_value s) = []
    extract_vars fields (member_reference q m sels) =
        let own = if is_field m fields then m ∷ [] else [] in
        let qualified = extract_vars fields q in
        (if is_empty m
          then []
          else if truthy q
          then (if names_this q then own else qualified)
          else m ∷ [])
        ++ extract_all fields sels
    extract_vars fields (this sels) = extract_this fields sels
    extract_vars fields (method_invocation q m args) =
        (if truthy q then extract_vars fields q else []) ++ extract_all fields args
    extract_vars fields (assignment l r) = extract_vars fields l ++ extract_vars fields r
    extract_vars fields (binary_operation op l r) = extract_vars fields l ++ extract_vars fields r
    extract_vars fields (class_creator ty args) = extract_all fields args
    extract_vars fields (cast ty e) = extract_vars fields e
    extract_vars fields (ternary c t f) =
        extract_vars fields c ++ extract_vars fields t ++ extract_vars fields f
    extract_vars fields (literal v) = []
    extract_vars fields (other c) = []

    pub extract_all : ClassFields → Exprs → List Text
    extract_all fields Exprs.nil = []
    extract_all fields (Exprs.cons e es) = extract_vars fields e ++ extract_all fields es

    -- The selectors of `this`.
    pub extract_this : ClassFields → Exprs → List Text
    extract_this fields Exprs.nil = []
    extract_this fields (Exprs.cons (method_invocation q m args) es) =
        extract_all fields args ++ extract_this fields es
    extract_this fields (Exprs.cons (member_reference q m sels) es) =
        (if not (is_empty m) && is_field m fields then m ∷ [] else []) ++ extract_this fields es
    extract_this fields (Exprs.cons e es) = extract_this fields es
