-- ===== src/Symbols/Build.antt =====
-- `build` of worker/app/graphs/service/symbol_table_builder/java.py, on what javalang parses. The
-- declarations of each kind, nested ones too, are listed in the order of `tree.filter`. Constructors,
-- the fields of interfaces, the constants, fields, constructors and methods of enums, and annotation
-- types are parsed and not looked at.
use retro_doc.Prelude.{
  ℕ, Text, text, Option, none, some, List, [], ◌∷◌, ◌++◌, is_empty, if◌then◌else◌,
}
use retro_doc.Symbols.Table.{
  TypeNode, get_type_name, Annotation, extract_annotations, Declared, Table, add_symbol,
}

-- What the declarations have in common; `line` is missing without a position.
pub record Head : Type 0 where
  pub name : Text
  pub line : Option ℕ
  pub modifiers : List Text
  pub annotations : List Annotation

pub record Parameter : Type 0 where
  pub name : Text
  pub type_node : TypeNode

-- Without a return type, a method is `void`.
pub record MethodNode : Type 0 where
  pub head : Head
  pub return_type : Option TypeNode
  pub parameters : List Parameter

-- The name of the head is not used: the declarators have the names.
pub record FieldNode : Type 0 where
  pub head : Head
  pub type_node : TypeNode
  pub declarators : List Text

pub record ClassNode : Type 0 where
  pub head : Head
  pub fields : List FieldNode
  pub constructors : List MethodNode
  pub methods : List MethodNode

pub record InterfaceNode : Type 0 where
  pub head : Head
  pub fields : List FieldNode
  pub methods : List MethodNode

pub record EnumNode : Type 0 where
  pub head : Head
  pub constants : List Text
  pub fields : List FieldNode
  pub constructors : List MethodNode
  pub methods : List MethodNode

pub record Compilation : Type 0 where
  pub pkg : Option Text
  pub classes : List ClassNode
  pub interfaces : List InterfaceNode
  pub enums : List EnumNode
  pub annotation_types : List Head

unfoldable pub return_name : Option TypeNode → Text
unfolding get_type_name
return_name none = text "void"
return_name (some t) = get_type_name t

unfoldable pub package_name : Option Text → Text
package_name none = []
package_name (some p) = p

-- `f"{package}.{name}" if package else name`
unfoldable pub scope_in : Text → Text → Text
scope_in pkg name = if is_empty pkg then name else pkg ++ (text "." ++ name)

-- `package or "default"`
unfoldable pub or_default : Text → Text
or_default pkg = if is_empty pkg then text "default" else pkg

-- The symbol of a declaration that has a head.
unfoldable pub declared_by : Head → Text → Text → Option Text → Declared
unfolding extract_annotations
declared_by h symbol_type scope data_type = record {
  name = h.name;
  symbol_type = symbol_type;
  scope = scope;
  data_type = data_type;
  line = h.line;
  modifiers = h.modifiers;
  annotations = extract_annotations h.annotations;
}

unfoldable pub parameter_symbol : Text → Parameter → Declared
unfolding get_type_name
parameter_symbol scope p = record {
  name = p.name;
  symbol_type = text "parameter";
  scope = scope;
  data_type = some (get_type_name p.type_node);
  line = none;
  modifiers = [];
  annotations = [];
}

module _ (file_path : Text) where
  unfoldable pub process_parameters : Text → List Parameter → Table → Table
  unfolding add_symbol parameter_symbol
  process_parameters scope [] t = t
  process_parameters scope (p ∷ ps) t =
      process_parameters scope ps (add_symbol file_path (parameter_symbol scope p) t)

  unfoldable pub process_method : Text → MethodNode → Table → Table
  unfolding process_parameters add_symbol declared_by return_name
  process_method class_scope m t =
      process_parameters (class_scope ++ (text "." ++ m.head.name)) m.parameters (
        add_symbol file_path
          (declared_by m.head (text "method") class_scope (some (return_name m.return_type))) t)

  unfoldable pub process_methods : Text → List MethodNode → Table → Table
  unfolding process_method
  process_methods scope [] t = t
  process_methods scope (m ∷ ms) t = process_methods scope ms (process_method scope m t)

  unfoldable pub process_declarators : Text → FieldNode → List Text → Table → Table
  unfolding add_symbol declared_by get_type_name
  process_declarators scope f [] t = t
  process_declarators scope f (d ∷ ds) t = process_declarators scope f ds (
      add_symbol file_path
        (declared_by (record f.head { name = d }) (text "field") scope
          (some (get_type_name f.type_node)))
        t)

  unfoldable pub process_fields : Text → List FieldNode → Table → Table
  unfolding process_declarators
  process_fields scope [] t = t
  process_fields scope (f ∷ fs) t =
      process_fields scope fs (process_declarators scope f f.declarators t)

  unfoldable pub process_class : Text → ClassNode → Table → Table
  unfolding process_fields process_methods add_symbol declared_by scope_in or_default
  process_class pkg c t =
      let scope = scope_in pkg c.head.name in
      process_methods scope c.methods (
        process_fields scope c.fields
          (add_symbol file_path (declared_by c.head (text "class") (or_default pkg) none) t))

  unfoldable pub process_interface : Text → InterfaceNode → Table → Table
  unfolding process_methods add_symbol declared_by scope_in or_default
  process_interface pkg c t =
      process_methods (scope_in pkg c.head.name) c.methods
        (add_symbol file_path (declared_by c.head (text "interface") (or_default pkg) none) t)

  -- No annotations are passed.
  unfoldable pub process_enum : Text → EnumNode → Table → Table
  unfolding add_symbol declared_by or_default
  process_enum pkg e t =
      add_symbol file_path
        (declared_by (record e.head { annotations = [] }) (text "enum") (or_default pkg) none) t

  unfoldable pub process_classes : Text → List ClassNode → Table → Table
  unfolding process_class
  process_classes pkg [] t = t
  process_classes pkg (c ∷ cs) t = process_classes pkg cs (process_class pkg c t)

  unfoldable pub process_interfaces : Text → List InterfaceNode → Table → Table
  unfolding process_interface
  process_interfaces pkg [] t = t
  process_interfaces pkg (c ∷ cs) t = process_interfaces pkg cs (process_interface pkg c t)

  unfoldable pub process_enums : Text → List EnumNode → Table → Table
  unfolding process_enum
  process_enums pkg [] t = t
  process_enums pkg (e ∷ es) t = process_enums pkg es (process_enum pkg e t)

  -- `none` is a source that cannot be parsed.
  unfoldable pub build : Option Compilation → Option Table
  unfolding process_classes process_interfaces process_enums package_name
  build none = none
  build (some c) =
      let pkg = package_name c.pkg in
      some (
        process_enums pkg c.enums (
          process_interfaces pkg c.interfaces
            (process_classes pkg c.classes (record { symbols = []; scopes = []; counter = 0 }))))
