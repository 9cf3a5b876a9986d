-- ===== src/Symbols/Complete.antt =====
-- The declarations of a file that get a symbol, and that `build` lists them all.
use retro_doc.Prelude.{
  Text, text, lookup, none, some, List, [], ◌∷◌, ◌++◌, ◌≡◌, sym, subst, refl, append-nil,
  append_assoc, map, length,
}
use retro_doc.Symbols.Table.{get_type_name, Declared, Table, add_symbol}
use retro_doc.Symbols.Numbered.{or_nil, entries, ids_in, Lists, add_symbol-Lists}
use retro_doc.Symbols.Build.{
  Parameter, MethodNode, FieldNode, ClassNode, InterfaceNode, EnumNode, Compilation, return_name,
  package_name, scope_in, or_default, declared_by, parameter_symbol, process_parameters,
  process_method, process_methods, process_declarators, process_fields, process_class,
  process_interface, process_enum, process_classes, process_interfaces, process_enums, build,
}

abbrev concat_map : {A B : Type 0} → (A → List B) → List A → List B
concat_map f [] = []
concat_map f (x ∷ xs) = f x ++ concat_map f xs

-- A method and its parameters.
abbrev method_symbols : Text → MethodNode → List Declared
method_symbols scope m =
    declared_by m.head (text "method") scope (some (return_name m.return_type))
    ∷ map (parameter_symbol (scope ++ (text "." ++ m.head.name))) m.parameters

-- One symbol for each declarator.
abbrev field_symbol : Text → FieldNode → Text → Declared
field_symbol scope f name =
    declared_by (record f.head { name = name }) (text "field") scope
      (some (get_type_name f.type_node))

abbrev field_symbols : Text → FieldNode → List Declared
field_symbols scope f = map (field_symbol scope f) f.declarators

abbrev class_symbols : Text → ClassNode → List Declared
class_symbols pkg c =
    declared_by c.head (text "class") (or_default pkg) none
    ∷ (concat_map (field_symbols (scope_in pkg c.head.name)) c.fields
        ++ concat_map (method_symbols (scope_in pkg c.head.name)) c.methods)

abbrev interface_symbols : Text → InterfaceNode → List Declared
interface_symbols pkg c =
    declared_by c.head (text "interface") (or_default pkg) none
    ∷ concat_map (method_symbols (scope_in pkg c.head.name)) c.methods

abbrev enum_symbol : Text → EnumNode → Declared
enum_symbol pkg e =
    declared_by (record e.head { annotations = [] }) (text "enum") (or_default pkg) none

-- The symbols of a file: its classes with their fields and methods, then its interfaces with their
-- methods, then its enums alone.
abbrev pub declarations : Compilation → List Declared
declarations c =
    let pkg = package_name c.pkg in
    concat_map (class_symbols pkg) c.classes
    ++ (concat_map (interface_symbols pkg) c.interfaces ++ map (enum_symbol pkg) c.enums)

module _ (file_path : Text) where
  -- What an operation adds to a table.
  abbrev Adds : (Table → Table) → List Declared → Type 0
  Adds f ds =
      (done : List Declared) (t : Table)
      → Lists file_path done t
      → Lists file_path (done ++ ds) (f t)

  none-Adds : Adds (λ t. t) []
  none-Adds done t w = subst (λ ds. Lists file_path ds t) (sym (append-nil done)) w

  both-Adds :
      (f g : Table → Table) (ds es : List Declared)
      → Adds f ds
      → Adds g es
      → Adds (λ t. g (f t)) (ds ++ es)
  both-Adds f g ds es hf hg done t w =
      subst (λ xs. Lists file_path xs (g (f t))) (append_assoc done ds es)
        (hg (done ++ ds) (f t) (hf done t w))

  one-Adds : (d : Declared) → Adds (add_symbol file_path d) (d ∷ [])
  one-Adds d done t w = add_symbol-Lists file_path d done t w

  parameters-Adds :
      (scope : Text) (ps : List Parameter)
      → Adds (process_parameters file_path scope ps) (map (parameter_symbol scope) ps)
  unfolding process_parameters
  parameters-Adds scope [] = none-Adds
  parameters-Adds scope (p ∷ ps) =
      both-Adds (add_symbol file_path (parameter_symbol scope p))
        (process_parameters file_path scope ps) (parameter_symbol scope p ∷ []) _
        (one-Adds (parameter_symbol scope p)) (parameters-Adds scope ps)

  method-Adds :
      (scope : Text) (m : MethodNode)
      → Adds (process_method file_path scope m) (method_symbols scope m)
  unfolding process_method
  method-Adds scope m =
      let d = declared_by m.head (text "method") scope (some (return_name m.return_type)) in
      let inner = scope ++ (text "." ++ m.head.name) in
      both-Adds (add_symbol file_path d) (process_parameters file_path inner m.parameters) (d ∷ [])
        _ (one-Adds d) (parameters-Adds inner m.parameters)

  methods-Adds :
      (scope : Text) (ms : List MethodNode)
      → Adds (process_methods file_path scope ms) (concat_map (method_symbols scope) ms)
  unfolding process_methods
  methods-Adds scope [] = none-Adds
  methods-Adds scope (m ∷ ms) =
      both-Adds (process_method file_path scope m) (process_methods file_path scope ms)
        (method_symbols scope m) _ (method-Adds scope m) (methods-Adds scope ms)

  declarators-Adds :
      (scope : Text) (f : FieldNode) (ns : List Text)
      → Adds (process_declarators file_path scope f ns) (map (field_symbol scope f) ns)
  unfolding process_declarators
  declarators-Adds scope f [] = none-Adds
  declarators-Adds scope f (n ∷ ns) =
      both-Adds (add_symbol file_path (field_symbol scope f n))
        (process_declarators file_path scope f ns) (field_symbol scope f n ∷ []) _
        (one-Adds (field_symbol scope f n)) (declarators-Adds scope f ns)

  fields-Adds :
      (scope : Text) (fs : List FieldNode)
      → Adds (process_fields file_path scope fs) (concat_map (field_symbols scope) fs)
  unfolding process_fields
  fields-Adds scope [] = none-Adds
  fields-Adds scope (f ∷ fs) =
      both-Adds (process_declarators file_path scope f f.declarators)
        (process_fields file_path scope fs) (field_symbols scope f) _
        (declarators-Adds scope f f.declarators) (fields-Adds scope fs)

  class-Adds :
      (pkg : Text) (c : ClassNode) → Adds (process_class file_path pkg c) (class_symbols pkg c)
  unfolding process_class
  class-Adds pkg c =
      let d = declared_by c.head (text "class") (or_default pkg) none in
      let scope = scope_in pkg c.head.name in
      both-Adds (add_symbol file_path d)
        (λ t. process_methods file_path scope c.methods (process_fields file_path scope c.fields t))
        (d ∷ []) _ (one-Adds d)
        (both-Adds (process_fields file_path scope c.fields)
          (process_methods file_path scope c.methods) (concat_map (field_symbols scope) c.fields) _
          (fields-Adds scope c.fields) (methods-Adds scope c.methods))

  interface-Adds :
      (pkg : Text) (c : InterfaceNode)
      → Adds (process_interface file_path pkg c) (interface_symbols pkg c)
  unfolding process_interface
  interface-Adds pkg c =
      let d = declared_by c.head (text "interface") (or_default pkg) none in
      let scope = scope_in pkg c.head.name in
      both-Adds (add_symbol file_path d) (process_methods file_path scope c.methods) (d ∷ []) _
        (one-Adds d) (methods-Adds scope c.methods)

  classes-Adds :
      (pkg : Text) (cs : List ClassNode)
      → Adds (process_classes file_path pkg cs) (concat_map (class_symbols pkg) cs)
  unfolding process_classes
  classes-Adds pkg [] = none-Adds
  classes-Adds pkg (c ∷ cs) =
      both-Adds (process_class file_path pkg c) (process_classes file_path pkg cs)
        (class_symbols pkg c) _ (class-Adds pkg c) (classes-Adds pkg cs)

  interfaces-Adds :
      (pkg : Text) (cs : List InterfaceNode)
      → Adds (process_interfaces file_path pkg cs) (concat_map (interface_symbols pkg) cs)
  unfolding process_interfaces
  interfaces-Adds pkg [] = none-Adds
  interfaces-Adds pkg (c ∷ cs) =
      both-Adds (process_interface file_path pkg c) (process_interfaces file_path pkg cs)
        (interface_symbols pkg c) _ (interface-Adds pkg c) (interfaces-Adds pkg cs)

  enums-Adds :
      (pkg : Text) (hs : List EnumNode)
      → Adds (process_enums file_path pkg hs) (map (enum_symbol pkg) hs)
  unfolding process_enums process_enum
  enums-Adds pkg [] = none-Adds
  enums-Adds pkg (h ∷ hs) =
      both-Adds (process_enum file_path pkg h) (process_enums file_path pkg hs)
        (enum_symbol pkg h ∷ []) _ (one-Adds (enum_symbol pkg h)) (enums-Adds pkg hs)

  -- The symbol table of a file that can be parsed has these declarations of it and no others: its
  -- classes, each with its fields and its methods with their parameters, then its interfaces, each
  -- with its methods with their parameters, then its enums. Constructors, the fields of interfaces,
  -- the constants, fields, constructors and methods of enums, and annotation types have no symbol.
  -- The declarations stand in this order, each under an identity that ends in its number; none
  -- overwrites another; the counter is their number; and a scope has the identities of the
  -- declarations in it, each once and in order.
  pub build-declarations :
      (c : Compilation) (scope : Text)
      → (t : Table) × (build file_path (some c) ≡ some t)
        × (t.symbols ≡ entries file_path 0 (declarations c))
        × (t.counter ≡ length (declarations c))
        × (or_nil (lookup scope t.scopes) ≡ ids_in file_path scope 0 (declarations c))
  unfolding build lookup
  build-declarations c scope =
      let pkg = package_name c.pkg in
      let start : Table = record { symbols = []; scopes = []; counter = 0 } in
      let empty : Lists file_path [] start = record {
        all_listed = refl;
        all_counted = refl;
        all_scoped = λ s. refl;
      } in
      let w =
        both-Adds (process_classes file_path pkg c.classes)
          (λ t.
            process_enums file_path pkg c.enums (process_interfaces file_path pkg c.interfaces t))
          (concat_map (class_symbols pkg) c.classes) _ (classes-Adds pkg c.classes)
          (both-Adds (process_interfaces file_path pkg c.interfaces)
            (process_enums file_path pkg c.enums) (concat_map (interface_symbols pkg) c.interfaces)
            _ (interfaces-Adds pkg c.interfaces) (enums-Adds pkg c.enums))
          [] start empty in
      (_, refl, w.all_listed, w.all_counted, w.all_scoped scope)
