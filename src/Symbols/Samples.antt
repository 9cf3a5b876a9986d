-- ===== src/Symbols/Samples.antt =====
-- The theorem on symbol tables at a file with a class and an enum, and a run of the definitions.
use retro_doc.Prelude.{Text, text, text_eq, lookup, none, some, [], ◌∷◌, ◌≡◌, refl}
use retro_doc.Symbols.Table.{
  text_type, no_type, named, typed, shown, no_arguments, get_type_name, no_element, many,
  extract_annotations, Table, symbol_id,
}
use retro_doc.Symbols.Build.{
  Head, MethodNode, Compilation, package_name, declared_by, or_default, scope_in, parameter_symbol,
  build,
}
use retro_doc.Symbols.Numbered.{or_nil, entries, ids_in}
use retro_doc.Symbols.Complete.{declarations, build-declarations}

abbrev head_of : Text → Head
head_of name = record {
  name = name;
  line = some 3;
  modifiers = text "public" ∷ [];
  annotations = [];
}

-- A method without parameters, or a constructor.
abbrev method_of : Text → MethodNode
method_of name = record { head = head_of name; return_type = none; parameters = [] }

-- `class Shop { Shop() void get(String key) }`, `enum Kind { A; void m() }`, `@interface Mark`
abbrev shop : Compilation
shop = record {
  pkg = some (text "a.b");
  classes =
      record {
        head = head_of (text "Shop");
        fields = [];
        constructors = method_of (text "Shop") ∷ [];
        methods =
            record {
              head = head_of (text "get");
              return_type = none;
              parameters =
                  record { name = text "key"; type_node = named (text "String") no_arguments 0 }
                  ∷ [];
            }
            ∷ [];
      }
      ∷ [];
  interfaces = [];
  enums =
      record {
        head = head_of (text "Kind");
        constants = text "A" ∷ [];
        fields = [];
        constructors = [];
        methods = method_of (text "m") ∷ [];
      }
      ∷ [];
  annotation_types = head_of (text "Mark") ∷ [];
}

build-declarations_example :
    (t : Table) × (build (text "Shop.java") (some shop) ≡ some t)
    × (t.symbols ≡ entries (text "Shop.java") 0 (declarations shop))
    × (t.counter ≡ 4)
    × (or_nil (lookup (text "a.b") t.scopes)
        ≡ ids_in (text "Shop.java") (text "a.b") 0 (declarations shop))
unfolding package_name
build-declarations_example = build-declarations (text "Shop.java") shop (text "a.b")

in_package :
    ids_in (text "Shop.java") (text "a.b") 0 (declarations shop)
    ≡ text "class_a.b_Shop_1" ∷ text "enum_a.b_Kind_4" ∷ []
unfolding symbol_id text_eq declared_by or_default package_name scope_in parameter_symbol
in_package = refl

generic :
    get_type_name (
      named
        (text "Map")
        (typed (text_type (text "K")) (typed no_type (shown (text "V") no_arguments)))
        1)
    ≡ text "Map<K, unknown, V>[]"
unfolding get_type_name
generic = refl

no_elements :
    extract_annotations (record { name = text "A"; element = many [] } ∷ [])
    ≡ record { name = text "A"; element = no_element } ∷ []
unfolding extract_annotations
no_elements = refl
