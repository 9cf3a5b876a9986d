-- ===== src/Symbols/Table.antt =====
-- `_add_symbol`, `_get_type_name` and `_extract_annotations` of
-- worker/app/graphs/service/symbol_table_builder/java.py.
use retro_doc.Prelude.{
  ℕ, zero, suc, Text, text, Dict, put, push, show_nat, Option, List, [], ◌∷◌, ◌++◌, map,
}

mutual
  -- A node's type: absent, a text, a node without a name as `str` shows it, or a node with a name.
  pub data TypeNode : Type 0 where
    no_type : TypeNode
    text_type unnamed : Text → TypeNode
    named : (name : Text) (arguments : TypeArguments) (dimensions : ℕ) → TypeNode

  -- An argument with a type, or any other one as `str` shows it.
  pub data TypeArguments : Type 0 where
    no_arguments : TypeArguments
    typed : TypeNode → TypeArguments → TypeArguments
    shown : Text → TypeArguments → TypeArguments

-- `"[]" * n`
unfoldable pub brackets : ℕ → Text
brackets zero = []
brackets (suc n) = text "[]" ++ brackets n

unfoldable mutual
  unfolding brackets

  pub get_type_name : TypeNode → Text
  get_type_name no_type = text "unknown"
  get_type_name (text_type t) = t
  get_type_name (unnamed t) = t
  get_type_name (named name no_arguments dimensions) = name ++ brackets dimensions
  get_type_name (named name (typed t rest) dimensions) =
      name ++ text "<" ++ argument_names (typed t rest) ++ text ">" ++ brackets dimensions
  get_type_name (named name (shown t rest) dimensions) =
      name ++ text "<" ++ argument_names (shown t rest) ++ text ">" ++ brackets dimensions

  -- `", ".join(args)`
  pub argument_names : TypeArguments → Text
  argument_names no_arguments = []
  argument_names (typed t no_arguments) = get_type_name t
  argument_names (shown t no_arguments) = t
  argument_names (typed t (typed u rest)) =
      get_type_name t ++ text ", " ++ argument_names (typed u rest)
  argument_names (typed t (shown u rest)) =
      get_type_name t ++ text ", " ++ argument_names (shown u rest)
  argument_names (shown t (typed u rest)) = t ++ text ", " ++ argument_names (typed u rest)
  argument_names (shown t (shown u rest)) = t ++ text ", " ++ argument_names (shown u rest)

-- The element of an annotation, `str` applied.
pub data Element : Type 0 where
  no_element : Element
  one : Text → Element
  many : List Text → Element

pub record Annotation : Type 0 where
  pub name : Text
  pub element : Element

-- An empty list is no element.
unfoldable pub extract_element : Element → Element
extract_element no_element = no_element
extract_element (one t) = one t
extract_element (many []) = no_element
extract_element (many (t ∷ ts)) = many (t ∷ ts)

unfoldable pub extract_annotation : Annotation → Annotation
unfolding extract_element
extract_annotation a = record a { element = extract_element a.element }

unfoldable pub extract_annotations : List Annotation → List Annotation
unfolding extract_annotation
extract_annotations annotations = map extract_annotation annotations

-- The keyword arguments of `_add_symbol`.
pub record Declared : Type 0 where
  pub name : Text
  pub symbol_type : Text
  pub scope : Text
  pub data_type : Option Text
  pub line : Option ℕ
  pub modifiers : List Text
  pub annotations : List Annotation

pub record Symbol : Type 0 where
  pub id : Text
  pub declared : Declared
  pub file : Text

pub record Table : Type 0 where
  pub symbols : Dict Symbol
  pub scopes : Dict (List Text)
  pub counter : ℕ

unfoldable pub symbol_id : Declared → ℕ → Text
unfolding show_nat
symbol_id d counter =
    d.symbol_type
    ++ (text "_" ++ (d.scope ++ (text "_" ++ (d.name ++ (text "_" ++ show_nat counter)))))

unfoldable pub add_symbol : Text → Declared → Table → Table
unfolding symbol_id put push
add_symbol file_path d t =
    let id = symbol_id d (suc t.counter) in
    record {
      symbols = put id (record { id = id; declared = d; file = file_path }) t.symbols;
      scopes = push d.scope id t.scopes;
      counter = suc t.counter;
    }
