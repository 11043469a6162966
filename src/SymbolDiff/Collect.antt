-- ===== src/SymbolDiff/Collect.antt =====
-- The walk over a syntax tree that collects its named symbols. A node comes with the texts of its
-- fields `name` and `type`; what the code appends to `out` is here the list that it returns.
use clotho.Prelude.{
  ℕ, ◌+◌, ◌%◌, ◌^◌, Bool, ◌||◌, Option, none, some, List, [], ◌∷◌, ◌++◌, if◌then◌else◌,
}
use clotho.Prelude.Bytes.{Bytes, lit, beq, is_empty}

pub data Language : Type 0 where
  rust : Language
  type_script : (tsx : Bool) → Language

pub record Symbol : Type 0 where
  pub name : Bytes
  pub kind : Bytes
  pub text : Bytes
  pub start_line : ℕ
  pub end_line : ℕ

-- What the walk reads of one node; the rows count from 0.
pub record Info : Type 0 where
  pub kind : Bytes
  pub name_field : Option Bytes
  pub type_field : Option Bytes
  pub text : Bytes
  pub start_row : ℕ
  pub end_row : ℕ

-- A node with its named children.
mutual
  pub data Node : Type 0 where
    node : Info → Nodes → Node

  pub data Nodes : Type 0 where
    nil : Nodes
    cons : Node → Nodes → Nodes

-- A row `as u32`, counted from 1; the sum wraps around, as it does in a release build.
unfoldable pub line_number : ℕ → ℕ
line_number row = (row % 2 ^ 32 + 1) % 2 ^ 32

unfoldable pub push_symbol : Info → (kind name : Bytes) → Symbol
unfolding line_number
push_symbol info kind name = record {
  name = name;
  kind = kind;
  text = info.text;
  start_line = line_number info.start_row;
  end_line = line_number info.end_row;
}

unfoldable pub qualified : (prefix sep name : Bytes) → Bytes
qualified prefix sep name = if is_empty prefix then name else prefix ++ sep ++ name

-- What a node adds itself, and the prefix to go on with in its children, if it does.
pub record Visit : Type 0 where
  pub adds : List Symbol
  pub inside : Option Bytes

unfoldable pub nothing : Visit
nothing = record { adds = []; inside = none }

-- One symbol with a name, or nothing without.
unfoldable pub item : Info → (prefix sep kind : Bytes) → Option Bytes → Visit
unfolding nothing push_symbol qualified
item info prefix sep kind (some name) = record {
  adds = push_symbol info kind (qualified prefix sep name) ∷ [];
  inside = none;
}
item info prefix sep kind none = nothing

-- A symbol whose children are walked under its name.
unfoldable pub container : Info → (prefix sep kind : Bytes) → Option Bytes → Visit
unfolding nothing push_symbol qualified
container info prefix sep kind (some name) = record {
  adds = push_symbol info kind (qualified prefix sep name) ∷ [];
  inside = some (qualified prefix sep name);
}
container info prefix sep kind none = nothing

-- Children that are walked under a name, with no symbol of its own.
unfoldable pub scope : (prefix sep : Bytes) → Option Bytes → Visit
unfolding nothing qualified
scope prefix sep (some name) = record { adds = []; inside = some (qualified prefix sep name) }
scope prefix sep none = nothing

-- Children that are walked in the node's place.
unfoldable pub unwrap : (prefix : Bytes) → Visit
unwrap prefix = record { adds = []; inside = some prefix }

unfoldable pub separator : Language → Bytes
separator rust = lit "::"
separator (type_script tsx) = lit "."

unfoldable pub collect_rust : Info → (prefix : Bytes) → Visit
unfolding nothing item container scope unwrap
collect_rust info prefix =
    let sep = lit "::" in
    if beq info.kind (lit "function_item") || beq info.kind (lit "function_signature_item")
    then item info prefix sep (lit "function") info.name_field
    else if beq info.kind (lit "struct_item")
    then item info prefix sep (lit "struct") info.name_field
    else if beq info.kind (lit "enum_item")
    then item info prefix sep (lit "enum") info.name_field
    else if beq info.kind (lit "union_item")
    then item info prefix sep (lit "union") info.name_field
    else if beq info.kind (lit "trait_item")
    then container info prefix sep (lit "trait") info.name_field
    else if beq info.kind (lit "type_item")
    then item info prefix sep (lit "type") info.name_field
    else if beq info.kind (lit "const_item")
    then item info prefix sep (lit "const") info.name_field
    else if beq info.kind (lit "static_item")
    then item info prefix sep (lit "static") info.name_field
    else if beq info.kind (lit "macro_definition")
    then item info prefix sep (lit "macro") info.name_field
    else if beq info.kind (lit "mod_item")
    then scope prefix sep info.name_field
    else if beq info.kind (lit "impl_item")
    then scope prefix sep info.type_field
    else if beq info.kind (lit "declaration_list")
    then unwrap prefix
    else nothing

-- One symbol for each declarator with a name, with the text of the whole declaration.
unfoldable pub declarators : Info → (prefix : Bytes) → Nodes → List Symbol
unfolding item
declarators info prefix nil = []
declarators info prefix (cons (node child children) rest) =
    let later = declarators info prefix rest in
    if beq child.kind (lit "variable_declarator")
    then (item info prefix (lit ".") (lit "variable") child.name_field).adds ++ later
    else later

unfoldable pub collect_ts : Info → (prefix : Bytes) → Nodes → Visit
unfolding nothing item container scope unwrap declarators
collect_ts info prefix children =
    let sep = lit "." in
    if beq info.kind (lit "export_statement")
    then unwrap prefix
    else if beq info.kind (lit "function_declaration")
        || beq info.kind (lit "generator_function_declaration")
    then item info prefix sep (lit "function") info.name_field
    else if beq info.kind (lit "class_declaration")
        || beq info.kind (lit "abstract_class_declaration")
    then container info prefix sep (lit "class") info.name_field
    else if beq info.kind (lit "interface_declaration")
    then item info prefix sep (lit "interface") info.name_field
    else if beq info.kind (lit "type_alias_declaration")
    then item info prefix sep (lit "type") info.name_field
    else if beq info.kind (lit "enum_declaration")
    then item info prefix sep (lit "enum") info.name_field
    else if beq info.kind (lit "method_definition")
    then item info prefix sep (lit "method") info.name_field
    else if beq info.kind (lit "lexical_declaration") || beq info.kind (lit "variable_declaration")
    then record { adds = declarators info prefix children; inside = none }
    else if beq info.kind (lit "internal_module")
    then scope prefix sep info.name_field
    else if beq info.kind (lit "class_body") || beq info.kind (lit "statement_block")
    then unwrap prefix
    else nothing

unfoldable pub visit : Language → Info → (prefix : Bytes) → Nodes → Visit
unfolding collect_rust collect_ts
visit rust info prefix children = collect_rust info prefix
visit (type_script tsx) info prefix children = collect_ts info prefix children

unfoldable pub walked : List Symbol → Option Bytes → (Bytes → List Symbol) → List Symbol
walked adds none recurse = adds
walked adds (some prefix) recurse = adds ++ recurse prefix

unfoldable mutual
  unfolding visit walked

  pub collect : Language → Nodes → (prefix : Bytes) → List Symbol
  collect language nil prefix = []
  collect language (cons child rest) prefix =
      collect_child language child prefix ++ collect language rest prefix

  pub collect_child : Language → Node → (prefix : Bytes) → List Symbol
  collect_child language (node info children) prefix =
      let visited = visit language info prefix children in
      walked visited.adds visited.inside (λ inner. collect language children inner)
