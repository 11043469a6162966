-- ===== src/SymbolDiff/Containers.antt =====
-- Which syntax nodes name what stands inside them, and that the walk uses their names.
use clotho.Prelude.{◌≡◌, refl, Bool, false, Option, none, some, List, [], ◌∷◌, ◌++◌}
use clotho.Prelude.Bytes.{Bytes, lit, is_empty, text_code}
use clotho.SymbolDiff.Collect.{
  Language, rust, type_script, Symbol, Info, Nodes, node, push_symbol, qualified, container, scope,
  separator, collect_rust, collect_ts, visit, collect, collect_child,
}
use clotho.SymbolDiff.Names.{AreUnder, collect_under}

-- The nodes of the two grammars that name their contents, with the kind of symbol that they are
-- themselves, if they are one. An `impl` is named by its type.
pub data IsContainer : Language → Info → (name : Bytes) → (own : Option Bytes) → Type 0 where
  rust_trait :
      (info : Info) (name : Bytes)
      → info.kind ≡ lit "trait_item"
      → info.name_field ≡ some name
      → IsContainer rust info name (some (lit "trait"))
  rust_mod :
      (info : Info) (name : Bytes)
      → info.kind ≡ lit "mod_item"
      → info.name_field ≡ some name
      → IsContainer rust info name none
  rust_impl :
      (info : Info) (name : Bytes)
      → info.kind ≡ lit "impl_item"
      → info.type_field ≡ some name
      → IsContainer rust info name none
  ts_class :
      (tsx : Bool) (info : Info) (name : Bytes)
      → info.kind ≡ lit "class_declaration"
      → info.name_field ≡ some name
      → IsContainer (type_script tsx) info name (some (lit "class"))
  ts_abstract_class :
      (tsx : Bool) (info : Info) (name : Bytes)
      → info.kind ≡ lit "abstract_class_declaration"
      → info.name_field ≡ some name
      → IsContainer (type_script tsx) info name (some (lit "class"))
  ts_namespace :
      (tsx : Bool) (info : Info) (name : Bytes)
      → info.kind ≡ lit "internal_module"
      → info.name_field ≡ some name
      → IsContainer (type_script tsx) info name none

abbrev pub own_symbols : Info → (full : Bytes) → (own : Option Bytes) → List Symbol
own_symbols info full none = []
own_symbols info full (some kind) = push_symbol info kind full ∷ []

visit-IsContainer :
    {language : Language} {info : Info} {name : Bytes} {own : Option Bytes}
    → IsContainer language info name own
    → (prefix : Bytes) (children : Nodes)
    → (let full = qualified prefix (separator language) name in
        visit language info prefix children
        ≡ record { adds = own_symbols info full own; inside = some full })
unfolding visit collect_rust collect_ts container scope separator text_code
visit-IsContainer (rust_trait info name k n) prefix children = rw (k, n) refl
visit-IsContainer (rust_mod info name k n) prefix children = rw (k, n) refl
visit-IsContainer (rust_impl info name k n) prefix children = rw (k, n) refl
visit-IsContainer (ts_class tsx info name k n) prefix children = rw (k, n) refl
visit-IsContainer (ts_abstract_class tsx info name k n) prefix children = rw (k, n) refl
visit-IsContainer (ts_namespace tsx info name k n) prefix children = rw (k, n) refl

-- Both parts of the name of a container that is not empty are in it.
nonempty-qualified :
    (prefix sep name : Bytes) → is_empty name ≡ false → is_empty (qualified prefix sep name) ≡ false
unfolding qualified
nonempty-qualified [] sep name h = h
nonempty-qualified (c ∷ cs) sep name h = refl

-- A container with a name that is not empty, whatever prefix it stands under, yields its own symbol
-- under its qualified name, if it is a symbol, and then those of its children, each of which has at
-- whatever depth a name that starts with the container's qualified name and the separator of the
-- language.
pub collect_child-AreUnder :
    (language : Language) (info : Info) (children : Nodes) (prefix name : Bytes)
    (own : Option Bytes)
    → IsContainer language info name own
    → is_empty name ≡ false
    → (let full = qualified prefix (separator language) name in
        (collect_child language (node info children) prefix
          ≡ own_symbols info full own ++ collect language children full)
        × AreUnder (full ++ separator language) (collect language children full))
unfolding collect_child
collect_child-AreUnder language info children prefix name own k nonempty =
    let full = qualified prefix (separator language) name in
    (
      rw (visit-IsContainer k prefix children) refl,
      collect_under language children full
          (nonempty-qualified prefix (separator language) name nonempty),
    )
