-- ===== src/SymbolDiff/Names.antt =====
-- What the symbols inside a container are called.
use Prim.Native.String.{String}
use clotho.Prelude.{
  ◌≡◌, refl, sym, ap, ◌∙◌, Bool, true, false, ◌||◌, Option, none, some, List, [], ◌∷◌, ◌++◌,
  append_assoc, All, All-append, All-mono, if◌then◌else◌, subst,
}
use clotho.Prelude.Bytes.{Bytes, lit, beq, is_empty}
use clotho.SymbolDiff.Collect.{
  Language, rust, type_script, Symbol, Info, Node, Nodes, node, nil, cons, Visit, push_symbol,
  qualified, nothing, item, container, scope, unwrap, separator, collect_rust, declarators,
  collect_ts, visit, walked, collect, collect_child,
}

abbrev pub StartsWith : (prefix text : Bytes) → Type 0
StartsWith prefix text = (rest : Bytes) × (text ≡ prefix ++ rest)

-- Symbols whose names start with `prefix`.
abbrev pub AreUnder : (prefix : Bytes) → List Symbol → Type 0
AreUnder prefix symbols = All (λ s. StartsWith prefix s.name) symbols

-- A walk that goes on under `prefix`, or under a longer name.
data IsInside (prefix full : Bytes) : Option Bytes → Type 0 where
  leaf : IsInside prefix full none
  stays : IsInside prefix full (some prefix)
  enters : (inner : Bytes) → StartsWith full inner → IsInside prefix full (some inner)

record Keeps (prefix sep : Bytes) (v : Visit) : Type 0 where
  names : AreUnder (prefix ++ sep) v.adds
  goes_on : IsInside prefix (prefix ++ sep) v.inside

module _ (prefix sep : Bytes) (nonempty : is_empty prefix ≡ false) where
  qualified-StartsWith : (name : Bytes) → StartsWith (prefix ++ sep) (qualified prefix sep name)
  unfolding qualified
  qualified-StartsWith name = (name, rw nonempty refl)

  nothing-Keeps : Keeps prefix sep nothing
  unfolding nothing
  nothing-Keeps = record { names = tt; goes_on = leaf }

  unwrap-Keeps : Keeps prefix sep (unwrap prefix)
  unfolding unwrap
  unwrap-Keeps = record { names = tt; goes_on = stays }

  item-Keeps :
      (info : Info) (kind : Bytes) (name : Option Bytes)
      → Keeps prefix sep (item info prefix sep kind name)
  unfolding item push_symbol
  item-Keeps info kind (some name) = record {
    names = (qualified-StartsWith name, tt);
    goes_on = leaf;
  }
  item-Keeps info kind none = nothing-Keeps

  container-Keeps :
      (info : Info) (kind : Bytes) (name : Option Bytes)
      → Keeps prefix sep (container info prefix sep kind name)
  unfolding container push_symbol
  container-Keeps info kind (some name) = record {
    names = (qualified-StartsWith name, tt);
    goes_on = enters (qualified prefix sep name) (qualified-StartsWith name);
  }
  container-Keeps info kind none = nothing-Keeps

  scope-Keeps : (name : Option Bytes) → Keeps prefix sep (scope prefix sep name)
  unfolding scope
  scope-Keeps (some name) = record {
    names = tt;
    goes_on = enters (qualified prefix sep name) (qualified-StartsWith name);
  }
  scope-Keeps none = nothing-Keeps

  either-Keeps :
      (test : Bool) {v w : Visit}
      → Keeps prefix sep v
      → Keeps prefix sep w
      → Keeps prefix sep (if test then v else w)
  either-Keeps true k l = k
  either-Keeps false k l = l

  declarators_under :
      (info : Info) (later : List Symbol) (test : Bool) (child : Info)
      → AreUnder (prefix ++ sep) later
      → AreUnder (prefix ++ sep) (
          if test
          then (item info prefix sep (lit "variable") child.name_field).adds ++ later
          else later)
  declarators_under info later true child h =
      All-append _ _ later (item-Keeps info (lit "variable") child.name_field).names h
  declarators_under info later false child h = h

module _ (prefix : Bytes) (nonempty : is_empty prefix ≡ false) where
  collect_rust-Keeps : (info : Info) → Keeps prefix (lit "::") (collect_rust info prefix)
  unfolding collect_rust
  collect_rust-Keeps info =
      either (is "function_item" || is "function_signature_item") (an_item "function") (
        either (is "struct_item") (an_item "struct") (
          either (is "enum_item") (an_item "enum") (
            either (is "union_item") (an_item "union") (
              either (is "trait_item")
                (container-Keeps prefix (lit "::") nonempty info (lit "trait") info.name_field)
                (either (is "type_item") (an_item "type") (
                  either (is "const_item") (an_item "const") (
                    either (is "static_item") (an_item "static") (
                      either (is "macro_definition") (an_item "macro") (
                        either (is "mod_item")
                          (scope-Keeps prefix (lit "::") nonempty info.name_field)
                          (either (is "impl_item")
                            (scope-Keeps prefix (lit "::") nonempty info.type_field)
                            (either (is "declaration_list")
                              (unwrap-Keeps prefix (lit "::") nonempty)
                              (nothing-Keeps prefix (lit "::") nonempty))))))))))))
    where
      is : (kind : String) → Bool
      is kind = beq info.kind (lit kind)

      an_item :
          (kind : String)
          → Keeps prefix (lit "::") (item info prefix (lit "::") (lit kind) info.name_field)
      an_item kind = item-Keeps prefix (lit "::") nonempty info (lit kind) info.name_field

      either :
          (test : Bool) {v w : Visit}
          → Keeps prefix (lit "::") v
          → Keeps prefix (lit "::") w
          → Keeps prefix (lit "::") (if test then v else w)
      either test = either-Keeps prefix (lit "::") nonempty test

  declarators_names :
      (info : Info) (children : Nodes)
      → AreUnder (prefix ++ lit ".") (declarators info prefix children)
  unfolding declarators
  declarators_names info nil = tt
  declarators_names info (cons (node child children) rest) =
      declarators_under prefix (lit ".") nonempty info (declarators info prefix rest)
        (beq child.kind (lit "variable_declarator")) child (declarators_names info rest)

  collect_ts-Keeps :
      (info : Info) (children : Nodes) → Keeps prefix (lit ".") (collect_ts info prefix children)
  unfolding collect_ts
  collect_ts-Keeps info children =
      either (is "export_statement") (unwrap-Keeps prefix (lit ".") nonempty) (
        either (is "function_declaration" || is "generator_function_declaration")
          (an_item "function")
          (either (is "class_declaration" || is "abstract_class_declaration")
            (container-Keeps prefix (lit ".") nonempty info (lit "class") info.name_field)
            (either (is "interface_declaration") (an_item "interface") (
              either (is "type_alias_declaration") (an_item "type") (
                either (is "enum_declaration") (an_item "enum") (
                  either (is "method_definition") (an_item "method") (
                    either (is "lexical_declaration" || is "variable_declaration")
                      (record { names = declarators_names info children; goes_on = leaf })
                      (either (is "internal_module")
                        (scope-Keeps prefix (lit ".") nonempty info.name_field)
                        (either (is "class_body" || is "statement_block")
                          (unwrap-Keeps prefix (lit ".") nonempty)
                          (nothing-Keeps prefix (lit ".") nonempty))))))))))
    where
      is : (kind : String) → Bool
      is kind = beq info.kind (lit kind)

      an_item :
          (kind : String)
          → Keeps prefix (lit ".") (item info prefix (lit ".") (lit kind) info.name_field)
      an_item kind = item-Keeps prefix (lit ".") nonempty info (lit kind) info.name_field

      either :
          (test : Bool) {v w : Visit}
          → Keeps prefix (lit ".") v
          → Keeps prefix (lit ".") w
          → Keeps prefix (lit ".") (if test then v else w)
      either test = either-Keeps prefix (lit ".") nonempty test

  visit-Keeps :
      (language : Language) (info : Info) (children : Nodes)
      → Keeps prefix (separator language) (visit language info prefix children)
  unfolding visit separator
  visit-Keeps rust info children = collect_rust-Keeps info
  visit-Keeps (type_script tsx) info children = collect_ts-Keeps info children

nonempty-append :
    (prefix rest : Bytes) → is_empty prefix ≡ false → is_empty (prefix ++ rest) ≡ false
nonempty-append [] rest h = cc
nonempty-append (c ∷ cs) rest h = refl

StartsWith-trans :
    (prefix sep inner text : Bytes)
    → StartsWith (prefix ++ sep) inner
    → StartsWith (inner ++ sep) text
    → StartsWith (prefix ++ sep) text
StartsWith-trans prefix sep inner text (rest, e) (more, e') = (
  rest ++ (sep ++ more),
  e'
      ∙ ap (λ x. x ++ sep ++ more) e
      ∙ append_assoc (prefix ++ sep ++ rest) sep more
      ∙ append_assoc (prefix ++ sep) rest (sep ++ more),
)

-- The walk of the children, under whichever prefix it goes on.
walked_under :
    (prefix sep : Bytes) (adds : List Symbol) (inside : Option Bytes)
    (recurse : Bytes → List Symbol)
    → is_empty prefix ≡ false
    → ((inner : Bytes) → is_empty inner ≡ false → AreUnder (inner ++ sep) (recurse inner))
    → AreUnder (prefix ++ sep) adds
    → IsInside prefix (prefix ++ sep) inside
    → AreUnder (prefix ++ sep) (walked adds inside recurse)
unfolding walked
walked_under prefix sep adds none recurse nonempty each h i = h
walked_under prefix sep adds (some _) recurse nonempty each h stays =
    All-append _ adds (recurse prefix) h (each prefix nonempty)
walked_under prefix sep adds (some _) recurse nonempty each h (enters inner (rest, e)) =
    All-append _ adds (recurse inner) h (
      All-mono (λ s. StartsWith (inner ++ sep) s.name) _ (recurse inner)
        (λ s. StartsWith-trans prefix sep inner s.name (rest, e))
        (each inner (
          subst (λ x. is_empty x ≡ false) (sym e)
            (nonempty-append (prefix ++ sep) rest (nonempty-append prefix sep nonempty)))))

-- Every symbol that is collected under a prefix has a name that starts with it and the separator.
mutual
  unfolding collect

  pub collect_under :
      (language : Language) (nodes : Nodes) (prefix : Bytes)
      → is_empty prefix ≡ false
      → AreUnder (prefix ++ separator language) (collect language nodes prefix)
  collect_under language nil prefix nonempty = tt
  collect_under language (cons child rest) prefix nonempty =
      All-append _ (collect_child language child prefix) (collect language rest prefix)
        (collect_child_under language child prefix nonempty)
        (collect_under language rest prefix nonempty)

  collect_child_under :
      (language : Language) (child : Node) (prefix : Bytes)
      → is_empty prefix ≡ false
      → AreUnder (prefix ++ separator language) (collect_child language child prefix)
  collect_child_under language (node info children) prefix nonempty =
      let k = visit-Keeps prefix nonempty language info children in
      walked_under prefix (separator language) _ _ (λ inner. collect language children inner)
        nonempty (λ inner. collect_under language children inner) k.names k.goes_on
