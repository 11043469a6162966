-- ===== src/SymbolDiff/Tests.antt =====
-- Reports on concrete symbols and trees.
use clotho.Prelude.{◌≡◌, refl, false, none, some, [], ◌∷◌, ◌++◌, map}
use clotho.Prelude.Bytes.{Bytes, lit, is_empty, text_code}
use clotho.SymbolDiff.Collect.{
  rust, type_script, Symbol, Info, Nodes, node, nil, cons, collect, collect_child, qualified, visit,
  walked, separator, line_number,
}
use clotho.SymbolDiff.{
  modified, removed, same_symbol, find_symbol, change, changes, old_changes, new_changes,
  old_change, new_change, line_range, detect, extension, language_of,
}
use clotho.SymbolDiff.Names.{AreUnder}
use clotho.SymbolDiff.Containers.{ts_class, own_symbols, collect_child-AreUnder}
use clotho.SymbolDiff.Changes.{find_change, reported, changes-reported}

diff_code : Unit {0}
unfolding changes old_changes new_changes old_change new_change find_symbol same_symbol change
    line_range text_code collect visit walked separator detect extension language_of line_number
    find_change reported
diff_code = tt

abbrev function : (name text : Bytes) → Symbol
unfolding lit
function name text = record {
  name = name;
  kind = lit "function";
  text = text;
  start_line = 1;
  end_line = 2;
}

abbrev parse_old : Symbol
unfolding lit
parse_old = function (lit "parse") (lit "a")

abbrev parse_new : Symbol
unfolding lit
parse_new = function (lit "parse") (lit "b")

abbrev print : Symbol
unfolding lit
print = function (lit "print") (lit "c")

by_extension : detect (lit "web/app.d.ts") ≡ some (type_script false)
unfolding diff_code
by_extension = refl

changed :
    changes (parse_old ∷ print ∷ []) (parse_new ∷ [])
    ≡ change parse_old modified (line_range parse_old) (line_range parse_new)
      ∷ change print removed (line_range print) none
      ∷ []
unfolding diff_code
changed = refl

-- Two functions of one name, as two traits' `fmt` of one type: the second is compared with the
-- first one of the new side.
same_name_twice :
    changes (parse_old ∷ parse_new ∷ []) (parse_old ∷ parse_new ∷ [])
    ≡ change parse_new modified (line_range parse_new) (line_range parse_old) ∷ []
unfolding diff_code
same_name_twice = refl

abbrev info : (kind name : Bytes) → Info
info kind name = record {
  kind = kind;
  name_field = some name;
  type_field = none;
  text = [];
  start_row = 0;
  end_row = 4;
}

abbrev tree : Nodes
unfolding lit
tree =
    cons
      (node (info (lit "mod_item") (lit "m"))
        (cons (node (info (lit "function_item") (lit "f")) nil) nil))
      nil

collected : map (λ s. s.name) (collect rust tree []) ≡ lit "m::f" ∷ []
unfolding diff_code
collected = refl

changes-reported_example :
    find_change parse_new (changes (parse_old ∷ print ∷ []) (parse_new ∷ []))
    ≡ reported
        (find_symbol parse_new (parse_old ∷ print ∷ []))
        (find_symbol parse_new (parse_new ∷ []))
unfolding diff_code
changes-reported_example =
    changes-reported parse_new (parse_old ∷ print ∷ []) (parse_new ∷ []) ((refl, tt), (tt, tt))

abbrev class_info : Info
unfolding lit
class_info = info (lit "class_declaration") (lit "Queue")

abbrev class_children : Nodes
unfolding lit
class_children =
    cons
      (node (info (lit "class_body") (lit "body"))
        (cons (node (info (lit "method_definition") (lit "pop")) nil) nil))
      nil

method_name :
    map (λ s. s.name) (collect (type_script false) class_children (lit "app.Queue"))
    ≡ lit "app.Queue.pop" ∷ []
unfolding diff_code
method_name = refl

class_kind : class_info.kind ≡ lit "class_declaration"
unfolding diff_code class_info
class_kind = refl

class_name : class_info.name_field ≡ some (lit "Queue")
unfolding diff_code class_info
class_name = refl

class_named : is_empty (lit "Queue") ≡ false
unfolding diff_code
class_named = refl

collect_child-AreUnder_example :
    (collect_child (type_script false) (node class_info class_children) (lit "app")
      ≡ own_symbols class_info
          (qualified (lit "app") (separator (type_script false)) (lit "Queue"))
          (some (lit "class"))
        ++ collect
            (type_script false)
            class_children
            (qualified (lit "app") (separator (type_script false)) (lit "Queue")))
    × AreUnder
        (qualified (lit "app") (separator (type_script false)) (lit "Queue")
          ++ separator (type_script false))
        (collect
          (type_script false)
          class_children
          (qualified (lit "app") (separator (type_script false)) (lit "Queue")))
collect_child-AreUnder_example =
    collect_child-AreUnder (type_script false) class_info class_children (lit "app") (lit "Queue")
      (some (lit "class")) (ts_class false class_info (lit "Queue") class_kind class_name)
      class_named
