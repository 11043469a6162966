-- ===== src/SymbolDiff.antt =====
-- crates/clotho-diff/src/engine.rs and service.rs: what changed between two versions of a file,
-- symbol by symbol. The parser, tree-sitter, is a parameter: it gives the tree of a text, or the
-- message of its error. An error of UTF-8 keeps the path, without the library's message.
pub mod Collect
pub mod Changes
pub mod Names
pub mod Containers
pub mod Service
mod Tests
use clotho.Prelude.{
  ℕ, Bool, true, false, not, ◌&&◌, Option, none, some, List, [], ◌∷◌, ◌++◌, map, ◌==◌,
  if◌then◌else◌,
}
use clotho.Prelude.Bytes.{Bytes, lit, beq, is_empty}
use clotho.Prelude.Results.{Result, ok, err, ◌>>=◌}
use clotho.Prelude.Utf8.{is_utf8}
use clotho.SymbolDiff.Collect.{Language, rust, type_script, Symbol, Nodes, collect}

pub data DiffError : Type 0 where
  parser not_utf8 : Bytes → DiffError

pub data ChangeStatus : Type 0 where
  added modified removed : ChangeStatus

pub record SymbolChange : Type 0 where
  pub name : Bytes
  pub kind : Bytes
  pub status : ChangeStatus
  pub old_lines : Option (ℕ × ℕ)
  pub new_lines : Option (ℕ × ℕ)

pub record FileDiff : Type 0 where
  pub path : Bytes
  pub language : Option Bytes
  pub status : ChangeStatus
  pub symbols : List SymbolChange

-- `path.rsplit_once('.')?.1`
unfoldable pub extension : Bytes → Option Bytes
extension [] = none
extension (c ∷ cs) = elim (extension cs) [
  | some found ↦ some found
  | none ↦ if c == b'.' then some cs else none
]

unfoldable pub language_of : (ext : Bytes) → Option Language
language_of ext =
    if beq ext (lit "rs")
    then some rust
    else if beq ext (lit "ts")
    then some (type_script false)
    else if beq ext (lit "mts")
    then some (type_script false)
    else if beq ext (lit "cts")
    then some (type_script false)
    else if beq ext (lit "tsx")
    then some (type_script true)
    else none

unfoldable pub detect : (path : Bytes) → Option Language
unfolding extension language_of
detect path = elim (extension path) [ some ext ↦ language_of ext | none ↦ none ]

unfoldable pub language_name : Language → Bytes
language_name rust = lit "rust"
language_name (type_script tsx) = lit "typescript"

-- The same name and kind.
unfoldable pub same_symbol : Symbol → Symbol → Bool
same_symbol a b = beq a.name b.name && beq a.kind b.kind

-- `new_symbols.iter().find(…)`
unfoldable pub find_symbol : Symbol → List Symbol → Option Symbol
unfolding same_symbol
find_symbol s [] = none
find_symbol s (x ∷ xs) = if same_symbol x s then some x else find_symbol s xs

unfoldable pub line_range : Symbol → Option (ℕ × ℕ)
line_range s = some (s.start_line, s.end_line)

change : Symbol → ChangeStatus → (old_lines new_lines : Option (ℕ × ℕ)) → SymbolChange
change s status old_lines new_lines = record {
  name = s.name;
  kind = s.kind;
  status = status;
  old_lines = old_lines;
  new_lines = new_lines;
}

-- What is reported of a symbol of the old side, by its match on the new one.
unfoldable pub old_change : Symbol → Option Symbol → List SymbolChange
unfolding line_range change
old_change o (some n) =
    if beq n.text o.text then [] else change o modified (line_range o) (line_range n) ∷ []
old_change o none = change o removed (line_range o) none ∷ []

-- What is reported of a symbol of the new side.
unfoldable pub new_change : Symbol → Option Symbol → List SymbolChange
unfolding line_range change
new_change n (some o) = []
new_change n none = change n added none (line_range n) ∷ []

unfoldable pub old_changes : (old_symbols new_symbols : List Symbol) → List SymbolChange
unfolding old_change find_symbol
old_changes [] new_symbols = []
old_changes (o ∷ olds) new_symbols =
    old_change o (find_symbol o new_symbols) ++ old_changes olds new_symbols

unfoldable pub new_changes : (new_symbols old_symbols : List Symbol) → List SymbolChange
unfolding new_change find_symbol
new_changes [] old_symbols = []
new_changes (n ∷ news) old_symbols =
    new_change n (find_symbol n old_symbols) ++ new_changes news old_symbols

-- The two loops.
unfoldable pub changes : (old_symbols new_symbols : List Symbol) → List SymbolChange
unfolding old_changes new_changes
changes old_symbols new_symbols =
    old_changes old_symbols new_symbols ++ new_changes new_symbols old_symbols

unfoldable pub file_status : (old new : Bytes) → ChangeStatus
file_status old new = if is_empty old then added else if is_empty new then removed else modified

module _ (parse : Language → Bytes → Result Bytes Nodes) where
  parsed : Language → Result Bytes Nodes → Result DiffError (List Symbol)
  unfolding collect
  parsed language (ok nodes) = ok (collect language nodes [])
  parsed language (err message) = err (parser message)

  unfoldable pub extract_symbols :
      (path : Bytes) → Language → (content : Bytes) → Result DiffError (List Symbol)
  unfolding parsed is_utf8
  extract_symbols path language content =
      if is_empty content
      then ok []
      else if not (is_utf8 content)
      then err (not_utf8 path)
      else parsed language (parse language content)

  diff_as : (path old new : Bytes) → Option Language → Result DiffError FileDiff
  unfolding extract_symbols changes file_status language_name
  diff_as path old new none =
      ok (record { path = path; language = none; status = file_status old new; symbols = [] })
  diff_as path old new (some language) = do
    old_symbols ← extract_symbols path language old
    new_symbols ← extract_symbols path language new
    ok (record {
      path = path;
      language = some (language_name language);
      status = file_status old new;
      symbols = changes old_symbols new_symbols;
    })

  unfoldable pub diff_file : (path old new : Bytes) → Result DiffError FileDiff
  unfolding detect diff_as
  diff_file path old new = diff_as path old new (detect path)
