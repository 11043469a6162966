-- ===== src/SymbolDiff/Service.antt =====
-- The service: several files in one request, and what is sent of their reports.
use clotho.Prelude.{ℕ, Option, none, some, List, [], ◌∷◌, map}
use clotho.Prelude.Bytes.{Bytes}
use clotho.Prelude.Results.{Result, ok, err, ◌>>=◌}
use clotho.SymbolDiff.{DiffError, parser, not_utf8, ChangeStatus, SymbolChange, FileDiff, diff_file}
use clotho.SymbolDiff.Collect.{Language, Nodes}

pub data Status : Type 0 where
  invalid_argument internal : (message : Bytes) → Status

unfoldable pub error_status : DiffError → Status
error_status (not_utf8 path) = invalid_argument path
error_status (parser message) = internal message

-- A line that is absent is sent as 0.
pub record SentChange : Type 0 where
  pub name : Bytes
  pub kind : Bytes
  pub status : ChangeStatus
  pub old_start_line : ℕ
  pub old_end_line : ℕ
  pub new_start_line : ℕ
  pub new_end_line : ℕ

pub record SentDiff : Type 0 where
  pub path : Bytes
  pub language : Bytes
  pub status : ChangeStatus
  pub symbols : List SentChange

unfoldable pub start_of : Option (ℕ × ℕ) → ℕ
start_of none = 0
start_of (some (first, last)) = first

unfoldable pub end_of : Option (ℕ × ℕ) → ℕ
end_of none = 0
end_of (some (first, last)) = last

unfoldable pub or_empty : Option Bytes → Bytes
or_empty none = []
or_empty (some text) = text

unfoldable pub sent_change : SymbolChange → SentChange
unfolding start_of end_of
sent_change s = record {
  name = s.name;
  kind = s.kind;
  status = s.status;
  old_start_line = start_of s.old_lines;
  old_end_line = end_of s.old_lines;
  new_start_line = start_of s.new_lines;
  new_end_line = end_of s.new_lines;
}

unfoldable pub sent_diff : FileDiff → SentDiff
unfolding sent_change or_empty
sent_diff f = record {
  path = f.path;
  language = or_empty f.language;
  status = f.status;
  symbols = map sent_change f.symbols;
}

-- A file of a request: its path and its contents before and after.
pub record ChangedFile : Type 0 where
  pub path : Bytes
  pub old_content : Bytes
  pub new_content : Bytes

module _ (parse : Language → Bytes → Result Bytes Nodes) where
  unfoldable pub diff_all : List ChangedFile → Result DiffError (List FileDiff)
  unfolding diff_file
  diff_all [] = ok []
  diff_all (f ∷ files) =
      let rest = diff_all files in
      diff_file parse f.path f.old_content f.new_content >>= λ diff.
      rest >>= λ diffs. ok (diff ∷ diffs)

  sent_reply : Result DiffError (List FileDiff) → Result Status (List SentDiff)
  unfolding error_status sent_diff
  sent_reply (ok diffs) = ok (map sent_diff diffs)
  sent_reply (err e) = err (error_status e)

  unfoldable pub diff_files : List ChangedFile → Result Status (List SentDiff)
  unfolding diff_all sent_reply
  diff_files files = sent_reply (diff_all files)
