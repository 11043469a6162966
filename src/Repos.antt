-- ===== src/Repos.antt =====
-- crates/clotho-api-gateway/src/repos.rs: the pages of a list of repositories. A repository is what
-- the order reads of it, and base64 and JSON are parameters.
pub mod Order
pub mod Pages
mod Tests
use clotho.Prelude.{
  ℕ, ◌+◌, ◌≡◌, Bool, true, false, not, ◌&&◌, ◌||◌, Option, none, some, List, [], ◌∷◌, ◌++◌, take,
  length, leb, ltb, ◌==◌, if◌then◌else◌,
}
use clotho.Prelude.Bytes.{Bytes, beq, is_empty}
use clotho.Prelude.Results.{Result, ok, err, ◌>>=◌, ◌>>◌, guard, ok_or}
use clotho.ApiErrors.{ApiError, invalid_request}

-- `<` of `str`
unfoldable pub blt : Bytes → Bytes → Bool
blt [] [] = false
blt [] (y ∷ ys) = true
blt (x ∷ xs) [] = false
blt (x ∷ xs) (y ∷ ys) =
    let rest = blt xs ys in if ltb x y then true else if x == y then rest else false

pub record RepoInfo : Type 0 where
  pub name : Bytes
  pub updated_at : Bytes

pub record RepoCursor : Type 0 where
  pub version : ℕ
  pub updated_at : Bytes
  pub name : Bytes

pub record RepoListQuery : Type 0 where
  pub limit : Option ℕ
  pub cursor : Option Bytes

pub record RepoListResponse : Type 0 where
  pub repos : List RepoInfo
  pub next_cursor : Option Bytes

unfoldable pub default_page_size : ℕ
default_page_size = 100

unfoldable pub max_page_size : ℕ
max_page_size = 100

-- The comparison of the sort is `Less`.
unfoldable pub before : RepoInfo → RepoInfo → Bool
unfolding blt
before a b = blt b.updated_at a.updated_at || (beq a.updated_at b.updated_at && blt a.name b.name)

-- `sort_by`, which keeps the order of repositories that compare as equal.
unfoldable pub insert_repo : RepoInfo → List RepoInfo → List RepoInfo
unfolding before
insert_repo r [] = r ∷ []
insert_repo r (x ∷ xs) = let rest = insert_repo r xs in if before x r then x ∷ rest else r ∷ x ∷ xs

unfoldable pub sort_repos : List RepoInfo → List RepoInfo
unfolding insert_repo
sort_repos [] = []
sort_repos (r ∷ rs) = insert_repo r (sort_repos rs)

unfoldable pub is_after : Option RepoCursor → RepoInfo → Bool
unfolding blt
is_after none repo = true
is_after (some c) repo =
    blt repo.updated_at c.updated_at || (beq repo.updated_at c.updated_at && blt c.name repo.name)

unfoldable pub filter_after : Option RepoCursor → List RepoInfo → List RepoInfo
unfolding is_after
filter_after cursor [] = []
filter_after cursor (r ∷ rs) =
    let rest = filter_after cursor rs in if is_after cursor r then r ∷ rest else rest

-- `Vec::pop`, of which the rest is kept, and `last`.
unfoldable pub without_last : List RepoInfo → List RepoInfo
without_last [] = []
without_last (x ∷ []) = []
without_last (x ∷ y ∷ rest) = x ∷ without_last (y ∷ rest)

unfoldable pub last_repo : List RepoInfo → Option RepoInfo
last_repo [] = none
last_repo (x ∷ []) = some x
last_repo (x ∷ y ∷ rest) = last_repo (y ∷ rest)

unfoldable pub cursor_of : RepoInfo → RepoCursor
cursor_of repo = record { version = 1; updated_at = repo.updated_at; name = repo.name }

module _ (to_text : RepoCursor → Bytes) (decode : Bytes → Option Bytes)
    (from_slice : Bytes → Option RepoCursor) where
  unfoldable pub encode_repo_cursor : RepoInfo → Bytes
  unfolding cursor_of
  encode_repo_cursor repo = to_text (cursor_of repo)

  unfoldable pub decode_repo_cursor : Bytes → Result ApiError RepoCursor
  decode_repo_cursor value = do
    guard (not (is_empty value || ltb 2048 (length value)))
        (invalid_request "invalid repository cursor")
    bytes ← ok_or (decode value) (invalid_request "invalid repository cursor")
    cursor ← ok_or (from_slice bytes) (invalid_request "invalid repository cursor")
    guard (cursor.version == 1 && not (is_empty cursor.name))
        (invalid_request "invalid repository cursor")
    ok cursor

  unfoldable pub read_cursor : Option Bytes → Result ApiError (Option RepoCursor)
  unfolding decode_repo_cursor
  read_cursor none = ok none
  read_cursor (some value) = decode_repo_cursor value >>= λ cursor. ok (some cursor)

  encoded_last : Option RepoInfo → Option Bytes
  unfolding encode_repo_cursor
  encoded_last none = none
  encoded_last (some repo) = some (encode_repo_cursor repo)

  -- From the repositories after the cursor, one more than fit on the page.
  unfoldable pub page_of : (limit : ℕ) → (page : List RepoInfo) → RepoListResponse
  unfolding without_last last_repo encoded_last
  page_of limit page =
      if ltb limit (length page)
      then record {
        repos = without_last page;
        next_cursor = encoded_last (last_repo (without_last page));
      }
      else record { repos = page; next_cursor = none }

  unfoldable pub limit_of : Option ℕ → ℕ
  unfolding default_page_size
  limit_of (some limit) = limit
  limit_of none = default_page_size

  unfoldable pub paginate_repos : List RepoInfo → RepoListQuery → Result ApiError RepoListResponse
  unfolding max_page_size read_cursor sort_repos filter_after page_of limit_of
  paginate_repos repos query = do
    guard (leb 1 (limit_of query.limit) && leb (limit_of query.limit) max_page_size)
        (invalid_request "limit must be between 1 and 100")
    cursor ← read_cursor query.cursor
    ok (
        page_of (limit_of query.limit)
          (take (limit_of query.limit + 1) (filter_after cursor (sort_repos repos))))
