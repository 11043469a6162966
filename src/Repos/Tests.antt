-- ===== src/Repos/Tests.antt =====
-- Pages of three repositories. A cursor is written as its version, the length of its time, and its texts.
use clotho.Prelude.{
  suc, ◌≡◌, refl, Option, none, some, List, [], ◌∷◌, ◌++◌, length, take, drop, arith,
}
use clotho.Prelude.Bytes.{Bytes, lit, text_code}
use clotho.Prelude.Results.{ok, err}
use clotho.ApiErrors.{invalid_request}
use clotho.Repos.{
  RepoInfo, RepoCursor, blt, before, insert_repo, sort_repos, max_page_size, paginate_repos,
  cursor_of, encode_repo_cursor, decode_repo_cursor, read_cursor, limit_of, page_of, filter_after,
  is_after, without_last, last_repo,
}
use clotho.Repos.Order.{IsSorted, same_place}
use clotho.Repos.Pages.{follow, follow-reaches_end}

page_code : Unit {0}
unfolding paginate_repos sort_repos insert_repo before blt cursor_of encode_repo_cursor
    decode_repo_cursor read_cursor limit_of page_of filter_after is_after without_last last_repo
    max_page_size same_place text_code
page_code = tt

abbrev written : RepoCursor → Bytes
written c = c.version ∷ length c.updated_at ∷ (c.updated_at ++ c.name)

abbrev read : Bytes → Option RepoCursor
read (version ∷ n ∷ rest) =
    some (record { version = version; updated_at = take n rest; name = drop n rest })
read _ = none

abbrev repo : (name updated_at : Bytes) → RepoInfo
repo name updated_at = record { name = name; updated_at = updated_at }

abbrev three : List RepoInfo
unfolding lit
three = repo (lit "b") (lit "2024") ∷ repo (lit "c") [] ∷ repo (lit "a") (lit "2024") ∷ []

newest_first :
    sort_repos three
    ≡ repo (lit "a") (lit "2024") ∷ repo (lit "b") (lit "2024") ∷ repo (lit "c") [] ∷ []
unfolding page_code
newest_first = refl

no_page :
    paginate_repos written some read three (record { limit = some 0; cursor = none })
    ≡ err (invalid_request "limit must be between 1 and 100")
unfolding page_code
no_page = refl

bad_cursor :
    paginate_repos written some read three (record { limit = none; cursor = some [] })
    ≡ err (invalid_request "invalid repository cursor")
unfolding page_code
bad_cursor = refl

follow-reaches_end_example :
    (follow written some read 2 three (suc (length three)) none ≡ ok (sort_repos three))
    × IsSorted (sort_repos three)
unfolding page_code
follow-reaches_end_example =
    follow-reaches_end written some read 2 three (omega arith) (omega arith)
      ((refl, (refl, tt)), ((refl, tt), (tt, tt))) (refl, (refl, (refl, tt)))
