-- ===== src/Repos/Pages.antt =====
-- Following the cursors from the first page visits the whole list, in its order.
use clotho.Prelude.{
  zero, suc, ℕ, ◌+◌, ◌<◌, ◌≤◌, ◌≡◌, inl, inr, refl, sym, ap, subst, ◌∙◌, true, false, ◌&&◌, Option,
  none, some, List, [], ◌∷◌, ◌++◌, append_assoc, All, take, drop, length, length-drop, length-take,
  take-append-drop, take_of_le, leb, ltb, arith, Bool-cases,
}
use clotho.Prelude.Bytes.{Bytes, beq, beq_iff}
use clotho.Prelude.Results.{Result, ok, ◌>>=◌}
use clotho.ApiErrors.{ApiError}
use clotho.Repos.{
  RepoInfo, RepoCursor, before, insert_repo, sort_repos, is_after, filter_after, without_last,
  last_repo, cursor_of, encode_repo_cursor, decode_repo_cursor, read_cursor, page_of, limit_of,
  max_page_size, paginate_repos,
}
use clotho.Repos.Order.{
  IsSorted, HaveDistinctPlaces, before_irrefl, before_trans, sort_repos-IsSorted, All-sort_repos,
}

is_after-cursor_of : (c r : RepoInfo) → is_after (some (cursor_of c)) r ≡ before c r
unfolding is_after cursor_of before
is_after-cursor_of c r = elim (Bool-cases (beq c.updated_at r.updated_at)) [
  | inl same ↦
      let e = (beq_iff c.updated_at r.updated_at).0 same in
      rw (same, (beq_iff r.updated_at c.updated_at).1 (sym e)) refl
  | inr differs ↦ rw (differs, other differs) refl
]
  where
    other : beq c.updated_at r.updated_at ≡ false → beq r.updated_at c.updated_at ≡ false
    other d = elim (Bool-cases (beq r.updated_at c.updated_at)) [
      | inl e ↦
          cc (
            d,
            (beq_iff c.updated_at r.updated_at).1 (sym ((beq_iff r.updated_at c.updated_at).0 e)),
          )
      | inr e ↦ e
    ]

not_back : (a b : RepoInfo) → before a b ≡ true → before b a ≡ false
not_back a b h = elim (Bool-cases (before b a)) [
  | inl k ↦ cc (before_irrefl a, before_trans a b a h k)
  | inr k ↦ k
]

All_middle :
    (P : RepoInfo → Type 0) (xs : List RepoInfo) (c : RepoInfo) (ys : List RepoInfo)
    → All P (xs ++ c ∷ ys)
    → P c
All_middle P [] c ys (p, h) = p
All_middle P (x ∷ xs) c ys (p, h) = All_middle P xs c ys h

filter_kept :
    (c : RepoInfo) (ys : List RepoInfo)
    → All (λ y. before c y ≡ true) ys
    → filter_after (some (cursor_of c)) ys ≡ ys
unfolding filter_after
filter_kept c [] h = refl
filter_kept c (y ∷ ys) (p, h) =
    rw (is_after-cursor_of c y ∙ p) (ap (λ zs. y ∷ zs) (filter_kept c ys h))

-- What follows the cursor of `c` is what stands after `c`.
filter_after-sorted :
    (xs : List RepoInfo) (c : RepoInfo) (ys : List RepoInfo)
    → IsSorted (xs ++ c ∷ ys)
    → filter_after (some (cursor_of c)) (xs ++ c ∷ ys) ≡ ys
unfolding filter_after
filter_after-sorted [] c ys (p, s) =
    rw (is_after-cursor_of c c ∙ before_irrefl c) (filter_kept c ys p)
filter_after-sorted (x ∷ xs) c ys (p, s) =
    rw (is_after-cursor_of c x ∙ not_back x c (All_middle (λ y. before x y ≡ true) xs c ys p))
      (filter_after-sorted xs c ys s)

filter_unchanged : (xs : List RepoInfo) → filter_after none xs ≡ xs
unfolding filter_after is_after
filter_unchanged [] = refl
filter_unchanged (x ∷ xs) = ap (λ zs. x ∷ zs) (filter_unchanged xs)

without_last-take :
    (n : ℕ) (xs : List RepoInfo) → n < length xs → without_last (take (suc n) xs) ≡ take n xs
unfolding without_last
without_last-take n [] h = absurd (omega arith)
without_last-take zero (x ∷ xs) h = refl
without_last-take (suc n) (x ∷ []) h = absurd (omega arith)
without_last-take (suc n) (x ∷ y ∷ xs) h =
    ap (λ zs. x ∷ zs) (without_last-take n (y ∷ xs) (omega arith))

-- A list that is not empty ends with its last entry.
ends_with_last :
    (x : RepoInfo) (xs : List RepoInfo)
    → (init : List RepoInfo) × (last : RepoInfo) × (x ∷ xs ≡ init ++ last ∷ [])
      × (last_repo (x ∷ xs) ≡ some last)
unfolding last_repo
ends_with_last x [] = ([], x, refl, refl)
ends_with_last x (y ∷ xs) =
    let (init, last, e, l) = ends_with_last y xs in (x ∷ init, last, ap (λ zs. x ∷ zs) e, l)

module _ (to_text : RepoCursor → Bytes) (decode : Bytes → Option Bytes)
    (from_slice : Bytes → Option RepoCursor) where
  -- The cursor of a repository is accepted, as one that was sent.
  abbrev pub CursorReads : RepoInfo → Type 0
  CursorReads r =
      decode_repo_cursor to_text decode from_slice (encode_repo_cursor to_text decode from_slice r)
      ≡ ok (cursor_of r)

  read_back :
      (r : RepoInfo)
      → CursorReads r
      → read_cursor to_text decode from_slice
          (some (encode_repo_cursor to_text decode from_slice r))
        ≡ ok (some (cursor_of r))
  unfolding read_cursor
  read_back r h = rw h refl

  page_small :
      (limit : ℕ) (rest : List RepoInfo)
      → length rest ≤ limit
      → page_of to_text decode from_slice limit (take (limit + 1) rest)
        ≡ record { repos = rest; next_cursor = none }
  unfolding page_of
  page_small limit rest h =
      let short : ltb limit (length rest) ≡ false = ground arith in
      rw (take_of_le (limit + 1) rest (omega arith), short) refl

  page_full :
      (limit : ℕ) (rest init : List RepoInfo) (last : RepoInfo)
      → limit < length rest
      → take limit rest ≡ init ++ last ∷ []
      → last_repo (take limit rest) ≡ some last
      → page_of to_text decode from_slice limit (take (limit + 1) rest) ≡ record {
        repos = take limit rest;
        next_cursor = some (encode_repo_cursor to_text decode from_slice last);
      }
  unfolding page_of
  page_full limit rest init last h e l =
      let more : limit + 1 ≡ suc limit = omega arith in
      let long : ltb limit (length (take (suc limit) rest)) ≡ true =
        rw (length-take (suc limit) rest) (ground arith) in
      rw (more, long, without_last-take limit rest h, l) refl

  -- The pages from a cursor on, one after the other; out of fuel there are none.
  unfoldable pub follow :
      (limit : ℕ)
      → List RepoInfo
      → (fuel : ℕ) → (cursor : Option Bytes) → Result ApiError (List RepoInfo)
  unfolding paginate_repos
  follow limit repos zero cursor = ok []
  follow limit repos (suc fuel) cursor =
      paginate_repos to_text decode from_slice repos
        (record { limit = some limit; cursor = cursor })
      >>= λ page. elim page.next_cursor [
        | none ↦ ok page.repos
        | some next ↦ follow limit repos fuel (some next) >>= λ rest. ok (page.repos ++ rest)
      ]

  module _ (limit : ℕ) (positive : 1 ≤ limit) (fits : limit ≤ max_page_size) (repos : List RepoInfo)
      (distinct : HaveDistinctPlaces repos) (reads : All CursorReads repos) where
    paginated :
        (cursor : Option Bytes) (c : Option RepoCursor) (rest : List RepoInfo)
        → read_cursor to_text decode from_slice cursor ≡ ok c
        → filter_after c (sort_repos repos) ≡ rest
        → paginate_repos to_text decode from_slice repos
            (record { limit = some limit; cursor = cursor })
          ≡ ok (page_of to_text decode from_slice limit (take (limit + 1) rest))
    unfolding paginate_repos limit_of
    paginated cursor c rest r f =
        let allowed : (leb 1 limit && leb limit max_page_size) ≡ true = ground arith in
        rw (allowed, r, f) refl

    follow-rest :
        (fuel : ℕ) (cursor : Option Bytes) (c : Option RepoCursor) (done rest : List RepoInfo)
        → sort_repos repos ≡ done ++ rest
        → read_cursor to_text decode from_slice cursor ≡ ok c
        → filter_after c (sort_repos repos) ≡ rest
        → length rest < fuel
        → follow limit repos fuel cursor ≡ ok rest
    unfolding follow
    follow-rest zero cursor c done rest s r f h = absurd (omega arith)
    follow-rest (suc fuel) cursor c done rest s r f h =
        elim (Bool-cases (ltb limit (length rest))) [
          | inr short ↦ rw (paginated cursor c rest r f, page_small limit rest (ground arith)) refl
          | inl long ↦
              let (init, last, e, l) =
                last_of (take limit rest) (rw (length-take limit rest) (ground arith)) in
              let split : sort_repos repos ≡ done ++ init ++ last ∷ drop limit rest =
                s
                ∙ ap (λ x. done ++ x)
                    (sym (take-append-drop limit rest) ∙ ap (λ x. x ++ drop limit rest) e)
                ∙ shuffle done init last (drop limit rest) in
              let sorted : IsSorted (done ++ init ++ last ∷ drop limit rest) =
                subst IsSorted split (sort_repos-IsSorted repos distinct) in
              let follows =
                follow-rest fuel (some (encode_repo_cursor to_text decode from_slice last))
                  (some (cursor_of last)) (done ++ init ++ last ∷ []) (drop limit rest)
                  (split ∙ sym (append_assoc (done ++ init) (last ∷ []) (drop limit rest)))
                  (read_back last (
                    All_middle CursorReads (done ++ init) last (drop limit rest)
                      (subst (All CursorReads) split (All-sort_repos CursorReads repos reads))))
                  (ap (filter_after (some (cursor_of last))) split
                    ∙ filter_after-sorted (done ++ init) last (drop limit rest) sorted)
                  (rw (length-drop limit rest) (ground arith)) in
              rw
                (
                  paginated cursor c rest r f,
                  page_full limit rest init last (ground arith) e l,
                  follows,
                )
                (ap ok (take-append-drop limit rest))
        ]
      where
        last_of :
            (xs : List RepoInfo)
            → 0 < length xs
            → (init : List RepoInfo) × (last : RepoInfo) × (xs ≡ init ++ last ∷ [])
              × (last_repo xs ≡ some last)
        last_of [] h = absurd (omega arith)
        last_of (x ∷ xs) h = ends_with_last x xs

        shuffle :
            (done init : List RepoInfo) (last : RepoInfo) (rest : List RepoInfo)
            → done ++ (init ++ last ∷ [] ++ rest) ≡ done ++ init ++ last ∷ rest
        shuffle done init last rest =
            ap (λ x. done ++ x) (append_assoc init (last ∷ []) rest)
            ∙ sym (append_assoc done init (last ∷ rest))

length-insert_repo :
    (r : RepoInfo) (xs : List RepoInfo) → length (insert_repo r xs) ≡ suc (length xs)
unfolding insert_repo
length-insert_repo r [] = refl
length-insert_repo r (x ∷ xs) = elim (Bool-cases (before x r)) [
  | inl first ↦ rw first (ap suc (length-insert_repo r xs))
  | inr later ↦ rw later refl
]

length-sort_repos : (xs : List RepoInfo) → length (sort_repos xs) ≡ length xs
unfolding sort_repos
length-sort_repos [] = refl
length-sort_repos (x ∷ xs) = length-insert_repo x (sort_repos xs) ∙ ap suc (length-sort_repos xs)

-- A client that follows the cursors from the first page reaches the end, after no more requests than
-- there are repositories and one, and has then got the whole sorted list: each repository once and
-- each before those that follow it, if no two have the same time and name, the cursors that are sent
-- are read back, and the limit is between 1 and 100.
pub follow-reaches_end :
    (to_text : RepoCursor → Bytes) (decode : Bytes → Option Bytes)
    (from_slice : Bytes → Option RepoCursor) (limit : ℕ) (repos : List RepoInfo)
    → 1 ≤ limit
    → limit ≤ max_page_size
    → HaveDistinctPlaces repos
    → All (CursorReads to_text decode from_slice) repos
    → (follow to_text decode from_slice limit repos (suc (length repos)) none
        ≡ ok (sort_repos repos))
      × IsSorted (sort_repos repos)
unfolding read_cursor
follow-reaches_end to_text decode from_slice limit repos positive fits distinct reads = (
  follow-rest to_text decode from_slice limit positive fits repos distinct reads
      (suc (length repos)) none none [] (sort_repos repos) refl refl
      (filter_unchanged (sort_repos repos)) (omega (arith, length-sort_repos repos)),
  sort_repos-IsSorted repos distinct,
)
