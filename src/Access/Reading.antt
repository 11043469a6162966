-- ===== src/Access/Reading.antt =====
-- Who may read a repository, and what the others learn of it.
use clotho.Prelude.{
  ◌≡◌, ◌≢◌, inl, inr, ap, subst, ◌∙◌, true, false, Option, none, some, List, [], ◌∷◌, arith,
  Bool-cases,
}
use clotho.Prelude.Bytes.{Bytes, lit, beq, beq_iff}
use clotho.Prelude.Http.{Header}
use clotho.Prelude.Results.{ok, err, ◌>>=◌, ok_or, >>=-eq-ok, ok_or-eq-ok, ok-injective}
use clotho.Access.{
  RepoWithOrg, AuthContext, Database, AppState, single_repo, get_repo_with_org, has_repo_permission,
}
use clotho.Access.Routes.{
  hidden_repo, resolve_optional_human_auth, found_read, private_read, require_repo_read,
}

-- Somebody may read a repository: it is public, or they are a person with the permission.
pub data MayRead (db : Database) (repo : RepoWithOrg) : Option AuthContext → Type 0 where
  public_repo : {who : Option AuthContext} → repo.visibility ≡ lit "public" → MayRead db repo who
  has_permission :
      {person : AuthContext}
      → has_repo_permission db repo person.user_id (lit "read") ≡ ok true
      → MayRead db repo (some person)

single_repo-eq-some :
    (rows : List RepoWithOrg) {repo : RepoWithOrg} → single_repo rows ≡ some repo → rows ≡ repo ∷ []
unfolding single_repo
single_repo-eq-some [] h = cc
single_repo-eq-some (r ∷ []) h = cc
single_repo-eq-some (r ∷ s ∷ rows) h = cc

private_read-MayRead :
    (state : AppState) (db : Database) (r repo : RepoWithOrg) (who : Option AuthContext)
    → private_read state db r who ≡ ok repo
    → (r ≡ repo) × MayRead db r who
unfolding private_read
private_read-MayRead state db r repo none h = cc
private_read-MayRead state db r repo (some person) h =
    let (allowed, asked, h1) =
      >>=-eq-ok (has_repo_permission db r person.user_id (lit "read")) _ h in
    elim (Bool-cases allowed) [
      | inl holds ↦ (ok-injective (rw holds at h1), has_permission (asked ∙ ap ok holds))
      | inr fails ↦ cc (rw fails at h1)
    ]

found_read-MayRead :
    (state : AppState) (db : Database) (who : Option AuthContext) (r repo : RepoWithOrg)
    → found_read state db who r ≡ ok repo
    → (r ≡ repo) × MayRead db r who
unfolding found_read
found_read-MayRead state db who r repo h = elim (Bool-cases (beq r.visibility (lit "public"))) [
  | inl holds ↦
      (ok-injective (rw holds at h), public_repo ((beq_iff r.visibility (lit "public")).0 holds))
  | inr fails ↦ private_read-MayRead state db r repo who (rw fails at h)
]

-- What a name leads to, for a caller who has been resolved.
lookup-MayRead :
    (state : AppState) (db : Database) (who : Option AuthContext) (repo_name : Bytes)
    (repo : RepoWithOrg)
    → (get_repo_with_org db repo_name >>= λ found.
        ok_or found hidden_repo >>= λ r. found_read state db who r)
      ≡ ok repo
    → (db.repos_named repo_name ≡ ok (repo ∷ [])) × MayRead db repo who
unfolding get_repo_with_org
lookup-MayRead state db who repo_name repo h =
    let (found, got, h1) =
      >>=-eq-ok (db.repos_named repo_name >>= λ rows. ok (single_repo rows)) _ h in
    let (r, one, h2) = >>=-eq-ok (ok_or found hidden_repo) _ h1 in
    let (same, may) = found_read-MayRead state db who r repo h2 in
    let (rows, queried, single) = >>=-eq-ok (db.repos_named repo_name) _ got in
    let only =
      single_repo-eq-some rows
        (ok-injective single ∙ ok_or-eq-ok found hidden_repo one ∙ ap some same) in
    (queried ∙ ap ok only, subst (λ x. MayRead db x who) same may)

-- With a control plane, a repository is returned only if it is the one repository of that name
-- and the caller, as their credential resolves, may read it.
pub require_repo_read-MayRead :
    (state : AppState) (db : Database) (headers : Header) (repo_name : Bytes) (repo : RepoWithOrg)
    → state.pool ≡ some db
    → require_repo_read state headers repo_name ≡ ok repo
    → (db.repos_named repo_name ≡ ok (repo ∷ []))
      × ((who : Option AuthContext) × (resolve_optional_human_auth state headers ≡ ok who)
          × MayRead db repo who)
unfolding require_repo_read
require_repo_read-MayRead state db headers repo_name repo pool h =
    let (who, resolved, h1) = >>=-eq-ok (resolve_optional_human_auth state headers) _ h in
    let (only, may) = lookup-MayRead state db who repo_name repo (rw pool at h1) in
    (only, (who, resolved, may))

-- The repositories that are not shown to a caller: none or several of the name, or one that is not
-- public where the caller is nobody or has no permission.
pub data IsConcealed (db : Database) (repo_name : Bytes) : Option AuthContext → Type 0 where
  missing :
      {who : Option AuthContext} → db.repos_named repo_name ≡ ok [] → IsConcealed db repo_name who
  ambiguous :
      {who : Option AuthContext} (r s : RepoWithOrg) (rows : List RepoWithOrg)
      → db.repos_named repo_name ≡ ok (r ∷ s ∷ rows)
      → IsConcealed db repo_name who
  no_person :
      (r : RepoWithOrg)
      → db.repos_named repo_name ≡ ok (r ∷ [])
      → r.visibility ≢ lit "public"
      → IsConcealed db repo_name none
  no_permission :
      (r : RepoWithOrg) (person : AuthContext)
      → db.repos_named repo_name ≡ ok (r ∷ [])
      → r.visibility ≢ lit "public"
      → has_repo_permission db r person.user_id (lit "read") ≡ ok false
      → IsConcealed db repo_name (some person)

not_public :
    (r : RepoWithOrg) → r.visibility ≢ lit "public" → beq r.visibility (lit "public") ≡ false
not_public r h = ground (arith, beq_iff r.visibility (lit "public"))

lookup-hidden :
    (state : AppState) (db : Database) (repo_name : Bytes) {who : Option AuthContext}
    → IsConcealed db repo_name who
    → (get_repo_with_org db repo_name >>= λ found.
        ok_or found hidden_repo >>= λ r. found_read state db who r)
      ≡ err hidden_repo
unfolding get_repo_with_org found_read private_read
lookup-hidden state db repo_name (missing q) = rw q
lookup-hidden state db repo_name (ambiguous r s rows q) = rw q
lookup-hidden state db repo_name (no_person r q h) = rw (q, not_public r h)
lookup-hidden state db repo_name (no_permission r person q h p) = rw (q, not_public r h, p)

-- With a control plane and a credential that resolves, a caller gets the same answer for a
-- repository that they may not read, for a name that nobody has and for an ambiguous one.
pub require_repo_read-hidden :
    (state : AppState) (db : Database) (headers : Header) (repo_name : Bytes)
    (who : Option AuthContext)
    → state.pool ≡ some db
    → resolve_optional_human_auth state headers ≡ ok who
    → IsConcealed db repo_name who
    → require_repo_read state headers repo_name ≡ err hidden_repo
unfolding require_repo_read
require_repo_read-hidden state db headers repo_name who pool resolved h =
    rw (resolved, pool) (lookup-hidden state db repo_name h)
