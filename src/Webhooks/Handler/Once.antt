-- ===== src/Webhooks/Handler/Once.antt =====
-- A delivery starts CI only if it is a signed push, and only once.
use clotho.Prelude.{
  ◌+◌, ◌<◌, ◌≡◌, ◌⊎◌, inl, inr, refl, sym, ap, ap₂, subst, ◌∙◌, true, not, Option, some, List, [],
  ◌∷◌, All, Bool-cases,
}
use clotho.Prelude.Bytes.{Bytes, lit, beq, beq_iff, is_empty}
use clotho.Prelude.Results.{
  Result, ok, err, guard, ok_or, >>=-eq-ok, ok_or-eq-ok, guard-eq-ok, ok-injective,
}
use clotho.ApiErrors.{ApiError, invalid_request}
use clotho.Access.{Database, RepoWithOrg, get_repo_with_org}
use clotho.Webhooks.{
  valid_commit_sha, Reservation, Delivery, Row, retention, find, matches, reserve_delivery,
}
use clotho.Webhooks.Signature.{IsSigned, require_signature, require_signature-IsSigned}
use clotho.Webhooks.Reservations.{live-reserve, fresh_row}
use clotho.Webhooks.Handler.{
  PushPayload, Request, HookState, Server, accepted, Admitted, other_event, push, sha256, id_of,
  event_of, pushed, read_push, admit, after_reservation, proceed, forgejo,
}
use clotho.Webhooks.Handler.Starts.{
  IsBefore, IsFreshPush, find-cleanup, proceed-keeps, after_reservation-accepted, start_ci-replay,
}

after_reservation-started :
    (repo sha : Bytes) (request : Request) (started : List (Bytes × Bytes))
    (result : Result ApiError Reservation × List Row)
    → ((after_reservation repo sha request started result).1.started ≡ started)
      ⊎ ((after_reservation repo sha request started result).0 ≡ ok (accepted repo sha))
unfolding after_reservation
after_reservation-started repo sha request started (err e, rows) = inl refl
after_reservation-started repo sha request started (ok reservation, rows) =
    start_ci-replay repo sha reservation _ started

push-injective :
    {repo sha repo' sha' : Bytes} {d d' : Delivery}
    → ◌≡◌ {A = Admitted} (push repo sha d) (push repo' sha' d')
    → (repo ≡ repo') × (sha ≡ sha') × (d ≡ d')
push-injective h = (cc, cc, cc)

-- What a push has been found to be after its event was read.
record IsPushed (db : Database) (delivery_hash : Bytes) (payload : PushPayload) (repo sha : Bytes)
    (d : Delivery) : Type 0 where
  same_repo : payload.name ≡ repo
  same_sha : payload.after ≡ sha
  same_hash : d.delivery_hash ≡ delivery_hash
  a_sha : valid_commit_sha sha ≡ true
  owner : RepoWithOrg
  an_owner : get_repo_with_org db repo ≡ ok (some owner)
  a_repo : d.repo_id ≡ owner.id

pushed-IsPushed :
    (db : Database) (delivery_hash payload_hash : Bytes) (payload : PushPayload) (repo sha : Bytes)
    (d : Delivery)
    → pushed db delivery_hash payload_hash payload ≡ ok (push repo sha d)
    → IsPushed db delivery_hash payload repo sha d
unfolding pushed
pushed-IsPushed db delivery_hash payload_hash payload repo sha d h =
    let (_, named, h1) = >>=-eq-ok (guard (not (is_empty payload.name)) _) _ h in
    let (_, has_sha, h2) = >>=-eq-ok (guard (valid_commit_sha payload.after) _) _ h1 in
    let (found, is_found, h3) = >>=-eq-ok (get_repo_with_org db payload.name) _ h2 in
    let (owner, is_owner, h4) = >>=-eq-ok (ok_or found _) _ h3 in
    let (same_repo, same_sha, same) = push-injective (ok-injective h4) in
    record {
      same_repo = same_repo;
      same_sha = same_sha;
      same_hash = ap (λ x. x.delivery_hash) (sym same);
      a_sha =
          subst (λ x. valid_commit_sha x ≡ true) same_sha
            (guard-eq-ok (valid_commit_sha payload.after) _ has_sha);
      owner = owner;
      an_owner =
          ap (get_repo_with_org db) (sym same_repo)
          ∙ is_found
          ∙ ap ok (ok_or-eq-ok found _ is_owner);
      a_repo = ap (λ x. x.repo_id) (sym same);
    }

-- The server has started no CI, or has accepted the push.
proceed-started :
    (admitted : Result ApiError Admitted) (request : Request) (server : Server)
    → ((proceed admitted request server).1.started ≡ server.started)
      ⊎ ((repo : Bytes) × (sha : Bytes) × ((proceed admitted request server).0
            ≡ ok (accepted repo sha)))
unfolding proceed
proceed-started (err e) request server = inl refl
proceed-started (ok other_event) request server = inl refl
proceed-started (ok (push repo sha d)) request server =
    elim (after_reservation-started repo sha request server.started
      (reserve_delivery d request.now server.rows)) [ inl h ↦ inl h | inr h ↦ inr (repo, sha, h) ]

-- The reservation of a push that was accepted.
proceed-accepted :
    (admitted : Result ApiError Admitted) (request : Request) (server : Server) (repo sha : Bytes)
    → (proceed admitted request server).0 ≡ ok (accepted repo sha)
    → (d : Delivery) × (admitted ≡ ok (push repo sha d))
      × IsFreshPush repo sha d request server (proceed admitted request server).1
unfolding proceed
proceed-accepted (err e) request server repo sha h = cc
proceed-accepted (ok other_event) request server repo sha h = cc
proceed-accepted (ok (push repo' sha' d)) request server repo sha h =
    let (same_repo, same_sha, is_fresh) =
      after_reservation-accepted repo' sha' repo sha d request server
        (reserve_delivery d request.now server.rows) refl h in
    (d, cc (same_repo, same_sha), rw (← same_repo, ← same_sha) is_fresh)

module _ (digest : Bytes → Bytes) (hmac : (secret body : Bytes) → Bytes)
    (from_slice : Bytes → Option PushPayload) where
  -- What the checks of a push have found.
  pub record IsPush (state : HookState) (request : Request) (repo sha : Bytes) (d : Delivery)
      : Type 0 where
    pub is_signed : IsSigned hmac state.webhook_secret request.header request.body
    pub is_event : event_of request ≡ ok (lit "push")
    pub id : Bytes
    pub is_id : id_of request ≡ ok id
    pub is_hash : d.delivery_hash ≡ sha256 digest id
    pub is_payload : from_slice request.body ≡ some (record { after = sha; name = repo })
    pub is_sha : valid_commit_sha sha ≡ true
    pub database : Database
    pub is_database : state.pool ≡ some database
    pub owner : RepoWithOrg
    pub is_owner : get_repo_with_org database repo ≡ ok (some owner)
    pub is_repo : d.repo_id ≡ owner.id

  read_push-IsPushed :
      (db : Database) (delivery_hash payload_hash body event repo sha : Bytes) (d : Delivery)
      → read_push digest hmac from_slice db delivery_hash payload_hash body event
        ≡ ok (push repo sha d)
      → (event ≡ lit "push")
        × (payload : PushPayload) × (from_slice body ≡ some payload)
        × IsPushed db delivery_hash payload repo sha d
  unfolding read_push
  read_push-IsPushed db delivery_hash payload_hash body event repo sha d h =
      elim (Bool-cases (beq event (lit "push"))) [
        | inl is_push ↦
            let (payload, read, h1) =
              >>=-eq-ok (ok_or (from_slice body) (invalid_request "invalid webhook payload"))
                (pushed db delivery_hash payload_hash) (rw is_push at h) in
            (
              (beq_iff event (lit "push")).0 is_push,
              payload,
              ok_or-eq-ok (from_slice body) _ read,
              pushed-IsPushed db delivery_hash payload_hash payload repo sha d h1,
            )
        | inr other ↦ cc (rw other at h)
      ]

  admit-IsPush :
      (state : HookState) (request : Request) (repo sha : Bytes) (d : Delivery)
      → admit digest hmac from_slice state request ≡ ok (push repo sha d)
      → IsPush state request repo sha d
  unfolding admit
  admit-IsPush state request repo sha d h =
      let (u, signed, h1) =
        >>=-eq-ok (require_signature hmac state.webhook_secret request.header request.body) _ h in
      let (id, is_id, h2) = >>=-eq-ok (id_of request) _ h1 in
      let (db, is_db, h3) = >>=-eq-ok (ok_or state.pool _) _ h2 in
      let (event, is_event, h4) = >>=-eq-ok (event_of request) _ h3 in
      let (named, payload, read, p) =
        read_push-IsPushed db (sha256 digest id) (sha256 digest request.body) request.body event
          repo sha d h4 in
      record {
        is_signed =
            require_signature-IsSigned hmac state.webhook_secret request.header request.body signed;
        is_event = is_event ∙ ap ok named;
        id = id;
        is_id = is_id;
        is_hash = p.same_hash;
        is_payload =
            read ∙ ap some (ap₂ (λ x y. record { after = x; name = y }) p.same_sha p.same_repo);
        is_sha = p.a_sha;
        database = db;
        is_database = ok_or-eq-ok state.pool _ is_db;
        owner = p.owner;
        is_owner = p.an_owner;
        is_repo = p.a_repo;
      }

  -- A delivery leaves the list of started CI runs as it is, or it is a push with a valid signature,
  -- an id, a valid commit and the name of exactly one repository, which reserves its id and adds
  -- its one run at the end.
  pub forgejo-starts :
      (state : HookState) (request : Request) (server : Server)
      → ((forgejo digest hmac from_slice state request server).1.started ≡ server.started)
        ⊎ ((repo : Bytes) × (sha : Bytes) × (d : Delivery) × IsPush state request repo sha d
            × IsFreshPush repo sha d request server
                (forgejo digest hmac from_slice state request server).1)
  unfolding forgejo
  forgejo-starts state request server =
      elim (proceed-started (admit digest hmac from_slice state request) request server) [
        | inl same ↦ inl same
        | inr (repo, sha, h) ↦
            let (d, is_admitted, is_fresh) = proceed-accepted _ request server repo sha h in
            inr (repo, sha, d, admit-IsPush state request repo sha d is_admitted, is_fresh)
      ]

  -- Deliveries handled one after the other.
  unfoldable pub forgejo_all : HookState → List Request → Server → Server
  unfolding forgejo
  forgejo_all state [] server = server
  forgejo_all state (request ∷ later) server =
      forgejo_all state later (forgejo digest hmac from_slice state request server).1

  forgejo_all-keeps :
      (state : HookState) (later : List Request) (server : Server) (hash : Bytes) (r : Row)
      → find hash server.rows ≡ some r
      → All (IsBefore r.expires_at) later
      → find hash (forgejo_all state later server).rows ≡ some r
  unfolding forgejo_all forgejo
  forgejo_all-keeps state [] server hash r h live = h
  forgejo_all-keeps state (request ∷ later) server hash r h (live, rest) =
      forgejo_all-keeps state later _ hash r (proceed-keeps _ request server hash r h live) rest

  -- A reservation that is made while a row of its id lives starts nothing.
  live-proceed :
      (state : HookState) (second : Request) (server : Server) (id hash : Bytes) (r : Row)
      → id_of second ≡ ok id
      → sha256 digest id ≡ hash
      → find hash server.rows ≡ some r
      → second.now < r.expires_at
      → (forgejo digest hmac from_slice state second server).1.started ≡ server.started
  unfolding forgejo
  live-proceed state second server id hash r is_id is_hash h live =
      elim (proceed-started (admit digest hmac from_slice state second) second server) [
        | inl same ↦ same
        | inr (repo, sha, started) ↦
            let (d, is_admitted, made) = proceed-accepted _ second server repo sha started in
            let p = admit-IsPush state second repo sha d is_admitted in
            let same_id : p.id ≡ id = ok-injective (sym p.is_id ∙ is_id) in
            let same : d.delivery_hash ≡ hash = p.is_hash ∙ ap (sha256 digest) same_id ∙ is_hash in
            let decided = live-reserve d r second.now server.rows (rw same h) live in
            elim (Bool-cases (matches r.delivery d)) [
              | inl m ↦ cc (made.is_fresh, rw m at decided)
              | inr m ↦ cc (made.is_fresh, rw m at decided)
            ]
      ]

  -- Once a delivery has started CI, no delivery of its id starts CI again in the retention window,
  -- whatever deliveries are handled in between, if the requests and their cleanups fall in it.
  pub forgejo-starts_once :
      (state : HookState) (first second : Request) (server : Server) (repo sha : Bytes)
      (later : List Request)
      → (forgejo digest hmac from_slice state first server).0 ≡ ok (accepted repo sha)
      → first.cleanup_at < first.now + retention
      → All (IsBefore (first.now + retention)) later
      → id_of second ≡ id_of first
      → second.now < first.now + retention
      → (forgejo digest hmac from_slice state second
          (forgejo_all state later (forgejo digest hmac from_slice state first server).1)).1.started
        ≡ (forgejo_all state later (forgejo digest hmac from_slice state first server).1).started
  unfolding forgejo
  forgejo-starts_once state first second server repo sha later h cleaned between same live =
      let (d, is_admitted, made) = proceed-accepted _ first server repo sha h in
      let p = admit-IsPush state first repo sha d is_admitted in
      let r : Row = record { delivery = d; expires_at = first.now + retention } in
      let row : find d.delivery_hash
            (proceed (admit digest hmac from_slice state first) first server).1.rows
          ≡ some r =
        rw made.is_cleaned (
          find-cleanup first.cleanup_fails first.cleanup_at _ d.delivery_hash r
            (fresh_row d first.now server.rows made.is_fresh) cleaned) in
      live-proceed state second _ p.id d.delivery_hash r (same ∙ p.is_id) (sym p.is_hash)
        (forgejo_all-keeps state later _ d.delivery_hash r row between) live
