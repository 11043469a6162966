-- ===== src/Idempotency/Replays.antt =====
-- A key creates one run in its retention window.
use clotho.Prelude.{
  ℕ, ◌+◌, ◌<◌, ◌≤◌, ◌≡◌, inl, inr, refl, sym, ap, subst, true, false, ◌&&◌, Option, none, some,
  List, [], ◌∷◌, All, leb, ltb, if◌then◌else◌, arith, Bool-cases,
}
use clotho.Prelude.Bytes.{Bytes, beq, beq_iff, beq_refl}
use clotho.Prelude.Results.{Result, ok, err, ok-injective}
use clotho.ApiErrors.{ApiError, idempotency_conflict}
use clotho.Idempotency.{
  KeyedRequest, StoredResponse, Tables, key_retention, max_response_bytes, has_key, expire_key,
  find_key, require_match, replay_stored, replay_outcome, reserved, without_expired,
  create_run_idempotent,
}

module _ {V : Type 0} where
  stays_live :
      (o p h : Bytes) (now : ℕ) (x : StoredResponse V)
      → now < x.expires_at
      → (has_key o p h x && leb x.expires_at now) ≡ false
  stays_live o p h now x live = ground arith

  find_key-expire :
      (o p h o' p' h' : Bytes) (now : ℕ) (rows : List (StoredResponse V)) (r : StoredResponse V)
      → find_key o p h rows ≡ some r
      → now < r.expires_at
      → find_key o p h (expire_key o' p' h' now rows) ≡ some r
  unfolding find_key expire_key
  find_key-expire o p h o' p' h' now [] r found live = cc
  find_key-expire o p h o' p' h' now (x ∷ rows) r found live = elim (Bool-cases (has_key o p h x)) [
    | inl here ↦
        let same : x ≡ r = cc (rw here at found) in
        rw (stays_live o' p' h' now x (subst (λ y. now < y.expires_at) (sym same) live), here)
          (ap some same)
    | inr later ↦
        let rest = find_key-expire o p h o' p' h' now rows r (rw later at found) live in
        elim (Bool-cases (has_key o' p' h' x && leb x.expires_at now)) [
          | inl dropped ↦ rw dropped rest
          | inr kept ↦ rw (kept, later) rest
        ]
  ]

  -- A row of another key in front does not hide `r`.
  find_key-front :
      (o p h : Bytes) (new : StoredResponse V) (rows : List (StoredResponse V))
      (r : StoredResponse V)
      → find_key new.org_id new.principal_id new.key_hash rows ≡ none
      → find_key o p h rows ≡ some r
      → find_key o p h (new ∷ rows) ≡ some r
  unfolding find_key has_key
  find_key-front o p h new rows r none_yet found = elim (Bool-cases (has_key o p h new)) [
    | inl same ↦
        let e = (beq_iff new.org_id o).0 (ground arith) in
        let e' = (beq_iff new.principal_id p).0 (ground arith) in
        let e'' = (beq_iff new.key_hash h).0 (ground arith) in cc (e, e', e'', none_yet, found)
    | inr differs ↦ rw differs found
  ]

  has_key_self : (x : StoredResponse V) → has_key x.org_id x.principal_id x.key_hash x ≡ true
  unfolding has_key
  has_key_self x = rw (beq_refl x.org_id, beq_refl x.principal_id, beq_refl x.key_hash) refl

module _ {R V : Type 0} (run_id : R → Bytes) (to_value : R → V) (size : V → ℕ)
    (from_value : V → Option R) (sha256 : Bytes → Bytes) where
  replay_outcome-keeps :
      (before kept : Tables R V) (result : Result ApiError R) (o p h : Bytes) (r : StoredResponse V)
      → find_key o p h before.records ≡ some r
      → find_key o p h kept.records ≡ some r
      → find_key o p h
          (replay_outcome run_id to_value size from_value sha256 before kept result).1.records
        ≡ some r
  unfolding replay_outcome
  replay_outcome-keeps before kept (ok run) o p h r f g = g
  replay_outcome-keeps before kept (err e) o p h r f g = f

  reserved-keeps :
      (request : KeyedRequest) (run : R) (now : ℕ) (before kept : Tables R V)
      (found : Option (StoredResponse V)) (o p h : Bytes) (r : StoredResponse V)
      → find_key request.org_id request.principal_id (sha256 request.key) kept.records ≡ found
      → find_key o p h before.records ≡ some r
      → find_key o p h kept.records ≡ some r
      → find_key o p h
          (reserved run_id to_value size from_value sha256 request run now before kept
            found).1.records
        ≡ some r
  unfolding reserved
  reserved-keeps request run now before kept (some stored) o p h r e f g =
      replay_outcome-keeps before kept _ o p h r f g
  reserved-keeps request run now before kept none o p h r e f g =
      find_key-front o p h _ kept.records r e g

  -- A row that has not expired outlives every request.
  create-keeps :
      (request : KeyedRequest) (run : R) (now : ℕ) (tables : Tables R V) (o p h : Bytes)
      (r : StoredResponse V)
      → find_key o p h tables.records ≡ some r
      → now < r.expires_at
      → find_key o p h
          (create_run_idempotent run_id to_value size from_value sha256 request run now
            tables).1.records
        ≡ some r
  unfolding create_run_idempotent without_expired
  create-keeps request run now tables o p h r found live =
      elim (Bool-cases (ltb max_response_bytes (size (to_value run)))) [
        | inl large ↦ rw large found
        | inr small ↦ rw small (
            reserved-keeps request run now tables
              (without_expired run_id to_value size from_value sha256 request now tables) _ o p h r
              refl found
              (find_key-expire o p h request.org_id request.principal_id (sha256 request.key) now
                tables.records r found live))
      ]

  -- Requests one after the other, each with its time and the run that is built for it.
  unfoldable pub create_all : List (ℕ × KeyedRequest × R) → Tables R V → Tables R V
  unfolding create_run_idempotent
  create_all [] tables = tables
  create_all ((now, request, run) ∷ later) tables =
      create_all later
        (create_run_idempotent run_id to_value size from_value sha256 request run now tables).1

  create_all-keeps :
      (later : List (ℕ × KeyedRequest × R)) (tables : Tables R V) (o p h : Bytes)
      (r : StoredResponse V)
      → find_key o p h tables.records ≡ some r
      → All (λ one. one.0 < r.expires_at) later
      → find_key o p h (create_all later tables).records ≡ some r
  unfolding create_all create_run_idempotent
  create_all-keeps [] tables o p h r found live = found
  create_all-keeps ((now, request, run) ∷ later) tables o p h r found (live, rest) =
      create_all-keeps later _ o p h r (create-keeps request run now tables o p h r found live) rest

  -- The row that the first request of a key writes.
  abbrev row_of : KeyedRequest → R → (expires_at : ℕ) → StoredResponse V
  row_of request run expires_at = record {
    org_id = request.org_id;
    principal_id = request.principal_id;
    key_hash = sha256 request.key;
    operation = request.operation;
    request_fingerprint = request.request_fingerprint;
    resource_id = run_id run;
    response_status = 202;
    response_body = to_value run;
    expires_at = expires_at;
  }

  replay_outcome-ne-new :
      (before kept : Tables R V) (result : Result ApiError R) (made : R)
      → (replay_outcome run_id to_value size from_value sha256 before kept result).0
        ≡ ok (made, false)
      → ⊥
  unfolding replay_outcome
  replay_outcome-ne-new before kept (ok run) made h =
      let e : true ≡ false = ap (λ x. x.1) (ok-injective h) in cc e
  replay_outcome-ne-new before kept (err e) made h = cc

  reserved-fresh :
      (request : KeyedRequest) (run made : R) (now : ℕ) (before kept : Tables R V)
      (found : Option (StoredResponse V))
      → (reserved run_id to_value size from_value sha256 request run now before kept found).0
        ≡ ok (made, false)
      → find_key request.org_id request.principal_id
          (sha256 request.key)
          (reserved run_id to_value size from_value sha256 request run now before kept
            found).1.records
        ≡ some (row_of request run (now + key_retention))
  unfolding reserved find_key
  reserved-fresh request run made now before kept (some stored) h =
      absurd (replay_outcome-ne-new before kept _ made h)
  reserved-fresh request run made now before kept none h =
      rw (has_key_self (row_of request run (now + key_retention))) refl

  create-fresh :
      (request : KeyedRequest) (run made : R) (now : ℕ) (tables : Tables R V)
      → (create_run_idempotent run_id to_value size from_value sha256 request run now tables).0
        ≡ ok (made, false)
      → find_key request.org_id request.principal_id
          (sha256 request.key)
          (create_run_idempotent run_id to_value size from_value sha256 request run now
            tables).1.records
        ≡ some (row_of request run (now + key_retention))
  unfolding create_run_idempotent
  create-fresh request run made now tables h =
      elim (Bool-cases (ltb max_response_bytes (size (to_value run)))) [
        | inl large ↦ cc (rw large at h)
        | inr small ↦ rw small (reserved-fresh request run made now tables _ _ (rw small at h))
      ]

  replay_stored-row :
      (request first : KeyedRequest) (run : R) (expires_at : ℕ)
      → from_value (to_value run) ≡ some run
      → replay_stored run_id to_value size from_value sha256 request (row_of first run expires_at)
        ≡ (if beq first.operation request.operation
              && beq first.request_fingerprint request.request_fingerprint
            then ok run
            else err
                (idempotency_conflict "Idempotency-Key was already used for a different request"))
  unfolding replay_stored require_match
  replay_stored-row request first run expires_at back =
      elim (Bool-cases (
        beq first.operation request.operation
        && beq first.request_fingerprint request.request_fingerprint)) [
          | inl same ↦ rw (same, back, beq_refl (run_id run)) refl
          | inr differs ↦ rw differs refl
        ]

  -- What a request gets whose key is taken by `first`, and that it adds no run.
  taken :
      (request first : KeyedRequest) (run : R) (before kept : Tables R V)
      (result : Result ApiError R)
      → result ≡ (
          if beq first.operation request.operation
            && beq first.request_fingerprint request.request_fingerprint
          then ok run
          else err
              (idempotency_conflict "Idempotency-Key was already used for a different request"))
      → kept.action_runs ≡ before.action_runs
      → ((replay_outcome run_id to_value size from_value sha256 before kept result).0 ≡ (
          if beq first.operation request.operation
            && beq first.request_fingerprint request.request_fingerprint
          then ok (run, true)
          else err
              (idempotency_conflict "Idempotency-Key was already used for a different request")))
        × ((replay_outcome run_id to_value size from_value sha256 before kept result).1.action_runs
            ≡ before.action_runs)
  unfolding replay_outcome
  taken request first run before kept (ok made) is_result same_runs =
      elim (Bool-cases (
        beq first.operation request.operation
        && beq first.request_fingerprint request.request_fingerprint)) [
          | inl same ↦
              (rw same (ap (λ x. ok (x, true)) (ok-injective (rw same at is_result))), same_runs)
          | inr differs ↦ cc (rw differs at is_result)
        ]
  taken request first run before kept (err e) is_result same_runs =
      elim (Bool-cases (
        beq first.operation request.operation
        && beq first.request_fingerprint request.request_fingerprint)) [
          | inl same ↦ cc (rw same at is_result)
          | inr differs ↦ (rw differs (ap err (err-injective (rw differs at is_result))), refl)
        ]
    where
      err-injective : {a b : ApiError} → ◌≡◌ {A = Result ApiError R} (err a) (err b) → a ≡ b
      err-injective h = cc

  find_key_same :
      (first request : KeyedRequest) {found : Option (StoredResponse V)}
      → request.org_id ≡ first.org_id
      → request.principal_id ≡ first.principal_id
      → request.key ≡ first.key
      → (rows : List (StoredResponse V))
      → find_key first.org_id first.principal_id (sha256 first.key) rows ≡ found
      → find_key request.org_id request.principal_id (sha256 request.key) rows ≡ found
  find_key_same first request o p k rows h = rw (o, p, k) h

  -- Once a key has created a run, no request with it creates another in the retention window,
  -- whatever requests come between in that window: the same operation with the same fingerprint gets
  -- the run back, and another one is refused. The response of each must fit, and a stored run is read
  -- back as it was written.
  pub create-replays :
      (first request : KeyedRequest) (run made next : R) (start now : ℕ) (tables : Tables R V)
      (later : List (ℕ × KeyedRequest × R))
      → (create_run_idempotent run_id to_value size from_value sha256 first run start tables).0
        ≡ ok (made, false)
      → from_value (to_value run) ≡ some run
      → All (λ one. one.0 < start + key_retention) later
      → now < start + key_retention
      → size (to_value next) ≤ max_response_bytes
      → (request.org_id ≡ first.org_id)
        × (request.principal_id ≡ first.principal_id)
        × (request.key ≡ first.key)
      → let before =
          create_all later
            (create_run_idempotent run_id to_value size from_value sha256 first run start
              tables).1 in
        let after =
          create_run_idempotent run_id to_value size from_value sha256 request next now before in
        (after.0 ≡ (
          if beq first.operation request.operation
            && beq first.request_fingerprint request.request_fingerprint
          then ok (run, true)
          else err
              (idempotency_conflict "Idempotency-Key was already used for a different request")))
        × (after.1.action_runs ≡ before.action_runs)
  unfolding create_run_idempotent create_all reserved without_expired
  create-replays first request run made next start now tables later new back window live fits
        (o, p, k) =
      let before : Tables R V =
        create_all later
          (create_run_idempotent run_id to_value size from_value sha256 first run start tables).1 in
      let row =
        create_all-keeps later _ first.org_id first.principal_id (sha256 first.key)
          (row_of first run (start + key_retention)) (create-fresh first run made start tables new)
          window in
      let kept =
        find_key-expire request.org_id request.principal_id (sha256 request.key) request.org_id
          request.principal_id (sha256 request.key) now before.records
          (row_of first run (start + key_retention))
          (find_key_same first request o p k before.records row) live in
      let small : ltb max_response_bytes (size (to_value next)) ≡ false = ground arith in
      rw (small, kept)
        (taken request first run before
          (without_expired run_id to_value size from_value sha256 request now before)
          (replay_stored run_id to_value size from_value sha256 request
            (row_of first run (start + key_retention)))
          (replay_stored-row request first run (start + key_retention) back) refl)
