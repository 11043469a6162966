-- ===== src/Webhooks/Handler/Starts.antt =====
-- When a delivery starts CI, and that it does so once.
use clotho.Prelude.{
  ℕ, ◌<◌, ◌≡◌, ◌⊎◌, inl, inr, refl, sym, ap, ◌∙◌, Bool, true, false, ◌&&◌, some, List, [], ◌∷◌,
  ◌++◌, leb, ◌==◌, arith, Bool-cases,
}
use clotho.Prelude.Bytes.{Bytes, beq}
use clotho.Prelude.Results.{Result, ok, err}
use clotho.ApiErrors.{ApiError}
use clotho.Webhooks.{all_bytes, Reservation, fresh, replay, Delivery, Row, find, reserve_delivery}
use clotho.Webhooks.Reservations.{reserve-keeps}
use clotho.Webhooks.Handler.{
  Request, Server, accepted, Admitted, other_event, push, without, cleanup_expired, is_among,
  start_ci, after_reservation, proceed,
}

find-without :
    (now : ℕ) (batch rows : List Row) (hash : Bytes) (r : Row)
    → find hash rows ≡ some r
    → now < r.expires_at
    → find hash (without now batch rows) ≡ some r
unfolding find without
find-without now batch [] hash r h live = cc
find-without now batch (x ∷ rows) hash r h live =
    elim (Bool-cases (beq x.delivery.delivery_hash hash)) [
      | inl here ↦
          let same : x ≡ r = cc (rw here at h) in
          let stays : (leb x.expires_at now && is_among x batch) ≡ false = rw same (ground arith) in
          rw (stays, here) (ap some same)
      | inr later ↦
          let rest = find-without now batch rows hash r (rw later at h) live in
          elim (Bool-cases (leb x.expires_at now && is_among x batch)) [
            | inl dropped ↦ rw dropped rest
            | inr kept ↦ rw (kept, later) rest
          ]
    ]

pub find-cleanup :
    (fails : Bool) (now : ℕ) (rows : List Row) (hash : Bytes) (r : Row)
    → find hash rows ≡ some r
    → now < r.expires_at
    → find hash (cleanup_expired fails now rows) ≡ some r
unfolding cleanup_expired
find-cleanup true now rows hash r h live = h
find-cleanup false now rows hash r h live = find-without now _ rows hash r h live

-- Neither of the request's times has reached `end`.
pub record IsBefore (end : ℕ) (request : Request) : Type 0 where
  pub at_reservation : request.now < end
  pub at_cleanup : request.cleanup_at < end

start_ci-rows :
    (repo sha : Bytes) (reservation : Reservation) (cleaned : List Row)
    (started : List (Bytes × Bytes))
    → (start_ci repo sha reservation cleaned started).1.rows ≡ cleaned
unfolding start_ci
start_ci-rows repo sha replay cleaned started = refl
start_ci-rows repo sha fresh cleaned started =
    elim (Bool-cases (all_bytes (λ byte. byte == b'0') sha)) [ inl z ↦ rw z | inr z ↦ rw z ]

after_reservation-keeps :
    (repo sha : Bytes) (request : Request) (started : List (Bytes × Bytes))
    (result : Result ApiError Reservation × List Row) (hash : Bytes) (r : Row)
    → find hash result.1 ≡ some r
    → IsBefore r.expires_at request
    → find hash (after_reservation repo sha request started result).1.rows ≡ some r
unfolding after_reservation
after_reservation-keeps repo sha request started (err e, rows) hash r h live = h
after_reservation-keeps repo sha request started (ok reservation, rows) hash r h live =
    rw
      (start_ci-rows repo sha reservation
        (cleanup_expired request.cleanup_fails request.cleanup_at rows) started)
      (find-cleanup request.cleanup_fails request.cleanup_at rows hash r h live.at_cleanup)

pub proceed-keeps :
    (admitted : Result ApiError Admitted) (request : Request) (server : Server) (hash : Bytes)
    (r : Row)
    → find hash server.rows ≡ some r
    → IsBefore r.expires_at request
    → find hash (proceed admitted request server).1.rows ≡ some r
unfolding proceed
proceed-keeps (err e) request server hash r h live = h
proceed-keeps (ok other_event) request server hash r h live = h
proceed-keeps (ok (push repo sha d)) request server hash r h live =
    after_reservation-keeps repo sha request server.started
      (reserve_delivery d request.now server.rows) hash r
      (reserve-keeps d request.now server.rows hash r h live.at_reservation) live

-- The reservation that lets CI start.
pub record IsFreshPush (repo sha : Bytes) (d : Delivery) (request : Request) (before : Server)
    (after : Server) : Type 0 where
  pub is_fresh : (reserve_delivery d request.now before.rows).0 ≡ ok fresh
  pub not_deleted : all_bytes (λ byte. byte == b'0') sha ≡ false
  pub is_started : after.started ≡ before.started ++ (repo, sha) ∷ []
  pub is_cleaned :
      after.rows
      ≡ cleanup_expired request.cleanup_fails request.cleanup_at
          (reserve_delivery d request.now before.rows).1

start_ci-accepted :
    (repo sha repo' sha' : Bytes) (reservation : Reservation) (cleaned : List Row)
    (started : List (Bytes × Bytes))
    → (start_ci repo sha reservation cleaned started).0 ≡ ok (accepted repo' sha')
    → (reservation ≡ fresh)
      × (repo ≡ repo')
      × (sha ≡ sha')
      × (all_bytes (λ byte. byte == b'0') sha ≡ false)
unfolding start_ci
start_ci-accepted repo sha repo' sha' replay cleaned started h = cc
start_ci-accepted repo sha repo' sha' fresh cleaned started h =
    elim (Bool-cases (all_bytes (λ byte. byte == b'0') sha)) [
      | inl z ↦ cc (rw z at h)
      | inr z ↦ (refl, cc (rw z at h), cc (rw z at h), z)
    ]

pub after_reservation-accepted :
    (repo sha repo' sha' : Bytes) (d : Delivery) (request : Request) (server : Server)
    (result : Result ApiError Reservation × List Row)
    → reserve_delivery d request.now server.rows ≡ result
    → (after_reservation repo sha request server.started result).0 ≡ ok (accepted repo' sha')
    → (repo ≡ repo')
      × (sha ≡ sha')
      × IsFreshPush repo sha d request server
          (after_reservation repo sha request server.started result).1
unfolding after_reservation
after_reservation-accepted repo sha repo' sha' d request server (err e, rows) is_result h = cc
after_reservation-accepted repo sha repo' sha' d request server (ok reservation, rows) is_result h =
    let cleaned : List Row = cleanup_expired request.cleanup_fails request.cleanup_at rows in
    let (made, same_repo, same_sha, z) =
      start_ci-accepted repo sha repo' sha' reservation cleaned server.started h in
    (
      same_repo,
      same_sha,
      record {
        is_fresh = ap (λ x. x.0) is_result ∙ ap ok made;
        not_deleted = z;
        is_started = rw made (started_fresh repo sha cleaned server.started z);
        is_cleaned =
            start_ci-rows repo sha reservation cleaned server.started
            ∙ ap (λ x. cleanup_expired request.cleanup_fails request.cleanup_at x.1)
                (sym is_result);
      },
    )
  where
    started_fresh :
        (repo sha : Bytes) (cleaned : List Row) (started : List (Bytes × Bytes))
        → all_bytes (λ byte. byte == b'0') sha ≡ false
        → (start_ci repo sha fresh cleaned started).1.started ≡ started ++ (repo, sha) ∷ []
    started_fresh repo sha cleaned started z = unfold start_ci in rw z refl

pub start_ci-replay :
    (repo sha : Bytes) (reservation : Reservation) (cleaned : List Row)
    (started : List (Bytes × Bytes))
    → ((start_ci repo sha reservation cleaned started).1.started ≡ started)
      ⊎ ((start_ci repo sha reservation cleaned started).0 ≡ ok (accepted repo sha))
unfolding start_ci
start_ci-replay repo sha replay cleaned started = inl refl
start_ci-replay repo sha fresh cleaned started =
    elim (Bool-cases (all_bytes (λ byte. byte == b'0') sha)) [
      | inl z ↦ inl (rw z refl)
      | inr z ↦ inr (rw z refl)
    ]
