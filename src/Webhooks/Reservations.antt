-- ===== src/Webhooks/Reservations.antt =====
-- A delivery is new once in its retention window.
use clotho.Prelude.{
  ℕ, ◌+◌, ◌<◌, ◌≡◌, inl, inr, refl, sym, ap, subst, ◌∙◌, true, false, ◌&&◌, Option, none, some,
  List, [], ◌∷◌, leb, if◌then◌else◌, arith, Bool-cases,
}
use clotho.Prelude.Bytes.{Bytes, beq, beq_iff, beq_refl}
use clotho.Prelude.Results.{ok, err}
use clotho.ApiErrors.{conflict}
use clotho.Webhooks.{
  fresh, replay, Delivery, Row, retention, expire, find, matches, settle, reserve_delivery,
}

live_row :
    (other : Bytes) (now : ℕ) (x : Row)
    → now < x.expires_at
    → (beq x.delivery.delivery_hash other && leb x.expires_at now) ≡ false
live_row other now x live = ground arith

find-expire :
    (hash other : Bytes) (now : ℕ) (rows : List Row) (r : Row)
    → find hash rows ≡ some r
    → now < r.expires_at
    → find hash (expire other now rows) ≡ some r
unfolding find expire
find-expire hash other now [] r h live = cc
find-expire hash other now (x ∷ rows) r h live =
    elim (Bool-cases (beq x.delivery.delivery_hash hash)) [
      | inl here ↦
          let same : x ≡ r = cc (rw here at h) in
          rw (live_row other now x (subst (λ y. now < y.expires_at) (sym same) live), here)
            (ap some same)
      | inr later ↦
          let rest = find-expire hash other now rows r (rw later at h) live in
          elim (Bool-cases (beq x.delivery.delivery_hash other && leb x.expires_at now)) [
            | inl dropped ↦ rw dropped rest
            | inr kept ↦ rw (kept, later) rest
          ]
    ]

found_first :
    (d : Delivery) (hash : Bytes) (kept : List Row) (r new : Row)
    → new.delivery ≡ d
    → find d.delivery_hash kept ≡ none
    → find hash kept ≡ some r
    → find hash (new ∷ kept) ≡ some r
unfolding find
found_first d hash kept r new is_new absent_ h =
    elim (Bool-cases (beq new.delivery.delivery_hash hash)) [
      | inl same ↦
          let e : d.delivery_hash ≡ hash =
            ap (λ x. x.delivery_hash) (sym is_new)
            ∙ (beq_iff new.delivery.delivery_hash hash).0 same in
          cc (e, absent_, h)
      | inr differs ↦ rw differs h
    ]

settle-keeps :
    (d : Delivery) (now : ℕ) (rows kept : List Row) (found : Option Row) (hash : Bytes) (r : Row)
    → find d.delivery_hash kept ≡ found
    → find hash rows ≡ some r
    → find hash kept ≡ some r
    → find hash (settle d now rows kept found).1 ≡ some r
unfolding settle
settle-keeps d now rows kept none hash r f before after = found_first d hash kept r _ refl f after
settle-keeps d now rows kept (some x) hash r f before after =
    elim (Bool-cases (matches x.delivery d)) [ inl m ↦ rw m after | inr m ↦ rw m before ]

-- A row that has not expired outlives every reservation.
pub reserve-keeps :
    (d : Delivery) (now : ℕ) (rows : List Row) (hash : Bytes) (r : Row)
    → find hash rows ≡ some r
    → now < r.expires_at
    → find hash (reserve_delivery d now rows).1 ≡ some r
unfolding reserve_delivery
reserve-keeps d now rows hash r h live =
    settle-keeps d now rows (expire d.delivery_hash now rows) _ hash r refl h
      (find-expire hash d.delivery_hash now rows r h live)

-- Reservations one after the other, each at its time.
unfoldable pub reserve_all : List (ℕ × Delivery) → List Row → List Row
reserve_all [] rows = rows
reserve_all ((now, d) ∷ later) rows = reserve_all later (reserve_delivery d now rows).1

settle-fresh :
    (d : Delivery) (now : ℕ) (rows kept : List Row) (found : Option Row)
    → (settle d now rows kept found).0 ≡ ok fresh
    → (settle d now rows kept found).1
      ≡ record { delivery = d; expires_at = now + retention } ∷ kept
unfolding settle
settle-fresh d now rows kept none h = refl
settle-fresh d now rows kept (some x) h = elim (Bool-cases (matches x.delivery d)) [
  | inl m ↦ cc (rw m at h)
  | inr m ↦ cc (rw m at h)
]

matches_refl : (d : Delivery) → matches d d ≡ true
unfolding matches
matches_refl d = rw (
  beq_refl d.payload_hash,
  beq_refl d.org_id,
  beq_refl d.repo_id,
  beq_refl d.event_type,
  beq_refl d.commit_sha,
)

-- While a row of the id lives, it decides.
pub live-reserve :
    (e : Delivery) (r : Row) (now : ℕ) (rows : List Row)
    → find e.delivery_hash rows ≡ some r
    → now < r.expires_at
    → (reserve_delivery e now rows).0 ≡ (
        if matches r.delivery e
        then ok replay
        else err (conflict "webhook delivery id was already used for a different payload"))
unfolding reserve_delivery settle matches
live-reserve e r now rows h live =
    rw (find-expire e.delivery_hash e.delivery_hash now rows r h live)
      (elim (Bool-cases (matches r.delivery e)) [ inl m ↦ rw m | inr m ↦ rw m ])

pub fresh_row :
    (d : Delivery) (start : ℕ) (rows : List Row)
    → (reserve_delivery d start rows).0 ≡ ok fresh
    → find d.delivery_hash (reserve_delivery d start rows).1
      ≡ some (record { delivery = d; expires_at = start + retention })
unfolding reserve_delivery find
fresh_row d start rows h = rw (
  settle-fresh d start rows (expire d.delivery_hash start rows)
      (find d.delivery_hash (expire d.delivery_hash start rows)) h,
  beq_refl d.delivery_hash,
)
