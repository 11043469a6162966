-- ===== src/Arachne/Download/Blocks.antt =====
-- A part of a segment leaves as blocks of at most `download_block_bytes`, in order.
use clotho.Prelude.{
  ℕ, zero, suc, ◌+◌, ◌-◌, ◌<◌, ◌≤◌, ◌≡◌, refl, sym, ap, ◌∙◌, Bool, true, false, none, some, List,
  [], ◌∷◌, ◌++◌, map, min, length, take, drop, slice, concat, All, drop-drop, drop_of_le,
  take-append-drop, length-take, length-drop, ltb, ltb→lt, if◌then◌else◌, arith, Bool-cases, inl,
  inr, append_assoc, append-nil, Option-cases,
}
use clotho.Prelude.Bytes.{Bytes}
use clotho.Prelude.Results.{ok}
use clotho.Arachne.{Channel, Message, send}
use clotho.Arachne.Download.{
  download_block_bytes, send_blocks, unless_hung_up, report, Ending, finished,
}

-- Sending one message after the other, until the receiver hangs up.
pub send_all : List Bytes → Channel → Bool × Channel
send_all [] ch = (true, ch)
send_all (b ∷ blocks) ch = elim (send (ok b) ch) [
  | none ↦ (false, ch)
  | some ch' ↦ send_all blocks ch'
]

unfoldable pub deliver : List Bytes → Channel → Ending × Channel
unfolding send_all unless_hung_up
deliver blocks ch = unless_hung_up (send_all blocks ch) (λ ch'. (finished, ch'))

-- A block that is sent is not empty and not too long.
abbrev pub IsBlock : Bytes → Type 0
IsBlock b = (0 < length b) × (length b ≤ download_block_bytes)

pub blocks_of : ℕ → Bytes → ℕ → List Bytes
blocks_of zero part offset = []
blocks_of (suc fuel) part offset =
    let more =
      slice offset (min (offset + download_block_bytes) (length part)) part
      ∷ blocks_of fuel part (offset + download_block_bytes) in
    if ltb offset (length part) then more else []

pub send_blocks-eq-send_all :
    (fuel : ℕ) (part : Bytes) (offset : ℕ) (ch : Channel)
    → send_blocks fuel part offset ch ≡ send_all (blocks_of fuel part offset) ch
unfolding send_blocks send_all blocks_of
send_blocks-eq-send_all zero part offset ch = refl
send_blocks-eq-send_all (suc fuel) part offset ch = elim (Bool-cases (ltb offset (length part))) [
  | inl more ↦
      rw more
        (elim (Option-cases
          (send (ok (slice offset (min (offset + download_block_bytes) (length part)) part)) ch)) [
            | inl closed ↦ rw (closed, send_all)
            | inr (ch', taken) ↦
                rw (taken, send_all)
                  (send_blocks-eq-send_all fuel part (offset + download_block_bytes) ch')
          ])
  | inr done ↦ rw done
]

module _ (part : Bytes) (offset : ℕ) where
  abbrev here : ℕ
  here = min (offset + download_block_bytes) (length part) - offset

  -- The rest of the part after one block.
  drop-block :
      offset < length part
      → drop here (drop offset part) ≡ drop (offset + download_block_bytes) part
  unfolding download_block_bytes
  drop-block h =
      drop-drop offset here part
      ∙ (elim (Bool-cases (ltb (offset + download_block_bytes) (length part))) [
        | inl inside ↦
            ap (λ k. drop k part)
              (omega (arith, ltb→lt (offset + download_block_bytes) (length part) inside))
        | inr beyond ↦
            drop_of_le (offset + here) part (ground arith)
            ∙ sym (drop_of_le (offset + download_block_bytes) part (ground arith))
      ])

  take-drop-IsBlock : offset < length part → IsBlock (take here (drop offset part))
  unfolding download_block_bytes
  take-drop-IsBlock h = omega (arith, length-take here (drop offset part), length-drop offset part)

pub concat-blocks_of :
    (fuel : ℕ) (part : Bytes) (offset : ℕ)
    → length part ≤ offset + fuel
    → concat (blocks_of fuel part offset) ≡ drop offset part
unfolding blocks_of
concat-blocks_of zero part offset h = sym (drop_of_le offset part (omega arith))
concat-blocks_of (suc fuel) part offset h = elim (Bool-cases (ltb offset (length part))) [
  | inl more ↦ rw more (
      rw
        (concat-blocks_of fuel part (offset + download_block_bytes)
          (unfold download_block_bytes in omega arith))
        (rw (← drop-block part offset (ltb→lt _ _ more))
          (take-append-drop (here part offset) (drop offset part))))
  | inr done ↦ rw done (sym (drop_of_le offset part (ground arith)))
]

pub blocks_of-IsBlock :
    (fuel : ℕ) (part : Bytes) (offset : ℕ) → All IsBlock (blocks_of fuel part offset)
unfolding blocks_of
blocks_of-IsBlock zero part offset = tt
blocks_of-IsBlock (suc fuel) part offset = elim (Bool-cases (ltb offset (length part))) [
  | inl more ↦ rw more (
    take-drop-IsBlock part offset (ltb→lt _ _ more),
    blocks_of-IsBlock fuel part (offset + download_block_bytes),
  )
  | inr done ↦ rw done tt
]

-- Sending two lists of blocks is sending the first, and the second to the receiver that remains.
pub deliver-append :
    (xs ys : List Bytes) (ch : Channel)
    → unless_hung_up (send_all xs ch) (deliver ys) ≡ deliver (xs ++ ys) ch
unfolding deliver
deliver-append [] ys ch = refl
deliver-append (x ∷ xs) ys ch = elim (Option-cases (send (ok x) ch)) [
  | inl closed ↦ rw (closed, send_all)
  | inr (ch', taken) ↦ rw (taken, send_all) (deliver-append xs ys ch')
]

sent-deliver_within :
    (patience : ℕ) (blocks : List Bytes) (sent : List Message)
    → (deliver blocks (record { sent = sent; patience = patience })).1.sent
      ≡ sent ++ map ok (take patience blocks)
unfolding deliver send
sent-deliver_within zero [] sent = sym (append-nil sent)
sent-deliver_within (suc patience) [] sent = sym (append-nil sent)
sent-deliver_within zero (b ∷ blocks) sent = sym (append-nil sent)
sent-deliver_within (suc patience) (b ∷ blocks) sent =
    sent-deliver_within patience blocks (sent ++ ok b ∷ []) ∙ append_assoc sent (ok b ∷ []) _

-- The receiver gets as many of the blocks as it takes, in order.
pub sent-deliver :
    (blocks : List Bytes) (ch : Channel)
    → (deliver blocks ch).1.sent ≡ ch.sent ++ map ok (take ch.patience blocks)
sent-deliver blocks ch = sent-deliver_within ch.patience blocks ch.sent

-- Delivery never fails: it ends, or the receiver hangs up.
pub report-deliver :
    (blocks : List Bytes) (ch : Channel) → report (deliver blocks ch) ≡ (deliver blocks ch).1
unfolding deliver
report-deliver [] ch = refl
report-deliver (b ∷ blocks) ch = elim (Option-cases (send (ok b) ch)) [
  | inl closed ↦ rw (closed, send_all)
  | inr (ch', taken) ↦ rw (taken, send_all) (report-deliver blocks ch')
]
