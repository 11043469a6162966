-- ===== src/MergePolicy/Reviews.antt =====
-- Which reviews `count_approving_reviews` counts. The code keeps the first review of each author;
-- where the newest reviews come first, these are the latest ones.
use clotho.Prelude.{
  ℕ, ◌+◌, ◌<◌, ◌≡◌, Bool, false, not, ◌&&◌, ◌||◌, List, [], ◌∷◌, All, ltb, if◌then◌else◌,
}
use clotho.Prelude.Bytes.{Bytes, beq}
use clotho.MergePolicy.{ReviewInfo, seen_before, is_approval}

module _ (time : ReviewInfo → ℕ) where
  -- Each review is later than all that follow it.
  abbrev pub IsNewestFirst : List ReviewInfo → Type 0
  IsNewestFirst [] = Unit
  IsNewestFirst (r ∷ reviews) = All (λ other. time other < time r) reviews × IsNewestFirst reviews

  -- Whether there is a later review by the same author.
  unfoldable pub is_superseded : List ReviewInfo → ReviewInfo → Bool
  is_superseded [] r = false
  is_superseded (other ∷ others) r =
      (beq r.login other.login && ltb (time r) (time other)) || is_superseded others r

  -- How many of `reviews` approve and are the latest of their author among `all`.
  unfoldable pub latest_approvals : (all reviews : List ReviewInfo) → ℕ
  unfolding is_superseded
  latest_approvals all [] = 0
  latest_approvals all (r ∷ reviews) =
      (if is_approval r && not (is_superseded all r) then 1 else 0) + latest_approvals all reviews

  -- A review is superseded if its author has been seen or a later one follows.
  abbrev IsSeenOrLater :
      (all : List ReviewInfo) → (seen : List Bytes) → List ReviewInfo → ReviewInfo → Type 0
  IsSeenOrLater all seen rest x =
      is_superseded all x ≡ (seen_before x.login seen || is_superseded rest x)
