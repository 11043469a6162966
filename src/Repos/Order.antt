-- ===== src/Repos/Order.antt =====
-- The order of the list: a strict one, in which the sort puts repositories of different keys.
use clotho.Prelude.{
  ◌≡◌, ◌⊎◌, inl, inr, refl, sym, ◌∙◌, Bool, true, false, ◌&&◌, List, [], ◌∷◌, All, All-mono, arith,
  Bool-cases,
}
use clotho.Prelude.Bytes.{Bytes, beq, beq_iff, beq_refl}
use clotho.Repos.{RepoInfo, blt, before, insert_repo, sort_repos}

blt_irrefl : (x : Bytes) → blt x x ≡ false
unfolding blt
blt_irrefl [] = refl
blt_irrefl (x ∷ xs) = ground (arith, blt_irrefl xs)

blt_trans : (x y z : Bytes) → blt x y ≡ true → blt y z ≡ true → blt x z ≡ true
unfolding blt
blt_trans [] [] z h k = cc
blt_trans [] (y ∷ ys) [] h k = cc
blt_trans [] (y ∷ ys) (z ∷ zs) h k = refl
blt_trans (x ∷ xs) [] z h k = cc
blt_trans (x ∷ xs) (y ∷ ys) [] h k = cc
blt_trans (x ∷ xs) (y ∷ ys) (z ∷ zs) h k = ground (arith, blt_trans xs ys zs)

blt_total : (x y : Bytes) → blt x y ≡ false → beq x y ≡ false → blt y x ≡ true
unfolding blt beq
blt_total [] [] h k = cc
blt_total [] (y ∷ ys) h k = cc
blt_total (x ∷ xs) [] h k = refl
blt_total (x ∷ xs) (y ∷ ys) h k = ground (arith, blt_total xs ys)

-- The repositories have one place in the order.
unfoldable pub same_place : RepoInfo → RepoInfo → Bool
same_place a b = beq a.updated_at b.updated_at && beq a.name b.name

pub before_irrefl : (a : RepoInfo) → before a a ≡ false
unfolding before
before_irrefl a = rw (blt_irrefl a.updated_at, blt_irrefl a.name, beq_refl a.updated_at) refl

-- Newer, or of the same time and with a smaller name.
abbrev IsBefore : RepoInfo → RepoInfo → Type 0
IsBefore a b =
    (blt b.updated_at a.updated_at ≡ true)
    ⊎ ((a.updated_at ≡ b.updated_at) × (blt a.name b.name ≡ true))

before-cases : (a b : RepoInfo) → before a b ≡ true → IsBefore a b
unfolding before
before-cases a b h = elim (Bool-cases (blt b.updated_at a.updated_at)) [
  | inl newer ↦ inl newer
  | inr not_newer ↦ inr ((beq_iff a.updated_at b.updated_at).0 (ground arith), ground arith)
]

before-intro : (a b : RepoInfo) → IsBefore a b → before a b ≡ true
unfolding before
before-intro a b (inl newer) = rw newer refl
before-intro a b (inr (same, smaller)) =
    let e = (beq_iff a.updated_at b.updated_at).1 same in ground (arith, e, smaller)

pub before_trans : (a b c : RepoInfo) → before a b ≡ true → before b c ≡ true → before a c ≡ true
before_trans a b c h k = before-intro a c (of_cases (before-cases a b h) (before-cases b c k))
  where
    of_cases : IsBefore a b → IsBefore b c → IsBefore a c
    of_cases (inl p) (inl q) = inl (blt_trans c.updated_at b.updated_at a.updated_at q p)
    of_cases (inl p) (inr (e, q)) = inl (rw (← e) p)
    of_cases (inr (e, p)) (inl q) = inl (rw e q)
    of_cases (inr (e, p)) (inr (e', q)) = inr (e ∙ e', blt_trans a.name b.name c.name p q)

pub before_total :
    (a b : RepoInfo) → before a b ≡ false → same_place a b ≡ false → before b a ≡ true
unfolding before same_place
before_total a b h k = before-intro b a (elim (Bool-cases (beq a.updated_at b.updated_at)) [
  | inl same ↦ inr (
    sym ((beq_iff a.updated_at b.updated_at).0 same),
    blt_total a.name b.name (ground arith) (ground arith),
  )
  | inr differs ↦ inl (elim (Bool-cases (blt a.updated_at b.updated_at)) [
    | inl later ↦ later
    | inr not_later ↦ blt_total b.updated_at a.updated_at (ground arith) (beq_other differs)
  ])
])
  where
    beq_other : beq a.updated_at b.updated_at ≡ false → beq b.updated_at a.updated_at ≡ false
    beq_other d = elim (Bool-cases (beq b.updated_at a.updated_at)) [
      | inl e ↦
          cc (
            d,
            (beq_iff a.updated_at b.updated_at).1 (sym ((beq_iff b.updated_at a.updated_at).0 e)),
          )
      | inr e ↦ e
    ]

-- Each repository stands before all that follow it.
abbrev pub IsSorted : List RepoInfo → Type 0
IsSorted [] = Unit
IsSorted (x ∷ xs) = All (λ y. before x y ≡ true) xs × IsSorted xs

-- No two repositories have the same time and name.
abbrev pub HaveDistinctPlaces : List RepoInfo → Type 0
HaveDistinctPlaces [] = Unit
HaveDistinctPlaces (x ∷ xs) = All (λ y. same_place x y ≡ false) xs × HaveDistinctPlaces xs

All-insert_repo :
    (P : RepoInfo → Type 0) (r : RepoInfo) (xs : List RepoInfo)
    → P r
    → All P xs
    → All P (insert_repo r xs)
unfolding insert_repo
All-insert_repo P r [] p h = (p, tt)
All-insert_repo P r (x ∷ xs) p (q, h) = elim (Bool-cases (before x r)) [
  | inl first ↦ rw first (q, All-insert_repo P r xs p h)
  | inr later ↦ rw later (p, (q, h))
]

pub All-sort_repos : (P : RepoInfo → Type 0) (xs : List RepoInfo) → All P xs → All P (sort_repos xs)
unfolding sort_repos
All-sort_repos P [] h = tt
All-sort_repos P (x ∷ xs) (p, h) = All-insert_repo P x (sort_repos xs) p (All-sort_repos P xs h)

insert_repo-IsSorted :
    (r : RepoInfo) (xs : List RepoInfo)
    → All (λ y. same_place r y ≡ false) xs
    → IsSorted xs
    → IsSorted (insert_repo r xs)
unfolding insert_repo
insert_repo-IsSorted r [] d s = (tt, tt)
insert_repo-IsSorted r (x ∷ xs) (e, d) (p, s) = elim (Bool-cases (before x r)) [
  | inl first ↦
      rw first
        (All-insert_repo (λ y. before x y ≡ true) r xs first p, insert_repo-IsSorted r xs d s)
  | inr later ↦
      let r_first : before r x ≡ true = before_total x r later (same_place_sym r x e) in
      rw later (
        (
          r_first,
          All-mono (λ y. before x y ≡ true) (λ y. before r y ≡ true) xs
              (λ y. before_trans r x y r_first) p,
        ),
        (p, s),
      )
]
  where
    beq_sym : (a b : Bytes) → beq a b ≡ true → beq b a ≡ true
    beq_sym a b h = (beq_iff b a).1 (sym ((beq_iff a b).0 h))

    same_place_sym : (a b : RepoInfo) → same_place a b ≡ false → same_place b a ≡ false
    same_place_sym a b h = elim (Bool-cases (same_place b a)) [
      | inl same ↦
          unfold same_place in
          ground (arith, beq_sym b.updated_at a.updated_at, beq_sym b.name a.name)
      | inr differs ↦ differs
    ]

pub sort_repos-IsSorted : (xs : List RepoInfo) → HaveDistinctPlaces xs → IsSorted (sort_repos xs)
unfolding sort_repos
sort_repos-IsSorted [] d = tt
sort_repos-IsSorted (x ∷ xs) (d, ds) =
    insert_repo-IsSorted x (sort_repos xs) (All-sort_repos _ xs d) (sort_repos-IsSorted xs ds)
