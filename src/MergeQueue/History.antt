-- ===== src/MergeQueue/History.antt =====
-- main only moves forward.
use clotho.Prelude.{
  ◌≡◌, inl, inr, refl, subst, Bool, true, false, ◌||◌, Option, none, some, List, [], ◌∷◌,
  Bool-cases,
}
use clotho.Prelude.Bytes.{Bytes, is_empty}
use clotho.Prelude.Results.{Result, ok, err, ◌>>=◌}
use clotho.MergeQueue.{
  EngineError, Repository, Jj, Landed, SubmitChangeRequest, rebased, forward_or_rebase, land,
  publish, land_result, integrate_commit, submit_change,
}

-- What jj documents of its history: `Ancestor g a b` is that `a` is `b` or an ancestor of it. A store
-- only grows, and a commit that is rebased descends from its new parent.
pub record IsHistory {G : Type 0} (jj : Jj G) (Ancestor : G → Bytes → Bytes → Type 0) : Type 0 where
  pub itself : (g : G) (a : Bytes) → Ancestor g a a
  pub through : (g : G) (a b c : Bytes) → Ancestor g a b → Ancestor g b c → Ancestor g a c
  pub is_told : (g : G) (a b : Bytes) → jj.is_ancestor g a b ≡ ok true → Ancestor g a b
  pub rebased_onto :
      (g g' : G) (commit target new : Bytes)
      → jj.rebase g commit target ≡ ok (new, g')
      → Ancestor g' target new
  pub rebase_grows :
      (g g' : G) (commit target new a b : Bytes)
      → jj.rebase g commit target ≡ ok (new, g')
      → Ancestor g a b
      → Ancestor g' a b
  pub commit_grows :
      (g g' : G) (main a b : Bytes) → jj.commit_tx g main ≡ ok g' → Ancestor g a b → Ancestor g' a b

module _ {G : Type 0} (jj : Jj G) (Ancestor : G → Bytes → Bytes → Type 0)
    (history : IsHistory jj Ancestor) where
  -- The later store keeps the history of the earlier one, and main has not gone back.
  pub record IsForward (from to : Repository G) : Type 0 where
    pub grows : (a b : Bytes) → Ancestor from.graph a b → Ancestor to.graph a b
    pub advances :
        (old : Bytes)
        → from.main ≡ some old
        → (new : Bytes) × (to.main ≡ some new) × Ancestor to.graph old new

  stays-IsForward : (r : Repository G) → IsForward r r
  stays-IsForward r = record {
    grows = λ a b h. h;
    advances = λ old h. (old, h, history.itself r.graph old);
  }

  IsForward-trans : (r s t : Repository G) → IsForward r s → IsForward s t → IsForward r t
  IsForward-trans r s t h k = record {
    grows = λ a b x. k.grows a b (h.grows a b x);
    advances = λ old x.
        let (mid, e, p) = h.advances old x in
        let (new, e', q) = k.advances mid e in
        (new, e', history.through t.graph old mid new (k.grows old mid p) q);
  }

  -- The commit that lands descends from main.
  record IsOnMain (r : Repository G) (landed : Landed G) : Type 0 where
    keeps : (a b : Bytes) → Ancestor r.graph a b → Ancestor landed.landed_graph a b
    descends : (old : Bytes) → r.main ≡ some old → Ancestor landed.landed_graph old landed.commit

  abbrev LandsOnMain : Repository G → Result EngineError (Landed G) → Type 0
  LandsOnMain r (ok landed) = IsOnMain r landed
  LandsOnMain r (err e) = Unit

  -- An equation for main tells which old main is meant.
  same_main : {main : Option Bytes} {a b : Bytes} → main ≡ some a → main ≡ some b → a ≡ b
  same_main h k = cc (h, k)

  rebased_lands :
      (r : Repository G) (commit target : Bytes) (result : Result EngineError (Bytes × G))
      → r.main ≡ some target
      → jj.rebase r.graph commit target ≡ result
      → LandsOnMain r (rebased jj result)
  unfolding rebased
  rebased_lands r commit target (err e) m h = tt
  rebased_lands r commit target (ok (new, g')) m h = record {
    keeps = λ a b x. history.rebase_grows r.graph g' commit target new a b h x;
    descends = λ old k.
        subst (λ x. Ancestor g' x new) (same_main m k)
          (history.rebased_onto r.graph g' commit target new h);
  }

  forward_lands :
      (r : Repository G) (commit target : Bytes) (told : Result EngineError Bool)
      → r.main ≡ some target
      → jj.is_ancestor r.graph target commit ≡ told
      → LandsOnMain r (forward_or_rebase jj r.graph commit target told)
  unfolding forward_or_rebase
  forward_lands r commit target (err e) m h = tt
  forward_lands r commit target (ok false) m h =
      rebased_lands r commit target (jj.rebase r.graph commit target) m refl
  forward_lands r commit target (ok true) m h = record {
    keeps = λ a b x. x;
    descends = λ old k.
        subst (λ x. Ancestor r.graph x commit) (same_main m k)
          (history.is_told r.graph target commit h);
  }

  commit_lands :
      (graph : G) (main : Option Bytes) (commit : Bytes)
      → LandsOnMain
          (record { graph = graph; main = main })
          (land jj (record { graph = graph; main = main }) commit)
  unfolding land
  commit_lands graph none commit = record { keeps = λ a b x. x; descends = λ old k. cc }
  commit_lands graph (some target) commit =
      forward_lands (record { graph = graph; main = some target }) commit target
        (jj.is_ancestor graph target commit) refl refl

  publish-IsForward :
      (r : Repository G) (landed : Landed G) (result : Result EngineError G)
      → IsOnMain r landed
      → jj.commit_tx landed.landed_graph landed.commit ≡ result
      → IsForward r (publish jj r landed result).1
  unfolding publish
  publish-IsForward r landed (err e) on h = stays-IsForward r
  publish-IsForward r landed (ok graph) on h = record {
    grows = λ a b x.
        history.commit_grows landed.landed_graph graph landed.commit a b h (on.keeps a b x);
    advances = λ old k. (
      landed.commit,
      refl,
      history.commit_grows landed.landed_graph graph landed.commit old landed.commit h
          (on.descends old k),
    );
  }

  land_result-IsForward :
      (r : Repository G) (result : Result EngineError (Landed G))
      → LandsOnMain r result
      → IsForward r (land_result jj r result).1
  unfolding land_result
  land_result-IsForward r (err e) on = stays-IsForward r
  land_result-IsForward r (ok landed) on =
      publish-IsForward r landed (jj.commit_tx landed.landed_graph landed.commit) on refl

  found_lands :
      (r : Repository G) (found : Result EngineError Bytes) → LandsOnMain r (found >>= land jj r)
  found_lands r (err e) = tt
  found_lands r (ok commit) = commit_lands r.graph r.main commit

  submit_change-IsForward :
      (r : Repository G) (request : SubmitChangeRequest)
      → IsForward r (submit_change jj r request).1
  unfolding submit_change integrate_commit
  submit_change-IsForward r request =
      elim (Bool-cases (is_empty request.repo || is_empty request.commit_id)) [
        | inl empty ↦ rw empty (stays-IsForward r)
        | inr given ↦ rw given (
            land_result-IsForward r (jj.get_commit r.graph request.commit_id >>= land jj r)
              (found_lands r (jj.get_commit r.graph request.commit_id)))
      ]

-- The submissions of one repository, each in its turn.
unfoldable pub submit_all :
    {G : Type 0} → (jj : Jj G) → List SubmitChangeRequest → Repository G → Repository G
unfolding submit_change
submit_all jj [] r = r
submit_all jj (request ∷ later) r = submit_all jj later (submit_change jj r request).1

-- No change that has landed is lost: whatever is submitted, and whatever of it fails, what main was
-- is an ancestor of what main is, and the history of the store stays, where jj keeps its history.
pub submit_all-IsForward :
    {G : Type 0} (jj : Jj G) (Ancestor : G → Bytes → Bytes → Type 0)
    (requests : List SubmitChangeRequest) (r : Repository G)
    → (history : IsHistory jj Ancestor) → IsForward jj Ancestor history r (submit_all jj requests r)
unfolding submit_all submit_change
submit_all-IsForward jj Ancestor [] r history = stays-IsForward jj Ancestor history r
submit_all-IsForward jj Ancestor (request ∷ later) r history =
    IsForward-trans jj Ancestor history r (submit_change jj r request).1
      (submit_all jj later (submit_change jj r request).1)
      (submit_change-IsForward jj Ancestor history r request)
      (submit_all-IsForward jj Ancestor later (submit_change jj r request).1 history)
