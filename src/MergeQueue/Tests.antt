-- ===== src/MergeQueue/Tests.antt =====
-- A store in which a commit is its history: an ancestor is a prefix, and a rebase appends.
use clotho.Prelude.{
  ◌≡◌, refl, sym, ap, ◌∙◌, Bool, true, false, ◌&&◌, some, [], ◌∷◌, ◌++◌, append_assoc, append-nil,
  ◌==◌, arith,
}
use clotho.Prelude.Bytes.{Bytes, lit, text_code}
use clotho.Prelude.Results.{ok, err, ok-injective}
use clotho.MergeQueue.{
  invalid_argument, Repository, Jj, SubmitChangeRequest, submit_change, integrate_commit, land,
  land_result, publish, outcome_of, forward_or_rebase, rebased,
}
use clotho.MergeQueue.History.{IsHistory, IsForward, submit_all, submit_all-IsForward}

queue_code : Unit {0}
unfolding submit_change integrate_commit land land_result publish outcome_of forward_or_rebase
    rebased text_code
queue_code = tt

prefix_of : Bytes → Bytes → Bool
prefix_of [] b = true
prefix_of (x ∷ a) [] = false
prefix_of (x ∷ a) (y ∷ b) = (x == y) && prefix_of a b

abbrev IsPrefix : Unit {0} → Bytes → Bytes → Type 0
IsPrefix g a b = (rest : Bytes) × (b ≡ a ++ rest)

prefix_told : (a b : Bytes) → prefix_of a b ≡ true → IsPrefix tt a b
unfolding prefix_of
prefix_told [] b h = (b, refl)
prefix_told (x ∷ a) [] h = cc
prefix_told (x ∷ a) (y ∷ b) h =
    let (rest, e) = prefix_told a b (ground arith) in
    let same : y ≡ x = ground arith in (rest, ap (λ z. z ∷ b) same ∙ ap (λ z. x ∷ z) e)

abbrev jj : Jj (Unit {0})
jj = record {
  get_commit = λ g commit_id. ok commit_id;
  is_ancestor = λ g a b. ok (prefix_of a b);
  rebase = λ g commit target. ok (target ++ commit, tt);
  conflicts = λ g commit. [];
  commit_tx = λ g main. ok tt;
  mirror_main_ref = λ main. ok tt;
}

jj-IsHistory : IsHistory jj IsPrefix
jj-IsHistory = record {
  itself = λ g a. ([], sym (append-nil a));
  through = λ g a b c h k. (h.0 ++ k.0, k.1 ∙ ap (λ x. x ++ k.0) h.1 ∙ append_assoc a h.0 k.0);
  is_told = λ g a b h. prefix_told a b (ok-injective h);
  rebased_onto = λ g g' commit target new h. (commit, ap (λ x. x.0) (ok-injective (sym h)));
  rebase_grows = λ g g' commit target new a b h k. k;
  commit_grows = λ g g' main a b h k. k;
}

abbrev on_main : Repository (Unit {0})
unfolding lit
on_main = record { graph = tt; main = some (lit "ab") }

abbrev change : Bytes → SubmitChangeRequest
unfolding lit
change text = record { repo = lit "demo"; commit_id = text }

fast_forward : (submit_change jj on_main (change (lit "abc"))).1.main ≡ some (lit "abc")
unfolding queue_code prefix_of
fast_forward = refl

rebase : (submit_change jj on_main (change (lit "x"))).1.main ≡ some (lit "abx")
unfolding queue_code prefix_of
rebase = refl

no_commit : (submit_change jj on_main (change [])).0 ≡ err invalid_argument
unfolding queue_code
no_commit = refl

submit_all-IsForward_example :
    IsForward jj IsPrefix jj-IsHistory on_main
      (submit_all jj (change (lit "abc") ∷ change (lit "x") ∷ []) on_main)
submit_all-IsForward_example =
    submit_all-IsForward jj IsPrefix (change (lit "abc") ∷ change (lit "x") ∷ []) on_main
      jj-IsHistory
