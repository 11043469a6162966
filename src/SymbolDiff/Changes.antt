-- ===== src/SymbolDiff/Changes.antt =====
-- What the report says of each symbol.
use clotho.Prelude.{
  ◌≡◌, inl, inr, refl, sym, ap, ap₂, ◌∙◌, true, false, ◌&&◌, Option, none, some, List, [], ◌∷◌,
  ◌++◌, All, if◌then◌else◌, Bool-cases, arith,
}
use clotho.Prelude.Bytes.{beq, beq_iff}
use clotho.SymbolDiff.Collect.{Symbol}
use clotho.SymbolDiff.{
  SymbolChange, added, modified, removed, same_symbol, find_symbol, line_range, change, old_change,
  new_change, old_changes, new_changes, changes,
}

-- The first change that is reported of the name and kind of `s`.
unfoldable pub find_change : Symbol → List SymbolChange → Option SymbolChange
find_change s [] = none
find_change s (c ∷ cs) = if beq c.name s.name && beq c.kind s.kind then some c else find_change s cs

-- What a symbol's versions, the old and the new one, have it reported as.
unfoldable pub reported : (old new : Option Symbol) → Option SymbolChange
unfolding change line_range
reported none none = none
reported (some o) none = some (change o removed (line_range o) none)
reported none (some n) = some (change n added none (line_range n))
reported (some o) (some n) =
    if beq n.text o.text then none else some (change o modified (line_range o) (line_range n))

-- No two symbols have the same name and kind.
abbrev pub HaveDistinctNames : List Symbol → Type 0
HaveDistinctNames [] = Unit
HaveDistinctNames (s ∷ ss) = All (λ x. same_symbol x s ≡ false) ss × HaveDistinctNames ss

first_of : Option SymbolChange → Option SymbolChange → Option SymbolChange
first_of (some c) otherwise = some c
first_of none otherwise = otherwise

find_change-append :
    (s : Symbol) (xs ys : List SymbolChange)
    → find_change s (xs ++ ys) ≡ first_of (find_change s xs) (find_change s ys)
unfolding find_change first_of
find_change-append s [] ys = refl
find_change-append s (c ∷ cs) ys = elim (Bool-cases (beq c.name s.name && beq c.kind s.kind)) [
  | inl h ↦ rw h refl
  | inr h ↦ rw h (find_change-append s cs ys)
]

find_symbol_congr :
    (a b : Symbol) (xs : List Symbol) → same_symbol a b ≡ true → find_symbol a xs ≡ find_symbol b xs
unfolding find_symbol same_symbol
find_symbol_congr a b [] h = refl
find_symbol_congr a b (x ∷ xs) h =
    let same_name = (beq_iff a.name b.name).0 (ground arith) in
    let same_kind = (beq_iff a.kind b.kind).0 (ground arith) in
    rw (same_name, same_kind, find_symbol_congr a b xs h) refl

find_symbol-none :
    (o s : Symbol) (xs : List Symbol)
    → same_symbol o s ≡ true
    → All (λ x. same_symbol x o ≡ false) xs
    → find_symbol s xs ≡ none
unfolding find_symbol
find_symbol-none o s [] h d = refl
find_symbol-none o s (x ∷ xs) h (d, ds) =
    let e : same_symbol x o ≡ same_symbol x s =
      unfold same_symbol in
      rw ((beq_iff o.name s.name).0 (ground arith), (beq_iff o.kind s.kind).0 (ground arith))
        refl in
    rw (sym e ∙ d) (find_symbol-none o s xs h ds)

old_decided : (old new : Option Symbol) → Option SymbolChange
unfolding reported
old_decided none new = none
old_decided (some o) new = reported (some o) new

new_decided : (old new : Option Symbol) → Option SymbolChange
unfolding reported
new_decided (some o) new = none
new_decided none new = reported none new

old_change_here :
    (o s : Symbol) (new : Option Symbol) (rest : List SymbolChange)
    → same_symbol o s ≡ true
    → find_change s rest ≡ none
    → find_change s (old_change o new ++ rest) ≡ reported (some o) new
unfolding find_change old_change reported same_symbol change
old_change_here o s (some n) rest h r = elim (Bool-cases (beq n.text o.text)) [
  | inl e ↦ rw e r
  | inr e ↦ rw (e, h) refl
]
old_change_here o s none rest h r = rw h refl

old_change_there :
    (o s : Symbol) (new : Option Symbol) (rest : List SymbolChange)
    → same_symbol o s ≡ false
    → find_change s (old_change o new ++ rest) ≡ find_change s rest
unfolding find_change old_change same_symbol change
old_change_there o s (some n) rest h = elim (Bool-cases (beq n.text o.text)) [
  | inl e ↦ rw e refl
  | inr e ↦ rw (e, h) refl
]
old_change_there o s none rest h = rw h refl

find_change-old_changes :
    (s : Symbol) (olds news : List Symbol)
    → HaveDistinctNames olds
    → find_change s (old_changes olds news) ≡ old_decided (find_symbol s olds) (find_symbol s news)
unfolding find_change old_changes old_decided find_symbol
find_change-old_changes s [] news d = refl
find_change-old_changes s (o ∷ olds) news (d, ds) =
    let rest = find_change-old_changes s olds news ds in
    elim (Bool-cases (same_symbol o s)) [
      | inl h ↦
          rw (h, find_symbol_congr o s news h)
            (old_change_here o s (find_symbol s news) (old_changes olds news) h (
              rest
              ∙ ap (λ found. old_decided found (find_symbol s news))
                  (find_symbol-none o s olds h d)))
      | inr h ↦ rw h (old_change_there o s (find_symbol o news) (old_changes olds news) h ∙ rest)
    ]

new_change_here :
    (n s : Symbol) (old new : Option Symbol) (rest : List SymbolChange)
    → same_symbol n s ≡ true
    → find_change s rest ≡ new_decided old new
    → find_change s (new_change n old ++ rest) ≡ new_decided old (some n)
unfolding find_change new_change new_decided reported same_symbol change
new_change_here n s (some o) new rest h r = r
new_change_here n s none new rest h r = rw h refl

new_change_there :
    (n s : Symbol) (old : Option Symbol) (rest : List SymbolChange)
    → same_symbol n s ≡ false
    → find_change s (new_change n old ++ rest) ≡ find_change s rest
unfolding find_change new_change same_symbol change
new_change_there n s (some o) rest h = refl
new_change_there n s none rest h = rw h refl

new_decided-none : (old : Option Symbol) → new_decided old none ≡ none
unfolding new_decided reported
new_decided-none none = refl
new_decided-none (some o) = refl

find_change-new_changes :
    (s : Symbol) (news olds : List Symbol)
    → find_change s (new_changes news olds) ≡ new_decided (find_symbol s olds) (find_symbol s news)
unfolding find_change new_changes find_symbol
find_change-new_changes s [] olds = sym (new_decided-none (find_symbol s olds))
find_change-new_changes s (n ∷ news) olds =
    let rest = find_change-new_changes s news olds in
    elim (Bool-cases (same_symbol n s)) [
      | inl h ↦
          rw (h, find_symbol_congr n s olds h)
            (new_change_here n s (find_symbol s olds) (find_symbol s news) (new_changes news olds) h
              rest)
      | inr h ↦ rw h (new_change_there n s (find_symbol n olds) (new_changes news olds) h ∙ rest)
    ]

first_of_decided :
    (old new : Option Symbol)
    → first_of (old_decided old new) (new_decided old new) ≡ reported old new
unfolding first_of old_decided new_decided reported
first_of_decided none none = refl
first_of_decided none (some n) = refl
first_of_decided (some o) none = refl
first_of_decided (some o) (some n) = elim (Bool-cases (beq n.text o.text)) [
  | inl e ↦ rw e refl
  | inr e ↦ rw e refl
]

-- Where no two symbols of the old side have one name and kind, a symbol is reported as its versions
-- say: as removed or added with its lines if one side has it, as modified with the lines of both if
-- their texts differ, and not at all if the texts are the same or no side has it.
pub changes-reported :
    (s : Symbol) (olds news : List Symbol)
    → HaveDistinctNames olds
    → find_change s (changes olds news) ≡ reported (find_symbol s olds) (find_symbol s news)
unfolding changes
changes-reported s olds news d =
    find_change-append s (old_changes olds news) (new_changes news olds)
    ∙ ap₂ first_of (find_change-old_changes s olds news d) (find_change-new_changes s news olds)
    ∙ first_of_decided (find_symbol s olds) (find_symbol s news)
