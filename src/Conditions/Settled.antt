-- ===== src/Conditions/Settled.antt =====
-- What desugaring accepts, and that it leaves no array clause.
use cyoda_go_spi.Base.{
  Bool-cases, ◌≡◌, ◌↔◌, refl, sym, arith, bind-ok, ap, ◌∙◌, subst, inl, inr, ℕ, suc, Bool, true,
  false, ◌&&◌, ◌||◌, Bytes, codes, ok, ok-injective, ◌>>=◌,
}
use cyoda_go_spi.Operand.{Operand, missing, text, Operands, end, ◌▷◌}
use cyoda_go_spi.Conditions.{
  Condition, Conditions, simple, lifecycle, group, array_clause, function, nil, foreign, done, ◌⨾◌,
  element_leaves, clause_of, desugar_array_condition, desugar_condition, desugar_conditions,
}

-- Whether a position is tested.
abbrev pub is_given : Operand → Bool
is_given missing = false
is_given _ = true

abbrev pub tests_position : Operands → Bool
tests_position end = false
tests_position (v ▷ vs) = is_given v || tests_position vs

-- Every array clause tests a position.
unfoldable mutual
  tests_something : Condition → Bool
  tests_something (array_clause p op vs) = tests_position vs
  tests_something (group op cs) = all_test_something cs
  tests_something _ = true

  pub all_test_something : Conditions → Bool
  all_test_something done = true
  all_test_something (c ⨾ cs) = tests_something c && all_test_something cs

-- No array clause stands in the groups of a condition.
unfoldable mutual
  pub lacks_arrays : Condition → Bool
  lacks_arrays (array_clause p op vs) = false
  lacks_arrays (group op cs) = all_lack_arrays cs
  lacks_arrays _ = true

  pub all_lack_arrays : Conditions → Bool
  all_lack_arrays done = true
  all_lack_arrays (c ⨾ cs) = lacks_arrays c && all_lack_arrays cs

and_parts : (a b : Bool) → (a && b) ≡ true → (a ≡ true) × (b ≡ true)
and_parts a b h = ground (arith, h)

leaves_none :
    (p op : Bytes) (i : ℕ) (vs : Operands)
    → tests_position vs ≡ false
    → element_leaves p op i vs ≡ done
unfolding element_leaves
leaves_none p op i end h = refl
leaves_none p op i (missing ▷ vs) h = leaves_none p op (suc i) vs h
leaves_none p op i (text _ ▷ vs) h = cc h
leaves_none p op i (_ ▷ vs) h = cc h

-- The leaves of a clause that tests a position.
abbrev IsLeaf : Condition → Type 0
IsLeaf (simple p op v) = Unit
IsLeaf _ = ⊥

abbrev AreLeaves : Conditions → Type 0
AreLeaves done = Unit
AreLeaves (c ⨾ cs) = IsLeaf c × AreLeaves cs

leaves-AreLeaves : (p op : Bytes) (i : ℕ) (vs : Operands) → AreLeaves (element_leaves p op i vs)
unfolding element_leaves
leaves-AreLeaves p op i end = tt
leaves-AreLeaves p op i (missing ▷ vs) = leaves-AreLeaves p op (suc i) vs
leaves-AreLeaves p op i (text _ ▷ vs) = (tt, leaves-AreLeaves p op (suc i) vs)
leaves-AreLeaves p op i (_ ▷ vs) = (tt, leaves-AreLeaves p op (suc i) vs)

leaves_some :
    (p op : Bytes) (i : ℕ) (vs : Operands)
    → tests_position vs ≡ true
    → (c : Condition) × (cs : Conditions) × (element_leaves p op i vs ≡ c ⨾ cs)
unfolding element_leaves
leaves_some p op i end h = cc h
leaves_some p op i (missing ▷ vs) h = leaves_some p op (suc i) vs h
leaves_some p op i (text s ▷ vs) h = (_, _, refl)
leaves_some p op i (_ ▷ vs) h = (_, _, refl)

-- What a condition is desugared to is left alone by desugaring.
Settled : Condition → Type 0
Settled d = (lacks_arrays d ≡ true) × (desugar_condition d ≡ ok d)

AllSettled : Conditions → Type 0
AllSettled ds = (all_lack_arrays ds ≡ true) × (desugar_conditions ds ≡ ok ds)

group-Settled : (ds : Conditions) (op : Bytes) → AllSettled ds → Settled (group op ds)
unfolding Settled AllSettled desugar_condition lacks_arrays
group-Settled ds op (l, e) = (l, rw (e, desugar_condition))

AllSettled-cons :
    (d : Condition) (ds : Conditions) → Settled d → AllSettled ds → AllSettled (d ⨾ ds)
unfolding Settled AllSettled desugar_condition lacks_arrays
AllSettled-cons d ds (l, e) (ls, es) = (rw (l, ls), rw (e, es, desugar_condition))

leaf-Settled : (c : Condition) → IsLeaf c → Settled c
unfolding Settled desugar_condition lacks_arrays
leaf-Settled (simple p op v) h = (refl, refl)
leaf-Settled _ h = elim h [ ]

leaves-AllSettled : (cs : Conditions) → AreLeaves cs → AllSettled cs
leaves-AllSettled done h = unfold AllSettled desugar_condition lacks_arrays in (refl, refl)
leaves-AllSettled (c ⨾ cs) (h, hs) =
    AllSettled-cons c cs (leaf-Settled c h) (leaves-AllSettled cs hs)

clause_of-Settled :
    (p : Bytes) (ls : Conditions) (d : Condition) → AreLeaves ls → clause_of p ls ≡ ok d → Settled d
unfolding clause_of
clause_of-Settled p done d l h = cc h
clause_of-Settled p (leaf ⨾ done) d l h =
    subst Settled (ok-injective leaf d h) (leaf-Settled leaf l.0)
clause_of-Settled p (leaf ⨾ next ⨾ more) d l h =
    subst Settled (ok-injective (group (codes "AND") (leaf ⨾ next ⨾ more)) d h)
      (group-Settled (leaf ⨾ next ⨾ more) (codes "AND") (leaves-AllSettled (leaf ⨾ next ⨾ more) l))

Settled-plain :
    (c d : Condition)
    → desugar_condition c ≡ ok c
    → lacks_arrays c ≡ true
    → desugar_condition c ≡ ok d
    → Settled d
unfolding Settled
Settled-plain c d e l h = subst Settled (ok-injective c d (sym e ∙ h)) (l, e)

AllSettled-done : AllSettled done
unfolding AllSettled desugar_condition lacks_arrays
AllSettled-done = (refl, refl)

mutual
  unfolding desugar_condition desugar_array_condition lacks_arrays

  settled : (c d : Condition) → desugar_condition c ≡ ok d → Settled d
  settled (simple p op v) d h = Settled-plain (simple p op v) d refl refl h
  settled (lifecycle p op v) d h = Settled-plain (lifecycle p op v) d refl refl h
  settled (function r c) d h = Settled-plain (function r c) d refl refl h
  settled nil d h = Settled-plain nil d refl refl h
  settled foreign d h = Settled-plain foreign d refl refl h
  settled (array_clause p op vs) d h =
      clause_of-Settled p (element_leaves p op 0 vs) d (leaves-AreLeaves p op 0 vs) h
  settled (group op cs) d h =
      let (ds, e, k) = bind-ok (desugar_conditions cs) (λ ds. ok (group op ds)) d h in
      subst Settled (ok-injective (group op ds) d k) (group-Settled ds op (all_settled cs ds e))

  all_settled : (cs ds : Conditions) → desugar_conditions cs ≡ ok ds → AllSettled ds
  all_settled done ds h = subst AllSettled (ok-injective done ds h) AllSettled-done
  all_settled (c ⨾ cs) ds h =
      let (d, e, k) =
        bind-ok (desugar_condition c) (λ d. desugar_conditions cs >>= λ ds. ok (d ⨾ ds)) ds h in
      let (ds', e', k') = bind-ok (desugar_conditions cs) (λ ds. ok (d ⨾ ds)) ds k in
      subst AllSettled (ok-injective (d ⨾ ds') ds k')
        (AllSettled-cons d ds' (settled c d e) (all_settled cs ds' e'))

-- What a condition is desugared to holds no array clause in its groups, and desugaring it again
-- changes nothing.
pub desugar_condition-Settled :
    (c d : Condition)
    → desugar_condition c ≡ ok d
    → (lacks_arrays d ≡ true) × (desugar_condition d ≡ ok d)
unfolding Settled
desugar_condition-Settled c d h = settled c d h

abbrev pub Accepted : Condition → Type 0
Accepted c = (d : Condition) × (desugar_condition c ≡ ok d)

abbrev AllAccepted : Conditions → Type 0
AllAccepted cs = (ds : Conditions) × (desugar_conditions cs ≡ ok ds)

clause_of-ok :
    (p : Bytes) (c : Condition) (cs : Conditions) → (d : Condition) × (clause_of p (c ⨾ cs) ≡ ok d)
unfolding clause_of
clause_of-ok p c done = (c, refl)
clause_of-ok p c (d ⨾ cs) = (group (codes "AND") (c ⨾ d ⨾ cs), refl)

pub clause-Accepted :
    (p op : Bytes) (vs : Operands) → tests_position vs ≡ true → Accepted (array_clause p op vs)
unfolding desugar_condition desugar_array_condition
clause-Accepted p op vs h =
    let (c, cs, e) = leaves_some p op 0 vs h in
    let (d, k) = clause_of-ok p c cs in (d, ap (clause_of p) e ∙ k)

pub clause-tests :
    (p op : Bytes) (vs : Operands) → Accepted (array_clause p op vs) → tests_position vs ≡ true
unfolding desugar_condition desugar_array_condition clause_of
clause-tests p op vs (d, h) = elim (Bool-cases (tests_position vs)) [
  | inl e ↦ e
  | inr e ↦ cc (sym (ap (clause_of p) (leaves_none p op 0 vs e)) ∙ h)
]

mutual
  unfolding desugar_condition tests_something

  accepted : (c : Condition) → tests_something c ≡ true → Accepted c
  accepted (array_clause p op vs) h = clause-Accepted p op vs h
  accepted (group op cs) h =
      let (ds, e) = all_accepted cs h in (group op ds, rw (e, desugar_condition))
  accepted (simple p op v) h = (simple p op v, refl)
  accepted (lifecycle p op v) h = (lifecycle p op v, refl)
  accepted (function r c) h = (function r c, refl)
  accepted nil h = (nil, refl)
  accepted foreign h = (foreign, refl)

  all_accepted : (cs : Conditions) → all_test_something cs ≡ true → AllAccepted cs
  all_accepted done h = (done, refl)
  all_accepted (c ⨾ cs) h =
      let (a, b) = and_parts (tests_something c) (all_test_something cs) h in
      let (d, e) = accepted c a in
      let (ds, es) = all_accepted cs b in (d ⨾ ds, rw (e, es, desugar_conditions))

mutual
  unfolding desugar_condition tests_something

  tests : (c : Condition) → Accepted c → tests_something c ≡ true
  tests (array_clause p op vs) h = clause-tests p op vs h
  tests (group op cs) (d, h) =
      let (ds, e, k) = bind-ok (desugar_conditions cs) (λ ds. ok (group op ds)) d h in
      all_test cs (ds, e)
  tests (simple p op v) h = refl
  tests (lifecycle p op v) h = refl
  tests (function r c) h = refl
  tests nil h = refl
  tests foreign h = refl

  all_test : (cs : Conditions) → AllAccepted cs → all_test_something cs ≡ true
  all_test done h = refl
  all_test (c ⨾ cs) (ds, h) =
      let (d, e, k) =
        bind-ok (desugar_condition c) (λ d. desugar_conditions cs >>= λ ds. ok (d ⨾ ds)) ds h in
      let (ds', e', k') = bind-ok (desugar_conditions cs) (λ ds. ok (d ⨾ ds)) ds k in
      rw (tests c (d, e), all_test cs (ds', e'))

-- Desugaring succeeds exactly if every array clause in the groups of the condition tests a
-- position.
desugar_condition-tests :
    (c : Condition) → ((d : Condition) × (desugar_condition c ≡ ok d)) ↔ (tests_something c ≡ true)
desugar_condition-tests c = (tests c, accepted c)
