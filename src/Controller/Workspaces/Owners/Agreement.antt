-- ===== src/Controller/Workspaces/Owners/Agreement.antt =====
-- workspace_controller.go: all passes agree on the owner of a branch.
use parallel_workspace_serve.Prelude.{
  Bool, true, false, List, [], ◌∷◌, none, some, str_eq, eq_iff, if◌then◌else◌, keep_if, ◌≡◌, ◌≢◌,
  ◌⊎◌, inl, inr, refl, sym, subst, arith, Bool-cases, str_ltb_asymm, str_ltb_irrefl, str_ltb_total,
  str_le_trans,
}
use parallel_workspace_serve.Controller.Types.{Workspace}
use parallel_workspace_serve.Controller.TaskQueue.Pass.{is_older}
use parallel_workspace_serve.Controller.Workspaces.Owners.{
  is_candidate, is_elder, insert_workspace, sort_workspaces, choose, canonical_of,
}

abbrev pub IsIn : Workspace → List Workspace → Type 0
IsIn w [] = ⊥
IsIn w (x ∷ items) = (x ≡ w) ⊎ IsIn w items

-- The name of an object is its own.
abbrev pub NamedApart : List Workspace → Type 0
NamedApart items =
    (x y : Workspace) → IsIn x items → IsIn y items → str_eq x.name y.name ≡ true → x ≡ y

is_elder_irrefl : (a : Workspace) → is_elder a a ≡ false
unfolding is_elder is_older
is_elder_irrefl a = ground (arith, str_ltb_irrefl a.name)

is_elder_asymm : (a b : Workspace) → is_elder a b ≡ true → is_elder b a ≡ false
unfolding is_elder is_older
is_elder_asymm a b h = ground (arith, str_ltb_asymm a.name b.name)

not_elder_trans :
    (a b c : Workspace) → is_elder b a ≡ false → is_elder c b ≡ false → is_elder c a ≡ false
unfolding is_elder is_older
not_elder_trans a b c h k = ground (arith, str_le_trans a.name b.name c.name)

is_elder_total :
    (a b : Workspace) → is_elder a b ≡ false → str_eq a.name b.name ≡ false → is_elder b a ≡ true
unfolding is_elder is_older
is_elder_total a b h k = ground (arith, str_ltb_total a.name b.name)

IsIn-keep_if :
    (p : Workspace → Bool) (w : Workspace) (items : List Workspace)
    → IsIn w (keep_if p items)
    → IsIn w items × (p w ≡ true)
IsIn-keep_if p w [] i = absurd i
IsIn-keep_if p w (x ∷ items) i = elim (Bool-cases (p x)) [
  | inl kept ↦
      elim (subst (λ b. IsIn w (if b then x ∷ keep_if p items else keep_if p items)) kept i) [
        | inl e ↦ (inl e, subst (λ y. p y ≡ true) e kept)
        | inr j ↦ let (k, h) = IsIn-keep_if p w items j in (inr k, h)
      ]
  | inr dropped ↦
      let (k, h) =
        IsIn-keep_if p w items
          (subst (λ b. IsIn w (if b then x ∷ keep_if p items else keep_if p items)) dropped i) in
      (inr k, h)
]

keep_if-IsIn :
    (p : Workspace → Bool) (w : Workspace) (items : List Workspace)
    → IsIn w items
    → p w ≡ true
    → IsIn w (keep_if p items)
keep_if-IsIn p w [] i h = absurd i
keep_if-IsIn p w (x ∷ items) (inl e) h =
    let kept : p x ≡ true = subst (λ y. p y ≡ true) (sym e) h in rw kept (inl e)
keep_if-IsIn p w (x ∷ items) (inr j) h = elim (Bool-cases (p x)) [
  | inl kept ↦ rw kept (inr (keep_if-IsIn p w items j h))
  | inr dropped ↦ rw dropped (keep_if-IsIn p w items j h)
]

-- The head of a sorted list is an entry, and no entry is older.
abbrev HasHead : List Workspace → List Workspace → Type 0
HasHead items [] = (d : Workspace) → IsIn d items → ⊥
HasHead items (o ∷ rest) = IsIn o items × ((d : Workspace) → IsIn d items → is_elder d o ≡ false)

insert_workspace-HasHead :
    (a : Workspace) (items sorted : List Workspace)
    → HasHead items sorted
    → HasHead (a ∷ items) (insert_workspace a sorted)
unfolding insert_workspace
insert_workspace-HasHead a items [] h = (
  inl refl,
  λ d i. elim i [
    | inl e ↦ subst (λ x. is_elder x a ≡ false) e (is_elder_irrefl a)
    | inr j ↦ absurd (h d j)
  ],
)
insert_workspace-HasHead a items (b ∷ bs) (i, k) = elim (Bool-cases (is_elder b a)) [
  | inl older ↦ rw older (
    inr i,
    λ d j. elim j [
      | inl e ↦ subst (λ x. is_elder x b ≡ false) e (is_elder_asymm b a older)
      | inr m ↦ k d m
    ],
  )
  | inr newer ↦ rw newer (
    inl refl,
    λ d j. elim j [
      | inl e ↦ subst (λ x. is_elder x a ≡ false) e (is_elder_irrefl a)
      | inr m ↦ not_elder_trans a b d newer (k d m)
    ],
  )
]

sort_workspaces-HasHead : (items : List Workspace) → HasHead items (sort_workspaces items)
unfolding sort_workspaces
sort_workspaces-HasHead [] = λ d i. i
sort_workspaces-HasHead (a ∷ items) =
    insert_workspace-HasHead a items (sort_workspaces items) (sort_workspaces-HasHead items)

-- An owner has no older candidate.
choose-none :
    (a b : Workspace) (items sorted : List Workspace)
    → HasHead items sorted
    → choose a sorted ≡ none
    → IsIn b items
    → is_elder b a ≡ false
unfolding choose
choose-none a b items [] h e i = absurd (h b i)
choose-none a b items (o ∷ rest) (j, k) e i = elim (Bool-cases (is_elder a o)) [
  | inl older ↦ not_elder_trans a o b (is_elder_asymm a o older) (k b i)
  | inr newer ↦ ground arith
]

choose-some :
    (a c : Workspace) (items sorted : List Workspace)
    → HasHead items sorted
    → choose a sorted ≡ some c
    → IsIn c items
      × (is_elder a c ≡ false)
      × ((d : Workspace) → IsIn d items → is_elder d c ≡ false)
unfolding choose
choose-some a c items [] h e = ground arith
choose-some a c items (o ∷ rest) (j, k) e = elim (Bool-cases (is_elder a o)) [
  | inl older ↦ ground arith
  | inr newer ↦
      let same : o ≡ c = ground arith in
      (
        subst (λ x. IsIn x items) same j,
        subst (λ x. is_elder a x ≡ false) same newer,
        λ d i. subst (λ x. is_elder d x ≡ false) same (k d i),
      )
]

-- Two listed live workspaces of one repository and branch with different names do not both own it.
pub canonical_of_alone :
    (items : List Workspace) (a b : Workspace)
    → IsIn a items
    → IsIn b items
    → is_candidate a b ≡ true
    → is_candidate b a ≡ true
    → canonical_of a items ≡ none
    → canonical_of b items ≢ none
unfolding canonical_of
canonical_of_alone items a b i j h k e f =
    let later : is_elder b a ≡ false =
      choose-none a b (keep_if (is_candidate a) items)
        (sort_workspaces (keep_if (is_candidate a) items))
        (sort_workspaces-HasHead (keep_if (is_candidate a) items)) e
        (keep_if-IsIn (is_candidate a) b items j h) in
    let earlier : is_elder a b ≡ false =
      choose-none b a (keep_if (is_candidate b) items)
        (sort_workspaces (keep_if (is_candidate b) items))
        (sort_workspaces-HasHead (keep_if (is_candidate b) items)) f
        (keep_if-IsIn (is_candidate b) a items i k) in
    unfold is_candidate in ground (arith, is_elder_total a b earlier)

candidate_of-candidate :
    (a c d : Workspace)
    → is_candidate a c ≡ true
    → is_candidate c d ≡ true
    → str_eq d.name a.name ≡ false
    → is_candidate a d ≡ true
unfolding is_candidate
candidate_of-candidate a c d h k n = ground (
  arith,
  eq_iff d.spec.repository c.spec.repository,
  eq_iff c.spec.repository a.spec.repository,
  eq_iff d.spec.repository a.spec.repository,
  eq_iff d.spec.branch c.spec.branch,
  eq_iff c.spec.branch a.spec.branch,
  eq_iff d.spec.branch a.spec.branch,
)

choose_owner :
    (c : Workspace) (items sorted : List Workspace)
    → HasHead items sorted
    → ((d : Workspace) → IsIn d items → is_elder c d ≡ true)
    → choose c sorted ≡ none
unfolding choose
choose_owner c items [] h k = refl
choose_owner c items (o ∷ rest) (j, m) k = rw (k o j) refl

candidate-name : (a c : Workspace) → is_candidate a c ≡ true → str_eq c.name a.name ≡ false
unfolding is_candidate
candidate-name a c h = ground arith

candidate-other : (a c : Workspace) → is_candidate a c ≡ true → str_eq a.name c.name ≡ false
unfolding is_candidate
candidate-other a c h = ground (arith, eq_iff a.name c.name, eq_iff c.name a.name)

candidate_facts :
    (a c : Workspace)
    → is_candidate a c ≡ true
    → (c.spec.repository ≡ a.spec.repository)
      × (c.spec.branch ≡ a.spec.branch)
      × (c.deleting ≡ false)
      × (c.name ≢ a.name)
unfolding is_candidate
candidate_facts a c h = (
  ground (arith, eq_iff c.spec.repository a.spec.repository),
  ground (arith, eq_iff c.spec.branch a.spec.branch),
  ground arith,
  λ e. ground (arith, eq_iff c.name a.name),
)

-- The owner that a workspace finds is listed, has the same repository and the same branch, is not
-- being deleted, has another name, and finds itself to be the owner; where no two listed workspaces have one
-- name, and the workspace itself is listed.
pub canonical_of-canonical_of :
    (items : List Workspace) (a c : Workspace)
    → NamedApart items
    → IsIn a items
    → canonical_of a items ≡ some c
    → IsIn c items
      × ((c.spec.repository ≡ a.spec.repository)
          × (c.spec.branch ≡ a.spec.branch)
          × (c.deleting ≡ false)
          × (c.name ≢ a.name))
      × (canonical_of c items ≡ none)
unfolding canonical_of
canonical_of-canonical_of items a c apart i e =
    let (j, earlier, least) =
      choose-some a c (keep_if (is_candidate a) items)
        (sort_workspaces (keep_if (is_candidate a) items))
        (sort_workspaces-HasHead (keep_if (is_candidate a) items)) e in
    let (k, cand) = IsIn-keep_if (is_candidate a) c items j in
    (
      k,
      candidate_facts a c cand,
      choose_owner c (keep_if (is_candidate c) items)
          (sort_workspaces (keep_if (is_candidate c) items))
          (sort_workspaces-HasHead (keep_if (is_candidate c) items))
          (λ d m.
            let (n, other) = IsIn-keep_if (is_candidate c) d items m in
            elim (Bool-cases (str_eq d.name a.name)) [
              | inl same ↦
                  subst (λ x. is_elder c x ≡ true) (sym (apart d a n i same))
                    (is_elder_total a c earlier (candidate-other a c cand))
              | inr apart' ↦
                  is_elder_total d c
                    (least d (
                      keep_if-IsIn (is_candidate a) d items n
                        (candidate_of-candidate a c d cand other apart')))
                    (candidate-name c d other)
            ]),
    )
