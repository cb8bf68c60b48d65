-- ===== src/Controller/Workspaces/Blackboard/Order.antt =====
-- blackboard.go: the order of the entries does not depend on the order of the listing.
use mathlib.Core.List.{Permᴰ}
use mathlib.Core.List.Permᴰ.{nil, cons, swap, trans}
use mathlib.Core.List.Permᴰ
use parallel_workspace_serve.Prelude.{
  Bool, false, List, [], ◌∷◌, Option, none, some, str_eq, eq_iff, if◌then◌else◌, ◌&&◌, not, ◌≡◌,
  arith, refl, ◌∙◌, ap, subst, Bool-cases, inl, inr, str_ltb_asymm, str_ltb_total, str_le_trans,
}
use parallel_workspace_serve.Controller.Types.{Workspace, BlackboardEntry}
use parallel_workspace_serve.Controller.Workspaces.Blackboard.{
  insert_entry, sort_entries, live_entries,
}

-- Entries of other branches only, and no two entries of one branch.
abbrev pub Others : BlackboardEntry → List BlackboardEntry → Type 0
Others a [] = Unit
Others a (b ∷ entries) = (str_eq a.branch b.branch ≡ false) × Others a entries

abbrev pub Apart : List BlackboardEntry → Type 0
Apart [] = Unit
Apart (a ∷ entries) = Others a entries × Apart entries

insert_entry_comm :
    (a b : BlackboardEntry) (entries : List BlackboardEntry)
    → str_eq a.branch b.branch ≡ false
    → insert_entry a (insert_entry b entries) ≡ insert_entry b (insert_entry a entries)
unfolding insert_entry
insert_entry_comm a b [] h =
    ground (arith, str_ltb_total a.branch b.branch, str_ltb_asymm a.branch b.branch)
insert_entry_comm a b (c ∷ entries) h = ground (
  arith,
  str_ltb_total a.branch b.branch,
  str_ltb_asymm a.branch b.branch,
  str_le_trans a.branch b.branch c.branch,
  str_le_trans b.branch a.branch c.branch,
  insert_entry_comm a b entries h,
)

branch_apart_comm :
    (a b : BlackboardEntry) → str_eq a.branch b.branch ≡ false → str_eq b.branch a.branch ≡ false
branch_apart_comm a b h = ground (arith, eq_iff a.branch b.branch, eq_iff b.branch a.branch)

perm-Others :
    (a : BlackboardEntry) {entries entries' : List BlackboardEntry}
    → Permᴰ entries entries'
    → Others a entries
    → Others a entries'
perm-Others a nil h = h
perm-Others a (cons e p) (h, hs) =
    (subst (λ x. str_eq a.branch x.branch ≡ false) e h, perm-Others a p hs)
perm-Others a (swap e f) (h, (k, hs)) = (
  subst (λ x. str_eq a.branch x.branch ≡ false) f k,
  (subst (λ x. str_eq a.branch x.branch ≡ false) e h, hs),
)
perm-Others a (trans p q) h = perm-Others a q (perm-Others a p h)

perm-Apart :
    {entries entries' : List BlackboardEntry}
    → Permᴰ entries entries'
    → Apart entries
    → Apart entries'
perm-Apart nil h = h
perm-Apart (cons {a} {l₂ = l} e p) (h, hs) =
    (subst (λ x. Others x l) e (perm-Others a p h), perm-Apart p hs)
perm-Apart (swap {a} {b} {a'} {b'} {l} e f) ((h, hs), (k, ks)) = (
  (
    subst (λ (x : BlackboardEntry). str_eq x.branch b'.branch ≡ false) f
        (subst (λ (x : BlackboardEntry). str_eq b.branch x.branch ≡ false) e
          (branch_apart_comm a b h)),
    subst (λ x. Others x l) f k,
  ),
  (subst (λ x. Others x l) e hs, ks),
)
perm-Apart (trans p q) h = perm-Apart q (perm-Apart p h)

sort_entries-perm :
    {entries entries' : List BlackboardEntry}
    → Permᴰ entries entries'
    → Apart entries
    → sort_entries entries ≡ sort_entries entries'
unfolding sort_entries
sort_entries-perm nil h = refl
sort_entries-perm (cons {l₂ = l} e p) (h, hs) =
    ap (insert_entry _) (sort_entries-perm p hs) ∙ ap (λ x. insert_entry x (sort_entries l)) e
sort_entries-perm (swap {a} {b} {a'} {l = l} e f) ((h, hs), ks) =
    insert_entry_comm a b (sort_entries l) h
    ∙ (ap (λ x. insert_entry x (insert_entry a (sort_entries l))) f
        ∙ ap (λ x. insert_entry a' (insert_entry x (sort_entries l))) e)
sort_entries-perm (trans p q) h = sort_entries-perm p h ∙ sort_entries-perm q (perm-Apart p h)

-- What a workspace adds to the entries of the others.
abbrev added : Bool → Option BlackboardEntry → List BlackboardEntry → List BlackboardEntry
added live none rest = rest
added live (some entry) rest = if entry.active && live then entry ∷ rest else rest

abbrev front : Workspace → List BlackboardEntry → List BlackboardEntry
front ws rest = added (not ws.deleting) ws.status.blackboard rest

live_entries-front :
    (ws : Workspace) (items : List Workspace)
    → live_entries (ws ∷ items) ≡ front ws (live_entries items)
unfolding live_entries
live_entries-front ws items = ground arith

added-perm :
    (live : Bool) (o : Option BlackboardEntry) {entries entries' : List BlackboardEntry}
    → Permᴰ entries entries'
    → Permᴰ (added live o entries) (added live o entries')
added-perm live none p = p
added-perm live (some entry) p = elim (Bool-cases (entry.active && live)) [
  | inl on ↦ rw on (cons refl p)
  | inr off ↦ rw off p
]

added-swap :
    (l m : Bool) (o q : Option BlackboardEntry) (entries : List BlackboardEntry)
    → Permᴰ (added l o (added m q entries)) (added m q (added l o entries))
added-swap l m none q entries = Permᴰ.refl _
added-swap l m (some a) none entries = Permᴰ.refl _
added-swap l m (some a) (some b) entries = elim (Bool-cases (a.active && l)) [
  | inl on ↦ elim (Bool-cases (b.active && m)) [
    | inl up ↦ rw (on, up) (swap refl refl)
    | inr down ↦ rw (on, down) (Permᴰ.refl _)
  ]
  | inr off ↦ elim (Bool-cases (b.active && m)) [
    | inl up ↦ rw (off, up) (Permᴰ.refl _)
    | inr down ↦ rw (off, down) (Permᴰ.refl _)
  ]
]

perm-live_entries :
    {items items' : List Workspace}
    → Permᴰ items items'
    → Permᴰ (live_entries items) (live_entries items')
perm-live_entries nil = Permᴰ.refl _
perm-live_entries (cons {a} {b} {l₁} {l₂} e p) =
    subst (λ x. Permᴰ (live_entries (a ∷ l₁)) (live_entries (x ∷ l₂))) e
      (rw (live_entries-front a l₁, live_entries-front a l₂)
        (added-perm (not a.deleting) a.status.blackboard (perm-live_entries p)))
perm-live_entries (swap {a} {b} {a'} {b'} {l} e f) =
    subst (λ x. Permᴰ (live_entries (a ∷ b ∷ l)) (live_entries (a' ∷ x ∷ l))) e
      (subst (λ x. Permᴰ (live_entries (a ∷ b ∷ l)) (live_entries (x ∷ a ∷ l))) f
        (rw
          (
            live_entries-front a (b ∷ l),
            live_entries-front b l,
            live_entries-front b (a ∷ l),
            live_entries-front a l,
          )
          (added-swap (not a.deleting) (not b.deleting) a.status.blackboard b.status.blackboard
            (live_entries l))))
perm-live_entries (trans p q) = trans (perm-live_entries p) (perm-live_entries q)

-- Where no two live workspaces have an active entry of one branch, the entries and their order are
-- the same in whatever order the workspaces are listed.
pub sort_entries-live_entries :
    {items items' : List Workspace}
    → Permᴰ items items'
    → Apart (live_entries items)
    → sort_entries (live_entries items) ≡ sort_entries (live_entries items')
sort_entries-live_entries p h = sort_entries-perm (perm-live_entries p) h
