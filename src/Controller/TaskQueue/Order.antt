-- ===== src/Controller/TaskQueue/Order.antt =====
-- taskqueue.go: tasks are dispatched oldest first, and every waiting task is considered.
use mathlib.Core.List.{Perm}
use mathlib.Core.List.Perm
use parallel_workspace_serve.Prelude.{
  true, false, List, [], ◌∷◌, ◌≡◌, ◌<◌, ◌⊎◌, arith, str_ltb, str_ltb_asymm, str_le_trans,
  Bool-cases, inl, inr,
}
use parallel_workspace_serve.Controller.Types.{TaskRequest}
use parallel_workspace_serve.Controller.TaskQueue.Pass.{is_older, before, insert_task, sort_tasks}

-- `b` is not before `a`: `a` is at least as old, ties broken by name.
abbrev pub NotBefore : TaskRequest → TaskRequest → Type 0
NotBefore a b = before b a ≡ false

abbrev pub AllNotBefore : TaskRequest → List TaskRequest → Type 0
AllNotBefore a [] = Unit
AllNotBefore a (b ∷ bs) = NotBefore a b × AllNotBefore a bs

-- Each task is at least as old as all behind it.
abbrev pub IsSorted : List TaskRequest → Type 0
IsSorted [] = Unit
IsSorted (a ∷ as') = AllNotBefore a as' × IsSorted as'

NotBefore-asymm : (a b : TaskRequest) → before b a ≡ true → NotBefore b a
unfolding is_older
NotBefore-asymm a b h = ground (arith, str_ltb_asymm b.name a.name)

NotBefore-trans : (a b c : TaskRequest) → NotBefore a b → NotBefore b c → NotBefore a c
unfolding is_older
NotBefore-trans a b c h k = ground (arith, str_le_trans a.name b.name c.name)

AllNotBefore-trans :
    (a b : TaskRequest) (cs : List TaskRequest)
    → NotBefore a b
    → AllNotBefore b cs
    → AllNotBefore a cs
AllNotBefore-trans a b [] h k = tt
AllNotBefore-trans a b (c ∷ cs) h k = (NotBefore-trans a b c h k.0, AllNotBefore-trans a b cs h k.1)

AllNotBefore-insert_task :
    (a b : TaskRequest) (cs : List TaskRequest)
    → NotBefore a b
    → AllNotBefore a cs
    → AllNotBefore a (insert_task b cs)
unfolding insert_task
AllNotBefore-insert_task a b [] h k = (h, tt)
AllNotBefore-insert_task a b (c ∷ cs) h k = ground (arith, AllNotBefore-insert_task a b cs)

insert_task-IsSorted :
    (a : TaskRequest) (bs : List TaskRequest) → IsSorted bs → IsSorted (insert_task a bs)
unfolding insert_task
insert_task-IsSorted a [] s = (tt, tt)
insert_task-IsSorted a (b ∷ bs) s = elim (Bool-cases (before b a)) [
  | inl older ↦ rw older (
    AllNotBefore-insert_task b a bs (NotBefore-asymm a b older) s.0,
    insert_task-IsSorted a bs s.1,
  )
  | inr newer ↦ rw newer ((newer, AllNotBefore-trans a b bs newer s.0), s)
]

insert_task-perm : (a : TaskRequest) (bs : List TaskRequest) → Perm (insert_task a bs) (a ∷ bs)
unfolding insert_task
insert_task-perm a [] = Perm.refl _
insert_task-perm a (b ∷ bs) = elim (Bool-cases (before b a)) [
  | inl older ↦ rw older (Perm.trans (Perm.cons b (insert_task-perm a bs)) (Perm.swap _ _ _))
  | inr newer ↦ rw newer (Perm.refl _)
]

pub sort_tasks-perm : (tasks : List TaskRequest) → Perm (sort_tasks tasks) tasks
unfolding sort_tasks
sort_tasks-perm [] = Perm.refl _
sort_tasks-perm (a ∷ as') =
    Perm.trans (insert_task-perm a (sort_tasks as')) (Perm.cons a (sort_tasks-perm as'))

-- No younger: created earlier, or at the same time and not behind by the name.
abbrev pub NoYounger : TaskRequest → TaskRequest → Type 0
NoYounger a b =
    (a.creation_timestamp < b.creation_timestamp)
    ⊎ ((a.creation_timestamp ≡ b.creation_timestamp) × (str_ltb b.name a.name ≡ false))

abbrev pub AllNoYounger : TaskRequest → List TaskRequest → Type 0
AllNoYounger a [] = Unit
AllNoYounger a (b ∷ bs) = NoYounger a b × AllNoYounger a bs

-- Each task is no younger than any behind it.
abbrev pub IsOldestFirst : List TaskRequest → Type 0
IsOldestFirst [] = Unit
IsOldestFirst (a ∷ as') = AllNoYounger a as' × IsOldestFirst as'

not_before : (a b : TaskRequest) → NotBefore a b → NoYounger a b
unfolding is_older
not_before a b h = ground arith

all_not_before : (a : TaskRequest) (bs : List TaskRequest) → AllNotBefore a bs → AllNoYounger a bs
all_not_before a [] h = tt
all_not_before a (b ∷ bs) h = (not_before a b h.0, all_not_before a bs h.1)

pub sorted-IsOldestFirst : (tasks : List TaskRequest) → IsSorted tasks → IsOldestFirst tasks
sorted-IsOldestFirst [] h = tt
sorted-IsOldestFirst (a ∷ as') h = (all_not_before a as' h.0, sorted-IsOldestFirst as' h.1)

pub sort_tasks-IsSorted : (tasks : List TaskRequest) → IsSorted (sort_tasks tasks)
unfolding sort_tasks
sort_tasks-IsSorted [] = tt
sort_tasks-IsSorted (a ∷ as') = insert_task-IsSorted a (sort_tasks as') (sort_tasks-IsSorted as')
