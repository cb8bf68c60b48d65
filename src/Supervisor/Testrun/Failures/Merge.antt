-- ===== src/Supervisor/Testrun/Failures/Merge.antt =====
-- failure.go: what merging the reports of a test keeps.
use parallel_workspace_serve.Prelude.{
  ◌⊎◌, subst, ℕ, ◌+◌, ◌≤◌, String, Bool, true, false, List, [], ◌∷◌, ◌&&◌, ◌||◌, not, leb, str_eq,
  eq_refl, eq_iff, if◌then◌else◌, is_blank, any, count_if, byte_length, ◌≡◌, arith, refl,
  Bool-cases, inl, inr,
}
use parallel_workspace_serve.Supervisor.Testrun.Runner.{Failure}
use parallel_workspace_serve.Supervisor.Testrun.Failures.{
  Library, is_defect, combine, merge_key, merge_one, merge_from, entries, merge,
}

abbrev pub IsReport : Failure → List Failure → Type 0
IsReport f [] = ⊥
IsReport f (g ∷ failures) = (g ≡ f) ⊎ IsReport f failures

module _ (lib : Library) where
  -- The entry is of the same test and tells at least as much as the report.
  unfoldable pub covers : Failure → Failure → Bool
  covers f e =
      str_eq (merge_key lib e) (merge_key lib f)
      && leb (byte_length f.message) (byte_length e.message)
      && (is_blank f.stack_trace || not (is_blank e.stack_trace))
      && (is_blank f.screenshot_key || not (is_blank e.screenshot_key))
      && (is_defect f.category || not (is_defect e.category))

  -- How many entries are of the test.
  abbrev pub entries_of : String → List Failure → ℕ
  entries_of key failures = count_if (λ e. str_eq (merge_key lib e) key) failures

  abbrev keyed : List (String × Failure) → Bool
  keyed [] = true
  keyed ((k, g) ∷ out) = str_eq (merge_key lib g) k && keyed out

  same_text : (a b : String) → str_eq a b ≡ true → a ≡ b
  same_text a b e = ground (arith, eq_iff a b)

  combine-key :
      (g f : Failure)
      → merge_key lib g ≡ merge_key lib f
      → merge_key lib (combine g f) ≡ merge_key lib f
  unfolding combine merge_key
  combine-key g f e = ground (arith, e)

  merge_one-keyed :
      (f : Failure) (out : List (String × Failure))
      → keyed out ≡ true
      → keyed (merge_one lib (merge_key lib f) f out) ≡ true
  unfolding merge_one
  merge_one-keyed f [] h = ground (arith, eq_refl (merge_key lib f))
  merge_one-keyed f ((k, g) ∷ out) h =
      grind (arith, merge_one-keyed f out, same_text, combine-key, eq_refl)

  combine-covers :
      (f g h : Failure)
      → merge_key lib g ≡ merge_key lib f
      → covers h g ≡ true
      → covers h (combine g f) ≡ true
  unfolding combine covers
  combine-covers f g h same c = ground (arith, combine-key g f same)

  combine-itself :
      (f g : Failure) → merge_key lib g ≡ merge_key lib f → covers f (combine g f) ≡ true
  unfolding combine covers
  combine-itself f g same = ground (arith, combine-key g f same, eq_refl (merge_key lib f))

  covers-itself : (f : Failure) → covers f f ≡ true
  unfolding covers
  covers-itself f = ground (arith, eq_refl (merge_key lib f))

  merge_one-keeps :
      (f h : Failure) (out : List (String × Failure))
      → keyed out ≡ true
      → any (covers h) (entries lib out) ≡ true
      → any (covers h) (entries lib (merge_one lib (merge_key lib f) f out)) ≡ true
  unfolding merge_one
  merge_one-keeps f h [] k c = ground arith
  merge_one-keeps f h ((key, g) ∷ out) k c =
      grind (arith, merge_one-keeps f h out, combine-covers f g h, same_text)

  merge_one-covers :
      (f : Failure) (out : List (String × Failure))
      → keyed out ≡ true
      → any (covers f) (entries lib (merge_one lib (merge_key lib f) f out)) ≡ true
  unfolding merge_one
  merge_one-covers f [] k = ground (arith, eq_refl (merge_key lib f), covers-itself f)
  merge_one-covers f ((key, g) ∷ out) k =
      grind (arith, merge_one-covers f out, combine-itself f g, same_text)

  -- How many entries stand beside the key.
  abbrev counted : String → List (String × Failure) → ℕ
  counted q [] = 0
  counted q ((k, g) ∷ out) = (if str_eq k q then 1 else 0) + counted q out

  merge_one-other :
      (q : String) (f : Failure) (out : List (String × Failure))
      → str_eq (merge_key lib f) q ≡ false
      → counted q (merge_one lib (merge_key lib f) f out) ≡ counted q out
  unfolding merge_one
  merge_one-other q f [] h = ground arith
  merge_one-other q f ((k, g) ∷ out) h = grind (arith, merge_one-other q f out, same_text)

  merge_one-once :
      (f : Failure) (out : List (String × Failure))
      → counted (merge_key lib f) out ≤ 1
      → counted (merge_key lib f) (merge_one lib (merge_key lib f) f out) ≡ 1
  unfolding merge_one
  merge_one-once f [] h = ground (arith, eq_refl (merge_key lib f))
  merge_one-once f ((k, g) ∷ out) h = grind (arith, merge_one-once f out, same_text)

  counted-once :
      (q : String) (f : Failure) (out : List (String × Failure))
      → counted q out ≤ 1
      → counted q (merge_one lib (merge_key lib f) f out) ≤ 1
  counted-once q f out h = elim (Bool-cases (str_eq (merge_key lib f) q)) [
    | inl same ↦
        subst (λ key. counted key out ≤ 1 → counted key (merge_one lib (merge_key lib f) f out) ≤ 1)
          (same_text (merge_key lib f) q same) (λ few. omega (arith, merge_one-once f out few)) h
    | inr other ↦ omega (arith, merge_one-other q f out other)
  ]

  merge_from-keeps :
      (h : Failure) (fs : List Failure) (out : List (String × Failure))
      → keyed out ≡ true
      → any (covers h) (entries lib out) ≡ true
      → any (covers h) (entries lib (merge_from lib out fs)) ≡ true
  unfolding merge_from
  merge_from-keeps h [] out k c = c
  merge_from-keeps h (f ∷ fs) out k c =
      merge_from-keeps h fs (merge_one lib (merge_key lib f) f out) (merge_one-keyed f out k)
        (merge_one-keeps f h out k c)

  merge_from-covers :
      (f : Failure) (fs : List Failure) (out : List (String × Failure))
      → keyed out ≡ true
      → IsReport f fs
      → any (covers f) (entries lib (merge_from lib out fs)) ≡ true
  unfolding merge_from
  merge_from-covers f [] out k here = absurd here
  merge_from-covers f (g ∷ fs) out k (inl same) =
      merge_from-keeps f fs (merge_one lib (merge_key lib g) g out) (merge_one-keyed g out k) (
        subst (λ h. any (covers h) (entries lib (merge_one lib (merge_key lib g) g out)) ≡ true)
          same (merge_one-covers g out k))
  merge_from-covers f (g ∷ fs) out k (inr there) =
      merge_from-covers f fs (merge_one lib (merge_key lib g) g out) (merge_one-keyed g out k) there

  merge_from-once :
      (q : String) (fs : List Failure) (out : List (String × Failure))
      → keyed out ≡ true
      → counted q out ≤ 1
      → (keyed (merge_from lib out fs) ≡ true) × (counted q (merge_from lib out fs) ≤ 1)
  unfolding merge_from
  merge_from-once q [] out k h = (k, h)
  merge_from-once q (f ∷ fs) out k h =
      merge_from-once q fs (merge_one lib (merge_key lib f) f out) (merge_one-keyed f out k)
        (counted-once q f out h)

  counted-entries_of :
      (q : String) (out : List (String × Failure))
      → keyed out ≡ true
      → entries_of q (entries lib out) ≡ counted q out
  counted-entries_of q [] k = refl
  counted-entries_of q ((key, g) ∷ out) k =
      grind (arith, counted-entries_of q out, same_text (merge_key lib g) key)

  -- For each report that is merged some entry of the same test tells at least as much (as long a
  -- message, a stack trace and a screenshot where the report has one, a category other than a defect
  -- where the report has one), and no test has two entries.
  pub merge-covers :
      (f : Failure) (failures : List Failure)
      → IsReport f failures
      → (any (covers f) (merge lib failures) ≡ true)
        × (entries_of (merge_key lib f) (merge lib failures) ≤ 1)
  unfolding merge
  merge-covers f failures here =
      let (k, few) = merge_from-once (merge_key lib f) failures [] refl (omega arith) in
      (
        merge_from-covers f failures [] refl here,
        omega (arith, few, counted-entries_of (merge_key lib f) (merge_from lib [] failures) k),
      )
