-- ===== src/Prelude/Outcome.antt =====
-- A Go function that returns `(A, error)` and changes the state S: the state is kept on an error
-- too, since a write that was made before the failure stays made.
use parallel_workspace_serve.Prelude.{String, ◌≡◌, refl, ap, subst}

pub data Outcome (S A : Type 0) : Type 0 where
  ok : A → S → Outcome S A
  err : String → S → Outcome S A

abbrev pub M : Type 0 → Type 0 → Type 0
M S A = S → Outcome S A

abbrev pub final : {S A : Type 0} → Outcome S A → S
final (ok a s) = s
final (err e s) = s

abbrev pub return : {S A : Type 0} → A → M S A
return a s = ok a s

abbrev pub fail : {S A : Type 0} → String → M S A
fail e s = err e s

infixl 5 ◌>>=◌ ◌>>◌
abbrev pub ◌>>=◌ : {S A B : Type 0} → M S A → (A → M S B) → M S B
◌>>=◌ m f s = elim (m s) [ ok a t ↦ f a t | err e t ↦ err e t ]

abbrev pub ◌>>◌ : {S A B : Type 0} → M S A → M S B → M S B
m >> k = m >>= λ _. k

-- A step that succeeds hands on its result and its state, and a chain that has succeeded is one of
-- two such steps.
pub >>=-ok :
    {S A B : Type 0} (m : M S A) (f : A → M S B) (s : S) {a : A} {t : S}
    → m s ≡ ok a t
    → (m >>= f) s ≡ f a t
>>=-ok m f s e = ap (λ o. ◌>>=◌ (λ _. o) f s) e

pub >>=-err :
    {S A B : Type 0} (m : M S A) (f : A → M S B) (s : S) {e : String} {t : S}
    → m s ≡ err e t
    → (m >>= f) s ≡ err e t
>>=-err m f s e = ap (λ o. ◌>>=◌ (λ _. o) f s) e

split_outcome :
    {S A B : Type 0} (o : Outcome S A) (f : A → M S B) (s : S) {b : B} {u : S}
    → ◌>>=◌ (λ _. o) f s ≡ ok b u
    → (a : A) × (t : S) × (o ≡ ok a t) × (f a t ≡ ok b u)
split_outcome (ok a t) f s h = (a, t, refl, h)
split_outcome (err e t) f s h = cc

pub >>=-eq-ok :
    {S A B : Type 0} (m : M S A) (f : A → M S B) (s : S) {b : B} {u : S}
    → (m >>= f) s ≡ ok b u
    → (a : A) × (t : S) × (m s ≡ ok a t) × (f a t ≡ ok b u)
>>=-eq-ok m f s h = split_outcome (m s) f s h

settle_state :
    {S A B : Type 0} (m : M S A) (f : A → M S B) (s t : S) {a : A} {b : B} {u : S}
    → t ≡ s
    → m s ≡ ok a t
    → f a t ≡ ok b u
    → (m s ≡ ok a s) × (f a s ≡ ok b u)
settle_state m f s t {a} {b} {u} e h k =
    (subst (λ x. m s ≡ ok a x) e h, subst (λ x. f a x ≡ ok b u) e k)

-- The same where the first step only reads.
pub >>=-eq-ok_reading :
    {S A B : Type 0} (m : M S A) (f : A → M S B) (s : S) {b : B} {u : S}
    → ((a : A) (t : S) → m s ≡ ok a t → t ≡ s)
    → (m >>= f) s ≡ ok b u
    → (a : A) × (m s ≡ ok a s) × (f a s ≡ ok b u)
>>=-eq-ok_reading m f s keeps h =
    let (a, t, e, k) = >>=-eq-ok m f s h in
    let (e', k') = settle_state m f s t (keeps a t e) e k in (a, e', k')
