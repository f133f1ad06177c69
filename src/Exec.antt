-- ===== src/Exec.antt =====
-- Methods that change an object and may raise: what was written before an exception stays written.
pub mod Keeps
use wakey.Prelude.{arith, ◌≡◌, ap, refl, ◌⊎◌, inl, inr}
use wakey.Forge.{Failure, Reply, raised, returned}

abbrev pub Exec {ℓ} : Type ℓ → Type ℓ → Type ℓ
Exec S A = S → Reply A × S

module _ {ℓ} {S A : Type ℓ} where
  unfoldable pub pure : A → Exec S A
  pure a s = (returned a, s)

  unfoldable pub raise : Failure → Exec S A
  raise e s = (raised e, s)

  unfoldable pub gets : (S → A) → Exec S A
  gets f s = (returned (f s), s)

module _ {ℓ} {S A B : Type ℓ} where
  abbrev pub go_on : Reply A → (A → Exec S B) → Exec S B
  go_on (returned a) f s = f a s
  go_on (raised e) f s = (raised e, s)

  infixl 10 ◌>>=◌ ◌>>◌
  unfoldable pub ◌>>=◌ : Exec S A → (A → Exec S B) → Exec S B
  unfolding pure raise gets
  ◌>>=◌ m f s = let (r, s') = m s in go_on r f s'

  abbrev pub ◌>>◌ : Exec S A → Exec S B → Exec S B
  m >> n = m >>= λ _. n

  abbrev pub handled : Reply A → (A → Exec S B) → (Failure → Exec S B) → Exec S B
  handled (returned a) f handler s = f a s
  handled (raised e) f handler s = handler e s

  -- `try: … except Exception as exc: …`, with what goes on after it
  unfoldable pub try : Exec S A → (A → Exec S B) → (Failure → Exec S B) → Exec S B
  try m f handler s = let (r, s') = m s in handled r f handler s'

  -- a step that returns, and what follows it
  pub bind-returned :
      (m : Exec S A) (f : A → Exec S B) (s : S) (a : A)
      → (m s).0 ≡ returned a
      → (m >>= f) s ≡ f a (m s).1
  unfolding ◌>>=◌
  bind-returned m f s a e = ap (λ (r : Reply A). go_on r f (m s).1) e

  pub bind-raised :
      (m : Exec S A) (f : A → Exec S B) (s : S) (exc : Failure)
      → (m s).0 ≡ raised exc
      → (m >>= f) s ≡ (raised exc, (m s).1)
  unfolding ◌>>=◌
  bind-raised m f s exc e = ap (λ (r : Reply A). go_on r f (m s).1) e

  -- what returns has returned at each step
  pub bind_split :
      (m : Exec S A) (f : A → Exec S B) (s last : S) (b : B)
      → (m >>= f) s ≡ (returned b, last)
      → (a : A) × ((m s).0 ≡ returned a) × (f a (m s).1 ≡ (returned b, last))
  unfolding ◌>>=◌
  bind_split m f s last b e = by_reply (m s).0 refl e
    where
      by_reply :
          (r : Reply A)
          → (m s).0 ≡ r
          → go_on r f (m s).1 ≡ (returned b, last)
          → (a : A) × ((m s).0 ≡ returned a) × (f a (m s).1 ≡ (returned b, last))
      by_reply (returned a) same e = (a, same, e)
      by_reply (raised exc) same e = ground arith

-- A method returns or raises.
pub Reply-cases {ℓ} :
    {A : Type ℓ} (reply : Reply A)
    → ((a : A) × (reply ≡ returned a)) ⊎ ((exc : Failure) × (reply ≡ raised exc))
Reply-cases (returned a) = inl (a, refl)
Reply-cases (raised exc) = inr (exc, refl)
