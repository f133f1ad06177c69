-- ===== src/Exec/Keeps.antt =====
-- What a method keeps, whether it returns or raises: one rule for each way to build a method.
use wakey.Prelude.{Bool, false, if◌then◌else◌, true}
use wakey.Forge.{Failure, Reply, raised, returned}
use wakey.Exec.{Exec, gets, go_on, handled, pure, raise, try, ◌>>=◌}

-- From every state with `Good`, the method ends in one with `Good`, also if it raises.
pub record Keeps {ℓ} {S B : Type ℓ} (Good : S → Type ℓ) (method : Exec S B) : Type ℓ where
  pub ends : (w : S) → Good w → Good (method w).1

module _ {ℓ} {S A B : Type ℓ} {Good : S → Type ℓ} where
  -- after a reply, whichever way the method goes on
  Keeps-handled :
      (reply : Reply A) (next : A → Exec S B) (rescue : Failure → Exec S B) (w : S)
      → ((x : A) → Keeps Good (next x))
      → ((exc : Failure) → Keeps Good (rescue exc))
      → Good w
      → Good (handled reply next rescue w).1
  Keeps-handled (returned x) next rescue w on on' good = (on x).ends w good
  Keeps-handled (raised exc) next rescue w on on' good = (on' exc).ends w good

  pub Keeps-try :
      (first : Exec S A) (next : A → Exec S B) (rescue : Failure → Exec S B)
      → Keeps Good first
      → ((x : A) → Keeps Good (next x))
      → ((exc : Failure) → Keeps Good (rescue exc))
      → Keeps Good (try first next rescue)
  unfolding try
  Keeps-try first next rescue k on on' = record {
    ends = λ w good. Keeps-handled (first w).0 next rescue (first w).1 on on' (k.ends w good);
  }

  Keeps-go_on :
      (reply : Reply A) (next : A → Exec S B) (w : S)
      → ((x : A) → Keeps Good (next x))
      → Good w
      → Good (go_on reply next w).1
  Keeps-go_on (returned x) next w on good = (on x).ends w good
  Keeps-go_on (raised exc) next w on good = good

  pub Keeps-bind :
      (first : Exec S A) (next : A → Exec S B)
      → Keeps Good first
      → ((x : A) → Keeps Good (next x))
      → Keeps Good (first >>= next)
  unfolding ◌>>=◌
  Keeps-bind first next k on = record {
    ends = λ w good. Keeps-go_on (first w).0 next (first w).1 on (k.ends w good);
  }

module _ {ℓ} {S B : Type ℓ} {Good : S → Type ℓ} where
  pub Keeps-if :
      (test : Bool) (left right : Exec S B)
      → Keeps Good left
      → Keeps Good right
      → Keeps Good (if test then left else right)
  Keeps-if true left right k k' = k
  Keeps-if false left right k k' = k'

  pub Keeps-gets : (read : S → B) → Keeps Good (gets read)
  unfolding gets
  Keeps-gets read = record { ends = λ w good. good }

  pub Keeps-pure : (x : B) → Keeps Good (pure {S = S} x)
  unfolding pure
  Keeps-pure x = record { ends = λ w good. good }

  pub Keeps-raise : (exc : Failure) → Keeps Good (raise {S = S} {A = B} exc)
  unfolding raise
  Keeps-raise exc = record { ends = λ w good. good }

pub ruleset keeps_rules = (Keeps-if, Keeps-gets, Keeps-pure, Keeps-raise, Keeps-bind, Keeps-try)
