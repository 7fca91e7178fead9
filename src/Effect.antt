-- ===== src/Effect.antt =====
-- Asynchronous functions on a state that they share: each gives back the new state with a value or
-- with what it throws. What was written before an exception stays written.
use botchatgptclaude.Prelude.{String, Result, ok, err}

abbrev pub Effect : Type 0 → Type 0 → Type 0
Effect S A = S → S × Result A

abbrev pub return : {S A : Type 0} → A → Effect S A
return a s = (s, ok a)

abbrev pub throw : {S A : Type 0} → String → Effect S A
throw m s = (s, err m)

abbrev follow : {S A B : Type 0} → (A → Effect S B) → S → Result A → S × Result B
follow f s (ok a) = f a s
follow f s (err m) = (s, err m)

infixl 5 ◌>>=◌ ◌>>◌
abbrev pub ◌>>=◌ : {S A B : Type 0} → Effect S A → (A → Effect S B) → Effect S B
◌>>=◌ m f s = follow f (m s).0 (m s).1

abbrev pub ◌>>◌ : {S A B : Type 0} → Effect S A → Effect S B → Effect S B
m >> k = m >>= (λ _. k)

-- A write that cannot throw.
abbrev pub modify : {S : Type 0} → (S → S) → Effect S Unit
modify f s = (f s, ok tt)

abbrev pub read : {S A : Type 0} → (S → A) → Effect S A
read f s = (s, ok (f s))

-- What a chain satisfies, from what its first action satisfies.
pub bind_then :
    {S A B : Type 0} (m : Effect S A) (f : A → Effect S B) (P : S → Result A → Type 0)
    (Q : S → Result B → Type 0) (s : S)
    → P (m s).0 (m s).1
    → ((s' : S) (a : A) → P s' (ok a) → Q (f a s').0 (f a s').1)
    → ((s' : S) (e : String) → P s' (err e) → Q s' (err e))
    → Q ((m >>= f) s).0 ((m >>= f) s).1
bind_then {S} {A} {B} m f P Q s first on_ok on_err = followed (m s).0 (m s).1 first
  where
    followed : (s' : S) (r : Result A) → P s' r → Q (follow f s' r).0 (follow f s' r).1
    followed s' (ok a) p = on_ok s' a p
    followed s' (err e) p = on_err s' e p
