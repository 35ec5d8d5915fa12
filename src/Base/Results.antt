-- ===== src/Base/Results.antt =====
-- Rust's `Result`, with `?` as its bind.

pub data Result (A E : Type 0) : Type 0 where
  ok : A → Result A E
  err : E → Result A E

infixl 5 ◌>>=◌
abbrev pub ◌>>=◌ : {A B E : Type 0} → Result A E → (A → Result B E) → Result B E
ok a >>= f = f a
err e >>= f = err e

abbrev pub map_err : {A E F : Type 0} → (E → F) → Result A E → Result A F
map_err f (ok a) = ok a
map_err f (err e) = err (f e)

-- What a call comes to that may panic, modelled with fuel that may run out.
pub data Outcome (A : Type 0) : Type 0 where
  done : A → Outcome A
  panicked stuck : Outcome A

abbrev pub and_then : {A B : Type 0} → Outcome A → (A → Outcome B) → Outcome B
and_then (done a) f = f a
and_then panicked f = panicked
and_then stuck f = stuck
