-- ===== src/Context/Task.antt =====
-- Asynchronous functions: a state goes in, a result and the state after it come out. An error keeps
-- what was done before it.
use nexus_auth.Prelude.{ℕ, ◌≡◌, refl, Result, Done, ok, err}
use nexus_auth.Context.{System, Env}

abbrev pub Task : Type 0 → Type 0 → Type 0 → Type 0
Task T E A = T → Result E A × T

module _ {T E : Type 0} where
  abbrev pub feed : {A B : Type 0} → (A → Task T E B) → Result E A × T → Result E B × T
  feed f (ok a, t) = f a t
  feed f (err e, t) = (err e, t)

  infixl 5 ◌>>=◌ ◌>>◌
  abbrev pub ◌>>=◌ : {A B : Type 0} → Task T E A → (A → Task T E B) → Task T E B
  ◌>>=◌ m f t = feed f (m t)

  abbrev pub ◌>>◌ : {B : Type 0} → Task T E Done → Task T E B → Task T E B
  ◌>>◌ m k t = feed (λ _. k) (m t)

  abbrev pub return : {A : Type 0} → A → Task T E A
  return a t = (ok a, t)

  abbrev pub raise : {A : Type 0} → E → Task T E A
  raise e t = (err e, t)

  -- A `Result`, at its `?`.
  abbrev pub lift : {A : Type 0} → Result E A → Task T E A
  lift r t = (r, t)

-- `map_err`
abbrev pub recode : {T E F A : Type 0} → (E → F) → Result E A × T → Result F A × T
recode f (ok a, t) = (ok a, t)
recode f (err e, t) = (err (f e), t)

-- `match m { Err(e) => { cleanup; return Err(e) } … }`
abbrev pub on_err : {T E A : Type 0} → (E → T → T) → Result E A × T → Result E A × T
on_err cleanup (ok a, t) = (ok a, t)
on_err cleanup (err e, t) = (err e, cleanup e t)

-- `match m { Ok(a) => return Ok(a), Err(e) => rest }`
abbrev pub or_else : {T E F A : Type 0} → (E → Task T F A) → Result E A × T → Result F A × T
or_else f (ok a, t) = (ok a, t)
or_else f (err e, t) = f e t

-- Proof rules: what holds of the outcome of the first part, whichever it is, goes into the second.
module _ {T E : Type 0} where
  pub feed_ind :
      {A B : Type 0} (P : Result E B × T → Type 0) (f : A → Task T E B) (r : Result E A × T)
      → ((a : A) → r.0 ≡ ok a → P (f a r.1))
      → ((e : E) → r.0 ≡ err e → P (err e, r.1))
      → P (feed f r)
  feed_ind P f (ok a, t) on_ok on_error = on_ok a refl
  feed_ind P f (err e, t) on_ok on_error = on_error e refl

  pub on_err_ind :
      {A : Type 0} (P : Result E A × T → Type 0) (cleanup : E → T → T) (r : Result E A × T)
      → ((a : A) → r.0 ≡ ok a → P (ok a, r.1))
      → ((e : E) → r.0 ≡ err e → P (err e, cleanup e r.1))
      → P (on_err cleanup r)
  on_err_ind P cleanup (ok a, t) on_ok on_error = on_ok a refl
  on_err_ind P cleanup (err e, t) on_ok on_error = on_error e refl

  pub or_else_ind :
      {F A : Type 0} (P : Result F A × T → Type 0) (f : E → Task T F A) (r : Result E A × T)
      → ((a : A) → r.0 ≡ ok a → P (ok a, r.1))
      → ((e : E) → r.0 ≡ err e → P (f e r.1))
      → P (or_else f r)
  or_else_ind P f (ok a, t) on_ok on_error = on_ok a refl
  or_else_ind P f (err e, t) on_ok on_error = on_error e refl

module _ {C W V : Type 0} (env : Env C W V) where
  -- The world after a call that was awaited, with what the other tasks did meanwhile.
  unfoldable pub resume : W → System C W V → System C W V
  resume w s = record s { world = w; shared = env.others w s.shared }

  -- An awaited call that cannot fail.
  unfoldable pub await : {E A : Type 0} → (W → A × W) → Task (System C W V) E A
  unfolding resume
  await call s = (ok (call s.world).0, resume (call s.world).1 s)

  -- An awaited call that can.
  unfoldable pub attempt : {E A : Type 0} → (W → Result E A × W) → Task (System C W V) E A
  unfolding resume
  attempt call s = ((call s.world).0, resume (call s.world).1 s)

  -- `now_unix()`
  unfoldable pub now_unix : {E : Type 0} → Task (System C W V) E ℕ
  now_unix s = (ok (env.now_unix s.world).0, record s { world = (env.now_unix s.world).1 })

  unfoldable pub sleep : ℕ → System C W V → System C W V
  unfolding resume
  sleep ms s = resume (env.sleep ms s.world) s
