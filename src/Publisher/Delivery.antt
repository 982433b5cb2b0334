-- ===== src/Publisher/Delivery.antt =====
-- src/publisher.rs: what a publication without an error has brought to a connection.
use nexus_auth.Prelude.{
  ℕ, zero, suc, ◌*◌, ◌≡◌, ◌≢◌, refl, ◌⊎◌, inl, inr, none, some, List, [], ◌∷◌, Text, Bytes, text,
  Result, Done, ok, arith, Result-cases, Option-cases, All, subst, sym,
}
use nexus_auth.Context.{SidecarError, sidecar_error, Shared, System, Env}
use nexus_auth.Context.Task.{attempt, sleep, resume, or_else_ind, feed_ind}
use nexus_auth.Publisher.{
  publish_attempts, publish_backoff, add_key_from, add_key_with_retry, noted, failure_text,
  publish_each, publish, publish_all,
}
use nexus_auth.Publisher.Calls.{
  IsKept, allowed_any, publish_each-Kept, publish-Kept, publish_all-Kept,
}

-- The connection `c` is registered under `id`.
abbrev pub Registered : {C : Type 0} → ℕ → C → List (ℕ × C) → Type 0
Registered id c [] = ⊥
Registered id c ((i, d) ∷ clients) = ((i ≡ id) × (d ≡ c)) ⊎ Registered id c clients

-- `Stored key value w`: in the world `w`, the node behind `c` has the record. It takes what it
-- acknowledges, and keeps it until the key is written with another value. The connection stays.
pub record IsStorage {C W V : Type 0} (env : Env C W V) (id : ℕ) (c : C)
    (Stored : Text → Bytes → W → Type 0) : Type 0 where
  pub stores :
      (key : Text) (value : Bytes) (w : W)
      → (env.add_key c key value w).0 ≡ ok tt
      → Stored key value (env.add_key c key value w).1
  pub outlives_write :
      (d : C) (key other : Text) (value new : Bytes) (w : W)
      → (other ≢ key) ⊎ (new ≡ value)
      → Stored key value w
      → Stored key value (env.add_key d other new w).1
  pub outlives_sleep :
      (ms : ℕ) (key : Text) (value : Bytes) (w : W)
      → Stored key value w
      → Stored key value (env.sleep ms w)
  pub outlives_clock :
      (key : Text) (value : Bytes) (w : W)
      → Stored key value w
      → Stored key value (env.now_unix w).1
  pub stays :
      (w : W) (h : Shared C V)
      → Registered id c h.clients
      → Registered id c (env.others w h).clients

-- A write leaves the record alone or repeats it.
abbrev pub Spares : Text → Bytes → Text → Bytes → Type 0
Spares key value other new = (other ≢ key) ⊎ (new ≡ value)

-- No write of the list undoes an earlier one.
abbrev pub Coherent : List (Text × Bytes) → Type 0
Coherent [] = Unit
Coherent ((key, value) ∷ pending) = All (λ p. Spares key value p.0 p.1) pending × Coherent pending

module _ {C W V : Type 0} (env : Env C W V) (id : ℕ) (c : C) (Stored : Text → Bytes → W → Type 0)
    (storage : IsStorage env id c Stored) where
  pub stored_kept :
      (key : Text) (value : Bytes) → IsKept env (Spares key value) (λ s. Stored key value s.world)
  unfolding resume
  stored_kept key value = record {
    on_write = λ d other new s a h. storage.outlives_write d key other value new s.world a h;
    on_sleep = λ ms s h. storage.outlives_sleep ms key value s.world h;
  }

  pub Registered-kept : IsKept env (λ _ _. Unit {0}) (λ s. Registered id c s.shared.clients)
  unfolding resume
  Registered-kept = record {
    on_write = λ d key value s a h. storage.stays _ s.shared h;
    on_sleep = λ ms s h. storage.stays _ s.shared h;
  }

  add_key_from-Stored :
      (n backoff : ℕ) (last : SidecarError) (key : Text) (value : Bytes) (s : System C W V)
      → (add_key_from env n backoff last c key value s).0 ≡ ok tt
      → Stored key value (add_key_from env n backoff last c key value s).1.world
  unfolding add_key_from attempt resume
  add_key_from-Stored zero backoff last key value s h = absurd (ground (arith, h))
  add_key_from-Stored (suc zero) backoff last key value s h = storage.stores key value s.world h
  add_key_from-Stored (suc (suc n)) backoff last key value s h =
      let first : Result SidecarError Done × System C W V =
        attempt env (env.add_key c key value) s in
      or_else_ind (λ p. p.0 ≡ ok tt → Stored key value p.1.world)
        (λ e s'. add_key_from env (suc n) (backoff * 2) e c key value (sleep env backoff s')) first
        (λ _ e _. storage.stores key value s.world e)
        (λ e _. add_key_from-Stored (suc n) (backoff * 2) e key value (sleep env backoff first.1)) h

  add_key_with_retry-Stored :
      (key : Text) (value : Bytes) (s : System C W V)
      → (add_key_with_retry env c key value s).0 ≡ ok tt
      → Stored key value (add_key_with_retry env c key value s).1.world
  unfolding add_key_with_retry
  add_key_with_retry-Stored =
      add_key_from-Stored publish_attempts publish_backoff
        (sidecar_error (text "publish_failed") (text "no attempt made"))

  publish_each-some :
      (clients : List (ℕ × C)) (key : Text) (value : Bytes) (m : Text) (s : System C W V)
      → (publish_each env clients key value (some m) s).0 ≡ some m
  unfolding publish_each noted
  publish_each-some [] key value m s = refl
  publish_each-some ((i, d) ∷ clients) key value m s =
      elim (Result-cases (add_key_with_retry env d key value s).0) [
        | inl (_, e) ↦ rw (e, publish_each) (publish_each-some clients key value m _)
        | inr (f, e) ↦ rw (e, publish_each) (publish_each-some clients key value m _)
      ]

  publish_each-Stored :
      (clients : List (ℕ × C)) (key : Text) (value : Bytes) (s : System C W V)
      → Registered id c clients
      → (publish_each env clients key value none s).0 ≡ none
      → Stored key value (publish_each env clients key value none s).1.world
  unfolding publish_each noted
  publish_each-Stored [] key value s m h = absurd m
  publish_each-Stored ((i, d) ∷ clients) key value s m h =
      let after : System C W V = (add_key_with_retry env d key value s).1 in
      elim (Result-cases (add_key_with_retry env d key value s).0) [
        | inr (f, e) ↦
            absurd (
              ground
                (arith, h, e, publish_each-some clients key value (failure_text i key f) after))
        | inl (_, e) ↦ elim m [
          | inl (p, q) ↦
              rw (e, publish_each)
                (publish_each-Kept env (stored_kept key value) clients key value none after
                  (inr refl)
                  (subst
                    (λ d.
                      (add_key_with_retry env d key value s).0 ≡ ok tt
                      → Stored key value (add_key_with_retry env d key value s).1.world)
                    (sym q) (add_key_with_retry-Stored key value s) e))
          | inr r ↦
              rw (e, publish_each)
                (publish_each-Stored clients key value after r (ground (arith, h, e)))
        ]
      ]

  pub publish-Stored :
      (key : Text) (value : Bytes) (s : System C W V)
      → Registered id c s.shared.clients
      → (publish env key value s).0 ≡ ok tt
      → Stored key value (publish env key value s).1.world
  unfolding publish
  publish-Stored key value s m h =
      publish_each-Stored s.shared.clients key value s m
        (ground (arith, h, Option-cases (publish_each env s.shared.clients key value none s).0))

  pub publish_all-Registered :
      (pending : List (Text × Bytes)) (s : System C W V)
      → Registered id c s.shared.clients
      → Registered id c (publish_all env pending s).1.shared.clients
  publish_all-Registered pending s =
      publish_all-Kept env Registered-kept pending s (allowed_any pending)

  -- All records of the list are there at the end.
  pub publish_all-Stored :
      (pending : List (Text × Bytes)) (s : System C W V)
      → Coherent pending
      → Registered id c s.shared.clients
      → (publish_all env pending s).0 ≡ ok tt
      → All (λ p. Stored p.0 p.1 (publish_all env pending s).1.world) pending
  unfolding publish_all
  publish_all-Stored [] s k m h = tt
  publish_all-Stored ((key, value) ∷ pending) s k m h =
      let s' : System C W V = (publish env key value s).1 in
      feed_ind (λ p. p.0 ≡ ok tt → All (λ q. Stored q.0 q.1 p.1.world) ((key, value) ∷ pending))
        (λ _. publish_all env pending) (publish env key value s)
        (λ _ e rest. (
          publish_all-Kept env (stored_kept key value) pending s' k.0
              (publish-Stored key value s m e),
          publish_all-Stored pending s' k.1 (publish-Kept env Registered-kept key value s tt m)
              rest,
        ))
        (λ f e rest. absurd (ground (arith, rest))) h
