-- ===== src/Publisher/Calls.antt =====
-- src/publisher.rs: what every call of a publication keeps, the publication keeps.
use nexus_auth.Prelude.{
  ℕ, zero, suc, ◌*◌, ◌≡◌, Option, none, some, List, [], ◌∷◌, Text, Bytes, text, ok, Result-cases,
  Option-cases, inl, inr, All,
}
use nexus_auth.Names.{External}
use nexus_auth.Authority.{Authority, ServiceEntry, IndexDoc, Signing, index_key, sign_index}
use nexus_auth.Context.{AuthContext, SidecarError, sidecar_error, System, Env}
use nexus_auth.Context.Task.{return, attempt, sleep, resume, feed_ind, or_else_ind}
use nexus_auth.Publisher.{
  publish_attempts, publish_backoff, add_key_from, add_key_with_retry, noted, publish_each, publish,
  publish_all, publish_whitelists, publish_index, authority_of, sign_services,
}

-- `I` outlives the writes of the allowed records, and the waits between them.
pub record IsKept {C W V : Type 0} (env : Env C W V) (Allowed : Text → Bytes → Type 0)
    (I : System C W V → Type 0) : Type 0 where
  pub on_write :
      (c : C) (key : Text) (value : Bytes) (s : System C W V)
      → Allowed key value
      → I s
      → I (resume env (env.add_key c key value s.world).1 s)
  pub on_sleep : (ms : ℕ) (s : System C W V) → I s → I (resume env (env.sleep ms s.world) s)

pub allowed_any : (pending : List (Text × Bytes)) → All (λ p. Unit {0}) pending
allowed_any [] = tt
allowed_any (p ∷ pending) = (tt, allowed_any pending)

module _ {C W V : Type 0} (env : Env C W V) {Allowed : Text → Bytes → Type 0}
    {I : System C W V → Type 0} (kept : IsKept env Allowed I) where
  pub add_key_from-Kept :
      (n backoff : ℕ) (last : SidecarError) (c : C) (key : Text) (value : Bytes) (s : System C W V)
      → Allowed key value
      → I s
      → I (add_key_from env n backoff last c key value s).1
  unfolding add_key_from attempt sleep
  add_key_from-Kept zero backoff last c key value s a i = i
  add_key_from-Kept (suc zero) backoff last c key value s a i = kept.on_write c key value s a i
  add_key_from-Kept (suc (suc n)) backoff last c key value s a i =
      let s₁ : System C W V = resume env (env.add_key c key value s.world).1 s in
      let i₁ : I s₁ = kept.on_write c key value s a i in
      or_else_ind (λ p. I p.1)
        (λ e s'. add_key_from env (suc n) (backoff * 2) e c key value (sleep env backoff s'))
        (attempt env (env.add_key c key value) s) (λ _ _. i₁)
        (λ f _.
          add_key_from-Kept (suc n) (backoff * 2) f c key value (sleep env backoff s₁) a
            (kept.on_sleep backoff s₁ i₁))

  pub add_key_with_retry-Kept :
      (c : C) (key : Text) (value : Bytes) (s : System C W V)
      → Allowed key value
      → I s
      → I (add_key_with_retry env c key value s).1
  unfolding add_key_with_retry
  add_key_with_retry-Kept =
      add_key_from-Kept publish_attempts publish_backoff
        (sidecar_error (text "publish_failed") (text "no attempt made"))

  pub publish_each-Kept :
      (clients : List (ℕ × C)) (key : Text) (value : Bytes) (first : Option Text) (s : System C W V)
      → Allowed key value
      → I s
      → I (publish_each env clients key value first s).1
  unfolding publish_each
  publish_each-Kept [] key value first s a i = i
  publish_each-Kept ((id, c) ∷ clients) key value first s a i =
      publish_each-Kept clients key value
        (noted first id key (add_key_with_retry env c key value s).0)
        (add_key_with_retry env c key value s).1 a (add_key_with_retry-Kept c key value s a i)

  pub publish-Kept :
      (key : Text) (value : Bytes) (s : System C W V)
      → Allowed key value
      → I s
      → I (publish env key value s).1
  unfolding publish
  publish-Kept key value s a i = publish_each-Kept s.shared.clients key value none s a i

  pub publish_all-Kept :
      (pending : List (Text × Bytes)) (s : System C W V)
      → All (λ p. Allowed p.0 p.1) pending
      → I s
      → I (publish_all env pending s).1
  unfolding publish_all
  publish_all-Kept [] s a i = i
  publish_all-Kept ((key, value) ∷ pending) s (a, rest) i =
      let i₁ : I (publish env key value s).1 = publish-Kept key value s a i in
      feed_ind (λ p. I p.1) (λ _. publish_all env pending) (publish env key value s)
        (λ _ _. publish_all-Kept pending (publish env key value s).1 rest i₁) (λ _ _. i₁)

module _ {C W V S : Type 0} (env : Env C W V) (l : Signing V S) ⦃x : External⦄
    {Allowed : Text → Bytes → Type 0} {I : System C W V → Type 0}
    (kept : IsKept env Allowed I) where
  pub publish_whitelists-Kept :
      (ctx : AuthContext W) (services : List (Text × ℕ × List Text)) (s : System C W V)
      → ((a : Authority) (entries : List ServiceEntry) (pending : List (Text × Bytes))
          → authority_of l ctx s ≡ some a
          → sign_services l a services ≡ ok (entries, pending)
          → All (λ p. Allowed p.0 p.1) pending)
      → I s
      → I (publish_whitelists env l ctx services s).1
  unfolding publish_whitelists
  publish_whitelists-Kept ctx services s allowed i = elim (Option-cases (authority_of l ctx s)) [
    | inl e ↦ rw (e, publish_whitelists) i
    | inr (a, e) ↦ elim (Result-cases (sign_services l a services)) [
      | inr (f, q) ↦ rw (e, q, publish_whitelists) i
      | inl ((entries, pending), q) ↦
          let after : I (publish_all env pending s).1 =
            publish_all-Kept env kept pending s (allowed a entries pending e q) i in
          rw (e, q, publish_whitelists)
            (feed_ind (λ p. I p.1) (λ _. return entries) (publish_all env pending s) (λ _ _. after)
              (λ _ _. after))
    ]
  ]

  pub publish_index-Kept :
      (ctx : AuthContext W) (version expires_at : ℕ) (entries : List ServiceEntry)
      (s : System C W V)
      → ((a : Authority) (value : Bytes)
          → authority_of l ctx s ≡ some a
          → sign_index l a
              (record { version = version; expires_at = expires_at; services = entries })
            ≡ ok value
          → Allowed (index_key a) value)
      → I s
      → I (publish_index env l ctx version expires_at entries s).1
  unfolding publish_index
  publish_index-Kept ctx version expires_at entries s allowed i =
      elim (Option-cases (authority_of l ctx s)) [
        | inl e ↦ rw (e, publish_index) i
        | inr (a, e) ↦
            let doc : IndexDoc = record {
              version = version;
              expires_at = expires_at;
              services = entries;
            } in
            elim (Result-cases (sign_index l a doc)) [
              | inr (f, q) ↦ rw (e, q, publish_index) i
              | inl (bytes, q) ↦
                  rw (e, q, publish_index)
                    (publish-Kept env kept (index_key a) bytes s (allowed a bytes e q) i)
            ]
      ]
