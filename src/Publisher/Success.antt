-- ===== src/Publisher/Success.antt =====
-- src/publisher.rs: a leader whose connections answer does publish.
use nexus_auth.Prelude.{ℕ, ◌≡◌, true, some}
use nexus_auth.Names.{External, is_valid_network_name}
use nexus_auth.Authority.{Authority, Signing}
use nexus_auth.Context.{System, Env, AuthContext}
use nexus_auth.Publisher.Live.{IsEncoding, IsCalm}

module _ {C W V S : Type 0} (env : Env C W V) (l : Signing V S) ⦃x : External⦄ (end : ℕ)
    (calm : IsCalm env end) (encoding : IsEncoding l) (ctx : AuthContext W) (a : Authority)
    (named : is_valid_network_name ctx.network ≡ true) where
  abbrev Signs : System C W V → Type 0
  Signs s = s.shared.authority ≡ some a
