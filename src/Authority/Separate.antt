-- ===== src/Authority/Separate.antt =====
-- src/authority.rs: the records of a network have keys of their own in the DHT.
use nexus_auth.Prelude.{◌≡◌, ◌≢◌, ap, sym, ◌∙◌, true, false, [], ◌∷◌, ◌++◌, Text, text, ok, arith}
use nexus_auth.Order.{text_ord, ≟_self}
use nexus_auth.Names.{is_valid_service_name, reserved_service}
use nexus_auth.Authority.{Authority, record_key, auth_prefix, index_key, service_key}

tail : Text → Text
tail [] = []
tail (b ∷ bs) = bs

pub append-cancel : (p a b : Text) → (p ++ a) ≡ (p ++ b) → a ≡ b
unfolding tail
append-cancel [] a b h = h
append-cancel (c ∷ p) a b h = append-cancel p a b (ap tail h)

pub record_key-cancel : (n a b : Text) → record_key n a ≡ record_key n b → a ≡ b
unfolding record_key
record_key-cancel n a b h =
    append-cancel (text "/") a b
      (append-cancel n _ _ (append-cancel (text "/") _ _ (append-cancel auth_prefix _ _ h)))

-- What a service's key tells of it.
pub service_key-ok :
    (a : Authority) (service key : Text)
    → service_key a service ≡ ok key
    → (is_valid_service_name service ≡ true) × (key ≡ record_key a.net_hash service)
unfolding service_key
service_key-ok a service key h = ground (arith, h)

pub reserved_refused : is_valid_service_name reserved_service ≡ false
unfolding is_valid_service_name
reserved_refused = ground (arith, ≟_self reserved_service)

-- The keys of two valid services of an authority are equal only if the services are, and neither
-- is the key of the index.
pub service_key-separate :
    (a : Authority) (s t k l : Text)
    → service_key a s ≡ ok k
    → service_key a t ≡ ok l
    → ((k ≡ l) → s ≡ t) × (k ≢ index_key a)
unfolding index_key
service_key-separate a s t k l p q = (
  λ e.
      record_key-cancel a.net_hash s t
        (sym (service_key-ok a s k p).1 ∙ e ∙ (service_key-ok a t l q).1),
  λ e.
      let e' : s ≡ reserved_service =
        record_key-cancel a.net_hash s reserved_service (sym (service_key-ok a s k p).1 ∙ e) in
      cc (e', (service_key-ok a s k p).0, reserved_refused),
)
