-- ===== src/Authority/Tests.antt =====
-- Records of a concrete authority.
use nexus_auth.Prelude.{
  ℕ, ◌≡◌, ◌≢◌, refl, true, none, some, [], ◌∷◌, ◌++◌, Text, Bytes, Result, ok, err, arith,
}
use nexus_auth.Names.{External, is_valid_service_name, is_valid_network_name}
use nexus_auth.Fsutil.{Disk, Faults}
use nexus_auth.Lab.{lab, pad}
use nexus_auth.Lab.Node.{lab_signing, lab_signing-IsSigningSane, lab_authority}
use nexus_auth.Authority.{
  Authority, WhitelistDoc, record_key, index_key, service_key, load_or_create, sign_whitelist,
  verify_cose_sign1,
}
use nexus_auth.Authority.Separate.{service_key-separate}
use nexus_auth.Authority.Signed.{verify-sign_whitelist}
use nexus_auth.Authority.Seeds.{reading_of}

abbrev a_key : Text
a_key = record_key (110 ∷ []) (97 ∷ [])

abbrev b_key : Text
b_key = record_key (110 ∷ []) (98 ∷ [])

a_located : service_key lab_authority (97 ∷ []) ≡ ok a_key
unfolding service_key is_valid_service_name is_valid_network_name nexus_auth.Prelude.all
    nexus_auth.Names.is_name_byte nexus_auth.Order.cmp_text nexus_auth.Names.reserved_service
    nexus_auth.Prelude.text
a_located = refl

b_located : service_key lab_authority (98 ∷ []) ≡ ok b_key
unfolding service_key is_valid_service_name is_valid_network_name nexus_auth.Prelude.all
    nexus_auth.Names.is_name_byte nexus_auth.Order.cmp_text nexus_auth.Names.reserved_service
    nexus_auth.Prelude.text
b_located = refl

service_key-separate_example :
    ((a_key ≡ b_key) → ◌≡◌ {A = Text} (97 ∷ []) (98 ∷ [])) × (a_key ≢ index_key lab_authority)
service_key-separate_example =
    service_key-separate lab_authority (97 ∷ []) (98 ∷ []) a_key b_key a_located b_located

abbrev members_doc : WhitelistDoc
members_doc = record { version = 3; members = (65 ∷ []) ∷ [] }

abbrev payload : Bytes
payload = 3 ∷ 1 ∷ []

abbrev value : Bytes
value = 2 ∷ 3 ∷ 1 ∷ lab_signing.sign (9 ∷ []) (lab_signing.sig_structure a_key payload)

signed : sign_whitelist lab_signing lab_authority (97 ∷ []) members_doc ≡ ok value
unfolding sign_whitelist service_key is_valid_service_name is_valid_network_name
    nexus_auth.Prelude.all nexus_auth.Names.is_name_byte nexus_auth.Order.cmp_text
    nexus_auth.Names.reserved_service nexus_auth.Prelude.text
signed = refl

verify-sign_whitelist_example : verify_cose_sign1 lab_signing (9 ∷ []) a_key value ≡ ok payload
verify-sign_whitelist_example =
    verify-sign_whitelist lab_signing lab_signing-IsSigningSane lab_authority (97 ∷ []) a_key
      members_doc payload value a_located refl signed

abbrev no_faults : Faults
no_faults = record { creates = true; writes = true; partial = none; chmods = true; renames = true }

abbrev no_file : Disk
no_file = record { target = none; temp = none }

abbrev made : Authority
made = record { signing_key = pad 9; network = 110 ∷ []; net_hash = 110 ∷ [] }

generated :
    (load_or_create lab_signing no_faults (pad 9) (110 ∷ []) (reading_of none) no_file).0 ≡ ok made
unfolding load_or_create reading_of nexus_auth.Fsutil.atomic_write is_valid_network_name
    nexus_auth.Prelude.all nexus_auth.Names.is_name_byte
generated = refl
