-- ===== src/Service/Classes.antt =====
-- src/service.rs: the operations on members are not among those that an administrator may ask for.
use nexus_auth.Prelude.{
  ◌≡◌, refl, sym, subst, inl, inr, true, false, ◌||◌, List, [], ◌∷◌, Text, text, Bool-cases, arith,
  All, any,
}
use nexus_auth.Order.{text_ord, cmp_text, ◌≟◌, ≟_iff}
use nexus_auth.Service.{
  write, unknown, is_among, mutating_ops, is_mutating_op, read_ops, classify_admin_op, member_ops,
  is_member_management_op,
}

-- What holds of every name of a list holds of a name among them.
pub among_all :
    (P : Text → Type 0) (op : Text) (ops : List Text) → All P ops → is_among op ops ≡ true → P op
unfolding is_among any
among_all P op [] a m = absurd (ground (arith, m))
among_all P op (o ∷ ops) (h, rest) m = elim (Bool-cases (op ≟ o)) [
  | inl e ↦ subst P (sym ((≟_iff op o).0 e)) h
  | inr e ↦ among_all P op ops rest (subst (λ b. (b || is_among op ops) ≡ true) e m)
]

members_unknown : All (λ op. classify_admin_op op ≡ unknown) member_ops
unfolding member_ops classify_admin_op is_among any read_ops is_mutating_op mutating_ops text
    cmp_text
members_unknown = (refl, (refl, (refl, (refl, (refl, tt)))))

pub member_op-classify :
    (op : Text) → is_member_management_op op ≡ true → classify_admin_op op ≡ unknown
unfolding is_member_management_op
member_op-classify op = among_all (λ o. classify_admin_op o ≡ unknown) op member_ops members_unknown

pub write-not_member :
    (op : Text) → classify_admin_op op ≡ write → is_member_management_op op ≡ false
write-not_member op w = elim (Bool-cases (is_member_management_op op)) [
  | inr e ↦ e
  | inl e ↦ absurd (ground (arith, w, member_op-classify op e))
]
