-- ===== src/Authlet/Refresh/Reuse.antt =====
-- A refresh token is used once.
use memory_system.Prelude.{
  ℕ, ◌≤◌, ◌==◌, ◌≡◌, ◌⊎◌, inl, inr, refl, sym, ap, subst, Text, text_eq, Bool, true, false, List,
  [], ◌∷◌, All, err, ok, Bool-cases, Option-cases, arith,
}
use memory_system.Authlet.Errors.{
  Database, creating, updating, deleting, StoreError, database_error, settle-ok, not-both,
}
use memory_system.Prelude.{
  count_where, update_where, count-delete_le, count-update_none, count-update_le,
}
use memory_system.Authlet.Refresh.{
  OAuthRefreshToken, RefreshToken, RefreshStore, token_row, is_unused, marked, token_expires_before,
  has_token_hash, is_family, save, mark, mark_used, unknown_or_used, revoke_family, purge,
  delete_expired,
}
use memory_system.Authlet.Refresh.Runs.{
  Op, saving, marking, revoking, sweeping, after_op, after_ops,
}

-- No live row of the hash is left unused.
abbrev Spent : Text → RefreshStore → Type 0
Spent h s = count_where (is_unused h) s.tokens ≡ 0

-- The operation does not save a token of the hash.
abbrev pub SavesOther : Text → Op → Type 0
SavesOther h (saving db rt) = text_eq rt.token_hash h ≡ false
SavesOther h (marking db hash replaced_by) = Unit
SavesOther h (revoking db now family_id) = Unit
SavesOther h (sweeping purging pruning before) = Unit

unused-marked :
    (h r : Text) (row : OAuthRefreshToken)
    → text_eq r [] ≡ false
    → is_unused h (marked r row) ≡ false
unused-marked h r row e = ground arith

mark-ok :
    (db : Database) (h r : Text) (s after : RefreshStore)
    → mark db h r s ≡ (ok tt, after)
    → after ≡ record s { tokens = update_where (is_unused h) (marked r) s.tokens }
unfolding mark
mark-ok db h r s after e = elim (Option-cases (db.failing updating)) [
  | inl n ↦ elim (Bool-cases (count_where (is_unused h) s.tokens == 0)) [
    | inl z ↦ let k = rw (n, z, mark) at e in not-both k
    | inr z ↦ let k = rw (n, z, mark) at e in sym (ap (λ p. p.1) k)
  ]
  | inr (f, n) ↦ let k = rw (n, mark) at e in not-both k
]

pub mark_used-after :
    (db : Database) (h r : Text) (s : RefreshStore)
    → ((mark_used db h r s).1 ≡ s)
      ⊎ ((mark_used db h r s).1
          ≡ record s { tokens = update_where (is_unused h) (marked r) s.tokens })
unfolding mark_used mark
mark_used-after db h r s = elim (Option-cases (db.failing updating)) [
  | inl n ↦ elim (Bool-cases (count_where (is_unused h) s.tokens == 0)) [
    | inl z ↦ inl (rw (n, z, mark) refl)
    | inr z ↦ inr (rw (n, z, mark) refl)
  ]
  | inr (f, n) ↦ inl (rw (n, mark) refl)
]

pub save-after :
    (db : Database) (rt : RefreshToken) (s : RefreshStore)
    → ((save db rt s).1 ≡ s) ⊎ ((save db rt s).1 ≡ record s { tokens = token_row rt ∷ s.tokens })
unfolding save
save-after db rt s = elim (Option-cases (db.failing creating)) [
  | inl n ↦ elim (Bool-cases (count_where (has_token_hash rt.token_hash) s.tokens == 0)) [
    | inl z ↦ inr (rw (n, z, save) refl)
    | inr z ↦ inl (rw (n, z, save) refl)
  ]
  | inr (f, n) ↦ inl (rw (n, save) refl)
]

revoke_family-tokens :
    (db : Database) (now : ℕ) (f : Text) (s : RefreshStore)
    → (revoke_family db now f s).1.tokens ≡ s.tokens
unfolding revoke_family
revoke_family-tokens db now f s = elim (Option-cases (db.failing creating)) [
  | inl n ↦ elim (Bool-cases (count_where (is_family f) s.families == 0)) [
    | inl z ↦ rw (n, z, revoke_family) refl
    | inr z ↦ rw (n, z, revoke_family) refl
  ]
  | inr (e, n) ↦ rw (n, revoke_family) refl
]

purge-count :
    (q : OAuthRefreshToken → Bool) (db : Database) (before : ℕ) (tokens : List OAuthRefreshToken)
    → count_where q (purge db before tokens).1 ≤ count_where q tokens
unfolding purge
purge-count q db before tokens = elim (Option-cases (db.failing deleting)) [
  | inl n ↦ rw (n, purge) (count-delete_le q (token_expires_before before) tokens)
  | inr (e, n) ↦ rw (n, purge) (omega arith)
]

still-unused :
    (h k r : Text) (row : OAuthRefreshToken)
    → is_unused k row ≡ true
    → is_unused h (marked r row) ≡ true
    → is_unused h row ≡ true
still-unused h k r row p q = ground arith

after_op-Spent :
    (h : Text) (o : Op) (s : RefreshStore) → SavesOther h o → Spent h s → Spent h (after_op o s)
unfolding after_op delete_expired count_where
after_op-Spent h (saving db rt) s other p = elim (save-after db rt s) [
  | inl e ↦ rw e p
  | inr e ↦ rw (e, other) p
]
after_op-Spent h (marking db k r) s other p = elim (mark_used-after db k r s) [
  | inl e ↦ rw e p
  | inr e ↦
      let fewer =
        count-update_le (is_unused h) (is_unused k) (marked r) s.tokens (still-unused h k r) in
      rw e (omega arith)
]
after_op-Spent h (revoking db now f) s other p = rw (revoke_family-tokens db now f s) p
after_op-Spent h (sweeping purging pruning before) s other p =
    omega (arith, purge-count (is_unused h) purging before s.tokens, p)

after_ops-Spent :
    (h : Text) (os : List Op) (s : RefreshStore)
    → All (SavesOther h) os
    → Spent h s
    → Spent h (after_ops os s)
unfolding after_ops
after_ops-Spent h [] s all p = p
after_ops-Spent h (o ∷ os) s all p =
    after_ops-Spent h os (after_op o s) all.1 (after_op-Spent h o s all.0 p)

Spent-refused :
    (db : Database) (h r : Text) (s : RefreshStore)
    → Spent h s
    → (e : StoreError) × (mark_used db h r s ≡ (err e, s))
unfolding mark_used mark
Spent-refused db h r s p = elim (Option-cases (db.failing updating)) [
  | inl n ↦
      let after = record s { tokens = update_where (is_unused h) (marked r) s.tokens } in
      (unknown_or_used db h after, rw (n, p, mark) refl)
  | inr (e, n) ↦ (database_error e, rw (n, mark) refl)
]

-- A token that is marked used, with a replacement that is not empty, is never marked used again, whatever
-- is saved under other hashes, marked, revoked and swept since: the second mark is refused with an error.
pub mark_used-once :
    (db db' : Database) (h r r' : Text) (s after : RefreshStore) (os : List Op)
    → text_eq r [] ≡ false
    → mark_used db h r s ≡ (ok tt, after)
    → All (SavesOther h) os
    → (e : StoreError) × (mark_used db' h r' (after_ops os after) ≡ (err e, after_ops os after))
unfolding mark_used
mark_used-once db db' h r r' s after os nonempty first others =
    let done = mark-ok db h r s after (settle-ok s after (mark db h r s) tt first) in
    let spent : Spent h after = subst (Spent h) (sym done) (
      count-update_none (is_unused h) (marked r) s.tokens
        (λ row. unused-marked h r row nonempty)) in
    Spent-refused db' h r' (after_ops os after) (after_ops-Spent h os after others spent)
