-- ===== src/Authlet/Refresh/Revoked.antt =====
-- The tokens of a revoked family are out of use.
use memory_system.Prelude.{
  ℕ, ◌+◌, ◌-◌, ◌≤◌, ◌<◌, ◌==◌, ltb, ◌≡◌, ◌≢◌, inl, inr, sym, ap, subst, Text, eq_refl, Bool, true,
  false, ◌&&◌, not, none, List, [], ◌∷◌, All, ok, ok_inj, Bool-cases, Option-cases, arith,
}
use memory_system.Authlet.Errors.{Database, creating, reading, counting, deleting}
use memory_system.Prelude.{count_where, count-le, count-delete_other, first_where}
use memory_system.Authlet.Refresh.{
  OAuthRefreshToken, FamilyRevocation, RefreshToken, RefreshStore, is_token, is_family,
  family_tombstone_retention, revoked_before, is_family_revoked, get_of_row, get, revoke_family,
  prune, delete_expired,
}
use memory_system.Authlet.Refresh.Runs.{
  Op, saving, marking, revoking, sweeping, after_op, after_ops,
}
use memory_system.Authlet.Refresh.Reuse.{mark_used-after, save-after}

-- a revocation of the family before the time
abbrev pub older : Text → ℕ → FamilyRevocation → Bool
older f t x = is_family f x && ltb x.revoked_at t

abbrev recent : Text → ℕ → FamilyRevocation → Bool
recent f t x = is_family f x && not (ltb x.revoked_at t)

abbrev Tombed : Text → ℕ → List FamilyRevocation → Type 0
Tombed f t families = 0 < count_where (recent f t) families

-- A sweep of the sequence does not reach back to the time.
abbrev pub SweepsUntil : ℕ → Op → Type 0
SweepsUntil t (saving db rt) = Unit
SweepsUntil t (marking db hash replaced_by) = Unit
SweepsUntil t (revoking db now family_id) = Unit
SweepsUntil t (sweeping purging pruning before) = before ≤ t + family_tombstone_retention

recent-counted :
    (f : Text) (t : ℕ) (xs : List FamilyRevocation)
    → count_where (older f t) xs ≡ 0
    → count_where (is_family f) xs ≤ count_where (recent f t) xs
unfolding count_where
recent-counted f t [] h = omega arith
recent-counted f t (x ∷ xs) h = elim (Bool-cases (is_family f x)) [
  | inl e ↦ elim (Bool-cases (ltb x.revoked_at t)) [
    | inl l ↦ let k = rw (e, l) at h in absurd (omega arith)
    | inr l ↦ let k = rw (e, l) at h in rw (e, l) (omega (arith, recent-counted f t xs k))
  ]
  | inr e ↦ let k = rw e at h in rw e (recent-counted f t xs k)
]

revoke_family-Tombed :
    (db : Database) (now t : ℕ) (f : Text) (s after : RefreshStore)
    → db.failing creating ≡ none
    → t ≤ now
    → count_where (older f t) s.families ≡ 0
    → revoke_family db now f s ≡ (ok tt, after)
    → Tombed f t after.families
unfolding revoke_family count_where
revoke_family-Tombed db now t f s after n le o h =
    elim (Bool-cases (count_where (is_family f) s.families == 0)) [
      | inl z ↦
          let k = rw (n, z, revoke_family) at h in
          let late : ltb now t ≡ false = ground arith in
          rw (sym (ap (λ p. p.1.families) k), eq_refl f, late) (omega arith)
      | inr z ↦
          let k = rw (n, z, revoke_family) at h in
          let counted = recent-counted f t s.families o in
          subst (λ (x : RefreshStore). Tombed f t x.families) (ap (λ p. p.1) k) (ground arith)
    ]

kept-recent :
    (f : Text) (t before : ℕ) (x : FamilyRevocation)
    → before ≤ t + family_tombstone_retention
    → recent f t x ≡ true
    → revoked_before (before - family_tombstone_retention) x ≡ false
kept-recent f t before x le h = ground arith

prune-Tombed :
    (f : Text) (t before : ℕ) (db : Database) (xs : List FamilyRevocation)
    → before ≤ t + family_tombstone_retention
    → Tombed f t xs
    → Tombed f t (prune db before xs)
unfolding prune
prune-Tombed f t before db xs le h = elim (Option-cases (db.failing deleting)) [
  | inl n ↦
      let cutoff = revoked_before (before - family_tombstone_retention) in
      let same = count-delete_other (recent f t) cutoff xs (λ x r. kept-recent f t before x le r) in
      rw (n, prune) (omega (arith, same, h))
  | inr (e, n) ↦ rw (n, prune) h
]

revoked-Tombed :
    (f g : Text) (t now : ℕ) (db : Database) (s : RefreshStore)
    → Tombed f t s.families
    → Tombed f t (revoke_family db now g s).1.families
unfolding revoke_family count_where
revoked-Tombed f g t now db s h = elim (Option-cases (db.failing creating)) [
  | inl n ↦ elim (Bool-cases (count_where (is_family g) s.families == 0)) [
    | inl z ↦
        let x : FamilyRevocation = record { family_id = g; revoked_at = now } in
        elim (Bool-cases (recent f t x)) [
          | inl r ↦ rw (n, z, revoke_family, r) (omega arith)
          | inr r ↦ rw (n, z, revoke_family, r) h
        ]
    | inr z ↦ rw (n, z, revoke_family) h
  ]
  | inr (e, n) ↦ rw (n, revoke_family) h
]

after_op-Tombed :
    (f : Text) (t : ℕ) (o : Op) (s : RefreshStore)
    → SweepsUntil t o
    → Tombed f t s.families
    → Tombed f t (after_op o s).families
unfolding after_op delete_expired
after_op-Tombed f t (saving db rt) s u h = elim (save-after db rt s) [
  | inl e ↦ rw e h
  | inr e ↦ rw e h
]
after_op-Tombed f t (marking db k r) s u h = elim (mark_used-after db k r s) [
  | inl e ↦ rw e h
  | inr e ↦ rw e h
]
after_op-Tombed f t (revoking db now g) s u h = revoked-Tombed f g t now db s h
after_op-Tombed f t (sweeping purging pruning before) s u h =
    prune-Tombed f t before pruning s.families u h

after_ops-Tombed :
    (f : Text) (t : ℕ) (os : List Op) (s : RefreshStore)
    → All (SweepsUntil t) os
    → Tombed f t s.families
    → Tombed f t (after_ops os s).families
unfolding after_ops
after_ops-Tombed f t [] s all h = h
after_ops-Tombed f t (o ∷ os) s all h =
    after_ops-Tombed f t os (after_op o s) all.1 (after_op-Tombed f t o s all.0 h)

get_of_row-ok :
    (db : Database) (row : OAuthRefreshToken) (s : RefreshStore) (token : RefreshToken)
    → get_of_row db row s ≡ ok token
    → (count_where (is_family token.family_id) s.families ≡ 0)
unfolding get_of_row is_family_revoked
get_of_row-ok db row s token h = elim (Option-cases (db.failing counting)) [
  | inl n ↦ elim (Bool-cases (ltb 0 (count_where (is_family row.family_id) s.families))) [
    | inl z ↦ let k = rw (n, is_family_revoked, z, get_of_row) at h in absurd (cc)
    | inr z ↦
        let k = rw (n, is_family_revoked, z, get_of_row) at h in
        let same : row.family_id ≡ token.family_id =
          ap (λ (x : RefreshToken). x.family_id) (ok_inj k) in
        subst (λ i. count_where (is_family i) s.families ≡ 0) same (ground arith)
  ]
  | inr (e, n) ↦ let k = rw (n, is_family_revoked, get_of_row) at h in absurd (cc)
]

get-ok :
    (db : Database) (hash : Text) (s : RefreshStore) (token : RefreshToken)
    → get db hash s ≡ ok token
    → count_where (is_family token.family_id) s.families ≡ 0
unfolding get
get-ok db hash s token h = elim (Option-cases (db.failing reading)) [
  | inl n ↦ elim (Option-cases (first_where (is_token hash) s.tokens)) [
    | inl z ↦ let k = rw (n, z, get) at h in absurd (cc)
    | inr (row, z) ↦ let k = rw (n, z, get) at h in get_of_row-ok db row s token k
  ]
  | inr (e, n) ↦ let k = rw (n, get) at h in absurd (cc)
]

-- A family that revoke_family revoked has no token that get returns, whatever is saved, marked, revoked and
-- swept since, as long as every sweep is for a time within 90 days of t; where no older revocation of the
-- family than t was there, and the insertion did not fail.
pub get-revoked :
    (db db' : Database) (now t : ℕ) (f hash : Text) (s after : RefreshStore) (os : List Op)
    (token : RefreshToken)
    → db.failing creating ≡ none
    → t ≤ now
    → count_where (older f t) s.families ≡ 0
    → revoke_family db now f s ≡ (ok tt, after)
    → All (SweepsUntil t) os
    → get db' hash (after_ops os after) ≡ ok token
    → token.family_id ≢ f
get-revoked db db' now t f hash s after os token n le o h all got same =
    let revoked =
      after_ops-Tombed f t os after all (revoke_family-Tombed db now t f s after n le o h) in
    let rest = (after_ops os after).families in
    let none_left : count_where (is_family f) rest ≡ 0 =
      subst (λ i. count_where (is_family i) rest ≡ 0) same
        (get-ok db' hash (after_ops os after) token got) in
    let fewer =
      count-le (is_family f) (recent f t) rest
        (λ x r. let p : is_family f x && not (ltb x.revoked_at t) ≡ true = r in ground arith) in
    absurd (omega arith)
