-- ===== src/Authlet/Errors.antt =====
-- internal/authletstore/errors.go: an error of the database, and the store's error that it becomes.
-- A statement that fails has no effect. Whether one fails, and the message of a duplicate key, are
-- the database's.
use memory_system.Prelude.{
  Text, text, ◌==◌, ◌&&◌, ◌||◌, Bool, true, false, Option, [], ◌∷◌, map, Result, err, ok, ◌≡◌, ap,
  sym,
}
use memory_system.Models.Slug.{to_lower}

pub data Fault : Type 0 where
  record_not_found : Fault
  fault : Text → Fault

pub data Statement : Type 0 where
  creating : Statement
  reading : Statement
  counting : Statement
  updating : Statement
  deleting : Statement

pub record Database : Type 0 where
  pub failing : Statement → Option Fault
  pub duplicate : Fault

-- The errors of authlet's storage package that the source names, and any other error as it is.
pub data StoreError : Type 0 where
  not_found : StoreError
  already_exists : StoreError
  already_consumed : StoreError
  family_revoked : StoreError
  database_error : Fault → StoreError

unfoldable pub starts_with : Text → Text → Bool
starts_with t [] = true
starts_with [] (c ∷ sub) = false
starts_with (b ∷ t) (c ∷ sub) = b == c && starts_with t sub

-- strings.Contains
unfoldable pub contains : Text → Text → Bool
unfolding starts_with
contains [] sub = starts_with [] sub
contains (b ∷ t) sub = starts_with (b ∷ t) sub || contains t sub

abbrev pub error_text : Fault → Text
error_text record_not_found = text "record not found"
error_text (fault message) = message

unfoldable pub is_unique_violation : Fault → Bool
unfolding contains to_lower
is_unique_violation e =
    let s = map to_lower (error_text e) in
    contains s (text "unique") || contains s (text "duplicate")

unfoldable pub map_get_err : Fault → StoreError
map_get_err record_not_found = not_found
map_get_err (fault message) = database_error (fault message)

unfoldable pub map_create_err : Fault → StoreError
unfolding is_unique_violation
map_create_err e = elim (is_unique_violation e) [ true ↦ already_exists | false ↦ database_error e ]

-- db.Transaction: what an error leaves is what there was.
abbrev pub settle {ℓ} :
    {A : Type ℓ} {S : Type 0} → S → Result StoreError A × S → Result StoreError A × S
settle s (err e, after) = (err e, s)
settle s (ok a, after) = (ok a, after)

abbrev pub transaction {ℓ} :
    {A : Type ℓ} {S : Type 0} → (S → Result StoreError A × S) → S → Result StoreError A × S
transaction body s = settle s (body s)

pub settle-ok {ℓ} :
    {A : Type ℓ} {S : Type 0} (s s' : S) (p : Result StoreError A × S) (a : A)
    → settle s p ≡ (ok a, s')
    → p ≡ (ok a, s')
settle-ok s s' (err e, after) a h = let k : err e ≡ ok a = ap (λ q. q.0) h in cc
settle-ok s s' (ok b, after) a h = h

pub settle-err {ℓ} :
    {A : Type ℓ} {S : Type 0} (s s' : S) (p : Result StoreError A × S) (e : StoreError)
    → settle s p ≡ (err e, s')
    → s' ≡ s
settle-err s s' (err d, after) e h = sym (ap (λ q. q.1) h)
settle-err s s' (ok b, after) e h = let k : ok b ≡ err e = ap (λ q. q.0) h in cc

pub not-both {ℓ κ} :
    {A : Type ℓ} {S : Type 0} {X : Type κ} {e : StoreError} {a : A} {s s' : S}
    → ◌≡◌ {A = Result StoreError A × S} (err e, s) (ok a, s')
    → X
not-both h = absurd (let clash = ap (λ p. p.0) h in cc)
