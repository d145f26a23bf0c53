-- ===== src/Authlet/Keys/Signer.antt =====
-- Which key signs.
use memory_system.Prelude.{
  ℕ, ◌≡◌, inl, inr, refl, sym, ap, ◌∙◌, subst, Text, text_eq, Bool, true, false, not, Option, none,
  List, [], ◌∷◌, ok,
}
use memory_system.Authlet.Errors.{Fault, Database, reading}
use memory_system.Prelude.{rows_where, update_where, rows-none, rows-cons, rows-update}
use memory_system.Authlet.Keys.{
  AuthletSigningKey, SigningKey, key_row, active, has_id, deactivated, retired, first_newest,
  newest, get_signer, insert, retire,
}
use memory_system.Authlet.Keys.Active.{insert-ok, insert-cases, retire-cases, none_active}

-- The tables that follow when no other key is inserted as active, and the key of the id is not retired.
pub data Later (id : Text) : List AuthletSigningKey → List AuthletSigningKey → Type 0 where
  now : {keys : List AuthletSigningKey} → Later id keys keys
  inserting :
      {start keys : List AuthletSigningKey} (db : Database) (name : Text) (lock : Option Fault)
      (k : SigningKey)
      → k.is_active ≡ false
      → Later id start keys
      → Later id start (insert db name lock k keys).1
  retiring :
      {start keys : List AuthletSigningKey} (db : Database) (other : Text) (at : ℕ)
      → text_eq id other ≡ false
      → Later id start keys
      → Later id start (retire db other at keys).1

abbrev Signs : SigningKey → List AuthletSigningKey → Type 0
Signs k keys = rows_where active keys ≡ key_row k ∷ []

activated-Signs :
    (k : SigningKey) (keys : List AuthletSigningKey)
    → k.is_active ≡ true
    → Signs k (key_row k ∷ update_where active deactivated keys)
activated-Signs k keys a =
    let rest = update_where active deactivated keys in
    rows-cons active (key_row k) rest a
    ∙ ap (◌∷◌ (key_row k)) (rows-none active rest (none_active keys))

idle-Signs :
    (k other : SigningKey) (keys : List AuthletSigningKey)
    → other.is_active ≡ false
    → Signs k keys
    → Signs k (key_row other ∷ keys)
unfolding rows_where
idle-Signs k other keys a h = rw a h

retired-Signs :
    (k : SigningKey) (other : Text) (at : ℕ) (keys : List AuthletSigningKey)
    → text_eq k.id other ≡ false
    → Signs k keys
    → Signs k (update_where (has_id other) (retired at) keys)
unfolding rows_where
retired-Signs k other at keys e h =
    rows-update active (has_id other) (retired at) keys (λ r p. refl)
    ∙ ap (rows_where (λ r. not (has_id other r))) h
    ∙ (rw e refl)

Later-Signs :
    (k : SigningKey) {start keys : List AuthletSigningKey}
    → Later k.id start keys
    → Signs k start
    → Signs k keys
Later-Signs k now h = h
Later-Signs k (inserting {keys = keys} db name lock other a l) h =
    let rest = Later-Signs k l h in
    elim (insert-cases db name lock other keys) [
      | inl e ↦ subst (Signs k) (sym e) rest
      | inr (inl (b, e)) ↦ absurd (let clash : true ≡ false = sym b ∙ a in cc)
      | inr (inr (b, e)) ↦ subst (Signs k) (sym e) (idle-Signs k other keys b rest)
    ]
Later-Signs k (retiring {keys = keys} db other at n l) h =
    let rest = Later-Signs k l h in
    elim (retire-cases db other at keys) [
      | inl e ↦ subst (Signs k) (sym e) rest
      | inr e ↦ subst (Signs k) (sym e) (retired-Signs k other at keys n rest)
    ]

Signs-get :
    (db : Database) (id_before : Text → Text → Bool) (k : SigningKey)
    (keys : List AuthletSigningKey)
    → db.failing reading ≡ none
    → Signs k keys
    → get_signer db id_before keys ≡ ok k
unfolding get_signer first_newest newest
Signs-get db id_before k keys n h = rw (n, h, get_signer) refl

-- An active key that is inserted without an error is the one that get_signer returns, where its read does
-- not fail, until another is inserted as active or it is retired itself.
pub get_signer-insert :
    (db db' : Database) (name : Text) (lock : Option Fault) (id_before : Text → Text → Bool)
    (k : SigningKey) (keys after later : List AuthletSigningKey)
    → k.is_active ≡ true
    → insert db name lock k keys ≡ (ok tt, after)
    → Later k.id after later
    → db'.failing reading ≡ none
    → get_signer db' id_before later ≡ ok k
get_signer-insert db db' name lock id_before k keys after later a inserted l n =
    elim (insert-ok db name lock k keys after inserted) [
      | inl (b, e) ↦
          Signs-get db' id_before k later n
            (Later-Signs k l (subst (Signs k) (sym e) (activated-Signs k keys b)))
      | inr (b, e) ↦ absurd (let clash : true ≡ false = sym a ∙ b in cc)
    ]
