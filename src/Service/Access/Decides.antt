-- ===== src/Service/Access/Decides.antt =====
-- What the gate of the service decides, where reads of the check may fail.
use memory_system.Prelude.{
  ◌≡◌, ◌≢◌, refl, sym, ap, ◌∙◌, inl, inr, Text, text_eq, eq_iff, ne_of_text_eq, true, false, none,
  some, [], Bool-cases, Option-cases, if◌then◌else◌,
}
use memory_system.Authz.Namespace.{default_namespace}
use memory_system.Authz.Tuple.{Tuple}
use memory_system.Authz.Store.{Reader, failed, read_by_object_relation}
use memory_system.Authz.Check.{Node, Subject, CheckError, new_engine, check}
use memory_system.Authz.Namespace.{Namespace, Rewrite}
use memory_system.Authz.Check.Sound.{check-Holds}
use memory_system.Authz.Membership.{
  HasRule, HasTuple, direct, Includes, userset, sibling, parent, Holds, by_tuple, through,
}
use memory_system.Authz.Model.{Place, At}
use memory_system.Authz.Seed.Reach.{Reachable, Reachable-check_decides}
use memory_system.Service.Access.{Caller, Directory, authorize, reads_of, engine_of}

-- The caller has a subject, which has an id and holds the relation.
abbrev pub CallerHolds : Directory → Caller → Node → Type 0
CallerHolds s c n =
    (subj : Subject) × (c.subject ≡ some subj)
    × (subj.subject_id ≢ [])
    × Holds default_namespace (read_by_object_relation s.store) subj n

module _ (read : Reader) (c : Caller) (n : Node) (subj : Subject) where
  authorize-anonymous :
      c.subject ≡ some subj → text_eq subj.subject_id [] ≡ true → authorize (some read) c n ≡ false
  unfolding authorize
  authorize-anonymous e z = rw (e, z, authorize) refl

  authorize-clean :
      c.subject ≡ some subj
      → text_eq subj.subject_id [] ≡ false
      → (check (new_engine read) n subj).error ≡ none
      → authorize (some read) c n ≡ (check (new_engine read) n subj).granted
  unfolding authorize
  authorize-clean e z clean = rw (e, z, clean, authorize) refl

  authorize-erring :
      (err : CheckError)
      → c.subject ≡ some subj
      → text_eq subj.subject_id [] ≡ false
      → (check (new_engine read) n subj).error ≡ some err
      → authorize (some read) c n ≡ false
  unfolding authorize
  authorize-erring err e z failure = rw (e, z, failure, authorize) refl

authorize-subjectless :
    (read : Reader) (c : Caller) (n : Node) → c.subject ≡ none → authorize (some read) c n ≡ false
unfolding authorize
authorize-subjectless read c n e = rw (e, authorize) refl

-- A store that shows no tuple that the other has not lets nobody hold more.
module _ (ns : Namespace) (read read' : Reader)
    (shown : (n : Node) (relation : Text) (tp : Tuple)
      → HasTuple ns read n relation tp
      → HasTuple ns read' n relation tp) where
  same_rule : (n : Node) (w : Rewrite) → HasRule ns read n w → HasRule ns read' n w
  same_rule n w r = record {
    rule_def = r.rule_def;
    rule_defined = r.rule_defined;
    rule_listed = r.rule_listed;
  }

  Includes-shown : (n m : Node) → Includes ns read n m → Includes ns read' n m
  Includes-shown n m (userset tp r h ne e) =
      userset tp (same_rule n _ r) (shown n n.relation tp h) ne e
  Includes-shown n m (sibling relation r e) = sibling relation (same_rule n _ r) e
  Includes-shown n m (parent tupleset relation tp r h z e) =
      parent tupleset relation tp (same_rule n _ r) (shown n tupleset tp h) z e

  Holds-shown : (s : Subject) (n : Node) → Holds ns read s n → Holds ns read' s n
  unfolding same_rule
  Holds-shown s n (by_tuple (direct tp r h names)) =
      by_tuple (direct tp (same_rule n _ r) (shown n n.relation tp h) names)
  Holds-shown s n (through {m} i h) = through (Includes-shown n m i) (Holds-shown s m h)

-- What a read that did not fail shows is in the store.
reads_of-shown :
    (s : Directory) (n : Node) (relation : Text) (tp : Tuple)
    → HasTuple default_namespace (reads_of s) n relation tp
    → HasTuple default_namespace (read_by_object_relation s.store) n relation tp
reads_of-shown s n relation tp h =
    elim (Option-cases (s.read_fault n.object_type n.object_id relation)) [
      | inl e ↦ record {
        stored = h.stored;
        stored_read = rw (e, reads_of) at h.stored_read;
        stored_listed = h.stored_listed;
      }
      | inr (d, e) ↦ absurd (let clash = rw (e, reads_of) at h.stored_read in cc)
    ]

wired-engine : (s : Directory) → s.wired ≡ true → engine_of s ≡ some (reads_of s)
wired-engine s w = ap (λ b. if b then some (reads_of s) else none) w

unwired-engine : (s : Directory) → s.wired ≡ false → engine_of s ≡ none
unwired-engine s w = ap (λ b. if b then some (reads_of s) else none) w

engine-Holds :
    (read : Reader) (n : Node) (subj : Subject)
    → (check (new_engine read) n subj).granted ≡ true
    → Holds default_namespace read subj n
unfolding new_engine
engine-Holds read n subj granted = check-Holds (new_engine read) n subj granted

-- The gate lets nobody through on an error of the check.
reads_of-CallerHolds :
    (s : Directory) (c : Caller) (n : Node)
    → authorize (some (reads_of s)) c n ≡ true
    → CallerHolds s c n
reads_of-CallerHolds s c n t =
    let read = reads_of s in
    elim (Option-cases c.subject) [
      | inl e ↦ absurd (let clash : false ≡ true = sym (authorize-subjectless read c n e) ∙ t in cc)
      | inr (subj, e) ↦ elim (Bool-cases (text_eq subj.subject_id [])) [
        | inl z ↦
            absurd
              (let clash : false ≡ true = sym (authorize-anonymous read c n subj e z) ∙ t in cc)
        | inr z ↦ elim (Option-cases (check (new_engine read) n subj).error) [
          | inr (d, f) ↦
              absurd
                (let clash : false ≡ true = sym (authorize-erring read c n subj d e z f) ∙ t in cc)
          | inl clean ↦
              let granted = sym (authorize-clean read c n subj e z clean) ∙ t in
              (
                subj,
                e,
                ne_of_text_eq subj.subject_id [] z,
                Holds-shown default_namespace read (read_by_object_relation s.store)
                    (reads_of-shown s) subj n (engine-Holds read n subj granted),
              )
        ]
      ]
    ]

-- In any state, whichever reads of the check fail, the gate lets through only a caller of a service with
-- a store, whose subject has an id and holds the relation.
pub authorize-CallerHolds :
    (s : Directory) (c : Caller) (n : Node)
    → authorize (engine_of s) c n ≡ true
    → (s.wired ≡ true) × CallerHolds s c n
unfolding authorize
authorize-CallerHolds s c n t = elim (Bool-cases s.wired) [
  | inl w ↦ (w, reads_of-CallerHolds s c n (sym (ap (λ e. authorize e c n) (wired-engine s w)) ∙ t))
  | inr w ↦
      absurd
        (let clash : false ≡ true = sym (ap (λ e. authorize e c n) (unwired-engine s w)) ∙ t in cc)
]

-- No read of a check fails.
abbrev pub Unfaulted : Directory → Type 0
Unfaulted s = (obj_type obj_id relation : Text) → s.read_fault obj_type obj_id relation ≡ none

reads_of-same : (s : Directory) → Unfaulted s → reads_of s ≡ read_by_object_relation s.store
reads_of-same s u i obj_type obj_id relation =
    ap
      (λ o. elim o [
        | some e ↦ failed e
        | none ↦ read_by_object_relation s.store obj_type obj_id relation
      ])
      (u obj_type obj_id relation) i

store-authorizes :
    (s : Directory) (c : Caller) (p : Place) (n : Node)
    → Reachable s.store
    → At p n
    → CallerHolds s c n
    → authorize (some (read_by_object_relation s.store)) c n ≡ true
store-authorizes s c p n r a (subj, e, ne, h) =
    let read = read_by_object_relation s.store in
    let (clean, decides) = Reachable-check_decides s.store p n subj r a in
    elim (Bool-cases (text_eq subj.subject_id [])) [
      | inl z ↦ absurd (ne ((eq_iff subj.subject_id []).0 z))
      | inr z ↦ authorize-clean read c n subj e z clean ∙ decides.1 h
    ]

-- In a state whose tuples the program's writers made, the gate of the service lets a caller through for a
-- relation of the model only when the service has a store, and the caller a subject with an id that
-- holds the relation, whichever reads of the check fail; and if none fails, it does let that caller through.
pub authorize-Holds :
    (s : Directory) (c : Caller) (p : Place) (n : Node)
    → Reachable s.store
    → At p n
    → (authorize (engine_of s) c n ≡ true → (s.wired ≡ true) × CallerHolds s c n)
      × (Unfaulted s → (s.wired ≡ true) × CallerHolds s c n → authorize (engine_of s) c n ≡ true)
authorize-Holds s c p n r a = (
  authorize-CallerHolds s c n,
  λ u (w, h).
      ap (λ e. authorize e c n) (wired-engine s w)
      ∙ ap (λ read. authorize (some read) c n) (reads_of-same s u)
      ∙ store-authorizes s c p n r a h,
)
