-- ===== src/Authz/Store/Laws.antt =====
-- The in-memory store is a set of tuples: what the reads return after a write and after a delete.
use memory_system.Prelude.{
  ◌≡◌, ◌≢◌, ◌↔◌, ◌⊎◌, inl, inr, refl, sym, ap, ◌∙◌, subst, Text, text_eq, eq_iff, Bool, true, List,
  [], ◌∷◌, All, All-mem, Memᴰ, arith, Bool-cases, mem-cons,
}
use memory_system.Authz.Tuple.{Tuple}
use memory_system.Authz.Store.{
  MemoryStore, rows, failed, tuple_key, remove_key, put_key, write, delete, select, on_object,
  read_by_object_relation,
}
use memory_system.Authz.Store.TupleKey.{Keyable, tuple_key-injective}

-- Each entry stands under the key of its tuple.
abbrev Entry : Text × Tuple → Type 0
Entry e = (e.0 ≡ tuple_key e.1) × Keyable e.1

pub record IsKeyed (s : MemoryStore) : Type 0 where
  pub entries : All Entry s.tuples

-- the tuple is stored
abbrev Within : Tuple → List (Text × Tuple) → Type 0
Within u m = (k : Text) × Memᴰ (k, u) m

Within-cons :
    (u : Tuple) (e : Text × Tuple) (m : List (Text × Tuple))
    → Within u (e ∷ m)
    → (u ≡ e.1) ⊎ Within u m
Within-cons u e m (k, i) = elim (mem-cons i) [
  | inl p ↦ inl (ap (λ (x : Text × Tuple). x.1) p)
  | inr j ↦ inr (k, j)
]

Within-head : (u : Tuple) (e : Text × Tuple) (m : List (Text × Tuple)) → u ≡ e.1 → Within u (e ∷ m)
Within-head u (k, v) m p = (k, Memᴰ.head (cc))

Within-tail :
    (u : Tuple) (e : Text × Tuple) (m : List (Text × Tuple)) → Within u m → Within u (e ∷ m)
Within-tail u e m (k, i) = (k, Memᴰ.tail i)

mem-select :
    (p : Tuple → Bool) (u : Tuple) (m : List (Text × Tuple))
    → Memᴰ u (select p m) ↔ (Within u m × (p u ≡ true))
unfolding select
mem-select p u [] = (λ i. elim i [ ], λ h. elim (h.0.1) [ ])
mem-select p u ((k, t) ∷ m) = elim (Bool-cases (p t)) [
  | inl e ↦ rw e (
    λ i. elim (mem-cons i) [
      | inl q ↦ (Within-head u (k, t) m q, ap p q ∙ e)
      | inr j ↦ let h = (mem-select p u m).0 j in (Within-tail u (k, t) m h.0, h.1)
    ],
    λ h. elim (Within-cons u (k, t) m h.0) [
      | inl q ↦ Memᴰ.head q
      | inr w ↦ Memᴰ.tail ((mem-select p u m).1 (w, h.1))
    ],
  )
  | inr e ↦ rw e (
    λ i. let h = (mem-select p u m).0 i in (Within-tail u (k, t) m h.0, h.1),
    λ h. elim (Within-cons u (k, t) m h.0) [
      | inl q ↦ cc (ap p q, h.1, e)
      | inr w ↦ (mem-select p u m).1 (w, h.1)
    ],
  )
]

-- an entry under the key of a tuple holds that tuple
same_key : (t : Tuple) (e : Text × Tuple) → Keyable t → Entry e → e.0 ≡ tuple_key t → e.1 ≡ t
same_key t e kt h p = tuple_key-injective e.1 t h.1 kt (sym h.0 ∙ p)

Within-put_key :
    (t u : Tuple) (m : List (Text × Tuple))
    → Keyable t
    → All Entry m
    → Within u (put_key (tuple_key t) t m) ↔ ((u ≡ t) ⊎ Within u m)
unfolding put_key
Within-put_key t u [] kt h = (
  λ w. Within-cons u (tuple_key t, t) [] w,
  λ d. elim d [
    | inl e ↦ Within-head u (tuple_key t, t) [] e
    | inr w ↦ Within-tail u (tuple_key t, t) [] w
  ],
)
Within-put_key t u ((j, v) ∷ m) kt h = elim (Bool-cases (text_eq j (tuple_key t))) [
  | inl e ↦
      let same : v ≡ t = same_key t (j, v) kt h.0 ((eq_iff j (tuple_key t)).0 e) in
      rw e (
        λ w. elim (Within-cons u (tuple_key t, t) m w) [
          | inl q ↦ inl q
          | inr w' ↦ inr (Within-tail u (j, v) m w')
        ],
        λ d. elim d [
          | inl q ↦ Within-head u (tuple_key t, t) m q
          | inr w ↦ elim (Within-cons u (j, v) m w) [
            | inl q ↦ Within-head u (tuple_key t, t) m (q ∙ same)
            | inr w' ↦ Within-tail u (tuple_key t, t) m w'
          ]
        ],
      )
  | inr e ↦ rw e (
    λ w. elim (Within-cons u (j, v) (put_key (tuple_key t) t m) w) [
      | inl q ↦ inr (Within-head u (j, v) m q)
      | inr w' ↦ elim ((Within-put_key t u m kt h.1).0 w') [
        | inl q ↦ inl q
        | inr w'' ↦ inr (Within-tail u (j, v) m w'')
      ]
    ],
    λ d. elim d [
      | inl q ↦
          Within-tail u (j, v) (put_key (tuple_key t) t m) ((Within-put_key t u m kt h.1).1 (inl q))
      | inr w ↦ elim (Within-cons u (j, v) m w) [
        | inl q ↦ Within-head u (j, v) (put_key (tuple_key t) t m) q
        | inr w' ↦
            Within-tail u (j, v) (put_key (tuple_key t) t m)
              ((Within-put_key t u m kt h.1).1 (inr w'))
      ]
    ],
  )
]

Within-remove_key :
    (t u : Tuple) (m : List (Text × Tuple))
    → Keyable t
    → All Entry m
    → Within u (remove_key (tuple_key t) m) ↔ (Within u m × (u ≢ t))
unfolding remove_key
Within-remove_key t u [] kt h = (λ w. elim (w.1) [ ], λ w. w.0)
Within-remove_key t u ((j, v) ∷ m) kt h = elim (Bool-cases (text_eq j (tuple_key t))) [
  | inl e ↦
      let same : v ≡ t = same_key t (j, v) kt h.0 ((eq_iff j (tuple_key t)).0 e) in
      rw e (
        λ w. let (i, ne) = (Within-remove_key t u m kt h.1).0 w in (Within-tail u (j, v) m i, ne),
        λ (w, ne). elim (Within-cons u (j, v) m w) [
          | inl q ↦ absurd (ne (q ∙ same))
          | inr w' ↦ (Within-remove_key t u m kt h.1).1 (w', ne)
        ],
      )
  | inr e ↦
      let differs : v ≢ t = λ q. cc ((eq_iff j (tuple_key t)).1 (h.0.0 ∙ ap tuple_key q), e) in
      rw e (
        λ w. elim (Within-cons u (j, v) (remove_key (tuple_key t) m) w) [
          | inl q ↦ (Within-head u (j, v) m q, λ p. differs (sym q ∙ p))
          | inr w' ↦
              let (i, ne) = (Within-remove_key t u m kt h.1).0 w' in (Within-tail u (j, v) m i, ne)
        ],
        λ (w, ne). elim (Within-cons u (j, v) m w) [
          | inl q ↦ Within-head u (j, v) (remove_key (tuple_key t) m) q
          | inr w' ↦
              Within-tail u (j, v) (remove_key (tuple_key t) m)
                ((Within-remove_key t u m kt h.1).1 (w', ne))
        ],
      )
]

-- the tuple stands on the object, under the relation
abbrev pub OnObject : Text → Text → Text → Tuple → Type 0
OnObject obj_type obj_id relation t =
    (t.object_type ≡ obj_type) × (t.object_id ≡ obj_id) × (t.relation ≡ relation)

on_object_iff :
    (obj_type obj_id relation : Text) (t : Tuple)
    → (on_object obj_type obj_id relation t ≡ true) ↔ OnObject obj_type obj_id relation t
unfolding on_object
on_object_iff obj_type obj_id relation t =
    ground
      (arith, eq_iff t.object_type obj_type, eq_iff t.object_id obj_id, eq_iff t.relation relation)

-- What holds of every entry, and of the written one, holds after a write; a delete adds nothing.
module _ (P : Text × Tuple → Type 0) where
  pub put_key-All :
      (k : Text) (t : Tuple) (m : List (Text × Tuple)) → P (k, t) → All P m → All P (put_key k t m)
  unfolding put_key
  put_key-All k t [] p h = (p, tt)
  put_key-All k t ((j, v) ∷ m) p h = elim (Bool-cases (text_eq j k)) [
    | inl e ↦ rw e (p, h.1)
    | inr e ↦ rw e (h.0, put_key-All k t m p h.1)
  ]

  pub remove_key-All : (k : Text) (m : List (Text × Tuple)) → All P m → All P (remove_key k m)
  unfolding remove_key
  remove_key-All k [] h = tt
  remove_key-All k ((j, v) ∷ m) h = elim (Bool-cases (text_eq j k)) [
    | inl e ↦ rw e (remove_key-All k m h.1)
    | inr e ↦ rw e (h.0, remove_key-All k m h.1)
  ]

-- What holds of every entry holds of every tuple that a read returns, which is one of the object.
pub read-All :
    (P : Tuple → Type 0) (s : MemoryStore) (obj_type obj_id relation : Text) (ts : List Tuple)
    (t : Tuple)
    → All (λ e. P e.1) s.tuples
    → read_by_object_relation s obj_type obj_id relation ≡ rows ts
    → Memᴰ t ts
    → P t × (t.object_type ≡ obj_type) × (t.object_id ≡ obj_id) × (t.relation ≡ relation)
unfolding read_by_object_relation
read-All P s obj_type obj_id relation ts t h e i =
    let p = on_object obj_type obj_id relation in
    let same : select p s.tuples ≡ ts = ground arith in
    let ((k, w), q) = (mem-select p t s.tuples).0 (subst (Memᴰ t) (sym same) i) in
    let on = (on_object_iff obj_type obj_id relation t).0 q in
    (All-mem (λ e. P e.1) (k, t) s.tuples h w, on.0, on.1, on.2)

-- Writing a tuple whose fields hold no NUL byte, and deleting any tuple, keep every entry under the
-- key of its tuple.
pub update-IsKeyed :
    (s : MemoryStore) (t : Tuple)
    → IsKeyed s
    → Keyable t
    → IsKeyed (write s t) × IsKeyed (delete s t)
unfolding write delete
update-IsKeyed s t h kt = (
  record { entries = put_key-All Entry (tuple_key t) t s.tuples (refl, kt) h.entries },
  record { entries = remove_key-All Entry (tuple_key t) s.tuples h.entries },
)

-- the tuples that a read of an object's relation returns
abbrev pub stored_on : MemoryStore → Text → Text → Text → List Tuple
stored_on s obj_type obj_id relation = elim (read_by_object_relation s obj_type obj_id relation) [
  | rows ts ↦ ts
  | failed e ↦ []
]

-- a read of the object's relation returns the tuple
abbrev pub ReadsBack : Text → Text → Text → Tuple → MemoryStore → Type 0
ReadsBack obj_type obj_id relation u s = Memᴰ u (stored_on s obj_type obj_id relation)

module _ (s : MemoryStore) (t u : Tuple) (obj_type obj_id relation : Text) (h : IsKeyed s)
    (kt : Keyable t) where
  -- After a write, a read of an object's relation returns what it returned before, and the written
  -- tuple if it stands on that object and relation.
  pub read-write :
      ReadsBack obj_type obj_id relation u (write s t)
      ↔ (((u ≡ t) × OnObject obj_type obj_id relation u) ⊎ ReadsBack obj_type obj_id relation u s)
  unfolding write read_by_object_relation
  read-write =
      let p = on_object obj_type obj_id relation in
      (
        λ i.
            let (w, e) = (mem-select p u (put_key (tuple_key t) t s.tuples)).0 i in
            elim ((Within-put_key t u s.tuples kt h.entries).0 w) [
              | inl q ↦ inl (q, (on_object_iff obj_type obj_id relation u).0 e)
              | inr w' ↦ inr ((mem-select p u s.tuples).1 (w', e))
            ],
        λ d. elim d [
          | inl q ↦ (mem-select p u (put_key (tuple_key t) t s.tuples)).1 (
            (Within-put_key t u s.tuples kt h.entries).1 (inl q.0),
            (on_object_iff obj_type obj_id relation u).1 q.1,
          )
          | inr i ↦
              let (w, e) = (mem-select p u s.tuples).0 i in
              (mem-select p u (put_key (tuple_key t) t s.tuples)).1
                ((Within-put_key t u s.tuples kt h.entries).1 (inr w), e)
        ],
      )

  -- After a delete, a read returns what it returned before, less the deleted tuple.
  pub read-delete :
      ReadsBack obj_type obj_id relation u (delete s t)
      ↔ (ReadsBack obj_type obj_id relation u s × (u ≢ t))
  unfolding delete read_by_object_relation
  read-delete =
      let p = on_object obj_type obj_id relation in
      (
        λ i.
            let (w, e) = (mem-select p u (remove_key (tuple_key t) s.tuples)).0 i in
            let (w', ne) = (Within-remove_key t u s.tuples kt h.entries).0 w in
            ((mem-select p u s.tuples).1 (w', e), ne),
        λ (i, ne).
            let (w, e) = (mem-select p u s.tuples).0 i in
            (mem-select p u (remove_key (tuple_key t) s.tuples)).1
              ((Within-remove_key t u s.tuples kt h.entries).1 (w, ne), e),
      )
