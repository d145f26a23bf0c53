-- ===== src/Models/Path/RoundTrip.antt =====
-- A valid path is read back from the text that it is written as.
use mathlib.Core.List.{append_assoc}
use memory_system.Prelude.{
  ℕ, ◌≡◌, ◌≢◌, refl, sym, ap, ◌∙◌, Text, Option, none, some, List, [], ◌∷◌, ◌++◌, All, arith, Lacks,
  ◌==◌, ==_iff, split, join, trim, text_eq, Bool-cases, List-cases, inl, inr, split_first,
  split_whole, split-ne, join-split, trim_inner, push_head,
}
use memory_system.Models.Path.{
  validate_document_path, build_path, parse_path, of_parts, last_part, but_last,
}
use memory_system.Models.Path.Valid.{Segment, SegmentByte, validate_document_path_iff}

SegmentByte-Lacks : (t : Text) → All SegmentByte t → Lacks b'/' t
SegmentByte-Lacks [] h = tt
SegmentByte-Lacks (b ∷ t) h = (omega arith, SegmentByte-Lacks t h.1)

Segment-Lacks : (t : Text) → Segment t → Lacks b'/' t
Segment-Lacks [] h = tt
Segment-Lacks (b ∷ t) h = (omega arith, SegmentByte-Lacks t h.1)

last_part-append : (x : Text) (ys : List Text) (z : Text) → last_part x (ys ++ (z ∷ [])) ≡ z
unfolding last_part
last_part-append x [] z = refl
last_part-append x (y ∷ ys) z = last_part-append y ys z

but_last-append : (x : Text) (ys : List Text) (z : Text) → but_last x (ys ++ (z ∷ [])) ≡ x ∷ ys
unfolding but_last
but_last-append x [] z = refl
but_last-append x (y ∷ ys) z = ap (◌∷◌ x) (but_last-append y ys z)

of_parts-append :
    (a x : Text) (xs : List Text) (z : Text)
    → of_parts (a ∷ ((x ∷ xs) ++ (z ∷ [])))
      ≡ record { category = a; subcategory = some (join b'/' (x ∷ xs)); slug = z }
unfolding of_parts join
of_parts-append a x [] z = refl
of_parts-append a x (y ∷ []) z = refl
of_parts-append a x (y ∷ w ∷ ws) z = ground (arith, last_part-append w ws z, but_last-append w ws z)

split-append : (c : ℕ) (s t : Text) → Lacks c t → split c (s ++ (c ∷ t)) ≡ split c s ++ (t ∷ [])
unfolding split
split-append c [] t h = rw ((==_iff c c).1 refl, split_whole c t h)
split-append c (b ∷ s) t h = elim (Bool-cases (b == c)) [
  | inl e ↦ rw (e, split-append c s t h)
  | inr e ↦ rw (e, split-append c s t h) (push (split c s) (split-ne c s))
]
  where
    push : (xs : List Text) → xs ≢ [] → push_head b (xs ++ (t ∷ [])) ≡ push_head b xs ++ (t ∷ [])
    push [] ne = absurd (ne refl)
    push (x ∷ xs) ne = refl

trim_path :
    (cb : ℕ) (cx mid : Text) (sb : ℕ) (sx : Text)
    → Segment (cb ∷ cx)
    → Segment (sb ∷ sx)
    → trim b'/' ((cb ∷ cx) ++ (mid ++ (b'/' ∷ sb ∷ sx))) ≡ (cb ∷ cx) ++ (mid ++ (b'/' ∷ sb ∷ sx))
trim_path cb cx mid sb sx hc hs =
    let shape : cx ++ (mid ++ (b'/' ∷ sb ∷ sx)) ≡ (cx ++ (mid ++ (b'/' ∷ []))) ++ (sb ∷ sx) = sym (
      append_assoc cx (mid ++ (b'/' ∷ [])) (sb ∷ sx)
      ∙ ap (◌++◌ cx) (append_assoc mid (b'/' ∷ []) (sb ∷ sx))) in
    rw shape (
      trim_inner b'/' cb (cx ++ (mid ++ (b'/' ∷ []))) sb sx (omega arith)
        (Segment-Lacks (sb ∷ sx) hs))

parse_parts :
    (t : Text) (b : ℕ) (x : Text)
    → t ≡ b ∷ x
    → trim b'/' t ≡ t
    → parse_path t ≡ of_parts (split b'/' t)
unfolding parse_path text_eq
parse_parts t b x e h = rw h (rw e)

-- Reading back the path that is built from parts which the validation accepts gives these parts.
pub parse_path-build_path :
    (category slug : Text) (subcategory : Option Text)
    → validate_document_path category slug subcategory ≡ none
    → parse_path (build_path category subcategory slug)
      ≡ record { category = category; subcategory = subcategory; slug = slug }
unfolding build_path
parse_path-build_path [] slug sub h = absurd ((validate_document_path_iff [] slug sub).0 h).1
parse_path-build_path (cb ∷ cx) [] sub h =
    absurd ((validate_document_path_iff (cb ∷ cx) [] sub).0 h).3
parse_path-build_path (cb ∷ cx) (sb ∷ sx) none h =
    let v = (validate_document_path_iff (cb ∷ cx) (sb ∷ sx) none).0 h in
    parse_parts ((cb ∷ cx) ++ (b'/' ∷ sb ∷ sx)) cb _ refl (trim_path cb cx [] sb sx v.1 v.3)
    ∙ ap of_parts (
        split_first b'/' (cb ∷ cx) (sb ∷ sx) (Segment-Lacks (cb ∷ cx) v.1)
        ∙ ap (◌∷◌ (cb ∷ cx)) (split_whole b'/' (sb ∷ sx) (Segment-Lacks (sb ∷ sx) v.3)))
    ∙ (unfold of_parts in refl)
parse_path-build_path (cb ∷ cx) (sb ∷ sx) (some s) h =
    let v = (validate_document_path_iff (cb ∷ cx) (sb ∷ sx) (some s)).0 h in
    parse_parts ((cb ∷ cx) ++ (b'/' ∷ s ++ (b'/' ∷ sb ∷ sx))) cb _ refl
      (trim_path cb cx (b'/' ∷ s) sb sx v.1 v.3)
    ∙ ap of_parts (
        split_first b'/' (cb ∷ cx) (s ++ (b'/' ∷ sb ∷ sx)) (Segment-Lacks (cb ∷ cx) v.1)
        ∙ ap (◌∷◌ (cb ∷ cx)) (split-append b'/' s (sb ∷ sx) (Segment-Lacks (sb ∷ sx) v.3)))
    ∙ (elim (List-cases (split b'/' s)) [
      | inl e ↦ absurd (split-ne b'/' s e)
      | inr (x, xs, e) ↦
          rw (e, of_parts-append (cb ∷ cx) x xs (sb ∷ sx))
            (let back : join b'/' (x ∷ xs) ≡ s = rw e at (join-split b'/' s) in rw back)
    ])
