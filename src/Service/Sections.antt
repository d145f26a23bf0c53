-- ===== src/Service/Sections.antt =====
-- headingKey and writeSections of internal/service/write_path.go, over a table of sections, the
-- transaction's. The calls of internal/repository/section.go that it makes are operations on the table;
-- which of them fail is a parameter, as are the vectors and the id that the database gives to a new row.
-- A section's times, hints and flags are left out, since no operation here reads them. The ordinals are
-- natural numbers, which is what the writers give.
pub mod Ids
pub mod Matched
pub mod Counted
pub mod Merged
pub mod Kept
use memory_system.Prelude.{
  ℕ, zero, suc, Text, text, text_eq, Bool, true, false, ◌||◌, Option, none, some, List, [], ◌∷◌,
  ◌++◌, leb, if◌then◌else◌, find, set, Result, err, ok, ◌>>=◌,
}
use memory_system.Models.Policy.{write_mode_replace, write_mode_append_only}

pub record Section (V : Type 0) : Type 0 where
  pub id : Text
  pub document_id : Text
  pub ordinal : ℕ
  pub heading : Option Text
  pub content : Text
  pub embedding : Option V

pub data SectionCall : Type 0 where
  deleting inserting updating : SectionCall

pub data SectionError : Type 0 where
  call_failed : SectionCall → SectionError
  already_exists : Text → SectionError

abbrev pub heading_key : Option Text → Text
heading_key none = 0 ∷ text "preamble"
heading_key (some h) = h

abbrev pub count_or_zero : Option ℕ → ℕ
count_or_zero none = 0
count_or_zero (some n) = n

-- the variables of the loop over the incoming sections, and the table
pub record Merge (V : Type 0) : Type 0 where
  pub consumed : List (Text × ℕ)
  pub updated : List (Text × Section V)
  pub inserts : List (Section V)
  pub next : ℕ
  pub table : List (Section V)

-- an empty batch makes no call
abbrev pub insert_fails {ℓ} : {A : Type ℓ} → (SectionCall → Bool) → List A → Bool
insert_fails fails [] = false
insert_fails fails (x ∷ xs) = fails inserting

module _ {V : Type 0} where
  -- byHeading[k]
  unfoldable pub group : Text → List (Section V) → List (Section V)
  unfolding text_eq
  group k [] = []
  group k (e ∷ es) =
      let rest = group k es in if text_eq (heading_key e.heading) k then e ∷ rest else rest

  -- grp[idx], where idx < len(grp)
  unfoldable pub at_index : ℕ → List (Section V) → Option (Section V)
  at_index n [] = none
  at_index zero (e ∷ es) = some e
  at_index (suc n) (e ∷ es) = at_index n es

  -- maxOrd + 1
  unfoldable pub next_ordinal : List (Section V) → ℕ
  next_ordinal [] = 0
  next_ordinal (e ∷ es) =
      let rest = next_ordinal es in if leb rest e.ordinal then suc e.ordinal else rest

  -- the rows of other documents
  unfoldable pub delete_by_document_id : Text → List (Section V) → List (Section V)
  unfolding text_eq
  delete_by_document_id doc [] = []
  delete_by_document_id doc (r ∷ t) =
      let rest = delete_by_document_id doc t in if text_eq r.document_id doc then rest else r ∷ rest

  abbrev pub stored : Bool → Section V → Section V
  stored embed s = record s { embedding = if embed then s.embedding else none }

  unfoldable pub update_section_content :
      Text → Section V → Bool → List (Section V) → List (Section V)
  unfolding text_eq
  update_section_content i s embed [] = []
  update_section_content i s embed (r ∷ t) =
      let rest = update_section_content i s embed t in
      (if text_eq r.id i
        then record r { content = s.content; embedding = if embed then s.embedding else none }
        else r)
      ∷ rest

  -- CreateBatch and CreateBatchNoEmbed, which give the new rows their ids
  unfoldable pub insert_rows :
      (List (Section V) → Text)
      → Bool
      → Text
      → List (Section V)
      → List (Section V)
      → List (Section V) × List (Section V)
  insert_rows new_id embed doc [] table = ([], table)
  insert_rows new_id embed doc (s ∷ secs) table =
      let row = record s { id = new_id table; document_id = doc } in
      let r = insert_rows new_id embed doc secs (table ++ (stored embed row ∷ [])) in
      (row ∷ r.0, r.1)

  abbrev pub appended : Section V → Merge V → Merge V
  appended s st = record st {
    inserts = st.inserts ++ (record s { ordinal = st.next } ∷ []);
    next = suc st.next;
  }

  abbrev pub replaced : Bool → Section V → Section V → Merge V → Merge V
  replaced embed s e st = record st {
    consumed =
        set (heading_key s.heading) (suc (count_or_zero (find (heading_key s.heading) st.consumed)))
          st.consumed;
    updated = set e.id (record e { content = s.content; embedding = s.embedding }) st.updated;
    table = update_section_content e.id s embed st.table;
  }

  -- the loop over the incoming sections
  unfoldable pub merge_loop :
      (SectionCall → Bool)
      → Bool
      → Bool
      → List (Section V)
      → List (Section V)
      → Merge V
      → Result SectionError (Merge V)
  unfolding find set group at_index update_section_content
  merge_loop fails append_only embed existing [] st = ok st
  merge_loop fails append_only embed existing (s ∷ incoming) st =
      elim (at_index (count_or_zero (find (heading_key s.heading) st.consumed))
        (group (heading_key s.heading) existing)) [
          | none ↦ merge_loop fails append_only embed existing incoming (appended s st)
          | some e ↦ elim append_only [
            | true ↦ err (already_exists (heading_key s.heading))
            | false ↦ elim (fails updating) [
              | true ↦ err (call_failed updating)
              | false ↦ merge_loop fails append_only embed existing incoming (replaced embed s e st)
            ]
          ]
        ]

  -- if u, ok := updatedByID[e.ID]
  abbrev pub updated_or : Option (Section V) → Section V → Section V
  updated_or none e = e
  updated_or (some u) e = u

  unfoldable pub final_sections : List (Text × Section V) → List (Section V) → List (Section V)
  unfolding find
  final_sections updated [] = []
  final_sections updated (e ∷ es) = updated_or (find e.id updated) e ∷ final_sections updated es

  -- the response's sections, and the table after; an error rolls the transaction back
  unfoldable pub write_sections :
      (SectionCall → Bool)
      → (List (Section V) → Text)
      → Text
      → Bool
      → List (Section V)
      → List (Section V)
      → Text
      → List (Section V)
      → Result SectionError (List (Section V) × List (Section V))
  unfolding text_eq delete_by_document_id insert_rows next_ordinal merge_loop final_sections
  write_sections fails new_id mode embed existing incoming doc table =
      if text_eq mode write_mode_replace || text_eq mode []
      then (if fails deleting
          then err (call_failed deleting)
          else if insert_fails fails incoming
          then err (call_failed inserting)
          else ok (insert_rows new_id embed doc incoming (delete_by_document_id doc table)))
      else (merge_loop fails (text_eq mode write_mode_append_only) embed existing incoming record {
        consumed = [];
        updated = [];
        inserts = [];
        next = next_ordinal existing;
        table = table;
      }
          >>= (λ st.
              if insert_fails fails st.inserts
              then err (call_failed inserting)
              else (let r = insert_rows new_id embed doc st.inserts st.table in
                  ok (final_sections st.updated existing ++ r.0, r.1))))
