-- ===== src/Storage/Memories/Grounding.antt =====
-- Every memory rests on a stored source of its owner, and no method takes that away.
use personal_knowledge_os.Prelude.{
  ◌<◌, ◌≡◌, refl, sym, inl, inr, true, false, ◌&&◌, List, [], ◌∷◌, Option, none, some, arith, All,
  Any, All-imp, All-append, Any-imp, Any-append_left, Any-append_right, Bool-cases, is_empty,
  length, ◌==◌, any,
}
use personal_knowledge_os.Values.{Uuid, DateTime}
use personal_knowledge_os.Db.Tables.{Db, SourceRow, MemoryRow, EvidenceRow}
use personal_knowledge_os.Db.Sql.{All-update_where, count_where-Any, elem, elem_lem}
use personal_knowledge_os.Db.Tx.{Context}
use personal_knowledge_os.Db.Action.{Env, World, context}
use personal_knowledge_os.Storage.Rows.{add_job, add_audit}
use personal_knowledge_os.Storage.Memories.{approve_memory, create_memory_candidate}
use personal_knowledge_os.Storage.Memories.Bodies.{
  MemoryCandidateInput, is_memory, is_active_memory, candidate_row, superseded_row, activated_row,
  add_evidence, add_evidence_all, count_sources,
}
use personal_knowledge_os.Storage.Memories.Effects.{
  approved_memories, approve_memory_tx_lem, create_memory_candidate_tx_lem,
}
use personal_knowledge_os.Storage.Memories.Reads.{approve_memory_lem, create_memory_candidate_lem}

-- The evidence row cites a stored source of this owner.
abbrev pub CitesSource : List SourceRow → Uuid → EvidenceRow → Type 0
CitesSource sources owner_id e =
    Any (λ (s : SourceRow). (s.id ≡ e.source_id) × (s.owner_id ≡ owner_id)) sources

-- An evidence row of the memory cites a stored source of its owner.
abbrev pub RestsOn : List SourceRow → List EvidenceRow → Uuid → Uuid → Type 0
RestsOn sources evidence id owner_id =
    Any (λ (e : EvidenceRow). (e.memory_id ≡ id) × CitesSource sources owner_id e) evidence

abbrev pub IsGrounded : Db → Type 0
IsGrounded db =
    All (λ (m : MemoryRow). RestsOn db.sources db.memory_evidence m.id m.owner_id) db.memories

-- Evidence is only added.
pub add_evidence-Any :
    (P : EvidenceRow → Type 0) (memory_id source_id : Uuid) (rows : List EvidenceRow)
    → Any P rows
    → Any P (add_evidence memory_id source_id rows)
unfolding add_evidence
add_evidence-Any P memory_id source_id rows h =
    elim (Bool-cases
      (any (λ (e : EvidenceRow). e.memory_id == memory_id && e.source_id == source_id) rows)) [
        | inl there ↦ rw there h
        | inr new ↦ rw new (Any-append_left P rows _ h)
      ]

add_evidence_all-Any :
    (P : EvidenceRow → Type 0) (memory_id : Uuid) (sources : List Uuid) (rows : List EvidenceRow)
    → Any P rows
    → Any P (add_evidence_all memory_id sources rows)
unfolding add_evidence_all
add_evidence_all-Any P memory_id [] rows h = h
add_evidence_all-Any P memory_id (s ∷ ss) rows h =
    add_evidence_all-Any P memory_id ss (add_evidence memory_id s rows)
      (add_evidence-Any P memory_id s rows h)

any-Any :
    (memory_id source_id : Uuid) (rows : List EvidenceRow)
    → any (λ (e : EvidenceRow). e.memory_id == memory_id && e.source_id == source_id) rows ≡ true
    → Any (λ (e : EvidenceRow). (e.memory_id ≡ memory_id) × (e.source_id ≡ source_id)) rows
any-Any memory_id source_id [] h = cc
any-Any memory_id source_id (e ∷ es) h =
    elim (Bool-cases (e.memory_id == memory_id && e.source_id == source_id)) [
      | inl here ↦ inl (ground arith)
      | inr later ↦ inr (any-Any memory_id source_id es (ground arith))
    ]

-- The evidence that is added is there.
add_evidence_self :
    (memory_id source_id : Uuid) (rows : List EvidenceRow)
    → Any
        (λ (e : EvidenceRow). (e.memory_id ≡ memory_id) × (e.source_id ≡ source_id))
        (add_evidence memory_id source_id rows)
unfolding add_evidence
add_evidence_self memory_id source_id rows =
    elim (Bool-cases
      (any (λ (e : EvidenceRow). e.memory_id == memory_id && e.source_id == source_id) rows)) [
        | inl there ↦ rw there (any-Any memory_id source_id rows there)
        | inr new ↦ rw new (Any-append_right _ rows _ (inl (refl, refl)))
      ]

add_evidence_all_self :
    (memory_id : Uuid) (sources : List Uuid) (rows : List EvidenceRow) (source_id : Uuid)
    → Any (λ (s : Uuid). s ≡ source_id) sources
    → Any
        (λ (e : EvidenceRow). (e.memory_id ≡ memory_id) × (e.source_id ≡ source_id))
        (add_evidence_all memory_id sources rows)
unfolding add_evidence_all
add_evidence_all_self memory_id [] rows source_id h = absurd h
add_evidence_all_self memory_id (s ∷ ss) rows source_id (inl e) = rw (← e) (
    add_evidence_all-Any _ memory_id ss (add_evidence memory_id s rows)
      (add_evidence_self memory_id s rows))
add_evidence_all_self memory_id (s ∷ ss) rows source_id (inr h) =
    add_evidence_all_self memory_id ss (add_evidence memory_id s rows) source_id h

-- Where the sources were counted, one of them is cited.
sources_cited :
    (owner_id memory_id : Uuid) (ids : List Uuid) (evidence : List EvidenceRow)
    (sources : List SourceRow)
    → Any (λ (s : SourceRow). (s.owner_id == owner_id && elem s.id ids) ≡ true) sources
    → RestsOn sources (add_evidence_all memory_id ids evidence) memory_id owner_id
sources_cited owner_id memory_id ids evidence [] h = absurd h
sources_cited owner_id memory_id ids evidence (s ∷ ss) (inl h) =
    Any-imp (λ (e : EvidenceRow). (e.memory_id ≡ memory_id) × (e.source_id ≡ s.id))
      (λ (e : EvidenceRow). (e.memory_id ≡ memory_id) × CitesSource (s ∷ ss) owner_id e)
      (λ e both. (both.0, inl (sym both.1, ground arith))) (add_evidence_all memory_id ids evidence)
      (add_evidence_all_self memory_id ids evidence s.id (elem_lem s.id ids (ground arith)))
sources_cited owner_id memory_id ids evidence (s ∷ ss) (inr h) =
    Any-imp (λ (e : EvidenceRow). (e.memory_id ≡ memory_id) × CitesSource ss owner_id e)
      (λ (e : EvidenceRow). (e.memory_id ≡ memory_id) × CitesSource (s ∷ ss) owner_id e)
      (λ e both. (both.0, inr both.1)) (add_evidence_all memory_id ids evidence)
      (sources_cited owner_id memory_id ids evidence ss h)

activated_kept :
    (now : DateTime) (supersedes_id : Option Uuid) (r : MemoryRow)
    → ((activated_row now supersedes_id r).id ≡ r.id)
      × ((activated_row now supersedes_id r).owner_id ≡ r.owner_id)
unfolding activated_row
activated_kept now supersedes_id r = (refl, refl)

superseded_kept :
    (now : DateTime) (r : MemoryRow)
    → ((superseded_row now r).id ≡ r.id) × ((superseded_row now r).owner_id ≡ r.owner_id)
unfolding superseded_row
superseded_kept now r = (refl, refl)

-- A property of rows that reads only the id and the owner survives an approval.
approved-All :
    (P : Uuid → Uuid → Type 0) (cx : Context) (owner_id id : Uuid) (supersedes_id : Option Uuid)
    (ms : List MemoryRow)
    → All (λ (m : MemoryRow). P m.id m.owner_id) ms
    → All (λ (m : MemoryRow). P m.id m.owner_id) (approved_memories cx owner_id id supersedes_id ms)
unfolding activated_row superseded_row
approved-All P cx owner_id id none ms h =
    All-update_where (λ (m : MemoryRow). P m.id m.owner_id) (is_memory owner_id id)
      (activated_row cx.now none) (λ r hit k. k) ms h
approved-All P cx owner_id id (some previous) ms h =
    All-update_where (λ (m : MemoryRow). P m.id m.owner_id) (is_memory owner_id id)
      (activated_row cx.now (some previous)) (λ r hit k. k) _
      (All-update_where (λ (m : MemoryRow). P m.id m.owner_id) (is_active_memory owner_id previous)
        (superseded_row cx.now) (λ r hit k. k) ms h)

-- If every memory rests on a stored source of its owner, it still does after an approval, however the
-- call ends.
pub approve_memory-IsGrounded :
    (owner_id id : Uuid) (supersedes_id : Option Uuid) (env : Env) (w : World)
    → IsGrounded w.db
    → IsGrounded (approve_memory owner_id id supersedes_id env w).1.db
unfolding add_job add_audit
approve_memory-IsGrounded owner_id id supersedes_id env w g =
    elim (approve_memory_lem owner_id id supersedes_id env w) [
      | inl same ↦ rw same g
      | inr body ↦
          let (was, one, made) =
            approve_memory_tx_lem (context env w.tick) owner_id id supersedes_id w.db body in
          rw made (
            approved-All (RestsOn w.db.sources w.db.memory_evidence) (context env w.tick) owner_id
              id supersedes_id w.db.memories g)
    ]

-- If every memory rests on a stored source of its owner, every memory still does after a creation, the new
-- one included, however the call ends.
pub create_memory_candidate-IsGrounded :
    (owner_id : Uuid) (input : MemoryCandidateInput) (env : Env) (w : World)
    → IsGrounded w.db
    → IsGrounded (create_memory_candidate owner_id input env w).1.db
unfolding add_audit candidate_row count_sources
create_memory_candidate-IsGrounded owner_id input env w g =
    elim (create_memory_candidate_lem owner_id input env w) [
      | inl same ↦ rw same g
      | inr (given, id, body) ↦
          let (known, unused, _, made) =
            create_memory_candidate_tx_lem (context env w.tick) owner_id input w.db body in
          rw made (
            All-append (λ (m : MemoryRow). RestsOn w.db.sources evidence m.id m.owner_id)
              w.db.memories _
              (All-imp
                (λ (m : MemoryRow). RestsOn w.db.sources w.db.memory_evidence m.id m.owner_id)
                (λ (m : MemoryRow). RestsOn w.db.sources evidence m.id m.owner_id)
                (λ m rests. add_evidence_all-Any _ new input.evidence w.db.memory_evidence rests)
                w.db.memories g)
              (
                sources_cited owner_id new input.evidence w.db.memory_evidence w.db.sources (
                    count_where-Any
                      (λ (s : SourceRow). s.owner_id == owner_id && elem s.id input.evidence)
                      w.db.sources (rw known (nonempty input.evidence given))),
                tt,
              ))
    ]
  where
    new : Uuid
    new = env.fresh w.tick 0

    evidence : List EvidenceRow
    evidence = add_evidence_all new input.evidence w.db.memory_evidence

    nonempty : (ids : List Uuid) → is_empty ids ≡ false → 0 < length ids
    nonempty [] h = cc
    nonempty (x ∷ xs) h = omega arith
