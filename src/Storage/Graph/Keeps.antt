-- ===== src/Storage/Graph/Keeps.antt =====
-- The graph methods leave the sources, the evidence and the memories alone.
use personal_knowledge_os.Prelude.{◌≡◌, ◌==◌, not, List, arith}
use personal_knowledge_os.Text.{Text}
use personal_knowledge_os.Values.{Uuid, DateTime, Value}
use personal_knowledge_os.AppError.{ok}
use personal_knowledge_os.Models.{RelationRecord}
use personal_knowledge_os.Db.Tables.{Db, SourceRow, EvidenceRow, MemoryRow}
use personal_knowledge_os.Db.Tx.{Context}
use personal_knowledge_os.Db.Action.{transaction, ◌>>◌, ensure}
use personal_knowledge_os.Db.Keeps.{Keeps, transaction-Keeps, bind-Keeps, ensure-Keeps}
use personal_knowledge_os.Storage.Rows.{insert_audit, add_audit}
use personal_knowledge_os.Storage.Memories.Bodies.{interval_ok}
use personal_knowledge_os.Storage.Operations.Jobs.{OfMemories}
use personal_knowledge_os.Storage.Graph.{get_entity, create_entity, create_relation, close_relation}
use personal_knowledge_os.Storage.Graph.Entities.{create_entity_tx, insert_entity}
use personal_knowledge_os.Storage.Graph.Relations.{
  RelationInput, create_relation_tx, insert_relation, close_relation_tx,
}
use personal_knowledge_os.Storage.Graph.Invariant.{
  GraphChange, add_entity, relate, close, change, get_entity-Keeps,
}

-- The tables that a graph method does not write.
abbrev SameMemories : Db → Db → Type 0
SameMemories db db' =
    (db'.sources ≡ db.sources)
    × (db'.memory_evidence ≡ db.memory_evidence)
    × (db'.memories ≡ db.memories)

create_entity_tx-SameMemories :
    (cx : Context) (owner_id : Uuid) (entity_type canonical_name : Text) (attributes : Value)
    (aliases : List Text) (db : Db) (id : Uuid) (db' : Db)
    → create_entity_tx cx owner_id entity_type canonical_name attributes aliases db ≡ ok (id, db')
    → SameMemories db db'
unfolding create_entity_tx insert_entity insert_audit add_audit
create_entity_tx-SameMemories cx owner_id entity_type canonical_name attributes aliases db id db'
      h =
    (ground arith, ground arith, ground arith)

create_relation_tx-SameMemories :
    (cx : Context) (owner_id : Uuid) (input : RelationInput) (db : Db) (a : RelationRecord)
    (db' : Db)
    → create_relation_tx cx owner_id input db ≡ ok (a, db')
    → SameMemories db db'
unfolding create_relation_tx insert_relation insert_audit add_audit
create_relation_tx-SameMemories cx owner_id input db a db' h =
    (ground arith, ground arith, ground arith)

close_relation_tx-SameMemories :
    (cx : Context) (owner_id id : Uuid) (t : DateTime) (db : Db) (a : RelationRecord) (db' : Db)
    → close_relation_tx cx owner_id id t db ≡ ok (a, db')
    → SameMemories db db'
unfolding close_relation_tx insert_audit add_audit
close_relation_tx-SameMemories cx owner_id id t db a db' h =
    (ground arith, ground arith, ground arith)

module _ (Q : List SourceRow → List EvidenceRow → List MemoryRow → Type 0) where
  same-Keeps : (db db' : Db) → SameMemories db db' → OfMemories Q db → OfMemories Q db'
  same-Keeps db db' (ss, es, ms) h = rw (ss, es, ms) h

  pub change-Keeps : (c : GraphChange) → Keeps (OfMemories Q) (λ env w. (ok tt, change c env w))
  unfolding change create_entity create_relation close_relation
  change-Keeps (add_entity owner_id entity_type canonical_name attributes aliases) =
      bind-Keeps (OfMemories Q)
        (transaction
          (λ cx. create_entity_tx cx owner_id entity_type canonical_name attributes aliases))
        (get_entity owner_id)
        (transaction-Keeps (OfMemories Q)
          (λ cx. create_entity_tx cx owner_id entity_type canonical_name attributes aliases)
          (λ cx db id db' h e.
            same-Keeps db db'
              (create_entity_tx-SameMemories cx owner_id entity_type canonical_name attributes
                aliases db id db' e)
              h))
        (get_entity-Keeps (OfMemories Q) owner_id)
  change-Keeps (relate owner_id input) =
      bind-Keeps (OfMemories Q) (ensure (not (input.subject_entity_id == input.object_entity_id)) _)
        (λ _.
          ensure (interval_ok input.valid_from input.valid_until) _
          >> transaction (λ cx. create_relation_tx cx owner_id input))
        (ensure-Keeps (OfMemories Q) _ _)
        (λ _.
          bind-Keeps (OfMemories Q) (ensure (interval_ok input.valid_from input.valid_until) _)
            (λ _. transaction (λ cx. create_relation_tx cx owner_id input))
            (ensure-Keeps (OfMemories Q) _ _)
            (λ _.
              transaction-Keeps (OfMemories Q) (λ cx. create_relation_tx cx owner_id input)
                (λ cx db a db' h e.
                  same-Keeps db db' (create_relation_tx-SameMemories cx owner_id input db a db' e)
                    h)))
  change-Keeps (close owner_id id t) =
      transaction-Keeps (OfMemories Q) (λ cx. close_relation_tx cx owner_id id t)
        (λ cx db a db' h e.
          same-Keeps db db' (close_relation_tx-SameMemories cx owner_id id t db a db' e) h)
