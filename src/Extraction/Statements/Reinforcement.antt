-- ===== src/Extraction/Statements/Reinforcement.antt =====
-- A source reinforces a memory once.
use personal_knowledge_os.Prelude.{
  ℕ, ◌≡◌, refl, sym, subst, inl, inr, Bool, true, false, List, [], ◌∷◌, ◌++◌, arith, any,
  Bool-cases, ◌==◌, ◌&&◌,
}
use personal_knowledge_os.Values.{Uuid}
use personal_knowledge_os.AppError.{Result, ok}
use personal_knowledge_os.Db.Tables.{Db, EvidenceRow}
use personal_knowledge_os.Db.Action.{
  Env, World, transaction, transaction_rule, transaction_alive, bind_succeeds,
}
use personal_knowledge_os.Db.Keeps.{Keeps}
use personal_knowledge_os.Storage.Memories.Bodies.{add_evidence, is_active_memory}
use personal_knowledge_os.Storage.Operations.Memories.{update_memories-Keeps}
use personal_knowledge_os.Extraction.Statements.{
  cites, insert_evidence_tx, reinforced_row, reinforce_tx, count_recurrence,
  reinforce_existing_memory,
}

any-append_last :
    (p : EvidenceRow → Bool) (e : EvidenceRow) (rows : List EvidenceRow)
    → p e ≡ true
    → any p (rows ++ e ∷ []) ≡ true
any-append_last p e [] h = ground arith
any-append_last p e (r ∷ rows) h = ground (arith, any-append_last p e rows h)

add_evidence-cites :
    (memory_id source_id : Uuid) (rows : List EvidenceRow)
    → cites memory_id source_id (add_evidence memory_id source_id rows) ≡ true
unfolding cites add_evidence
add_evidence-cites memory_id source_id rows =
    elim (Bool-cases
      (any (λ (e : EvidenceRow). e.memory_id == memory_id && e.source_id == source_id) rows)) [
        | inl there ↦ rw there there
        | inr new ↦ rw new (
            any-append_last
              (λ (e : EvidenceRow). e.memory_id == memory_id && e.source_id == source_id)
              (record { memory_id = memory_id; source_id = source_id }) rows (ground arith))
      ]

count_recurrence-Keeps :
    (owner_id memory_id source_id : Uuid) (counted : Bool)
    → Keeps
        (λ db. cites memory_id source_id db.memory_evidence ≡ true)
        (count_recurrence owner_id memory_id counted)
unfolding count_recurrence reinforce_tx reinforced_row
count_recurrence-Keeps owner_id memory_id source_id true =
    update_memories-Keeps (λ ss es ms. cites memory_id source_id es ≡ true)
      (λ ss es ms p f same h. h) (λ cx. is_active_memory owner_id memory_id)
      (λ cx. reinforced_row cx.now)
      (λ cx r. record {
        same_id = refl;
        same_owner = refl;
        same_type = refl;
        same_statement = refl;
        same_status = refl;
        same_confidence = refl;
        same_importance = refl;
      })
count_recurrence-Keeps owner_id memory_id source_id false = λ env w h. h

-- the evidence, once its statement went through
reinforce-cites :
    (owner_id memory_id source_id : Uuid) (env : Env) (w : World)
    → env.fails w.tick ≡ false
    → cites memory_id source_id
        (reinforce_existing_memory owner_id memory_id source_id env w).1.db.memory_evidence
      ≡ true
unfolding reinforce_existing_memory insert_evidence_tx
reinforce-cites owner_id memory_id source_id env w alive =
    subst
      (λ (s : Result (Unit {0}) × World). cites memory_id source_id s.1.db.memory_evidence ≡ true)
      (sym (
        bind_succeeds (transaction (λ cx. insert_evidence_tx memory_id source_id))
          (λ inserted. count_recurrence owner_id memory_id (inserted == 1)) env w
          (transaction_alive (λ cx. insert_evidence_tx memory_id source_id) env w alive)))
      (count_recurrence-Keeps owner_id memory_id source_id _ env _
        (add_evidence-cites memory_id source_id w.db.memory_evidence))

insert_again :
    (memory_id source_id : Uuid) (db : Db) {n : ℕ} {db' : Db}
    → cites memory_id source_id db.memory_evidence ≡ true
    → insert_evidence_tx memory_id source_id db ≡ ok (n, db')
    → (n ≡ 0) × (db' ≡ db)
unfolding insert_evidence_tx cites add_evidence
insert_again memory_id source_id db there h = ground arith

reinforce_again :
    (owner_id memory_id source_id : Uuid) (env : Env) (w : World)
    → cites memory_id source_id w.db.memory_evidence ≡ true
    → (reinforce_existing_memory owner_id memory_id source_id env w).1.db ≡ w.db
unfolding reinforce_existing_memory count_recurrence
reinforce_again owner_id memory_id source_id env w there =
    transaction_rule (λ r. r.1.db ≡ w.db) (λ cx. insert_evidence_tx memory_id source_id)
      (λ inserted. count_recurrence owner_id memory_id (inserted == 1)) env w (λ e. refl)
      (λ n db' body.
        let (none_new, same) = insert_again memory_id source_id w.db there body in
        rw (none_new, same) refl)

-- Once the evidence of a source for a memory has been inserted, whether or not its recurrence was counted
-- afterwards, reinforcing the memory by that source again changes no table, as long as the evidence is
-- there: not twice counted, and not counted by a retry if the count had failed.
pub reinforce_once :
    (owner_id memory_id source_id : Uuid) (env env' : Env) (w w' : World)
    → env.fails w.tick ≡ false
    → w'.db.memory_evidence
      ≡ (reinforce_existing_memory owner_id memory_id source_id env w).1.db.memory_evidence
    → (reinforce_existing_memory owner_id memory_id source_id env' w').1.db ≡ w'.db
reinforce_once owner_id memory_id source_id env env' w w' alive evidence =
    reinforce_again owner_id memory_id source_id env' w'
      (rw evidence (reinforce-cites owner_id memory_id source_id env w alive))
