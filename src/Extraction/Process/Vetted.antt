-- ===== src/Extraction/Process/Vetted.antt =====
-- Which memories the extraction leaves behind.
use personal_knowledge_os.Prelude.{
  ◌≡◌, refl, sym, ◌∙◌, ◌⊎◌, inl, inr, Bool, true, false, List, [], ◌∷◌, Option, none, some, arith,
  All, Any, All-imp, Any-imp, Bool-cases, find,
}
use personal_knowledge_os.Text.{trim, codes}
use personal_knowledge_os.Values.{Uuid, DateTime}
use personal_knowledge_os.AppError.{AppError, ok, not_found}
use personal_knowledge_os.Db.Tx.{bind_ok, query, ok_or, ◌>>=◌ as ◌then_by◌, pure as done}
use personal_knowledge_os.Models.{SourceRecord}
use personal_knowledge_os.Db.Tables.{Db, SourceRow, MemoryRow, candidate}
use personal_knowledge_os.Db.Action.{Env, World}
use personal_knowledge_os.Storage.Rows.{source_from_row}
use personal_knowledge_os.Storage.Sources.{get_source_tx, is_source}
use personal_knowledge_os.Storage.Memories.Bodies.{
  MemoryCandidateInput, superseded_row, activated_row, candidate_row,
}
use personal_knowledge_os.Storage.Operations.Memories.{IsSame}
use personal_knowledge_os.Extraction.Verifier.{ExtractedMemory}
use personal_knowledge_os.Extraction.Verifier.Sound.{IsAcceptable, validate_candidate_iff}
use personal_knowledge_os.Extraction.Process.{
  AppState, should_auto_promote, memory_input, process_source,
}
use personal_knowledge_os.Db.Libs.{Libs}
use personal_knowledge_os.Extraction.Process.Answers.{IsAnswered}
use personal_knowledge_os.Extraction.Process.Keeps.{process_source-Keeps}
use personal_knowledge_os.Extraction.Process.Singly.{All-IsKept}

find-Any :
    (p : SourceRow → Bool) (rs : List SourceRow) (r : SourceRow)
    → find p rs ≡ some r
    → Any (λ (s : SourceRow). (p s ≡ true) × (s ≡ r)) rs
find-Any p [] r h = cc
find-Any p (s ∷ rs) r h = elim (Bool-cases (p s)) [
  | inl hit ↦ inl (hit, ground arith)
  | inr miss ↦ inr (find-Any p rs r (ground arith))
]

-- The record of a stored source of the owner.
abbrev pub Stores : Db → Uuid → Uuid → SourceRecord → Type 0
Stores db owner_id source_id source =
    Any
      (λ (s : SourceRow).
        (s.owner_id ≡ owner_id) × (s.id ≡ source_id) × (source ≡ source_from_row s))
      db.sources

ok_or_lem :
    (o : Option SourceRow) (e : AppError) (db : Db) {r : SourceRow} {db' : Db}
    → ok_or o e db ≡ ok (r, db')
    → o ≡ some r
ok_or_lem none e db h = cc
ok_or_lem (some r) e db h = ground arith

get_source_tx-Stores :
    (owner_id id : Uuid) (db : Db) (source : SourceRecord) (db' : Db)
    → get_source_tx owner_id id db ≡ ok (source, db')
    → Stores db owner_id id source
unfolding get_source_tx is_source
get_source_tx-Stores owner_id id db source db' h =
    bind_ok (query (λ (d : Db). find (is_source owner_id id) d.sources))
      (λ row. ok_or row (not_found (codes "source")) then_by λ r. done (source_from_row r)) db h
      λ row db1 e1 k1.
        bind_ok (ok_or row (not_found (codes "source"))) (λ r. done (source_from_row r)) db1 k1
          λ r db2 e2 k2.
            let found : row ≡ some r = ok_or_lem row _ db1 e2 in
            let made : source ≡ source_from_row r = ground arith in
            Any-imp (λ (s : SourceRow). (is_source owner_id id s ≡ true) × (s ≡ r))
              (λ (s : SourceRow).
                (s.owner_id ≡ owner_id) × (s.id ≡ id) × (source ≡ source_from_row s))
              (λ s hit. let (is, same) = hit in (ground arith, ground arith, rw same made))
              db.sources (find-Any (is_source owner_id id) db.sources r (ground arith))

-- The memory has the type, the statement and the scores of an acceptable proposal, which the model
-- answered for the stored source.
pub record IsProposed (state : AppState) (libs : Libs) (db : Db) (source_id : Uuid) (r : MemoryRow)
    : Type 0 where
  pub source : SourceRecord
  pub proposal : ExtractedMemory
  pub stored : Stores db state.config.owner_id source_id source
  pub answered : IsAnswered state libs source proposal
  pub acceptable : IsAcceptable source proposal
  pub proposed_type : r.memory_type ≡ trim proposal.memory_type
  pub proposed_statement : r.statement ≡ trim proposal.statement
  pub proposed_confidence : r.confidence ≡ proposal.confidence
  pub proposed_importance : r.importance ≡ proposal.importance

-- The memory was there, with its type, its statement and its scores.
pub record WasSaid (old r : MemoryRow) : Type 0 where
  pub was_id : old.id ≡ r.id
  pub was_type : old.memory_type ≡ r.memory_type
  pub was_statement : old.statement ≡ r.statement
  pub was_confidence : old.confidence ≡ r.confidence
  pub was_importance : old.importance ≡ r.importance

abbrev pub WasThere : Db → MemoryRow → Type 0
WasThere db r = Any (λ (old : MemoryRow). WasSaid old r) db.memories

each_itself :
    (f : MemoryRow → MemoryRow → Type 0)
    → ((r : MemoryRow) → f r r)
    → (rs : List MemoryRow) → All (λ r. Any (λ old. f old r) rs) rs
each_itself f at [] = tt
each_itself f at (r ∷ rs) = (
  inl (at r),
  All-imp (λ s. Any (λ old. f old s) rs) (λ s. Any (λ old. f old s) (r ∷ rs)) (λ s h. inr h) rs
      (each_itself f at rs),
)

-- What an update leaves as it was.
record SaysSame (r s : MemoryRow) : Type 0 where
  ids : s.id ≡ r.id
  types : s.memory_type ≡ r.memory_type
  statements : s.statement ≡ r.statement
  confidences : s.confidence ≡ r.confidence
  importances : s.importance ≡ r.importance

moved-WasThere : (db : Db) (r s : MemoryRow) → SaysSame r s → WasThere db r → WasThere db s
moved-WasThere db r s e =
    Any-imp (λ (old : MemoryRow). WasSaid old r) (λ (old : MemoryRow). WasSaid old s)
      (λ old was. record {
        was_id = was.was_id ∙ sym e.ids;
        was_type = was.was_type ∙ sym e.types;
        was_statement = was.was_statement ∙ sym e.statements;
        was_confidence = was.was_confidence ∙ sym e.confidences;
        was_importance = was.was_importance ∙ sym e.importances;
      })
      db.memories

moved-IsProposed :
    (state : AppState) (libs : Libs) (db : Db) (source_id : Uuid) (r s : MemoryRow)
    → SaysSame r s
    → IsProposed state libs db source_id r
    → IsProposed state libs db source_id s
moved-IsProposed state libs db source_id r s e p = record {
  source = p.source;
  proposal = p.proposal;
  stored = p.stored;
  answered = p.answered;
  acceptable = p.acceptable;
  proposed_type = e.types ∙ p.proposed_type;
  proposed_statement = e.statements ∙ p.proposed_statement;
  proposed_confidence = e.confidences ∙ p.proposed_confidence;
  proposed_importance = e.importances ∙ p.proposed_importance;
}

-- Whatever the model answers, and wherever the extraction fails or panics: each memory after it was there
-- before, with its type, its statement and its scores, or has the trimmed type and statement and the
-- scores of a proposal that is acceptable for the stored source of the owner that is processed, and that
-- was read from an answer of the model to a request about that source.
pub process_source_vets :
    (state : AppState) (source_id : Uuid) (env : Env) (w : World)
    → All
        (λ r. WasThere w.db r ⊎ IsProposed state env.libs w.db source_id r)
        (process_source state source_id env w).1.db.memories
unfolding memory_input candidate_row activated_row superseded_row
process_source_vets state source_id env w =
    process_source-Keeps
      (All-IsKept R Allowed Unit
        (λ u now s r. moved r (activated_row now s r) (record {
          ids = refl;
          types = refl;
          statements = refl;
          confidences = refl;
          importances = refl;
        }))
        (λ u now r. moved r (superseded_row now r) (record {
          ids = refl;
          types = refl;
          statements = refl;
          confidences = refl;
          importances = refl;
        }))
        (λ now id owner_id input h. inr (h now id owner_id)) same)
      state source_id env w
      (λ source db' body libs m answered passed now id owner_id. record {
        source = source;
        proposal = m;
        stored = get_source_tx-Stores state.config.owner_id source_id w.db source db' body;
        answered = answered;
        acceptable = (validate_candidate_iff source m).0 passed;
        proposed_type = refl;
        proposed_statement = refl;
        proposed_confidence = refl;
        proposed_importance = refl;
      })
      (λ m good. tt)
      (All-imp (WasThere w.db) R (λ r h. inl h) w.db.memories
        (each_itself WasSaid
          (λ r. record {
            was_id = refl;
            was_type = refl;
            was_statement = refl;
            was_confidence = refl;
            was_importance = refl;
          })
          w.db.memories))
  where
    R : MemoryRow → Type 0
    R r = WasThere w.db r ⊎ IsProposed state env.libs w.db source_id r

    Allowed : MemoryCandidateInput → Type 0
    Allowed input =
        (now : DateTime) (id owner_id : Uuid)
        → IsProposed state env.libs w.db source_id (candidate_row now id owner_id input)

    moved : (r s : MemoryRow) → SaysSame r s → R r → R s
    moved r s e (inl h) = inl (moved-WasThere w.db r s e h)
    moved r s e (inr p) = inr (moved-IsProposed state env.libs w.db source_id r s e p)

    same : (r s : MemoryRow) → IsSame r s → R r → R s
    same r s e = moved r s (record {
      ids = e.same_id;
      types = e.same_type;
      statements = e.same_statement;
      confidences = e.same_confidence;
      importances = e.same_importance;
    })

-- The memory was there, in its status.
abbrev pub HadStatus : Db → MemoryRow → Type 0
HadStatus db r = Any (λ (old : MemoryRow). (old.id ≡ r.id) × (old.status ≡ r.status)) db.memories

no_promotion :
    (state : AppState) (m : ExtractedMemory)
    → state.config.memory_auto_promote_enabled ≡ false
    → should_auto_promote state.config m ≡ true
    → ⊥
unfolding should_auto_promote
no_promotion state m off h = ground arith

-- If automatic promotion is disabled: each memory after the extraction was there before, in the same
-- status, or is a candidate.
pub process_source_unpromoted :
    (state : AppState) (source_id : Uuid) (env : Env) (w : World)
    → state.config.memory_auto_promote_enabled ≡ false
    → All
        (λ r. HadStatus w.db r ⊎ (r.status ≡ candidate))
        (process_source state source_id env w).1.db.memories
unfolding candidate_row
process_source_unpromoted state source_id env w off =
    process_source-Keeps
      (All-IsKept R (λ input. Unit) ⊥ (λ no now s r h. absurd no) (λ no now r h. absurd no)
        (λ now id owner_id input u. inr refl) same)
      state source_id env w (λ source db' body libs m answered passed. tt)
      (λ m good. no_promotion state m off good)
      (All-imp (HadStatus w.db) R (λ r h. inl h) w.db.memories
        (each_itself (λ (old r : MemoryRow). (old.id ≡ r.id) × (old.status ≡ r.status))
          (λ r. (refl, refl)) w.db.memories))
  where
    R : MemoryRow → Type 0
    R r = HadStatus w.db r ⊎ (r.status ≡ candidate)

    same : (r s : MemoryRow) → IsSame r s → R r → R s
    same r s e (inl h) = inl (rw (e.same_id, e.same_status) h)
    same r s e (inr h) = inr (rw e.same_status h)
