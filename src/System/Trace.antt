-- ===== src/System/Trace.antt =====
-- What holds of every database that the handlers and the worker can reach together.
use personal_knowledge_os.Prelude.{◌≡◌, List, [], ◌∷◌, All-imp}
use personal_knowledge_os.Db.Tables.{EvidenceRow, MemoryRow, empty_db}
use personal_knowledge_os.Db.Action.{Env, World}
use personal_knowledge_os.Storage.Memories.Bodies.{add_evidence}
use personal_knowledge_os.Storage.Memories.Keys.{UniqueIds}
use personal_knowledge_os.Storage.Memories.Grounding.{
  IsGrounded, RestsOn, CitesSource, approve_memory-IsGrounded, create_memory_candidate-IsGrounded,
  add_evidence-Any,
}
use personal_knowledge_os.Storage.Operations.Trace.{
  Grounded, Unique, Grounded-updated, Unique-updated, create_memory_candidate-UniqueIds,
  approve_memory-UniqueIds, perform-IsGrounded, perform-UniqueIds,
}
use personal_knowledge_os.Extraction.Process.Keeps.{IsKept}
use personal_knowledge_os.Worker.Keeps.{round-Keeps}
use personal_knowledge_os.Storage.Graph.Keeps.{change-Keeps}
use personal_knowledge_os.Retrieval.Keeps.{search-Keeps}
use personal_knowledge_os.System.{Turn, request, graph, retrieve, background, take_turn, take_turns}

Grounded-IsKept : IsKept Grounded (λ input. Unit) Unit
Grounded-IsKept = record {
  approves = λ may. approve_memory-IsGrounded;
  creates = λ owner_id input allowed. create_memory_candidate-IsGrounded owner_id input;
  cites_more = λ ss es ms memory_id source_id.
      All-imp (λ (m : MemoryRow). RestsOn ss es m.id m.owner_id)
        (λ (m : MemoryRow). RestsOn ss (add_evidence memory_id source_id es) m.id m.owner_id)
        (λ m.
          add_evidence-Any (λ (e : EvidenceRow). (e.memory_id ≡ m.id) × CitesSource ss m.owner_id e)
            memory_id source_id es)
        ms;
  updates = Grounded-updated;
}

Unique-IsKept : IsKept Unique (λ input. Unit) Unit
Unique-IsKept = record {
  approves = λ may. approve_memory-UniqueIds;
  creates = λ owner_id input allowed. create_memory_candidate-UniqueIds owner_id input;
  cites_more = λ ss es ms memory_id source_id h. h;
  updates = Unique-updated;
}

take_turn-Invariant :
    (t : Turn) (env : Env) (w : World)
    → IsGrounded w.db × UniqueIds w.db.memories
    → IsGrounded (take_turn t env w).db × UniqueIds (take_turn t env w).db.memories
unfolding take_turn
take_turn-Invariant (request op) env w (g, u) =
    (perform-IsGrounded op env w g, perform-UniqueIds op env w u)
take_turn-Invariant (graph c) env w (g, u) =
    (change-Keeps Grounded c env w g, change-Keeps Unique c env w u)
take_turn-Invariant (retrieve searcher state query) env w (g, u) = (
  search-Keeps Grounded searcher state query env w g,
  search-Keeps Unique searcher state query env w u,
)
take_turn-Invariant (background state) env w (g, u) =
    (round-Keeps Grounded-IsKept state env w g, round-Keeps Unique-IsKept state env w u)

take_turns-Invariant :
    (ts : List Turn) (env : Env) (w : World)
    → IsGrounded w.db × UniqueIds w.db.memories
    → IsGrounded (take_turns ts env w).db × UniqueIds (take_turns ts env w).db.memories
unfolding take_turns
take_turns-Invariant [] env w h = h
take_turns-Invariant (t ∷ ts) env w h =
    take_turns-Invariant ts env (take_turn t env w) (take_turn-Invariant t env w h)

-- From an empty database on, whatever the handlers ask of the storage, of the graph and of the search, and
-- however the rounds of the worker come between, with any answers of the language model and of the embedding provider and wherever the
-- database fails: every memory has evidence that is a stored source of its owner, and no two memories have
-- the same id.
pub take_turns-IsGrounded :
    (ts : List Turn) (env : Env)
    → let db = (take_turns ts env (record { db = empty_db; tick = 0 })).db in
      IsGrounded db × UniqueIds db.memories
take_turns-IsGrounded ts env =
    take_turns-Invariant ts env (record { db = empty_db; tick = 0 }) (tt, tt)
