-- ===== src/System.antt =====
-- The two tasks of the process: the methods that the handlers call, searches, and the rounds of the worker.
-- They take turns; a turn is a whole method, a whole search or a whole round.
pub mod Trace
pub mod Once
use personal_knowledge_os.Prelude.{List, [], ◌∷◌}
use personal_knowledge_os.Db.Action.{Env, World}
use personal_knowledge_os.Storage.Operations.{Operation, perform}
use personal_knowledge_os.Extraction.Process.{AppState}
use personal_knowledge_os.Models.{SearchRequest}
use personal_knowledge_os.Storage.Graph.Invariant.{GraphChange, change}
use personal_knowledge_os.Retrieval.{Searcher, search}
use personal_knowledge_os.Worker.{round}

pub data Turn : Type 0 where
  request : Operation → Turn
  graph : GraphChange → Turn
  retrieve : Searcher → AppState → SearchRequest → Turn
  background : AppState → Turn

-- The world after a turn, however it ends.
unfoldable pub take_turn : Turn → Env → World → World
take_turn (request op) env w = perform op env w
take_turn (graph c) env w = change c env w
take_turn (retrieve searcher state query) env w = (search searcher state query env w).1
take_turn (background state) env w = (round state env w).1

unfoldable pub take_turns : List Turn → Env → World → World
unfolding take_turn
take_turns [] env w = w
take_turns (t ∷ ts) env w = take_turns ts env (take_turn t env w)
