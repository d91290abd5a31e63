-- ===== src/Tests/Memories.antt =====
-- The memory methods at concrete worlds.
use personal_knowledge_os.Prelude.{
  ℕ, ◌≡◌, refl, inl, inr, List, [], ◌∷◌, none, some, arith, all, select, true,
}
use personal_knowledge_os.Text.{codes}
use personal_knowledge_os.Values.{f32_0_8, f32_0_5, one_scaled, in_unit, le_f32}
use personal_knowledge_os.AppError.{err, bad_request}
use personal_knowledge_os.Db.Sql.{elem, update_where, count_where}
use personal_knowledge_os.Db.Action.{lost_connection}
use personal_knowledge_os.Storage.Memories.{approve_memory, create_memory_candidate, reject_memory}
use personal_knowledge_os.Storage.Memories.Bodies.{
  MemoryCandidateInput, is_candidate_memory, rejected_row, memory_check, interval_ok,
}
use personal_knowledge_os.Storage.Memories.Keys.{UniqueIds}
use personal_knowledge_os.Storage.Memories.Lifecycle.{
  Evolves, approve_memory-Evolves, create_memory_candidate-Evolves,
}
use personal_knowledge_os.Storage.Memories.Grounding.{
  IsGrounded, create_memory_candidate-IsGrounded,
}
use personal_knowledge_os.Storage.Memories.Rejection.{reject_memory_unaudited}
use personal_knowledge_os.Storage.Memories.Evidence.{
  create_memory_candidate_refuses, UniqueSources, HasRepeat,
}
use personal_knowledge_os.Storage.Operations.Lifecycle.{reject_memory-Evolves}
use personal_knowledge_os.Tests.Setup.{env_alive, env_lost, world_example, db_example}

abbrev input_example : List ℕ → MemoryCandidateInput
input_example evidence = record {
  memory_type = codes "fact";
  statement = codes "Uses Postgres";
  confidence = f32_0_8;
  importance = f32_0_5;
  valid_from = none;
  evidence = evidence;
}

ids_distinct : UniqueIds db_example.memories
ids_distinct = (((λ e. omega arith), tt), (tt, tt))

sources_distinct : UniqueSources db_example.sources
sources_distinct = (((λ e. omega arith), tt), (tt, tt))

grounded_example : IsGrounded db_example
grounded_example = (inl (refl, inl (refl, refl)), (inr (inl (refl, inr (inl (refl, refl)))), tt))

approve_memory-Evolves_example :
    Evolves db_example.memories
      (approve_memory 1 20 (some 21) env_alive world_example).1.db.memories
approve_memory-Evolves_example =
    approve_memory-Evolves 1 20 (some 21) env_alive world_example ids_distinct

create_memory_candidate-Evolves_example :
    Evolves db_example.memories
      (create_memory_candidate 1 (input_example (10 ∷ [])) env_alive world_example).1.db.memories
create_memory_candidate-Evolves_example =
    create_memory_candidate-Evolves 1 (input_example (10 ∷ [])) env_alive world_example

create_memory_candidate-IsGrounded_example :
    IsGrounded
      (create_memory_candidate 1 (input_example (10 ∷ 11 ∷ [])) env_alive world_example).1.db
create_memory_candidate-IsGrounded_example =
    create_memory_candidate-IsGrounded 1 (input_example (10 ∷ 11 ∷ [])) env_alive world_example
      grounded_example

repeats : HasRepeat (10 ∷ 10 ∷ [])
unfolding elem
repeats = inl refl

create_memory_candidate_refuses_example :
    create_memory_candidate 1 (input_example (10 ∷ 10 ∷ [])) env_alive world_example ≡ (
      err (bad_request (codes "one or more evidence sources do not exist")),
      record world_example { tick = 1 },
    )
create_memory_candidate_refuses_example =
    create_memory_candidate_refuses 1 (input_example (10 ∷ 10 ∷ [])) env_alive world_example
      sources_distinct refl (inr repeats)

one_candidate : count_where (is_candidate_memory 1 20) db_example.memories ≡ 1
unfolding count_where is_candidate_memory
one_candidate = refl

rejected_passes :
    all
      (λ r. memory_check (rejected_row 1000 r))
      (select (is_candidate_memory 1 20) db_example.memories)
    ≡ true
unfolding memory_check rejected_row is_candidate_memory interval_ok in_unit le_f32 codes f32_0_8
    f32_0_5 one_scaled
rejected_passes = refl

reject_memory_unaudited_example :
    let (r, w') = reject_memory 1 20 env_lost world_example in
    (r ≡ err lost_connection)
    × (w'.db.memories
        ≡ update_where (is_candidate_memory 1 20) (rejected_row 1000) db_example.memories)
    × (w'.db.audit_log ≡ [])
reject_memory_unaudited_example =
    reject_memory_unaudited 1 20 env_lost world_example one_candidate rejected_passes refl refl

reject_memory-Evolves_example :
    Evolves db_example.memories (reject_memory 1 20 env_alive world_example).1.db.memories
reject_memory-Evolves_example = reject_memory-Evolves 1 20 env_alive world_example
