-- ===== src/Storage/Memories/Lifecycle.antt =====
-- The lifecycle of a memory: what may become of each row, and that every method keeps to it.
use personal_knowledge_os.Prelude.{
  ◌≡◌, refl, ◌⊎◌, inl, inr, Bool, true, List, [], ◌∷◌, ◌++◌, Option, none, some, arith, All,
  Bool-cases, if◌then◌else◌,
}
use personal_knowledge_os.Values.{Uuid, DateTime}
use personal_knowledge_os.Db.Tables.{
  MemoryRow, MemoryStatus, candidate, active, superseded, rejected,
}
use personal_knowledge_os.Db.Sql.{update_where}
use personal_knowledge_os.Db.Tx.{Context}
use personal_knowledge_os.Db.Action.{Env, World, context}
use personal_knowledge_os.Storage.Rows.{add_job, add_audit}
use personal_knowledge_os.Storage.Memories.{approve_memory, create_memory_candidate}
use personal_knowledge_os.Storage.Memories.Bodies.{
  MemoryCandidateInput, is_memory, is_active_memory, is_active, candidate_row, superseded_row,
  activated_row,
}
use personal_knowledge_os.Storage.Memories.Effects.{
  approved_memories, approve_memory_tx_lem, create_memory_candidate_tx_lem,
}
use personal_knowledge_os.Storage.Memories.Keys.{UniqueIds, status_of_memory-All}
use personal_knowledge_os.Storage.Memories.Reads.{approve_memory_lem, create_memory_candidate_lem}

-- The edges of the state machine.
pub data StatusMove : MemoryStatus → MemoryStatus → Type 0 where
  stay : {s : MemoryStatus} → StatusMove s s
  approve : StatusMove candidate active
  reject : StatusMove candidate rejected
  supersede : StatusMove active superseded

-- What a method may do to a row: move its status along an edge; who it is and what it says stays.
pub record RowStep (r r' : MemoryRow) : Type 0 where
  pub same_id : r'.id ≡ r.id
  pub same_owner : r'.owner_id ≡ r.owner_id
  pub same_type : r'.memory_type ≡ r.memory_type
  pub same_statement : r'.statement ≡ r.statement
  pub same_creation : r'.created_at ≡ r.created_at
  pub move : StatusMove r.status r'.status

-- Every row stays, each by one step, and what is new is a candidate.
abbrev pub Evolves : List MemoryRow → List MemoryRow → Type 0
Evolves [] new = All (λ (r : MemoryRow). r.status ≡ candidate) new
Evolves (r ∷ rs) [] = ⊥
Evolves (r ∷ rs) (r' ∷ rs') = RowStep r r' × Evolves rs rs'

RowStep-refl : (r : MemoryRow) → RowStep r r
RowStep-refl r = record {
  same_id = refl;
  same_owner = refl;
  same_type = refl;
  same_statement = refl;
  same_creation = refl;
  move = stay;
}

pub Evolves-refl : (ms : List MemoryRow) → Evolves ms ms
Evolves-refl [] = tt
Evolves-refl (r ∷ ms) = (RowStep-refl r, Evolves-refl ms)

pub insert-Evolves :
    (row : MemoryRow) (ms : List MemoryRow) → row.status ≡ candidate → Evolves ms (ms ++ row ∷ [])
insert-Evolves row [] h = (h, tt)
insert-Evolves row (r ∷ ms) h = (RowStep-refl r, insert-Evolves row ms h)

pub update_where-Evolves :
    (p : MemoryRow → Bool) (f : MemoryRow → MemoryRow)
    → ((r : MemoryRow) → p r ≡ true → RowStep r (f r))
    → (ms : List MemoryRow) → Evolves ms (update_where p f ms)
unfolding update_where
update_where-Evolves p f step [] = tt
update_where-Evolves p f step (r ∷ ms) = elim (Bool-cases (p r)) [
  | inl hit ↦ rw hit (step r hit, update_where-Evolves p f step ms)
  | inr miss ↦ rw miss (RowStep-refl r, update_where-Evolves p f step ms)
]

activated-RowStep :
    (now : DateTime) (supersedes_id : Option Uuid) (r : MemoryRow)
    → r.status ≡ candidate
    → RowStep r (activated_row now supersedes_id r)
unfolding activated_row
activated-RowStep now supersedes_id r h = record {
  same_id = refl;
  same_owner = refl;
  same_type = refl;
  same_statement = refl;
  same_creation = refl;
  move = rw h approve;
}

superseded-RowStep :
    (now : DateTime) (r : MemoryRow) → r.status ≡ active → RowStep r (superseded_row now r)
unfolding superseded_row
superseded-RowStep now r h = record {
  same_id = refl;
  same_owner = refl;
  same_type = refl;
  same_statement = refl;
  same_creation = refl;
  move = rw h supersede;
}

is_active-eq : (s : MemoryStatus) → is_active s ≡ true → s ≡ active
is_active-eq active h = refl
is_active-eq _ h = cc

is_active_memory_lem :
    (owner_id id : Uuid) (r : MemoryRow)
    → is_active_memory owner_id id r ≡ true
    → (is_memory owner_id id r ≡ true) × (r.status ≡ active)
unfolding is_active_memory
is_active_memory_lem owner_id id r h = ground (arith, is_active-eq r.status)

is_memory-superseded :
    (owner_id id : Uuid) (now : DateTime) (r : MemoryRow)
    → is_memory owner_id id (superseded_row now r) ≡ true
    → is_memory owner_id id r ≡ true
unfolding is_memory superseded_row
is_memory-superseded owner_id id now r h = h

module _ (now : DateTime) (owner_id id previous : Uuid) (supersedes_id : Option Uuid) where
  -- The two updates of an approval, on one row: the first hits active rows, the second a candidate.
  both-RowStep :
      (r : MemoryRow)
      → (is_memory owner_id id r ≡ true → r.status ≡ candidate)
      → let s = if is_active_memory owner_id previous r then superseded_row now r else r in
        RowStep r (if is_memory owner_id id s then activated_row now supersedes_id s else s)
  both-RowStep r h = elim (Bool-cases (is_active_memory owner_id previous r)) [
    | inl old ↦
        let (_, was) = is_active_memory_lem owner_id previous r old in
        rw old (elim (Bool-cases (is_memory owner_id id (superseded_row now r))) [
          | inl hit ↦ cc (h (is_memory-superseded owner_id id now r hit))
          | inr miss ↦ rw miss (superseded-RowStep now r was)
        ])
    | inr other ↦ rw other (elim (Bool-cases (is_memory owner_id id r)) [
      | inl hit ↦ rw hit (activated-RowStep now supersedes_id r (h hit))
      | inr miss ↦ rw miss (RowStep-refl r)
    ])
  ]

  both-Evolves :
      (ms : List MemoryRow)
      → All (λ (r : MemoryRow). is_memory owner_id id r ≡ true → r.status ≡ candidate) ms
      → Evolves ms (
          update_where
            (is_memory owner_id id)
            (activated_row now supersedes_id)
            (update_where (is_active_memory owner_id previous) (superseded_row now) ms))
  unfolding update_where
  both-Evolves [] h = tt
  both-Evolves (r ∷ ms) h = (both-RowStep r h.0, both-Evolves ms h.1)

-- The update of an approval that supersedes nothing.
activate-Evolves :
    (now : DateTime) (owner_id id : Uuid) (supersedes_id : Option Uuid) (ms : List MemoryRow)
    → All (λ (r : MemoryRow). is_memory owner_id id r ≡ true → r.status ≡ candidate) ms
    → Evolves ms (update_where (is_memory owner_id id) (activated_row now supersedes_id) ms)
unfolding update_where
activate-Evolves now owner_id id supersedes_id [] h = tt
activate-Evolves now owner_id id supersedes_id (r ∷ ms) h =
    elim (Bool-cases (is_memory owner_id id r)) [
      | inl hit ↦ rw hit (
        activated-RowStep now supersedes_id r (h.0 hit),
        activate-Evolves now owner_id id supersedes_id ms h.1,
      )
      | inr miss ↦ rw miss (RowStep-refl r, activate-Evolves now owner_id id supersedes_id ms h.1)
    ]

approved-Evolves :
    (cx : Context) (owner_id id : Uuid) (supersedes_id : Option Uuid) (ms : List MemoryRow)
    → All (λ (r : MemoryRow). is_memory owner_id id r ≡ true → r.status ≡ candidate) ms
    → Evolves ms (approved_memories cx owner_id id supersedes_id ms)
approved-Evolves cx owner_id id none ms h = activate-Evolves cx.now owner_id id none ms h
approved-Evolves cx owner_id id (some previous) ms h =
    both-Evolves cx.now owner_id id previous (some previous) ms h

-- If no two memories have the same id, approving a memory, whether it succeeds or fails and wherever the
-- database fails, moves each memory along an edge of the lifecycle, and changes no statement, type, owner
-- or creation time.
pub approve_memory-Evolves :
    (owner_id id : Uuid) (supersedes_id : Option Uuid) (env : Env) (w : World)
    → UniqueIds w.db.memories
    → Evolves w.db.memories (approve_memory owner_id id supersedes_id env w).1.db.memories
unfolding add_job add_audit
approve_memory-Evolves owner_id id supersedes_id env w unique =
    elim (approve_memory_lem owner_id id supersedes_id env w) [
      | inl same ↦ rw same (Evolves-refl w.db.memories)
      | inr body ↦
          let (was, one, made) =
            approve_memory_tx_lem (context env w.tick) owner_id id supersedes_id w.db body in
          rw made (
            approved-Evolves (context env w.tick) owner_id id supersedes_id w.db.memories
              (status_of_memory-All owner_id id w.db.memories candidate unique was))
    ]

-- Creating a candidate, whether it succeeds or fails, loses no memory and changes none but along an edge of
-- the lifecycle, and what it adds are candidates.
pub create_memory_candidate-Evolves :
    (owner_id : Uuid) (input : MemoryCandidateInput) (env : Env) (w : World)
    → Evolves w.db.memories (create_memory_candidate owner_id input env w).1.db.memories
unfolding add_audit candidate_row
create_memory_candidate-Evolves owner_id input env w =
    elim (create_memory_candidate_lem owner_id input env w) [
      | inl same ↦ rw same (Evolves-refl w.db.memories)
      | inr (given, id, body) ↦
          let (known, unused, _, made) =
            create_memory_candidate_tx_lem (context env w.tick) owner_id input w.db body in
          rw made (
            insert-Evolves (candidate_row (env.now w.tick) (env.fresh w.tick 0) owner_id input)
              w.db.memories refl)
    ]

-- A memory that is superseded or rejected stays so, and no row is lost, from one set of rows to one
-- that it evolves to.
abbrev pub IsFinal : MemoryStatus → Type 0
IsFinal s = (s ≡ superseded) ⊎ (s ≡ rejected)

StatusMove-final : {s t : MemoryStatus} → StatusMove s t → IsFinal s → t ≡ s
StatusMove-final stay f = refl
StatusMove-final approve f = ground arith
StatusMove-final reject f = ground arith
StatusMove-final supersede f = ground arith
