-- ===== src/Storage/Memories/Keys.antt =====
-- The primary key of `memories`.
use personal_knowledge_os.Prelude.{
  ◌≡◌, ◌≢◌, sym, ◌∙◌, Bool, true, false, List, [], ◌∷◌, ◌++◌, some, arith, ◌==◌, All, All-imp, any,
  Bool-cases, inl, inr,
}
use personal_knowledge_os.Values.{Uuid}
use personal_knowledge_os.Db.Tables.{MemoryRow, MemoryStatus}
use personal_knowledge_os.Db.Sql.{update_where}
use personal_knowledge_os.Storage.Memories.Bodies.{is_memory, status_of_memory}

abbrev pub UniqueIds : List MemoryRow → Type 0
UniqueIds [] = Unit
UniqueIds (r ∷ rs) = All (λ (s : MemoryRow). s.id ≢ r.id) rs × UniqueIds rs

is_memory_id : (owner_id id : Uuid) (r : MemoryRow) → is_memory owner_id id r ≡ true → r.id ≡ id
unfolding is_memory
is_memory_id owner_id id r h = ground arith

-- The rows that a `WHERE owner_id=$1 AND id=$2` hits have the status that the SELECT found.
pub status_of_memory-All :
    (owner_id id : Uuid) (ms : List MemoryRow) (s : MemoryStatus)
    → UniqueIds ms
    → status_of_memory owner_id id ms ≡ some s
    → All (λ (r : MemoryRow). is_memory owner_id id r ≡ true → r.status ≡ s) ms
unfolding status_of_memory
status_of_memory-All owner_id id [] s u h = tt
status_of_memory-All owner_id id (r ∷ ms) s u h = elim (Bool-cases (is_memory owner_id id r)) [
  | inl hit ↦ (
    (λ _. ground arith),
    All-imp (λ (q : MemoryRow). q.id ≢ r.id)
        (λ (q : MemoryRow). is_memory owner_id id q ≡ true → q.status ≡ s)
        (λ q other same.
          absurd (other (is_memory_id owner_id id q same ∙ sym (is_memory_id owner_id id r hit))))
        ms u.0,
  )
  | inr miss ↦ ((λ hit. cc), status_of_memory-All owner_id id ms s u.1 (ground arith))
]

All-update_where :
    (k : Uuid) (p : MemoryRow → Bool) (f : MemoryRow → MemoryRow)
    → ((r : MemoryRow) → (f r).id ≡ r.id)
    → (ms : List MemoryRow) → All (λ (s : MemoryRow). s.id ≢ k) ms
    → All (λ (s : MemoryRow). s.id ≢ k) (update_where p f ms)
unfolding update_where
All-update_where k p f keep [] h = tt
All-update_where k p f keep (r ∷ ms) h = ground (arith, keep r, All-update_where k p f keep ms h.1)

-- An UPDATE that leaves the ids alone keeps them unique.
pub update_where-UniqueIds :
    (p : MemoryRow → Bool) (f : MemoryRow → MemoryRow)
    → ((r : MemoryRow) → (f r).id ≡ r.id)
    → (ms : List MemoryRow) → UniqueIds ms
    → UniqueIds (update_where p f ms)
unfolding update_where
update_where-UniqueIds p f keep [] u = tt
update_where-UniqueIds p f keep (r ∷ ms) u = elim (Bool-cases (p r)) [
  | inl hit ↦
      rw hit (
        rw (keep r) (All-update_where r.id p f keep ms u.0),
        update_where-UniqueIds p f keep ms u.1,
      )
  | inr miss ↦
      rw miss (All-update_where r.id p f keep ms u.0, update_where-UniqueIds p f keep ms u.1)
]

All-concat :
    (k : Uuid) (ms : List MemoryRow) (row : MemoryRow)
    → row.id ≢ k
    → All (λ (s : MemoryRow). s.id ≢ k) ms
    → All (λ (s : MemoryRow). s.id ≢ k) (ms ++ row ∷ [])
All-concat k [] row n h = (n, tt)
All-concat k (r ∷ ms) row n h = (h.0, All-concat k ms row n h.1)

-- So does an INSERT that found its id unused.
pub insert-UniqueIds :
    (row : MemoryRow) (ms : List MemoryRow)
    → any (λ (r : MemoryRow). r.id == row.id) ms ≡ false
    → UniqueIds ms
    → UniqueIds (ms ++ row ∷ [])
insert-UniqueIds row [] fresh u = (tt, tt)
insert-UniqueIds row (r ∷ ms) fresh u =
    (All-concat r.id ms row (λ e. ground arith) u.0, insert-UniqueIds row ms (ground arith) u.1)
