-- ===== src/Store/Joined.antt =====
-- internal/store/repository.go: the memory store joined with the database's writer, as the
-- pipeline's repository. `reservation` is what one request holds of the writer.
use requestinspector_relay.Base.{ℕ, String, List, Option, none, some}
use requestinspector_relay.Capture.Model.{Exchange}
use requestinspector_relay.Capture.Pipeline.{RepositoryOps, Reserved, refused, unreserved, reserved}
use requestinspector_relay.Store.{Memory, save}
use requestinspector_relay.Sqlite.{Repository, Reservation}
use requestinspector_relay.Sqlite

pub record Joined : Type 0 where
  pub memory : Memory
  pub persistent : Option Repository
  pub reservation : Option Reservation

unfoldable pub save_joined : Joined → Exchange → Joined × List Exchange
save_joined r e = let (memory, evicted) = save r.memory e in (record r { memory = memory }, evicted)

unfoldable pub reserve_joined : Joined → ℕ → Joined × Reserved
reserve_joined r bytes = elim r.persistent [
  | none ↦ (r, unreserved)
  | some database ↦
      (let (database', granted) = Sqlite.reserve database bytes in
        (elim granted [
          | none ↦ (r, refused)
          | some v ↦ (record r { persistent = some database'; reservation = some v }, reserved)
        ]))
]

-- A reservation that is nil commits and cancels nothing.
unfoldable pub commit_joined : Joined → Exchange → Joined × Option String
commit_joined r e = elim r.persistent [
  | none ↦ (r, none)
  | some database ↦ (elim r.reservation [
    | none ↦ (r, none)
    | some v ↦
        (let (database', v', err) = Sqlite.commit database v e in
          (record r { persistent = some database'; reservation = some v' }, err))
  ])
]

unfoldable pub cancel_joined : Joined → Joined
cancel_joined r = elim r.persistent [
  | none ↦ r
  | some database ↦ (elim r.reservation [
    | none ↦ r
    | some v ↦
        (let (database', v') = Sqlite.cancel database v in
          record r { persistent = some database'; reservation = some v' })
  ])
]

abbrev pub repository_ops : RepositoryOps Joined
repository_ops = record {
  save = save_joined;
  reserve = reserve_joined;
  commit = commit_joined;
  cancel = cancel_joined;
}
