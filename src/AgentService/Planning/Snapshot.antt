-- ===== src/AgentService/Planning/Snapshot.antt =====
-- services/agent_service/agent_service/app.py: what the snapshot of a thread leaves alone, and when it
-- cannot be made.
use user_delegated_auth_serv.Base.{
  String, ◌⊎◌, Exception, ◌≡◌, refl, Option, none, some, List, Result, ok, err, Result-cases, inl,
  inr,
}
use user_delegated_auth_serv.AgentService.Models.{PlanWorkflowRequest, WorkflowRecord, ThreadRecord}
use user_delegated_auth_serv.Json.{Json, Fields}
use user_delegated_auth_serv.AgentService.Messages.{Narration, restorable_thread_messages}
use user_delegated_auth_serv.AgentService.Messages.Restored.{
  IsUnkept, restorable_thread_messages-AreRestored,
}
use user_delegated_auth_serv.AgentService.Store as Stores
use user_delegated_auth_serv.AgentService.Store.{present}
use user_delegated_auth_serv.AgentService.World.{World, Outside}
use user_delegated_auth_serv.AgentService.Planning.{
  Runtime, save_thread_snapshot_for_workflow, save_snapshot, save_messages, snapshot_found,
  messages_or,
}

abbrev pub found_thread : PlanWorkflowRequest → Stores.Store → Option String → Option ThreadRecord
found_thread request store none = none
found_thread request store (some thread_id) =
    Stores.get_thread store thread_id request.user_id request.session_id request.tenant_id

-- The messages of the request or, if it has none, of the thread, cannot be kept.
abbrev pub HasUnkept :
    (String → Result Json) → PlanWorkflowRequest → Stores.Store → Exception → Type 0
HasUnkept loads request store e =
    IsUnkept loads
      (messages_or request.messages (found_thread request store (present request.thread_id))) e

module _ (outside : Outside) (runtime : Runtime) where
  -- The snapshot leaves the workflows alone, and is saved unless the messages cannot be kept.
  abbrev pub IsSnapshot : PlanWorkflowRequest → World → Result (Unit {0}) × World → Type 0
  IsSnapshot request w out =
      (w' : World) × (((w'.store).workflows) ≡ ((w.store).workflows))
      × ((out ≡ (ok tt, w'))
          ⊎ ((e : Exception) × (out ≡ (err e, w')) × HasUnkept outside.loads request w'.store e))

  abbrev Kept :
      PlanWorkflowRequest → World → Option ThreadRecord → Result (Unit {0}) × World → Type 0
  Kept request w existing out =
      (w' : World) × (((w'.store).workflows) ≡ ((w.store).workflows))
      × ((out ≡ (ok tt, w'))
          ⊎ ((e : Exception) × (out ≡ (err e, w'))
              × (w'.store ≡ w.store)
              × IsUnkept outside.loads (messages_or request.messages existing) e))

  pub save_thread_snapshot_for_workflow-IsSnapshot :
      (request : PlanWorkflowRequest) (workflow : WorkflowRecord) (token_ref : Option String)
      (narration : Narration) (w : World)
      → IsSnapshot request w
          (save_thread_snapshot_for_workflow outside runtime request workflow token_ref narration w)
  unfolding save_thread_snapshot_for_workflow Stores.save_thread
  save_thread_snapshot_for_workflow-IsSnapshot request workflow token_ref narration w =
      found (present request.thread_id) refl
    where
      after : String → Option ThreadRecord → List Fields → Result (Unit {0}) × World
      after thread_id existing messages =
          save_messages outside runtime request workflow token_ref thread_id existing messages w

      written :
          (thread_id : String) (existing : Option ThreadRecord) (messages : List Fields)
          → (after thread_id existing messages ≡ (ok tt, (after thread_id existing messages).1))
            × ((((after thread_id existing messages).1.store).workflows) ≡ ((w.store).workflows))
      written thread_id none messages = (refl, refl)
      written thread_id (some existing) messages = (refl, refl)

      saved :
          (thread_id : String) (existing : Option ThreadRecord)
          → Kept request w existing (
              save_snapshot outside runtime request workflow token_ref narration thread_id existing
                w)
      saved thread_id existing =
          let messages = messages_or request.messages existing in
          let restored =
            restorable_thread_messages outside.loads (runtime.uuid4_hex w) messages workflow
              narration in
          let outcome =
            restorable_thread_messages-AreRestored outside.loads (runtime.uuid4_hex w) messages
              workflow narration in
          elim (Result-cases restored) [
            | inl (e, p) ↦ (w, refl, inr (e, rw p refl, refl, rw p at outcome))
            | inr (kept, p) ↦
                (let (out, same) = written thread_id existing kept in
                  ((after thread_id existing kept).1, same, inl (rw p out)))
          ]

      found :
          (thread_id : Option String)
          → present request.thread_id ≡ thread_id
          → IsSnapshot request w
              (snapshot_found outside runtime request workflow token_ref narration thread_id w)
      found none q = (w, refl, inl refl)
      found (some thread_id) q =
          let existing = found_thread request w.store (some thread_id) in
          let (w', kept, out) = saved thread_id existing in
          (
            w',
            kept,
            elim out [
              | inl e ↦ inl e
              | inr refused ↦
                  (let (e, raised, same, bad) = refused in inr (e, raised, rw (q, same) bad))
            ],
          )
