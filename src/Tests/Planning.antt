-- ===== src/Tests/Planning.antt =====
-- Tests of the agent service's planning route.
use user_delegated_auth_serv.Base.{Comes, All, List, decimal, some, ok, [], ◌∷◌}
use user_delegated_auth_serv.Json.{str, arr, obj, nil, cons, Fields, end, field}
use user_delegated_auth_serv.AgentService.Messages.{restorable_thread_messages}
use user_delegated_auth_serv.AgentService.Parts.Public.{IsKept}
use user_delegated_auth_serv.AgentService.Messages.Restored.{
  IsUnkept, restorable_thread_messages-AreRestored,
}
use user_delegated_auth_serv.AgentService.Models.{PlanWorkflowRequest}
use user_delegated_auth_serv.AgentService.Planning.{Runtime, no_narration}
use user_delegated_auth_serv.Tests.Data.{plan_request, restart_intent}
use user_delegated_auth_serv.Tests.Agent.{open_workflow, outside}

abbrev runtime : Runtime
runtime = record {
  propose = λ context allowed_tool_names available_tool_names. ok (restart_intent ∷ []);
  uuid4_hex = λ w n. decimal n;
}

abbrev threaded_request : PlanWorkflowRequest
threaded_request = record plan_request { thread_id = some "thread-1" }

abbrev messages : List Fields
messages =
    field "role" (str "user") (field "content" (str "restart vm-7") end)
    ∷ field "role" (str "assistant") (
        field "content"
          (arr (
            cons
              (obj (
                field "type" (str "tool-call")
                  (field "toolCallId" (str "call-1") (field "tokenRef" (str "token:1") end))))
              nil))
          end)
    ∷ field "role" (str "tool") (
        field "toolCallId" (str "call-1")
          (field "content" (obj (field "access_token" (str "token") end)) end))
    ∷ []

restorable_thread_messages-AreRestored_example :
    Comes (IsUnkept outside.loads messages) (All IsKept) (
      restorable_thread_messages outside.loads (λ n. decimal n) messages open_workflow no_narration)
restorable_thread_messages-AreRestored_example =
    restorable_thread_messages-AreRestored outside.loads (λ n. decimal n) messages open_workflow
      no_narration
