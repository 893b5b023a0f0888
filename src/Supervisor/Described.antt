-- ===== src/Supervisor/Described.antt =====
-- services/supervisor/agent_service_supervisor/routes.py: what a user's metadata must say, and the persona
-- made of it.
use user_delegated_auth_serv.Base.{
  String, Option, none, some, List, Result, ok, ◌>>=◌, is_empty, if◌then◌else◌,
}
use user_delegated_auth_serv.Json.{str, Fields, end, field}
use user_delegated_auth_serv.Supervisor.Models.{
  UserPersona, Auth0UserSessionMetadataRequest, new_persona,
}
use user_delegated_auth_serv.Supervisor.Persona.{build_user_persona}
use user_delegated_auth_serv.Supervisor.Metadata.{required_metadata_string_list}

-- `{key: value} if value else {}`
abbrev claims_with : String → Option String → Fields
claims_with key none = end
claims_with key (some s) = if is_empty s then end else field key (str s) end

abbrev pub persona_of :
    Auth0UserSessionMetadataRequest → Fields → List String → List String → UserPersona
persona_of request metadata issued_scopes metadata_tools =
    build_user_persona (claims_with "name" request.user_name)
      (claims_with "email" request.user_email) metadata request.user_id request.user_email
      issued_scopes metadata_tools

unfoldable pub described :
    Auth0UserSessionMetadataRequest → Fields → Result (List String × List String × UserPersona)
unfolding required_metadata_string_list build_user_persona new_persona
described request metadata = do
  issued_scopes ← required_metadata_string_list metadata "allowed_scopes"
  metadata_tools ← required_metadata_string_list metadata "allowed_mcp_tools"
  persona ← new_persona (persona_of request metadata issued_scopes metadata_tools)
  ok (issued_scopes, metadata_tools, persona)
