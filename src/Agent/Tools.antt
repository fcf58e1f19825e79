-- ===== src/Agent/Tools.antt =====
-- Tools as capability entries: operator/internal/app/agent/compiler/tools.go.
pub mod Shared
use flokoa.Common.{
  ℤ, pos, List, [], ◌∷◌, ◌++◌, map, Option, none, some, Text, codes, ◌==◌, is_empty, true, false,
  if◌then◌else◌,
}
use flokoa.Common.Dict.{put, put_all}
use flokoa.Agent.Capability.{lower}
use flokoa.Agent.Types.{
  ServiceRef, SecretHeader, AgentTool, EnvVar, secret, McpTransport, sse, streamable_http,
}
use flokoa.Agent.Value.{Value, bool, text, object, Doc, entries, values, Codec}
use flokoa.Agent.Merge.{headers, texts_entry}
use flokoa.Agent.Secrets.{secret_placeholder, secret_env_name}
use flokoa.Agent.Errors.{
  Result, ok, ◌>>=◌, found, permanent, dependency, no_tool_address, service_not_found,
  port_not_found,
}

abbrev pub default_ns : Text → Text → Text
default_ns ns fallback = if is_empty ns then fallback else ns

-- The name and the port number of each port of a Service, by namespace and name.
abbrev pub Services : Type 0
Services = Text → Text → Option (List (Text × ℤ))

unfoldable pub port_named : Text → List (Text × ℤ) → Option ℤ
unfolding ◌==◌
port_named name [] = none
port_named name ((n, p) ∷ ports) =
    let rest = port_named name ports in if n == name then some p else rest

abbrev pub named_port : Services → ServiceRef → Text → Result ℤ
named_port services ref ns = do
  ports ← found (dependency (service_not_found ns ref.name)) (services ns ref.name)
  found (dependency (port_not_found ns ref.port_name)) (port_named ref.port_name ports)

unfoldable pub resolve_port : Services → ServiceRef → Text → Result ℤ
unfolding port_named
resolve_port services ref ns = elim ref.port [
  | some p ↦ ok p
  | none ↦ if is_empty ref.port_name then ok (pos 80) else named_port services ref ns
]

abbrev pub default_path : McpTransport → Text
default_path sse = codes "/sse"
default_path streamable_http = codes "/mcp"

abbrev pub tool_path : AgentTool → Text
tool_path tool = if is_empty tool.path then default_path tool.transport else tool.path

-- `codec.write_integer` is the `%d` of the port.
abbrev pub service_url : Codec → ServiceRef → Text → ℤ → Text → Text
service_url codec ref ns port path =
    codes "http://"
    ++ ref.name
    ++ codes "."
    ++ ns
    ++ codes ".svc.cluster.local:"
    ++ codec.write_integer port
    ++ path

abbrev pub service_tool_url : Codec → Services → AgentTool → Result Text
service_tool_url codec services tool = do
  ref ← found (permanent (no_tool_address tool.name)) tool.service_ref
  let ns = default_ns ref.namespace tool.namespace
  port ← resolve_port services ref ns
  ok (service_url codec ref ns port (tool_path tool))

unfoldable pub resolve_tool_url : Codec → Services → AgentTool → Result Text
unfolding resolve_port
resolve_tool_url codec services tool =
    if is_empty tool.url then service_tool_url codec services tool else ok tool.url

-- Header names are ASCII.
unfoldable pub tool_secret_ref_name : Text → Text → Text
tool_secret_ref_name tool header = codes "tool-" ++ (tool ++ (codes "-" ++ map lower header))

-- The loop over the header secrets, on the map of headers.
unfoldable pub secret_headers : Text → List SecretHeader → Doc → Doc
unfolding put tool_secret_ref_name
secret_headers tool [] hs = hs
secret_headers tool (h ∷ rest) hs =
    secret_headers tool rest
      (put h.name (text (secret_placeholder (tool_secret_ref_name tool h.name))) hs)

-- The variable that the loop makes for one header secret.
abbrev pub secret_header_env : Text → SecretHeader → EnvVar
secret_header_env tool h = record {
  name = secret_env_name (tool_secret_ref_name tool h.name);
  source = secret h.secret_ref;
}

abbrev pub text_field : Text → Text → Doc
text_field k t = if is_empty t then [] else (k, text t) ∷ []

abbrev pub headers_field : Doc → Doc
headers_field [] = []
headers_field (h ∷ hs) = (codes "headers", object (entries (h ∷ hs))) ∷ []

abbrev pub mcp_fields : AgentTool → Text → Doc
mcp_fields tool url =
    (codes "url", text url)
    ∷ (codes "id", text tool.name)
    ∷ (codes "native", bool false)
    ∷ (codes "local", bool true)
    ∷ (text_field (codes "description") tool.description
        ++ headers_field
            (secret_headers tool.name tool.header_secrets (put_all (headers tool.headers) []))
        ++ texts_entry (codes "allowed_tools") tool.allowed_tools)

abbrev pub mcp_entry : AgentTool → Text → Value
mcp_entry tool url = object (entries ((codes "MCP", object (entries (mcp_fields tool url))) ∷ []))

abbrev pub prefixed : Text → Value → Value
prefixed prefix v =
    if is_empty prefix
    then v
    else object (
        entries (
          (
            codes "PrefixTools",
            object (entries ((codes "prefix", text prefix) ∷ (codes "capability", v) ∷ [])),
          )
          ∷ []))

unfoldable pub compile_tool : Codec → Services → AgentTool → Result (Value × List EnvVar)
unfolding resolve_tool_url secret_headers put_all entries values
compile_tool codec services tool = do
  url ← resolve_tool_url codec services tool
  ok (
    prefixed tool.tool_prefix (mcp_entry tool url),
    map (secret_header_env tool.name) tool.header_secrets,
  )
