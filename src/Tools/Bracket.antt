-- ===== src/Tools/Bracket.antt =====
-- The events around the run of a tool.
use supallm.Common.{
  ℕ, String, Option, none, some, List, [], ◌∷◌, ◌++◌, ◌≡◌, refl, All, Result, ok, error, inl, inr,
  Result-cases, Bool-cases, ◌≢◌, ap,
}
use mathlib.Core.Path.{transport}
use supallm.Common.Chars.{Chars}
use supallm.Values.{Value, str, Fields, truthy, get_field, field, end}
use supallm.Nodes.{
  Error, NodeEvent, agent_notification, ToolConfig, ToolType, chat_openai_as_tool, discord_notifier,
  http_request, sdk_notifier_tool, postgres_query_tool, brave_search_tool, sonar_search_tool,
  firecrawl_scraper_tool,
}
use supallm.Tools.{
  text_of, or_default, Tool, ToolRun, Created, Services, QueryResult, ◌+++◌, started, completed,
  failed, event, Attempt, bracket, decrypted_key,
}
use supallm.Tools.Web.{
  discord_tool, brave_tool, sonar_tool, discord_attempt, brave_attempt, sonar_attempt,
}
use supallm.Tools.Clients.{
  completion_tool, notifier_tool, scraper_tool, notifier_attempt, completion_attempt,
  scraper_attempt,
}
use supallm.Tools.Postgres.{
  postgres_tool, postgres_run, query_failed, query_answered, run_query, connection_message,
}
use supallm.Tools.Registry.{create, create_as}

-- The event that ends a run with a result.
abbrev pub IsClosing : Tool → Fields → Result String Error → NodeEvent → Type 0
IsClosing tool params (ok text) e = (output : Value) × (e ≡ completed tool params output)
IsClosing tool params (error x) e = (cause : Value) × (e ≡ failed tool cause)

-- One TOOL_STARTED, then notifications of the tool, then one event that says how the run ended.
pub record IsBracketed (tool : Tool) (params : Fields) (r : ToolRun) : Type 0 where
  pub notified : List NodeEvent
  pub closing : NodeEvent
  pub reported : r.reported ≡ started tool params ∷ notified ++ closing ∷ []
  pub notifies :
      All (λ e. (payload : Fields) × (e ≡ event tool agent_notification payload)) notified
  pub closes : IsClosing tool params r.result closing

abbrev AreBracketed : Result Created Error → Type 0
AreBracketed (ok t) = (params : Fields) → IsBracketed t.tool params (t.run params)
AreBracketed (error e) = Unit

module _ (services : Services) where
  bracket-IsBracketed :
      (tool : Tool) (describe : Error → String) (params : Fields) (a : Attempt)
      → All (λ e. (payload : Fields) × (e ≡ event tool agent_notification payload)) a.notified
      → IsBracketed tool params (bracket services tool describe params a)
  unfolding bracket
  bracket-IsBracketed tool describe params a h = elim (Result-cases a.ended) [
    | inl (x, e) ↦ rw e (record {
      notified = a.notified;
      closing = completed tool params x.0;
      reported = refl;
      notifies = h;
      closes = (x.0, refl);
    })
    | inr (x, e) ↦ rw e (record {
      notified = a.notified;
      closing = failed tool (services.error_value x);
      reported = refl;
      notifies = h;
      closes = (services.error_value x, refl);
    })
  ]

  notifier_attempt-notifies :
      (tool : Tool) (config params : Fields)
      → All
          (λ e. (payload : Fields) × (e ≡ event tool agent_notification payload))
          (notifier_attempt services tool config params).notified
  unfolding notifier_attempt
  notifier_attempt-notifies tool config params = (
    (
      field "outputField" (get_field "outputFieldName" config)
          (field "data" (get_field "input" params) (field "ioType" (str "any") end)),
      refl,
    ),
    tt,
  )

  module _ (variables_of : Fields → Chars → Option Value) (missing : Chars → Error) where
    query_failed-IsBracketed :
        (tool : Tool) (url : String) (ended : ℕ) (params : Fields) (e : Error)
        → IsBracketed tool params
            (query_failed services variables_of missing tool url ended params e)
    unfolding query_failed
    query_failed-IsBracketed tool url ended params e =
        elim (Result-cases (services.close url ended)) [
          | inl (u, k) ↦
              rw (query_failed, k)
                (record {
                  notified = [];
                  closing = failed tool (
                      str (
                        "The SQL query failed with the following error: "
                        +++ services.error_message e));
                  reported = refl;
                  notifies = tt;
                  closes = (
                    str (
                        "The SQL query failed with the following error: "
                        +++ services.error_message e),
                    refl,
                  );
                })
          | inr (x, k) ↦
              rw (query_failed, k)
                (record {
                  notified = [];
                  closing = failed tool (services.error_value x);
                  reported = refl;
                  notifies = tt;
                  closes = (services.error_value x, refl);
                })
        ]

    query_answered-IsBracketed :
        (tool : Tool) (url : String) (params : Fields) (r : QueryResult)
        → IsBracketed tool params (query_answered services variables_of missing tool url params r)
    unfolding query_answered
    query_answered-IsBracketed tool url params r = elim (Result-cases (services.close url 0)) [
      | inl (u, k) ↦
          rw (query_answered, k)
            (record {
              notified = [];
              closing = completed tool params r.rows;
              reported = refl;
              notifies = tt;
              closes = (r.rows, refl);
            })
      | inr (x, k) ↦ rw (query_answered, k) (query_failed-IsBracketed tool url 1 params x)
    ]

    postgres_run-IsBracketed :
        (tool : Tool) (url template : String) (params : Fields)
        → IsBracketed tool params
            (postgres_run services variables_of missing tool url template params)
    unfolding postgres_run
    postgres_run-IsBracketed tool url template params = elim (Result-cases (services.connect url)) [
      | inr (x, k) ↦
          rw (postgres_run, k)
            (record {
              notified = [];
              closing = failed tool (str (connection_message services variables_of missing x));
              reported = refl;
              notifies = tt;
              closes = (str (connection_message services variables_of missing x), refl);
            })
      | inl (u, k) ↦
          elim (Result-cases (run_query services variables_of missing url template params)) [
            | inl (r, l) ↦ rw (postgres_run, k, l) (query_answered-IsBracketed tool url params r)
            | inr (x, l) ↦ rw (postgres_run, k, l) (query_failed-IsBracketed tool url 0 params x)
          ]
    ]

    module _ (description_of : ToolConfig → String) where
      create_as-AreBracketed :
          (t : ToolType) (c : ToolConfig)
          → t ≢ http_request
          → AreBracketed (create_as services variables_of missing description_of t c)
      unfolding create_as completion_tool discord_tool notifier_tool postgres_tool brave_tool
          sonar_tool scraper_tool notifier_attempt truthy
      create_as-AreBracketed chat_openai_as_tool c h =
          elim (Bool-cases (truthy (get_field "model" c.config))) [
            | inl e ↦
                elim (Result-cases (decrypted_key services "apiKey is required" none c.config)) [
                  | inl (key, k) ↦
                      rw (completion_tool, e, k)
                        (λ params.
                          bracket-IsBracketed _
                            (λ x. "OpenAI completion failed: " +++ services.error_text x) params
                            (completion_attempt services
                              (field "modelName" (get_field "model" c.config) (
                                field "temperature" (get_field "temperature" c.config) (
                                  field "maxTokens" (get_field "maxTokens" c.config)
                                    (field "openAIApiKey" (str key) end))))
                              (or_default (text_of (get_field "developerMessage" c.config))
                                "You are an AI that performs a task based on the user's request. You must respond with the output of the task.")
                              params)
                            tt)
                  | inr (x, k) ↦ rw (completion_tool, e, k) tt
                ]
            | inr e ↦ rw (completion_tool, e) tt
          ]
      create_as-AreBracketed discord_notifier c h = λ params.
          bracket-IsBracketed _
            (λ x. "Failed to send Discord notification: " +++ services.error_text x) params
            (discord_attempt services c.config params) tt
      create_as-AreBracketed http_request c h = absurd (h refl)
      create_as-AreBracketed sdk_notifier_tool c h = λ params.
          let tool : Tool = record {
            id = c.id;
            name = or_default c.name "sdk-notifier-tool";
            description =
                or_default c.description
                  "Use this tool to send notifications or insights to the SDK. This allows real-time communication with the user interface.";
          } in
          bracket-IsBracketed tool
            (λ x. "Failed to send SDK notification: " +++ services.error_text x) params
            (notifier_attempt services tool c.config params)
            (notifier_attempt-notifies tool c.config params)
      create_as-AreBracketed postgres_query_tool c h =
          elim (Result-cases
            (decrypted_key services "Api Key (aka Database URL) is required" none c.config)) [
              | inl (key, k) ↦
                  rw (postgres_tool, k) (λ params. postgres_run-IsBracketed _ _ _ params)
              | inr (x, k) ↦ rw (postgres_tool, k) tt
            ]
      create_as-AreBracketed brave_search_tool c h =
          elim (Result-cases (
            decrypted_key services "Brave Search API key is required"
              (some "Brave Search API key is required") c.config)) [
                | inl (key, k) ↦
                    rw (brave_tool, k)
                      (λ params.
                        bracket-IsBracketed _
                          (λ x. "Failed to execute Brave Search: " +++ services.error_text x) params
                          (brave_attempt services key
                            (or_default (text_of (get_field "endpoint" c.config))
                              "https://api.search.brave.com/res/v1/web/search")
                            params)
                          tt)
                | inr (x, k) ↦ rw (brave_tool, k) tt
              ]
      create_as-AreBracketed sonar_search_tool c h =
          elim (Bool-cases (truthy (get_field "apiKey" c.config))) [
            | inl k ↦ elim (Bool-cases (truthy (get_field "model" c.config))) [
              | inl e ↦
                  elim (Result-cases (services.decrypt (text_of (get_field "apiKey" c.config)))) [
                    | inl (key, d) ↦
                        rw (sonar_tool, k, e, d)
                          (λ params.
                            bracket-IsBracketed _
                              (λ x.
                                "Failed to execute Sonar chat completion: "
                                +++ services.error_text x)
                              params (sonar_attempt services key c.config params) tt)
                    | inr (x, d) ↦ rw (sonar_tool, k, e, d) tt
                  ]
              | inr e ↦ rw (sonar_tool, k, e) tt
            ]
            | inr k ↦ rw (sonar_tool, k) tt
          ]
      create_as-AreBracketed firecrawl_scraper_tool c h =
          elim (Result-cases (
            decrypted_key services "Firecrawl API key is required"
              (some "Firecrawl API key failed to decrypt") c.config)) [
                | inl (key, k) ↦
                    rw (scraper_tool, k)
                      (λ params.
                        bracket-IsBracketed _
                          (λ x.
                            "Failed to execute Firecrawl Scraper: " +++ services.error_message x)
                          params (scraper_attempt services key c.config params) tt)
                | inr (x, k) ↦ rw (scraper_tool, k) tt
              ]

      -- Every tool that the registry makes, but for the HTTP tool, reports one TOOL_STARTED, then
      -- notifications of its own at most, and last one event: TOOL_COMPLETED where its run returns a text,
      -- and TOOL_FAILED where it returns an error.
      pub create-IsBracketed :
          (c : ToolConfig) (created : Created) (params : Fields)
          → c.type ≢ http_request
          → create services variables_of missing description_of c ≡ ok created
          → IsBracketed created.tool params (created.run params)
      unfolding create
      create-IsBracketed c created params h e =
          transport (ap AreBracketed e) (create_as-AreBracketed c.type c h) params
