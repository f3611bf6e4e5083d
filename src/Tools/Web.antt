-- ===== src/Tools/Web.antt =====
-- runner/src/tools/http-tool.ts, discord-notifier-tool.ts, brave-search-tool.ts and sonar-chat-tool.ts: the tools
-- that call `fetch`.
use supallm.Common.{
  String, false, Option, none, some, List, [], ◌∷◌, ◌++◌, Result, ok, error, if◌then◌else◌, ◌>>=◌,
  Dict, set,
}
use supallm.Values.{Value, str, obj, bool, undefined, Fields, end, field, get_field, truthy}
use supallm.Nodes.{Error, message, ToolConfig, NodeEvent}
use supallm.Tools.{
  Tool, ToolRun, Created, Request, Response, Services, ◌+++◌, text_of, or_default, started,
  completed, failed, Attempt, attempt, bracket, decrypted_key,
}

-- The headers of a configuration: its own text properties.
unfoldable pub headers_of : Value → Dict String
headers_of (obj end) = []
headers_of (obj (field k v fs)) = (k, text_of v) ∷ headers_of (obj fs)
headers_of _ = []

-- `{ ...under, ...over }`
unfoldable pub merge_headers : Dict String → Dict String → Dict String
merge_headers under [] = under
merge_headers under ((k, v) ∷ over) = merge_headers (set k v under) over

abbrev pub json_header : Dict String
json_header = ("Content-Type", "application/json") ∷ []

abbrev optional_text : Value → Option String
optional_text (str s) = some s
optional_text _ = none

module _ (services : Services) where
  unfoldable pub http_request : Fields → Fields → Request
  unfolding headers_of merge_headers
  http_request config params = record {
    url = text_of (get_field "url" config);
    method = text_of (get_field "method" params);
    headers = merge_headers json_header (headers_of (get_field "headers" config));
    body = optional_text (get_field "body" params);
  }

  -- What follows a failure of `HttpTool.run`, after the events so far.
  abbrev http_failed : Tool → Fields → List NodeEvent → Error → ToolRun
  http_failed tool params reported e = record {
    reported = reported ++ failed tool (services.error_value e) ∷ [];
    result = error (message ("Failed to send HTTP request: " +++ services.error_text e));
  }

  -- The body is read for the event, and again for the result.
  unfoldable pub http_answered : Tool → Fields → Response → ToolRun
  unfolding started completed failed
  http_answered tool params response = elim (response.reads 0) [
    | error e ↦ http_failed tool params (started tool params ∷ []) e
    | ok body ↦
        let output = obj (field "status" response.status (field "body" (str body) end)) in
        let so_far = started tool params ∷ completed tool params output ∷ [] in
        elim (response.reads 1) [
          | error e ↦ http_failed tool params so_far e
          | ok text ↦ record { reported = so_far; result = ok text }
        ]
  ]

  unfoldable pub http_run : Tool → Fields → Fields → ToolRun
  unfolding http_request http_answered
  http_run tool config params = elim (services.fetch (http_request config params)) [
    | error e ↦ http_failed tool params (started tool params ∷ []) e
    | ok response ↦
        if response.is_ok
        then http_answered tool params response
        else http_failed tool params (started tool params ∷ [])
            (message ("HTTP request failed: " +++ response.status_text))
  ]

  unfoldable pub http_tool : ToolConfig → Result Created Error
  unfolding http_run truthy or_default
  http_tool c =
      let tool : Tool = record {
        id = c.id;
        name = or_default c.name "http";
        description =
            or_default c.description
              "Execute HTTP requests. You can send GET, POST, PUT, DELETE, PATCH, etc. requests to any URL.";
      } in
      if truthy (get_field "url" c.config)
      then ok (record { tool = tool; run = http_run tool c.config })
      else error (message "URL is required")

  abbrev sent : String
  sent = "Message sent successfully to Discord"

  unfoldable pub discord_attempt : Fields → Fields → Attempt
  discord_attempt config params = attempt (
      services.fetch (record {
        url = text_of (get_field "webhookUrl" config);
        method = "POST";
        headers = json_header;
        body = some (services.stringify (obj params));
      })
      >>= λ response.
          if response.is_ok
          then ok (obj (field "status" (str "success") (field "message" (str sent) end)), sent)
          else error (message ("Discord API error: " +++ response.status_text)))

  unfoldable pub discord_tool : ToolConfig → Result Created Error
  unfolding discord_attempt bracket or_default
  discord_tool c =
      let tool : Tool = record {
        id = c.id;
        name = or_default c.name "discord_notifier";
        description =
            or_default c.description
              "Send notifications to Discord using webhooks. You can send simple messages or rich embeds.";
      } in
      ok (record {
        tool = tool;
        run = λ params.
            bracket services tool
              (λ e. "Failed to send Discord notification: " +++ services.error_text e) params
              (discord_attempt c.config params);
      })

  -- `...(value && { name: value.toString() })`
  unfoldable pub search_param : String → Value → Dict String
  unfolding truthy
  search_param name value = if truthy value then (name, services.to_text value) ∷ [] else []

  unfoldable pub brave_attempt : String → String → Fields → Attempt
  unfolding search_param
  brave_attempt key endpoint params = attempt (
      services.fetch (record {
        url =
            endpoint
            +++ "?"
            +++ services.query_text (
                ("q", text_of (get_field "query" params))
                  ∷ search_param "count" (get_field "count" params)
                ++ search_param "offset" (get_field "offset" params));
        method = "GET";
        headers =
            ("Accept", "application/json")
            ∷ ("Accept-Encoding", "gzip")
            ∷ ("X-Subscription-Token", key)
            ∷ [];
        body = none;
      })
      >>= λ response.
          if response.is_ok
          then (response.jsons 0 >>= λ result. ok (result, services.stringify result))
          else error (message ("Brave Search request failed: " +++ response.status_text)))

  unfoldable pub brave_tool : ToolConfig → Result Created Error
  unfolding brave_attempt bracket decrypted_key or_default
  brave_tool c =
      decrypted_key services "Brave Search API key is required"
        (some "Brave Search API key is required") c.config
      >>= λ key.
          let tool : Tool = record {
            id = c.id;
            name = or_default c.name "brave-search";
            description =
                or_default c.description
                  "Execute web searches using the Brave Search API to get relevant search results.";
          } in
          let endpoint =
            or_default (text_of (get_field "endpoint" c.config))
              "https://api.search.brave.com/res/v1/web/search" in
          ok (record {
            tool = tool;
            run = λ params.
                bracket services tool
                  (λ e. "Failed to execute Brave Search: " +++ services.error_text e) params
                  (brave_attempt key endpoint params);
          })

  -- `value ?? false`
  abbrev or_false : Value → Value
  or_false undefined = bool false
  or_false Value.null = bool false
  or_false v = v

  unfoldable pub sonar_body : Fields → Fields → Value
  sonar_body config params = obj (
      field "model" (get_field "model" config) (
        field "messages" (get_field "messages" params) (
          field "temperature" (get_field "temperature" config) (
            field "max_tokens" (get_field "maxTokens" config) (
              field "stream" (bool false) (
                field "search_domain_filter" (get_field "searchDomainFilter" config) (
                  field "return_images" (bool false) (
                    field "return_related_questions"
                      (or_false (get_field "returnRelatedQuestions" config))
                      (field "search_recency_filter" (get_field "searchRecencyFilter" config)
                        end)))))))))

  unfoldable pub sonar_attempt : String → Fields → Fields → Attempt
  unfolding sonar_body
  sonar_attempt key config params = attempt (
      services.fetch (record {
        url = "https://api.perplexity.ai/chat/completions";
        method = "POST";
        headers = ("Content-Type", "application/json") ∷ ("Authorization", "Bearer " +++ key) ∷ [];
        body = some (services.stringify (sonar_body config params));
      })
      >>= λ response. response.jsons 0 >>= λ result.
          if response.is_ok
          then ok (result, services.stringify result)
          else error (message ("Perplexity API request failed: " +++ services.stringify result)))

  unfoldable pub sonar_tool : ToolConfig → Result Created Error
  unfolding sonar_attempt bracket decrypted_key or_default truthy
  sonar_tool c =
      if truthy (get_field "apiKey" c.config)
      then (if truthy (get_field "model" c.config)
          then (decrypted_key services "Perplexity API key is required"
                (some "Perplexity API key is required") c.config
              >>= λ key.
                  let tool : Tool = record {
                    id = c.id;
                    name = or_default c.name "sonar-search";
                    description =
                        or_default c.description
                          "Generate chat completions using Perplexity's Sonar model.";
                  } in
                  ok (record {
                    tool = tool;
                    run = λ params.
                        bracket services tool
                          (λ e.
                            "Failed to execute Sonar chat completion: " +++ services.error_text e)
                          params (sonar_attempt key c.config params);
                  }))
          else error (message "Perplexity model is required"))
      else error (message "Perplexity API key is required")
