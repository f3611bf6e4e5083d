-- ===== src/Tools/Clients.antt =====
-- runner/src/tools/openai.ts, sdk-notifier-tool.ts and firecrawl-scraper-tool.ts.
use supallm.Common.{String, none, some, [], ◌∷◌, Result, ok, error, ◌==◌, if◌then◌else◌, ◌>>=◌}
use supallm.Values.{Value, str, obj, arr, nil, undefined, Fields, end, field, get_field, truthy}
use supallm.Nodes.{Error, message, ToolConfig, agent_notification}
use supallm.Tools.{
  Tool, Created, Services, ◌+++◌, text_of, or_default, event, Attempt, attempt, bracket,
  decrypted_key,
}

-- `value ?? default`
unfoldable pub nullish : Value → Value → Value
nullish undefined default = default
nullish Value.null default = default
nullish v default = v

module _ (services : Services) where
  unfoldable pub completion_attempt : Fields → String → Fields → Attempt
  completion_attempt model system_prompt params = attempt (
      services.invoke model system_prompt (get_field "input" params) >>= λ content.
      ok (obj (field "content" (str (services.to_text content)) end), services.to_text content))

  unfoldable pub completion_tool : ToolConfig → Result Created Error
  unfolding completion_attempt bracket decrypted_key or_default truthy
  completion_tool c =
      if truthy (get_field "model" c.config)
      then (decrypted_key services "apiKey is required" none c.config >>= λ key.
          let tool : Tool = record { id = c.id; name = c.name; description = c.description } in
          let system_prompt =
            or_default (text_of (get_field "developerMessage" c.config))
              "You are an AI that performs a task based on the user's request. You must respond with the output of the task." in
          let model = field "modelName" (get_field "model" c.config) (
            field "temperature" (get_field "temperature" c.config) (
              field "maxTokens" (get_field "maxTokens" c.config)
                (field "openAIApiKey" (str key) end))) in
          ok (record {
            tool = tool;
            run = λ params.
                bracket services tool (λ e. "OpenAI completion failed: " +++ services.error_text e)
                  params (completion_attempt model system_prompt params);
          }))
      else error (message "model is required")

  abbrev notified_status : Value
  notified_status = obj (
      field "status" (str "success")
        (field "message" (str "Successfully sent notification to SDK") end))

  unfoldable pub notifier_attempt : Tool → Fields → Fields → Attempt
  unfolding event
  notifier_attempt tool config params = record {
    notified =
        event tool agent_notification (
          field "outputField" (get_field "outputFieldName" config)
            (field "data" (get_field "input" params) (field "ioType" (str "any") end)))
        ∷ [];
    ended = ok (notified_status, services.stringify notified_status);
  }

  unfoldable pub notifier_tool : ToolConfig → Result Created Error
  unfolding notifier_attempt bracket or_default
  notifier_tool c =
      let tool : Tool = record {
        id = c.id;
        name = or_default c.name "sdk-notifier-tool";
        description =
            or_default c.description
              "Use this tool to send notifications or insights to the SDK. This allows real-time communication with the user interface.";
      } in
      ok (record {
        tool = tool;
        run = λ params.
            bracket services tool
              (λ e. "Failed to send SDK notification: " +++ services.error_text e) params
              (notifier_attempt tool c.config params);
      })

  unfoldable pub scrape_parameters : Fields → Fields
  unfolding nullish truthy
  scrape_parameters config = field "formats" (nullish (get_field "formats" config) (arr nil)) (
      field "onlyMainContent" (nullish (get_field "onlyMainContent" config) undefined) (
        field "mobile" (nullish (get_field "mobile" config) undefined) (
          field "timeout" (nullish (get_field "timeout" config) undefined) (
            field "removeBase64Images" (nullish (get_field "removeBase64Images" config) undefined) (
              field "blockAds" (nullish (get_field "blockAds" config) undefined) (
                field "proxy" (nullish (get_field "proxy" config) undefined) (
                  field "waitFor" (nullish (get_field "waitFor" config) undefined) (
                    field "jsonOptions" (json_options (get_field "jsonOptionsPrompt" config)) (
                      field "location"
                        (obj (field "country" (nullish (get_field "country" config) undefined) end))
                        end)))))))))
    where
      json_options : Value → Value
      json_options prompt = if truthy prompt then obj (field "prompt" prompt end) else undefined

  -- The configured URL, if it is a text that is not empty, and otherwise the parameter.
  unfoldable pub scraped_url : Fields → Fields → String
  scraped_url config params =
      let configured = text_of (get_field "url" config) in
      if configured == "" then text_of (get_field "url" params) else configured

  unfoldable pub scraper_attempt : String → Fields → Fields → Attempt
  unfolding scraped_url scrape_parameters
  scraper_attempt key config params = attempt (
      let url = scraped_url config params in
      if url == ""
      then error (message "URL is required and was not provided to the tool.")
      else (services.scrape_url key url (scrape_parameters config) >>= λ result.
          ok (result, services.stringify result)))

  unfoldable pub scraper_tool : ToolConfig → Result Created Error
  unfolding scraper_attempt bracket decrypted_key or_default truthy
  scraper_tool c =
      decrypted_key services "Firecrawl API key is required"
        (some "Firecrawl API key failed to decrypt") c.config
      >>= λ key.
          let url = get_field "url" c.config in
          let described =
            if truthy url
            then ("This tool allows to scrape data available at "
                +++ text_of url
                +++ ". No parameters are required for this tool since the user already provided the URL.")
            else "This tool allows to scrape data from an URL given in the parameters. You can decide what URL to scrape based on the context." in
          let tool : Tool = record {
            id = c.id;
            name = or_default c.name "firecrawl-scraper";
            description = or_default c.description described;
          } in
          ok (record {
            tool = tool;
            run = λ params.
                bracket services tool
                  (λ e. "Failed to execute Firecrawl Scraper: " +++ services.error_message e) params
                  (scraper_attempt key c.config params);
          })
