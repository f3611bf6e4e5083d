-- ===== src/Tools/Registry.antt =====
-- runner/src/tools/tool-registry.ts. A constructor that throws gives an error.
use supallm.Common.{String, Option, Result}
use supallm.Common.Chars.{Chars}
use supallm.Values.{Value, Fields}
use supallm.Nodes.{
  Error, ToolConfig, ToolType, chat_openai_as_tool, discord_notifier, http_request,
  sdk_notifier_tool, postgres_query_tool, brave_search_tool, sonar_search_tool,
  firecrawl_scraper_tool,
}
use supallm.Tools.{Created, Services}
use supallm.Tools.Web.{http_tool, discord_tool, brave_tool, sonar_tool}
use supallm.Tools.Clients.{completion_tool, notifier_tool, scraper_tool}
use supallm.Tools.Postgres.{postgres_tool}

module _ (services : Services) (variables_of : Fields → Chars → Option Value)
    (missing : Chars → Error) (description_of : ToolConfig → String) where
  unfoldable pub create_as : ToolType → ToolConfig → Result Created Error
  unfolding http_tool discord_tool brave_tool sonar_tool completion_tool notifier_tool scraper_tool
      postgres_tool
  create_as chat_openai_as_tool c = completion_tool services c
  create_as discord_notifier c = discord_tool services c
  create_as http_request c = http_tool services c
  create_as sdk_notifier_tool c = notifier_tool services c
  create_as postgres_query_tool c = postgres_tool services variables_of missing description_of c
  create_as brave_search_tool c = brave_tool services c
  create_as sonar_search_tool c = sonar_tool services c
  create_as firecrawl_scraper_tool c = scraper_tool services c

  unfoldable pub create : ToolConfig → Result Created Error
  unfolding create_as
  create c = create_as c.type c
