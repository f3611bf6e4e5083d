-- ===== src/Frontend/Palette/Tests.antt =====
-- A search in the dialog.
use supallm.Common.{String, List, [], ◌∷◌, ◌≡◌, refl, map}
use supallm.Common.Chars.{codes}
use supallm.Frontend.AvailableNodes.{NodeCategory, agent_model, chat}
use supallm.Frontend.Palette.{filtered_nodes_by_category}

searched :
    map {B = NodeCategory × List String}
      (λ g. (g.0, map (λ n. n.type) g.1))
      (filtered_nodes_by_category (codes "OPENAI"))
    ≡ (agent_model, "model-openai" ∷ [])
      ∷ (NodeCategory.agent_tools, "chat-openai-as-tool" ∷ [])
      ∷ (chat, "chat-openai" ∷ [])
      ∷ []
unfolding filtered_nodes_by_category codes
searched = refl
