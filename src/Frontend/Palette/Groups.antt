-- ===== src/Frontend/Palette/Groups.antt =====
-- What stands in the groups of the dialog.
use supallm.Common.{ℕ, List, [], ◌∷◌, ◌++◌, if◌then◌else◌, ◌≤◌}
use supallm.Common.Chars.{Chars}
use supallm.Frontend.AvailableNodes.{NodeCategory, AvailableNode}
use supallm.Frontend.Palette.{category_index, same_category}

abbrev pub Groups : Type 0
Groups = List (NodeCategory × List AvailableNode)

-- What is shown of a category.
unfoldable pub group_of : NodeCategory → Groups → List AvailableNode
group_of c [] = []
group_of c ((d, ns) ∷ groups) =
    let rest = group_of c groups in if same_category d c then ns else rest

abbrev with_node : NodeCategory → AvailableNode → List AvailableNode → List AvailableNode
with_node c n ns = if same_category n.category c then ns ++ n ∷ [] else ns

-- The first index is at most what begins.
abbrev pub AtLeast : ℕ → Groups → Type 0
AtLeast i [] = Unit
AtLeast i ((d, ns) ∷ groups) = i ≤ category_index d

abbrev pub IsOrdered : Groups → Type 0
IsOrdered [] = Unit
IsOrdered ((d, ns) ∷ groups) = AtLeast (category_index d) groups × IsOrdered groups
