-- ===== src/Frontend/NewFlow.antt =====
-- The flow that frontend/src/core/usecases/create-flow.ts makes: its name and its nodes.
mod Tests
use supallm.Common.{
  ℕ, String, Bool, true, false, Option, none, some, List, [], ◌∷◌, Result, ok, error, ◌≡◌, refl,
}
use supallm.Common.Chars.{Chars, codes}
use supallm.Values.{Fields}
use supallm.Nodes.{Error, message}
use supallm.Frontend.{Client, create_flow}
use supallm.Frontend.Names.{Draw, random_name}
use supallm.Frontend.Handles.{text, generate_handle_id}
use supallm.Frontend.Editor.{Handle, Edge}

pub record FlowNode : Type 0 where
  pub id : String
  pub type : String
  pub x : ℕ
  pub y : ℕ
  pub handles : List Handle
  pub deletable : Bool
  pub z_index : ℕ

unfoldable pub default_nodes : List FlowNode
unfolding generate_handle_id codes
default_nodes =
    record {
      id = "entrypoint-node";
      type = "entrypoint";
      x = 100;
      y = 200;
      handles =
          record {
            type = text;
            id = generate_handle_id text (codes "prompt");
            label = codes "prompt";
          }
          ∷ [];
      deletable = false;
      z_index = 1;
    }
    ∷ record {
      id = "result-node";
      type = "result";
      x = 900;
      y = 200;
      handles =
          record {
            type = text;
            id = generate_handle_id text (codes "result");
            label = codes "result";
          }
          ∷ [];
      deletable = false;
      z_index = 1;
    }
    ∷ []

pub record NewFlow : Type 0 where
  pub name : Chars
  pub project_id : String
  pub nodes : List FlowNode
  pub edges : List Edge

-- The usecase, with the service's `create`. A name that cannot be drawn is an exception.
unfoldable pub execute : Draw → Draw → (NewFlow → Result Fields Error) → String → Client → Client
unfolding random_name default_nodes create_flow
execute first second create project_id c = elim (random_name first second) [
  | none ↦ c
  | some name ↦
      create_flow
        (create
          (record { name = name; project_id = project_id; nodes = default_nodes; edges = [] }))
        c
]
