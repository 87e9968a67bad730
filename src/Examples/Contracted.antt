-- ===== src/Examples/Contracted.antt =====
-- The plan for three requests as the workspace of an artifact.
use deep_forge.Base.{◌≡◌, ◌↔◌, refl, false, [], ◌∷◌, has_nul, contains}
use deep_forge.Artifact.Contract.{check_workspace}
use deep_forge.Artifact.Contract.Conv.{accepted}
use deep_forge.Artifact.Contract.Workspace.{IsWorkspace}
use deep_forge.Artifact.Contract.Complete.{check_workspace_iff}
use deep_forge.Artifact.Contract.Planned.{check_workspace-plan_workspace}
use deep_forge.Examples.Planning.{requests, three_plan, three_planned}

no_nul : ((has_nul (67 ∷ []) ≡ false) × (has_nul (65 ∷ []) ≡ false) × (has_nul (66 ∷ []) ≡ false))
unfolding has_nul contains
no_nul = (refl, refl, refl)

check_workspace-plan_workspace_example : check_workspace three_plan ≡ accepted tt
check_workspace-plan_workspace_example =
    check_workspace-plan_workspace requests three_plan (no_nul.0, (no_nul.1, (no_nul.2, tt)))
      three_planned

check_workspace_iff_example : (check_workspace three_plan ≡ accepted tt) ↔ IsWorkspace three_plan
check_workspace_iff_example = check_workspace_iff three_plan
