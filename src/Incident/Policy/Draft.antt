-- ===== src/Incident/Policy/Draft.antt =====
-- The draft of the policy is the service's policy with the changes made to it.
use ready_jlmirror.Common.{String, List, [], ◌∷◌, Option, none, some}
use ready_jlmirror.Ui.{Effect}
use ready_jlmirror.Incident.Policy.{
  Policy, Patch, patched, PolicyTab, edit, save, policy_of, update,
}

-- The changes in turn, to a policy, and to the state of the page.
unfoldable pub all_patched : List Patch → Policy → Policy
all_patched [] p = p
all_patched (patch ∷ patches) p = all_patched patches (patched patch p)

unfoldable pub edits : String → Option Policy → List Patch → PolicyTab → PolicyTab
edits tenant answer [] s = s
edits tenant answer (patch ∷ patches) s =
    edits tenant answer patches ((update tenant answer (edit patch) s).0)

-- What a click on `save` sends, which is there for the policy that is shown.
sent : String → Option Policy → PolicyTab → Option Policy → List Effect
sent tenant answer s none = []
sent tenant answer s (some p) = (update tenant answer (save p) s).1

pub shown_save : String → Option Policy → PolicyTab → List Effect
shown_save tenant answer s = sent tenant answer s (policy_of answer s)
